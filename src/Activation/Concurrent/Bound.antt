-- ===== src/Activation/Concurrent/Bound.antt =====
-- The slots of a key under concurrent transactions: what the lock on its row is for.
use license_service.Prelude.{
  ℕ, ◌≤◌, ◌<◌, ◌≡◌, ◌≢◌, refl, str_eq_iff, Bool-cases, subst, Bool, not, Text, str_eq, str_eq_refl,
  [], ◌∷◌, ◌++◌, some, ℤ, pos_part, max, arith, inl, inr, Option-cases,
}
use license_service.Xcodes.{ok, bind-cases, ok-injective}
use license_service.Store.Models.{Db, LicenseDevice}
use license_service.Store.Rows.{first, count, modify, count-modify, count-first-none}
use license_service.Store.Sql.{append_unique}
use license_service.Store.Reply.{Env, internal}
use license_service.Store.Key.{has_hash, get_key_for_update}
use license_service.Store.Device.{
  in_key, is_slot, touched, get_device_lem, count_devices_lem, touch_device_lem, insert_device_lem,
  delete_device_lem, list_devices_by_key_hash,
}
use license_service.Store.Entitlement.{list_entitlements_by_key_hash}
use license_service.Store.Trial.{list_trials_by_fingerprint}
use license_service.Activation.Service.{Deps, Service}
use license_service.Activation.Slots.{new_slot}
use license_service.Activation.Slots.Effect.{evicted}
use license_service.Activation.Slots.Counts.{evicted-le, count-added}
use license_service.Activation.Handlers.{ActivateRequest, Activated, live_key}
use license_service.Activation.Handlers.Inversion.{live_key-ok}
use license_service.Activation.Concurrent.{
  evict_among, refuse_among, take_among, settle_among, activate_among,
}

-- While the key's row is locked, the other transactions may release slots of the key and take none.
pub record Held (h : Text) (others : ℕ → Db → Db) : Type 0 where
  pub slots :
      (n : ℕ) (db : Db)
      → 2 ≤ n
      → count (in_key h) (others n db).devices ≤ count (in_key h) db.devices
  pub device :
      (n : ℕ) (db : Db) (t : Text)
      → 2 ≤ n
      → count (is_slot h t) (others n db).devices ≤ count (is_slot h t) db.devices

-- No more slots of the key than before or than `most`, and none twice that was not.
pub record Within (h : Text) (most : ℕ) (db db' : Db) : Type 0 where
  pub slots : count (in_key h) db'.devices ≤ max (count (in_key h) db.devices) most
  pub device : (t : Text) → count (is_slot h t) db'.devices ≤ max 1 (count (is_slot h t) db.devices)

Within-trans :
    (h : Text) (most : ℕ) (a b c : Db) → Within h most a b → Within h most b c → Within h most a c
Within-trans h most a b c p q = record {
  slots = omega (arith, p.slots, q.slots);
  device = λ t. omega (arith, p.device t, q.device t);
}

Within-chain :
    (h : Text) (most : ℕ) (a b c e : Db)
    → Within h most a b
    → Within h most b c
    → Within h most c e
    → Within h most a e
Within-chain h most a b c e p q r = Within-trans h most a c e (Within-trans h most a b c p q) r

others-Within :
    (h : Text) (most : ℕ) (others : ℕ → Db → Db) (held : Held h others) (n : ℕ) (db : Db)
    → 2 ≤ n
    → Within h most db (others n db)
others-Within h most others held n db late = record {
  slots = omega (arith, held.slots n db late);
  device = λ t. omega (arith, held.device n db t late);
}

module _ (d : Deps) (s : Service d) (env : Env) (others : ℕ → Db → Db) (h : Text)
    (held : Held h others) where
  open d use {sql}

  evict_among_lem :
      (token : Text) (db : Db) {db' : Db}
      → evict_among d s env others h token db ≡ ok db'
      → db'.devices ≡ evicted h token (others 2 db).devices
  unfolding evict_among
  evict_among_lem token db {db'} e =
      ground (arith, e, delete_device_lem sql (env.up 2) h token (others 2 db))

  evict_among-Within :
      (most : ℕ) (token : Text) (db : Db) {db' : Db}
      → evict_among d s env others h token db ≡ ok db'
      → Within h most db db'
  evict_among-Within most token db {db'} e =
      let seen = (others 2 db).devices in
      let gone : db'.devices ≡ evicted h token seen = evict_among_lem token db e in
      record {
        slots =
            rw gone
              (omega (arith, evicted-le h token seen (in_key h), held.slots 2 db (omega arith)));
        device = λ t. rw gone (
            omega (arith, evicted-le h token seen (is_slot h t), held.device 2 db t (omega arith)));
      }

  refuse_among-ne-ok :
      (max_slots : ℤ) (db : Db) {db' : Db} → refuse_among d s env others h max_slots db ≢ ok db'
  unfolding refuse_among
  refuse_among-ne-ok max_slots db e = ground arith

  take_among-Within :
      (fp token : Text) (max_slots : ℤ) (db : Db) {db' : Db}
      → count (is_slot h token) db.devices ≡ 0
      → take_among d s env others h fp token max_slots db ≡ ok db'
      → Within h (pos_part max_slots) db db'
  unfolding take_among append_unique
  take_among-Within fp token max_slots db {db'} missing e =
      let row = new_slot h fp token (env.clock 0) env.stamp in
      let seen = (others 5 db).devices in
      let facts : (count (in_key h) db.devices < pos_part max_slots)
          × (db'.devices ≡ seen ++ row ∷ []) =
        ground (
          arith,
          count_devices_lem sql (env.up 4) h db,
          insert_device_lem sql (env.up 5) row (others 5 db),
          refuse_among-ne-ok max_slots db {db' = db'},
        ) in
      let grown = λ (q : LicenseDevice → Bool).
        count-added h token fp (env.clock 0) env.stamp max_slots q seen in
      record {
        slots =
            rw (facts.1, grown (in_key h), str_eq_refl h)
              (omega (arith, facts.0, held.slots 5 db (omega arith)));
        device = λ t.
            rw (facts.1, grown (is_slot h t), str_eq_refl h)
              (elim (Bool-cases (str_eq token t)) [
                | inl same ↦
                    rw (same, ← (str_eq_iff token t).0 same)
                      (omega (arith, missing, held.device 5 db token (omega arith)))
                | inr apart ↦ rw apart (omega (arith, held.device 5 db t (omega arith)))
              ]);
      }

  settle_among-Within :
      (fp token : Text) (max_slots : ℤ) (db : Db) {db' : Db}
      → settle_among d s env others h fp token max_slots db ≡ ok db'
      → Within h (pos_part max_slots) db db'
  unfolding settle_among
  settle_among-Within fp token max_slots db {db'} e =
      elim (Option-cases (first (is_slot h token) db.devices)) [
        | inl missing ↦
            let lacks = count-first-none (is_slot h token) db.devices missing in
            let seen = others 4 db in
            Within-trans h (pos_part max_slots) db seen db'
              (others-Within h (pos_part max_slots) others held 4 db (omega arith))
              (take_among-Within fp token max_slots seen
                (omega (arith, lacks, held.device 4 db token (omega arith)))
                (ground (arith, e, missing, get_device_lem sql (env.up 3) h token db)))
        | inr (dev, there) ↦
            let rebind = not (str_eq dev.fingerprint_id fp) in
            let seen = others 4 db in
            let f = touched fp (env.clock 0) rebind in
            let written : db'.devices ≡ modify (is_slot h token) f seen.devices = ground (
              arith,
              e,
              there,
              get_device_lem sql (env.up 3) h token db,
              touch_device_lem sql (env.up 4) h token fp (env.clock 0) rebind seen,
            ) in
            record {
              slots =
                  rw
                    (
                      written,
                      count-modify (in_key h) (is_slot h token) f seen.devices (λ r _. refl),
                    )
                    (omega (arith, held.slots 4 db (omega arith)));
              device = λ t.
                  rw
                    (
                      written,
                      count-modify (is_slot h t) (is_slot h token) f seen.devices (λ r _. refl),
                    )
                    (omega (arith, held.device 4 db t (omega arith)));
            }
      ]

  -- In every interleaving with transactions that release slots of the key and take none while its row
  -- is locked, a successful transaction of `Activate` leaves the key with no more slots than it had at
  -- the lock or than the bound of its row, whichever is more, and no device of it with a second slot.
  pub activate_among-Within :
      (req : ActivateRequest) (db : Db) {a : Activated} {db' : Db}
      → activate_among d s env others h req db ≡ ok (a, db')
      → (first (has_hash h) (others 1 db).keys ≡ some a.key)
        × Within h (pos_part a.key.max_slots) (others 1 db) db'
  unfolding activate_among
  activate_among-Within req db {a} {db'} e =
      let locked = others 1 db in
      bind-cases (live_key (get_key_for_update sql (env.up 1) h locked)) _ e λ k found_key e₁.
        let most = pos_part k.max_slots in
        let still = others-Within h most others held in
        bind-cases (evict_among d s env others h req.evict_device_token locked) _ e₁
          λ db₂ evicted e₂.
            bind-cases
              (settle_among d s env others h req.fingerprint_id req.device_token k.max_slots
                (others 3 db₂))
              _ e₂
              λ db₅ settled e₃.
                let db₆ = others 6 db₅ in
                let db₇ = others 7 db₆ in
                let db₈ = others 8 db₇ in
                bind-cases (internal (list_devices_by_key_hash sql (env.up 6) h db₆)) _ e₃
                  λ devices _ e₄.
                    bind-cases (internal (list_entitlements_by_key_hash sql (env.up 7) h db₇)) _ e₄
                      λ ents _ e₅.
                        bind-cases
                          (internal
                            (list_trials_by_fingerprint sql (env.up 8) req.fingerprint_id db₈))
                          _ e₅
                          λ trials _ e₆.
                            subst
                              (λ p.
                                (first (has_hash h) locked.keys ≡ some p.0.key)
                                × Within h (pos_part p.0.key.max_slots) locked p.1)
                              (ok-injective e₆)
                              (
                                (live_key-ok d s env h locked found_key).0,
                                Within-chain h most locked db₂ db₅ db₈
                                    (evict_among-Within most req.evict_device_token locked evicted)
                                    (Within-trans h most db₂ (others 3 db₂) db₅
                                      (still 3 db₂ (omega arith))
                                      (settle_among-Within req.fingerprint_id req.device_token
                                        k.max_slots (others 3 db₂) settled))
                                    (Within-chain h most db₅ db₆ db₇ db₈ (still 6 db₅ (omega arith))
                                      (still 7 db₆ (omega arith)) (still 8 db₇ (omega arith))),
                              )
