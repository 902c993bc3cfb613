-- ===== src/System/Roster/Refines.antt =====
-- Activate, Deactivate and KickDevice take steps of every key's roster.
use license_service.Prelude.{
  ℕ, ◌+◌, ◌≤◌, ◌≡◌, refl, Bool, true, false, not, ◌||◌, Text, str_eq, str_eq_iff, str_eq_refl, List,
  [], ◌∷◌, ◌++◌, leb, if◌then◌else◌, ℤ, arith, inl, inr, Bool-cases, pos_part, ap, ◌∙◌, sym, subst,
}
use mathlib.Core.Option.{none, some}
use license_service.Xcodes.{ok, bind-cases, ok-injective}
use license_service.Store.Models.{Db, LicenseDevice, LicenseKey, Time}
use license_service.Store.Atomic.{transaction-keeps, guard-keeps}
use license_service.Store.Reply.{Env, internal}
use license_service.Store.Rows.{
  count, remove, count-remove_apart, count-modify, count-first-none, count-append, first,
}
use license_service.Store.Key.{get_key_by_key_hash, has_hash}
use license_service.Store.Device.{
  in_key, is_slot, touched, count_devices_by_key_hash, delete_device, delete_device_lem,
}
use license_service.Activation.Service.{Deps, Service, allow, purpose_activate}
use license_service.Activation.Slots.{new_slot}
use license_service.Activation.Slots.Effect.{Occupied, refreshed, added, evicted}
use license_service.Activation.Slots.Counts.{IsDistinct, Occupied-other_key}
use license_service.Activation.Handlers.{
  ActivateRequest, Activated, DeactivateRequest, normalize_request_key, activate_tx, activate,
  advisory, deactivate_tx, deactivate,
}
use license_service.Activation.Handlers.Inversion.{Activates, activate_tx-Activates}
use license_service.Admin.Scope.{Caller, require_platform_scope}
use license_service.Admin.Keys.{as_operator}
use license_service.Admin.View.{resolve_key}
use license_service.Admin.Devices.{kick_device_tx, kick_device}
use license_service.System.Client.{activate_reply-after}
use license_service.System.Roster.{Roster, SlotSteps, rest, step, occupy, roster, removed-release}

steps-then :
    {slots : ℕ} {a b c : Roster} → SlotSteps slots a b → SlotSteps slots b c → SlotSteps slots a c
steps-then {slots} {a} p (rest c same) = subst (SlotSteps slots a) same p
steps-then p (step c c' q s) = step c c' (steps-then p q) s

-- The rows of another key stay as they are.
same_roster :
    {slots : ℕ} (g : Text) (ds ds' : List LicenseDevice)
    → ((u : Text) → count (is_slot g u) ds' ≡ count (is_slot g u) ds)
    → count (in_key g) ds' ≡ count (in_key g) ds
    → SlotSteps slots (roster g ds) (roster g ds')
same_roster g ds ds' slots used =
    rest (roster g ds') (λ i. record { holds = λ u. leb 1 (sym (slots u) i); used = sym used i })

no_steps :
    {slots : ℕ} (g : Text) (ds : List LicenseDevice) → SlotSteps slots (roster g ds) (roster g ds)
no_steps g ds = rest (roster g ds) refl

removed-SlotSteps :
    {slots : ℕ} (g h t : Text) (ds : List LicenseDevice)
    → IsDistinct ds
    → SlotSteps slots (roster g ds) (roster g (remove (is_slot h t) ds))
removed-SlotSteps g h t ds distinct = elim (Bool-cases (str_eq h g)) [
  | inl same ↦
      rw ((str_eq_iff h g).0 same)
        (step (roster g ds) _ (no_steps g ds) (removed-release g t ds distinct))
  | inr apart ↦
      same_roster g ds _
        (λ u.
          count-remove_apart (is_slot g u) (is_slot h t) ds
            (λ d e. ground (arith, e, apart, str_eq_iff d.key_hash h)))
        (count-remove_apart (in_key g) (is_slot h t) ds
          (λ d e. ground (arith, e, apart, str_eq_iff d.key_hash h)))
]

evicted-SlotSteps :
    {slots : ℕ} (g h t : Text) (ds : List LicenseDevice)
    → IsDistinct ds
    → SlotSteps slots (roster g ds) (roster g (evicted h t ds))
evicted-SlotSteps {slots} g h t ds distinct =
    elim (str_eq t [])
      as (λ b.
        SlotSteps slots (roster g ds) (roster g (if b then ds else remove (is_slot h t) ds))) [
          | true ↦ no_steps g ds
          | false ↦ removed-SlotSteps g h t ds distinct
        ]

module _ (h token fp : Text) (now stamp : Time) (max_slots : ℤ) {slots : ℕ} where
  own-SlotSteps :
      {ds ds' : List LicenseDevice}
      → pos_part max_slots ≤ slots
      → Occupied h token fp now stamp max_slots ds ds'
      → SlotSteps slots (roster h ds) (roster h ds')
  unfolding count new_slot
  own-SlotSteps {ds} {ds'} fits (refreshed d held e) =
      let f = touched fp now (not (str_eq d.fingerprint_id fp)) in
      same_roster h ds ds'
        (λ u. rw e (count-modify (is_slot h u) (is_slot h token) f ds (λ r _. refl)))
        (rw e (count-modify (in_key h) (is_slot h token) f ds (λ r _. refl)))
  own-SlotSteps {ds} {ds'} fits (added missing room e) =
      let slot = new_slot h fp token now stamp in
      let one = λ (q : LicenseDevice → Bool). count-append q ds (slot ∷ []) in
      step (roster h ds) (roster h ds') (no_steps h ds) (
        occupy token (rw (count-first-none (is_slot h token) ds missing) refl)
          (omega (arith, room, fits))
          (λ u.
            rw (e, one (is_slot h u), str_eq_refl h)
              (elim (str_eq token u)
                as (λ b.
                  leb 1 (count (is_slot h u) ds + ((if b then 1 else 0) + 0))
                  ≡ (b || leb 1 (count (is_slot h u) ds))) [
                    | true ↦ ground arith
                    | false ↦ ground arith
                  ]))
          (rw (e, one (in_key h), str_eq_refl h) (omega arith)))

  other-SlotSteps :
      (g : Text) {ds ds' : List LicenseDevice}
      → Occupied h token fp now stamp max_slots ds ds'
      → str_eq h g ≡ false
      → SlotSteps slots (roster g ds) (roster g ds')
  other-SlotSteps g {ds} {ds'} occ apart =
      same_roster g ds ds'
        (λ u. (Occupied-other_key h token fp now stamp max_slots g u occ apart).1)
        (Occupied-other_key h token fp now stamp max_slots g token occ apart).0

  Occupied-SlotSteps :
      (g : Text) {ds ds' : List LicenseDevice}
      → ((h ≡ g) → pos_part max_slots ≤ slots)
      → Occupied h token fp now stamp max_slots ds ds'
      → SlotSteps slots (roster g ds) (roster g ds')
  Occupied-SlotSteps g {ds} {ds'} fits occ = elim (Bool-cases (str_eq h g)) [
    | inl same ↦
        let here = (str_eq_iff h g).0 same in
        subst (λ k. SlotSteps slots (roster k ds) (roster k ds')) here
          (own-SlotSteps (fits here) occ)
    | inr apart ↦ other-SlotSteps g occ apart
  ]

-- The slots that the key's row grants.
abbrev pub capacity : Text → Db → ℕ
capacity g db = elim (first (has_hash g) db.keys) [ none ↦ 0 | some k ↦ pos_part k.max_slots ]

granted-capacity :
    (g : Text) (db : Db) {k : LicenseKey}
    → first (has_hash g) db.keys ≡ some k
    → pos_part k.max_slots ≤ capacity g db
granted-capacity g db e = rw (capacity, e) (omega arith)

-- What a database is to the clients of a key, after some steps.
abbrev pub Stepped : Text → Db → Db → Type 0
Stepped g db db' = SlotSteps (capacity g db) (roster g db.devices) (roster g db'.devices)

module _ (d : Deps) (s : Service d) (env : Env) (g : Text) where
  open d use {sql}

  deleted-SlotSteps :
      (h token : Text) (db db₁ : Db) {db' : Db} (up : Bool)
      → internal (delete_device sql up h token db) ≡ ok db₁
      → db₁ ≡ db'
      → IsDistinct db.devices
      → Stepped g db db'
  deleted-SlotSteps h token db db₁ up deleted same distinct =
      let removed : db₁ ≡ record db { devices = remove (is_slot h token) db.devices } =
        ground (arith, deleted, delete_device_lem sql up h token db) in
      subst (Stepped g db) (sym removed ∙ same) (removed-SlotSteps g h token db.devices distinct)

  activate_tx-SlotSteps :
      (h : Text) (req : ActivateRequest) (db : Db) (a : Activated) (db' : Db)
      → IsDistinct db.devices
      → activate_tx d s env h req db ≡ ok (a, db')
      → Stepped g db db'
  activate_tx-SlotSteps h req db a db' distinct e =
      let did : Activates d s env h req a db db' = activate_tx-Activates d s env h req db e in
      steps-then (evicted-SlotSteps g h req.evict_device_token db.devices distinct) (
        Occupied-SlotSteps h req.device_token req.fingerprint_id (env.clock 0) env.stamp
          a.key.max_slots g
          (λ here.
            granted-capacity g db
              (subst (λ k. first (has_hash k) db.keys ≡ some a.key) here did.key_row))
          did.occupied)

  activate-SlotSteps :
      (req : ActivateRequest) (db : Db)
      → IsDistinct db.devices
      → Stepped g db (activate d s env req db).1
  unfolding activate
  activate-SlotSteps req db distinct =
      let start = no_steps g db.devices in
      guard-keeps (Stepped g db) (normalize_request_key d s env req.key req.license_key) _ db start
        λ h.
          guard-keeps (Stepped g db)
            (allow env s.window purpose_activate (h ++ b':' ∷ req.device_token)) _ db start
            λ _. subst (Stepped g db) (sym (activate_reply-after d s env h req _)) (
              transaction-keeps (Stepped g db) (env.up 0) (env.up 9) (activate_tx d s env h req) db
                start λ a db' e. activate_tx-SlotSteps h req db a db' distinct e)

  deactivate_tx-SlotSteps :
      (h token : Text) (db : Db) (released : Bool) (db' : Db)
      → IsDistinct db.devices
      → deactivate_tx d s env h token db ≡ ok (released, db')
      → Stepped g db db'
  unfolding deactivate_tx
  deactivate_tx-SlotSteps h token db released db' distinct e =
      bind-cases (advisory d s env (get_key_by_key_hash sql (env.up 1) h db)) _ e λ _ _ e₁.
        bind-cases (internal (count_devices_by_key_hash sql (env.up 2) h db)) _ e₁ λ before _ e₂.
          bind-cases (internal (delete_device sql (env.up 3) h token db)) _ e₂ λ db₁ deleted e₃.
            bind-cases (internal (count_devices_by_key_hash sql (env.up 4) h db₁)) _ e₃
              λ after _ e₄.
                deleted-SlotSteps h token db db₁ (env.up 3) deleted
                  (ap (λ r. r.1) (ok-injective e₄)) distinct

  deactivate-SlotSteps :
      (req : DeactivateRequest) (db : Db)
      → IsDistinct db.devices
      → Stepped g db (deactivate d s env req db).1
  unfolding deactivate
  deactivate-SlotSteps req db distinct =
      let start = no_steps g db.devices in
      guard-keeps (Stepped g db) (normalize_request_key d s env req.key req.license_key) _ db start
        λ h.
          guard-keeps (Stepped g db)
            (allow env s.window purpose_activate (h ++ b':' ∷ req.device_token)) _ db start
            λ _.
              transaction-keeps (Stepped g db) (env.up 0) (env.up 5)
                (deactivate_tx d s env h req.device_token) db start
                λ released db' e.
                  deactivate_tx-SlotSteps h req.device_token db released db' distinct e

  kick_device_tx-SlotSteps :
      (id token : Text) (db : Db) {kicked : Bool} {db' : Db}
      → IsDistinct db.devices
      → kick_device_tx d env id token db ≡ ok (kicked, db')
      → Stepped g db db'
  unfolding kick_device_tx
  kick_device_tx-SlotSteps id token db distinct e =
      bind-cases (resolve_key sql (env.up 1) id db) _ e λ k _ e₁.
        bind-cases (internal (count_devices_by_key_hash sql (env.up 2) k.key_hash db)) _ e₁
          λ before _ e₂.
            bind-cases (internal (delete_device sql (env.up 3) k.key_hash token db)) _ e₂
              λ db₁ deleted e₃.
                bind-cases (internal (count_devices_by_key_hash sql (env.up 4) k.key_hash db₁)) _ e₃
                  λ after _ e₄.
                    deleted-SlotSteps k.key_hash token db db₁ (env.up 3) deleted
                      (ap (λ r. r.1) (ok-injective e₄)) distinct

  kick_device-SlotSteps :
      (c : Caller) (id token : Text) (db : Db)
      → IsDistinct db.devices
      → Stepped g db (kick_device d env c id token db).1
  unfolding kick_device as_operator
  kick_device-SlotSteps c id token db distinct =
      let start = no_steps g db.devices in
      guard-keeps (Stepped g db) (require_platform_scope c) _ db start λ _.
        transaction-keeps (Stepped g db) (env.up 0) (env.up 9) (kick_device_tx d env id token) db
          start λ kicked db' e. kick_device_tx-SlotSteps id token db distinct e

  -- In a database where no two devices share a slot, `Activate`, `Deactivate` and `KickDevice` each
  -- take every key's roster by steps only: a device releases its slot, or a device that holds none
  -- takes one while fewer are used than the key's row grants.
  pub slots-refine :
      (db : Db)
      → IsDistinct db.devices
      → ((req : ActivateRequest) → Stepped g db (activate d s env req db).1)
        × ((req : DeactivateRequest) → Stepped g db (deactivate d s env req db).1)
        × ((c : Caller) (id token : Text) → Stepped g db (kick_device d env c id token db).1)
  slots-refine db distinct = (
    λ req. activate-SlotSteps req db distinct,
    λ req. deactivate-SlotSteps req db distinct,
    λ c id token. kick_device-SlotSteps c id token db distinct,
  )
