-- ===== src/System/Releases.antt =====
-- Deactivate and KickDevice only release slots, so that they may run beside an Activate.
use license_service.Prelude.{ℕ, ◌≤◌, ◌≡◌, ap, subst, Bool, Text, List, [], ◌∷◌, ◌++◌, arith}
use license_service.Xcodes.{ok, bind-cases, ok-injective}
use license_service.Store.Models.{Db, LicenseDevice}
use license_service.Store.Atomic.{transaction-keeps, guard-keeps}
use license_service.Store.Reply.{Env, internal}
use license_service.Store.Rows.{count, remove, count-remove_le}
use license_service.Store.Key.{get_key_by_key_hash}
use license_service.Store.Device.{
  in_key, is_slot, count_devices_by_key_hash, delete_device, delete_device_lem,
}
use license_service.Activation.Service.{Deps, Service, allow, purpose_activate}
use license_service.Activation.Handlers.{
  DeactivateRequest, normalize_request_key, advisory, deactivate_tx, deactivate,
}
use license_service.Activation.Concurrent.Bound.{Held}
use license_service.Admin.Scope.{Caller, require_platform_scope}
use license_service.Admin.Keys.{as_operator}
use license_service.Admin.View.{resolve_key}
use license_service.Admin.Devices.{kick_device_tx, kick_device}

-- No more slots by any test.
abbrev Fewer : Db → Db → Type 0
Fewer db db' = (q : LicenseDevice → Bool) → count q db'.devices ≤ count q db.devices

module _ (d : Deps) (s : Service d) (env : Env) where
  open d use {sql}

  deleted-Fewer :
      (up : Bool) (h token : Text) (db : Db) {db' : Db}
      → internal (delete_device sql up h token db) ≡ ok db'
      → Fewer db db'
  deleted-Fewer up h token db {db'} e =
      let same : db' ≡ record db { devices = remove (is_slot h token) db.devices } =
        ground (arith, e, delete_device_lem sql up h token db) in
      λ q. rw same (count-remove_le q (is_slot h token) db.devices)

  deactivate_tx-Fewer :
      (h token : Text) (db : Db) (released : Bool) (db' : Db)
      → deactivate_tx d s env h token db ≡ ok (released, db')
      → Fewer db db'
  unfolding deactivate_tx
  deactivate_tx-Fewer h token db released db' e =
      bind-cases (advisory d s env (get_key_by_key_hash sql (env.up 1) h db)) _ e λ _ _ e₁.
        bind-cases (internal (count_devices_by_key_hash sql (env.up 2) h db)) _ e₁ λ before _ e₂.
          bind-cases (internal (delete_device sql (env.up 3) h token db)) _ e₂ λ db₁ deleted e₃.
            bind-cases (internal (count_devices_by_key_hash sql (env.up 4) h db₁)) _ e₃
              λ after _ e₄.
                subst (Fewer db) (ap (λ r. r.1) (ok-injective e₄))
                  (deleted-Fewer (env.up 3) h token db deleted)

  pub deactivate-Fewer :
      (req : DeactivateRequest) (db : Db) → Fewer db (deactivate d s env req db).1
  unfolding deactivate
  deactivate-Fewer req db =
      let start : Fewer db db = λ q. omega arith in
      guard-keeps (Fewer db) (normalize_request_key d s env req.key req.license_key) _ db start λ h.
        guard-keeps (Fewer db) (allow env s.window purpose_activate (h ++ b':' ∷ req.device_token))
          _ db start
          λ _.
            transaction-keeps (Fewer db) (env.up 0) (env.up 5)
              (deactivate_tx d s env h req.device_token) db start
              (deactivate_tx-Fewer h req.device_token db)

  kick_device_tx-Fewer :
      (id token : Text) (db : Db) (kicked : Bool) (db' : Db)
      → kick_device_tx d env id token db ≡ ok (kicked, db')
      → Fewer db db'
  unfolding kick_device_tx
  kick_device_tx-Fewer id token db kicked db' e =
      bind-cases (resolve_key sql (env.up 1) id db) _ e λ k _ e₁.
        bind-cases (internal (count_devices_by_key_hash sql (env.up 2) k.key_hash db)) _ e₁
          λ before _ e₂.
            bind-cases (internal (delete_device sql (env.up 3) k.key_hash token db)) _ e₂
              λ db₁ deleted e₃.
                bind-cases (internal (count_devices_by_key_hash sql (env.up 4) k.key_hash db₁)) _ e₃
                  λ after _ e₄.
                    subst (Fewer db) (ap (λ r. r.1) (ok-injective e₄))
                      (deleted-Fewer (env.up 3) k.key_hash token db deleted)

  pub kick_device-Fewer :
      (c : Caller) (id token : Text) (db : Db) → Fewer db (kick_device d env c id token db).1
  unfolding kick_device as_operator
  kick_device-Fewer c id token db =
      let start : Fewer db db = λ q. omega arith in
      guard-keeps (Fewer db) (require_platform_scope c) _ db start λ _.
        transaction-keeps (Fewer db) (env.up 0) (env.up 9) (kick_device_tx d env id token) db start
          (kick_device_tx-Fewer id token db)

-- A call that another client or an operator makes meanwhile.
pub data Release (d : Deps) (s : Service d) : Type 0 where
  deactivates : Env → DeactivateRequest → Release d s
  kicks : Env → Caller → Text → Text → Release d s

module _ (d : Deps) (s : Service d) where
  abbrev pub released : Release d s → Db → Db
  released (deactivates env req) db = (deactivate d s env req db).1
  released (kicks env c id token) db = (kick_device d env c id token db).1

  unfoldable pub releases : List (Release d s) → Db → Db
  releases [] db = db
  releases (r ∷ rs) db = releases rs (released r db)

  released-Fewer : (r : Release d s) (db : Db) → Fewer db (released r db)
  released-Fewer (deactivates env req) db = deactivate-Fewer d s env req db
  released-Fewer (kicks env c id token) db = kick_device-Fewer d s env c id token db

  releases-Fewer : (rs : List (Release d s)) (db : Db) → Fewer db (releases rs db)
  unfolding releases
  releases-Fewer [] db q = omega arith
  releases-Fewer (r ∷ rs) db q =
      omega (arith, released-Fewer r db q, releases-Fewer rs (released r db) q)

  pub releases-Held :
      (h : Text) (schedule : ℕ → List (Release d s)) → Held h (λ n. releases (schedule n))
  releases-Held h schedule = record {
    slots = λ n db _. releases-Fewer (schedule n) db (in_key h);
    device = λ n db t _. releases-Fewer (schedule n) db (is_slot h t);
  }
