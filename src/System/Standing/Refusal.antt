-- ===== src/System/Standing/Refusal.antt =====
-- Activate and TrialStart with a revoked key.
use license_service.Prelude.{
  ℕ, ◌≡◌, refl, Bool, true, false, Text, List, [], ◌∷◌, ◌++◌, has_prefix, arith, ℤ, inl, inr,
  Bool-cases,
}
use license_service.Xcodes.{
  ◌>>=◌, unwrapped, Result, Result-cases, Error, ok, err, plain, Code, key_revoked, bad_key_format,
}
use license_service.Store.Models.{Db}
use license_service.Store.Rows.{keep}
use license_service.Store.Reply.{Env, transaction}
use license_service.Store.Key.{get_key_for_update, get_key_for_update_lem}
use license_service.Activation.Keys.{
  module_from_wire, normalize_key, trim_space, has_key_shape, drop_spaces,
}
use license_service.Activation.Service.{Deps, Service, allow, purpose_activate, purpose_trial}
use license_service.Activation.Handlers.{
  live_key, ActivateRequest, TrialStartRequest, normalize_request_key, first_key, activate_tx,
  activate_reply, activate, trial_key_tx, trial_tx, trial_reply, trial_start,
}
use license_service.System.Standing.{Banned}

unkeyed : normalize_key [] ≡ err (plain bad_key_format)
unfolding normalize_key trim_space has_key_shape drop_spaces keep has_prefix
unkeyed = refl

-- The error of a keyed call, given whether it is admitted, and whether its BEGIN and its read of the
-- key's row are carried out.
abbrev pub refusal : {A : Type 0} → Result A → Bool → Bool → Error
refusal (err x) begins locks = x
refusal (ok _) false locks = unwrapped
refusal (ok _) true false = plain Code.internal
refusal (ok _) true true = plain key_revoked

module _ {A B : Type 0} (u : A) (begins locks commits : Bool) where
  transaction-refusal :
      (body : Db → Result (B × Db)) (db : Db)
      → body db ≡ err (refusal (ok u) true locks)
      → transaction begins commits body db ≡ (err (refusal (ok u) begins locks), db)
  transaction-refusal body db refused = elim (Bool-cases begins) [
    | inl begun ↦ rw (begun, refused) refl
    | inr lost ↦ rw lost refl
  ]

module _ (d : Deps) (s : Service d) (env : Env) where
  open d use {sql}

  live_key-Banned :
      (up : Bool) (h : Text) (db : Db)
      → Banned h db
      → live_key (get_key_for_update sql up h db) ≡ err (refusal (ok tt) true up)
  unfolding live_key
  live_key-Banned true h db (k, row, banned) = ground (arith, get_key_for_update_lem sql true h db)
  live_key-Banned false h db banned = ground (arith, get_key_for_update_lem sql false h db)

  activate_tx-Banned :
      (h : Text) (req : ActivateRequest) (db : Db)
      → Banned h db
      → activate_tx d s env h req db ≡ err (refusal (ok tt) true (env.up 1))
  unfolding activate_tx
  activate_tx-Banned h req db banned = rw (live_key-Banned (env.up 1) h db banned) refl

  pub activate-Banned :
      (h : Text) (req : ActivateRequest) (db : Db)
      → normalize_request_key d s env req.key req.license_key ≡ ok h
      → Banned h db
      → activate d s env req db ≡ (
        err (
            refusal
              (allow env s.window purpose_activate (h ++ b':' ∷ req.device_token))
              (env.up 0)
              (env.up 1)),
        db,
      )
  unfolding activate activate_reply
  activate-Banned h req db accepted banned =
      let body =
        transaction-refusal tt (env.up 0) (env.up 1) (env.up 9) (activate_tx d s env h req) db
          (activate_tx-Banned h req db banned) in
      elim (Result-cases (allow env s.window purpose_activate (h ++ b':' ∷ req.device_token))) [
        | inr (x, denied) ↦ ground (arith, accepted, denied)
        | inl (u, admitted) ↦ ground (arith, accepted, admitted, body)
      ]

  trial_key_tx-Banned :
      (h : Text) (raw : List ℕ) (m : ℤ) (req : TrialStartRequest) (db : Db)
      → normalize_request_key d s env raw [] ≡ ok h
      → Banned h db
      → trial_key_tx d s env raw m req db ≡ err (refusal (ok tt) true (env.up 1))
  unfolding trial_key_tx normalize_request_key first_key
  trial_key_tx-Banned h [] m req db accepted banned = absurd (ground (arith, unkeyed, accepted))
  trial_key_tx-Banned h (c ∷ raw) m req db accepted banned =
      rw (accepted, live_key-Banned (env.up 1) h db banned) refl

  trial_tx-Banned :
      (h : Text) (m : ℤ) (req : TrialStartRequest) (db : Db)
      → normalize_request_key d s env req.license_key [] ≡ ok h
      → Banned h db
      → trial_tx d s env m req db ≡ err (refusal (ok tt) true (env.up 1))
  unfolding trial_tx
  trial_tx-Banned h m req db accepted banned =
      rw (trial_key_tx-Banned h req.license_key m req db accepted banned) refl

  -- What a trial meets before its transaction.
  abbrev pub trial_admission : TrialStartRequest → Result (Unit {0})
  trial_admission req = do
    _ ← module_from_wire req.module_name
    allow env s.window purpose_trial (req.fingerprint_id ++ b':' ∷ req.device_token)

  pub trial_start-Banned :
      (h : Text) (req : TrialStartRequest) (db : Db)
      → normalize_request_key d s env req.license_key [] ≡ ok h
      → Banned h db
      → trial_start d s env req db ≡ (err (refusal (trial_admission req) (env.up 0) (env.up 1)), db)
  unfolding trial_start trial_reply
  trial_start-Banned h req db accepted banned =
      elim (Result-cases (module_from_wire req.module_name)) [
        | inr (x, unknown) ↦ ground (arith, unknown)
        | inl (m, known) ↦
            let body =
              transaction-refusal tt (env.up 0) (env.up 1) (env.up 10) (trial_tx d s env m req) db
                (trial_tx-Banned h m req db accepted banned) in
            elim (Result-cases
              (allow env s.window purpose_trial (req.fingerprint_id ++ b':' ∷ req.device_token))) [
                | inr (x, denied) ↦ ground (arith, known, denied)
                | inl (u, admitted) ↦ ground (arith, known, admitted, body)
              ]
      ]
