-- ===== src/Activation/Handlers/Refusal.antt =====
-- The database after a refused `Activate`.
use license_service.Prelude.{◌≡◌, refl, Text, ◌∷◌, ◌++◌, some, arith, inl, inr}
use license_service.Xcodes.{Result, ok, err, Error, Result-cases}
use license_service.Store.Models.{Db}
use license_service.Store.Atomic.{transaction-err}
use license_service.Store.Reply.{Env, transaction}
use license_service.Cert.Signer.{lookup}
use license_service.Activation.Service.{Deps, Service, allow, purpose_activate}
use license_service.Activation.Handlers.{
  ActivateRequest, Activated, normalize_request_key, activate_tx, activate_reply, activate,
}
use license_service.Activation.Handlers.Success.{reply-Succeeds}

module _ (d : Deps) (s : Service d) (env : Env) where
  reply-refused :
      (h : Text) (req : ActivateRequest) (r : Result Activated) (db : Db)
      {key : d.crypto.PrivateKey} {e : Error} {db' : Db}
      → lookup s.signer.active s.signer.keys ≡ some key
      → activate_reply d s env h req (r, db) ≡ (err e, db')
      → (x : Error) × (r ≡ err x) × (db' ≡ db)
  unfolding activate_reply
  reply-refused h req (err x) db signs refused = (x, refl, ground arith)
  reply-refused h req (ok a) db signs refused =
      let (resp, replied) = reply-Succeeds d s env h req a db signs in
      absurd (ground (arith, replied))

  -- Where the signer's active key is configured, an `Activate` that ends with an error leaves the
  -- database as it was, whatever statement failed and whatever was evicted or written before.
  pub activate_refused :
      (req : ActivateRequest) (db : Db) {key : d.crypto.PrivateKey} {e : Error} {db' : Db}
      → lookup s.signer.active s.signer.keys ≡ some key
      → activate d s env req db ≡ (err e, db')
      → db' ≡ db
  unfolding activate
  activate_refused req db {e = e} {db' = db'} signs refused =
      elim (Result-cases (normalize_request_key d s env req.key req.license_key)) [
        | inr (x, malformed) ↦ ground (arith, malformed)
        | inl (h, accepted) ↦
            elim (Result-cases
              (allow env s.window purpose_activate (h ++ b':' ∷ req.device_token))) [
                | inr (x, denied) ↦ ground (arith, accepted, denied)
                | inl (u, admitted) ↦
                    let body = transaction (env.up 0) (env.up 9) (activate_tx d s env h req) db in
                    let replied : activate_reply d s env h req body ≡ (err e, db') =
                      ground (arith, accepted, admitted) in
                    let (x, failed, same) = reply-refused h req body.0 body.1 signs replied in
                    let rolled_back : body ≡ (err x, db') = ground (arith, failed, same) in
                    transaction-err (env.up 0) (env.up 9) (activate_tx d s env h req) db x
                      rolled_back
              ]
      ]
