-- ===== src/Activation/Concurrent/Alone.antt =====
-- A call that runs alone.
use license_service.Prelude.{ℕ, ◌≡◌, refl, Text, ℤ}
use license_service.Xcodes.{Result, ok, err, ◌>>=◌}
use license_service.Store.Models.{Db}
use license_service.Store.Reply.{Env}
use license_service.Activation.Service.{Deps, Service}
use license_service.Activation.Slots.{evict, refuse_slot, take_slot, settle, occupy_slot}
use license_service.Activation.Handlers.{ActivateRequest, TrialStartRequest, activate_tx, ledger_tx}
use license_service.Activation.Concurrent.{
  evict_among, refuse_among, take_among, settle_among, activate_among, ledger_among,
}

abbrev pub nobody : ℕ → Db → Db
nobody n db = db

bind_assoc :
    {A B C : Type 0} (m : Result A) (f : A → Result B) (g : B → Result C)
    → ((m >>= f) >>= g) ≡ (m >>= λ a. f a >>= g)
bind_assoc (ok a) f g = refl
bind_assoc (err e) f g = refl

module _ (d : Deps) (s : Service d) (env : Env) where
  -- Where nobody commits in between, the calls are those of Activation.Handlers.
  pub among-nobody :
      ((h : Text) (req : ActivateRequest) (db : Db)
        → activate_among d s env nobody h req db ≡ activate_tx d s env h req db)
      × ((m : ℤ) (req : TrialStartRequest) (db : Db)
          → ledger_among d s env nobody m req db ≡ ledger_tx d s env m req db)
  unfolding activate_among evict_among settle_among take_among refuse_among activate_tx occupy_slot
      evict settle take_slot refuse_slot ledger_among ledger_tx
  among-nobody = (λ h req db. simp (bind_assoc), λ m req db. refl)
