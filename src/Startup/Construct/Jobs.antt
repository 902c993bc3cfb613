-- ===== src/Startup/Construct/Jobs.antt =====
-- The methods of internal/jobs/jobs.go, over a cron whose operations are parameters, and the
-- functional options of pkg/option.
use license_service.Prelude.{
  ◌≡◌, refl, ◌∙◌, ap, Bool, true, false, Text, List, [], ◌∷◌, ◌++◌, Option, none, some,
  if◌then◌else◌, arith,
}
use license_service.Startup.Construct.{Injected, Scheduler, new_scheduler}

-- `cron.Start`, `cron.Stop` with the wait for its jobs, and `cron.AddFunc`, which can refuse a spec.
pub record Schedules (Cron Job : Type 0) : Type 0 where
  pub start : Cron → Cron
  pub stop : Cron → Cron
  pub add_func : Text → Job → Cron → Option Cron

module _ {Cron Job : Type 0} (lib : Schedules Cron Job) where
  unfoldable pub start_scheduler : Scheduler Cron → Scheduler Cron
  start_scheduler s = if s.owns_cron then record s { cron = lib.start s.cron } else s

  unfoldable pub stop_scheduler : Scheduler Cron → Scheduler Cron
  stop_scheduler s = if s.owns_cron then record s { cron = lib.stop s.cron } else s

  -- Whether the function was added, and the scheduler.
  unfoldable pub add_job : Text → Job → Scheduler Cron → Bool × Scheduler Cron
  add_job spec job s = elim (lib.add_func spec job s.cron) [
    | none ↦ (false, s)
    | some c ↦ (true, record s { cron = c })
  ]

  -- Starts (`true`) and stops, one after another.
  abbrev run_lifecycle : List Bool → Scheduler Cron → Scheduler Cron
  run_lifecycle [] s = s
  run_lifecycle (true ∷ rest) s = run_lifecycle rest (start_scheduler s)
  run_lifecycle (false ∷ rest) s = run_lifecycle rest (stop_scheduler s)

  borrowed_stays :
      (calls : List Bool) (s : Scheduler Cron) → s.owns_cron ≡ false → run_lifecycle calls s ≡ s
  unfolding start_scheduler stop_scheduler
  borrowed_stays [] s borrowed = refl
  borrowed_stays (true ∷ rest) s borrowed =
      let still : start_scheduler s ≡ s = ground (arith, borrowed) in
      ap (run_lifecycle rest) still ∙ borrowed_stays rest s borrowed
  borrowed_stays (false ∷ rest) s borrowed =
      let still : stop_scheduler s ≡ s = ground (arith, borrowed) in
      ap (run_lifecycle rest) still ∙ borrowed_stays rest s borrowed

  -- A scheduler that is given a cron leaves it alone, however often it is started and stopped.
  borrowed_untouched :
      (injected : Cron) (built : Option (Option Cron)) (calls : List Bool) {s : Scheduler Cron}
      → new_scheduler (some injected) built ≡ some s
      → (run_lifecycle calls s).cron ≡ injected
  unfolding new_scheduler
  borrowed_untouched injected built calls {s} made =
      let borrowed : s.owns_cron ≡ false = ground (arith, made) in
      let same : s.cron ≡ injected = ground (arith, made) in
      ap (λ x. x.cron) (borrowed_stays calls s borrowed) ∙ same

-- `option.Option`, by the function that makes it.
pub data Setting (Db Rdb Cron : Type 0) : Type 0 where
  inject_db : Db → Setting Db Rdb Cron
  inject_redis : Rdb → Setting Db Rdb Cron
  inject_cron : Cron → Setting Db Rdb Cron

module _ {Db Rdb Cron : Type 0} where
  unfoldable pub set_option : Setting Db Rdb Cron → Injected Db Rdb Cron → Injected Db Rdb Cron
  set_option (inject_db r) o = record o { db = some r }
  set_option (inject_redis r) o = record o { redis = some r }
  set_option (inject_cron c) o = record o { cron = some c }

  unfoldable pub apply_to : List (Setting Db Rdb Cron) → Injected Db Rdb Cron → Injected Db Rdb Cron
  apply_to [] o = o
  apply_to (opt ∷ opts) o = apply_to opts (set_option opt o)

  -- `option.Apply`
  unfoldable pub apply : List (Setting Db Rdb Cron) → Injected Db Rdb Cron
  apply opts = apply_to opts (record { db = none; redis = none; cron = none })

  apply_to-append :
      (opts more : List (Setting Db Rdb Cron)) (o : Injected Db Rdb Cron)
      → apply_to (opts ++ more) o ≡ apply_to more (apply_to opts o)
  unfolding apply_to
  apply_to-append [] more o = refl
  apply_to-append (opt ∷ opts) more o = apply_to-append opts more (set_option opt o)

  -- The last option decides, whatever came before it.
  apply_last :
      (opts : List (Setting Db Rdb Cron)) (opt : Setting Db Rdb Cron)
      → apply (opts ++ opt ∷ []) ≡ set_option opt (apply opts)
  unfolding apply_to apply
  apply_last opts opt = apply_to-append opts (opt ∷ []) _
