-- ===== src/Startup/Construct/Connect.antt =====
-- pkg/connect.go and NewModule of pkg/module.go: one live module in a process.
use license_service.Prelude.{
  ◌≡◌, Bool, true, false, Text, str_eq, List, [], ◌∷◌, ℕ, ◌+◌, ◌≤◌, Option, none, some,
  if◌then◌else◌, arith,
}
use license_service.Cert.Payload.{Crypto}
use license_service.Store.Rows.{count}
use license_service.Startup.Construct.{
  database, redis, Injected, Connector, Stopper, Config, NewError, ServiceRoot, Built, built,
  gave_up, new_service,
}

-- `configx.Mode`
pub data Mode : Type 0 where
  grpc module_mode unspecified : Mode
  unknown : Text → Mode

pub data ConnectError : Type 0 where
  target_required dial_failed config_required already_claimed unknown_mode : ConnectError
  module_failed : NewError → ConnectError

abbrev pub one : Bool → ℕ
one b = if b then 1 else 0

-- `dial` says whether `NewClient` gets a connection to a target, `live` whether the process has a
-- module: `moduleClaim.Claim` is refused where it has, and `Release` gives the claim back.
module _ {Db Rdb Cron : Type 0} (crypto : Crypto) (dbx : Connector database Db)
    (redisx : Connector redis Rdb) (mgr : Stopper) (cron : Option Cron) (dial : Text → Bool) where
  pub record ConnectConfig : Type 0 where
    pub mode : Mode
    pub target : Text
    pub config : Option Config
    pub opts : Injected Db Rdb Cron

  -- A client, or the handler of a module; either is registered with the caller's manager.
  pub data Connected : Type 0 where
    client : Connected
    embedded : ServiceRoot crypto dbx redisx mgr cron → Connected
    unconnected : ConnectError → Connected

  unfoldable pub connect_grpc : Text → Connected
  connect_grpc target =
      if str_eq target []
      then unconnected target_required
      else if dial target
      then client
      else unconnected dial_failed

  -- What becomes of the claim that `Connect` has made.
  unfoldable pub module_of : Built crypto dbx redisx mgr cron → Connected × Bool
  module_of (built root) = (embedded root, true)
  module_of (gave_up e stopped) = (unconnected (module_failed e), false)

  unfoldable pub connect_module : Option Config → Injected Db Rdb Cron → Bool → Connected × Bool
  connect_module none opts live = (unconnected config_required, live)
  connect_module (some cfg) opts true = (unconnected already_claimed, true)
  connect_module (some cfg) opts false = module_of (new_service crypto dbx redisx mgr cron cfg opts)

  unfoldable pub connect_in :
      Mode → Text → Option Config → Injected Db Rdb Cron → Bool → Connected × Bool
  connect_in grpc target config opts live = (connect_grpc target, live)
  connect_in module_mode target config opts live = connect_module config opts live
  connect_in unspecified target config opts live = connect_module config opts live
  connect_in (unknown m) target config opts live = (unconnected unknown_mode, live)

  -- `Connect`, with the process's claim before and after.
  unfoldable pub connect_to : ConnectConfig → Bool → Connected × Bool
  connect_to c live = connect_in c.mode c.target c.config c.opts live

  -- What calls one after another give, where no module is stopped in between.
  unfoldable pub connect_all : List ConnectConfig → Bool → List Connected × Bool
  connect_all [] live = ([], live)
  connect_all (c ∷ cs) live =
      let r = connect_to c live in let rest = connect_all cs r.1 in (r.0 ∷ rest.0, rest.1)

  -- Whether a call has made a module.
  abbrev pub is_embedded : Connected → Bool
  is_embedded (embedded root) = true
  is_embedded client = false
  is_embedded (unconnected e) = false

  -- The claim is taken by the calls that make a module and by no other, and none of these is let
  -- in while it is taken.
  abbrev Claims : Bool → Connected × Bool → Type 0
  Claims live r = one r.1 ≡ one live + one (is_embedded r.0)

  module_of-Claims : (b : Built crypto dbx redisx mgr cron) → Claims false (module_of b)
  unfolding module_of
  module_of-Claims (built root) = ground arith
  module_of-Claims (gave_up e stopped) = ground arith

  connect_module-Claims :
      (cfg : Option Config) (opts : Injected Db Rdb Cron) (live : Bool)
      → Claims live (connect_module cfg opts live)
  unfolding connect_module
  connect_module-Claims none opts true = ground arith
  connect_module-Claims none opts false = ground arith
  connect_module-Claims (some cfg) opts true = ground arith
  connect_module-Claims (some cfg) opts false =
      module_of-Claims (new_service crypto dbx redisx mgr cron cfg opts)

  connect_grpc-is_client : (target : Text) → is_embedded (connect_grpc target) ≡ false
  unfolding connect_grpc
  connect_grpc-is_client target = ground arith

  connect_in-Claims :
      (m : Mode) (target : Text) (config : Option Config) (opts : Injected Db Rdb Cron)
      (live : Bool)
      → Claims live (connect_in m target config opts live)
  unfolding connect_in
  connect_in-Claims grpc target config opts live = ground (arith, connect_grpc-is_client target)
  connect_in-Claims module_mode target config opts live = connect_module-Claims config opts live
  connect_in-Claims unspecified target config opts live = connect_module-Claims config opts live
  connect_in-Claims (unknown m) target config opts live = ground arith

  connect_all-Claims :
      (cs : List ConnectConfig) (live : Bool)
      → let r = connect_all cs live in one r.1 ≡ one live + count is_embedded r.0
  unfolding connect_all connect_to count
  connect_all-Claims [] live = omega arith
  connect_all-Claims (c ∷ cs) live =
      let r = connect_to c live in
      let step : Claims live r = connect_in-Claims c.mode c.target c.config c.opts live in
      omega (arith, step, connect_all-Claims cs r.1)

  one-le : (b : Bool) → one b ≤ 1
  one-le b = ground arith

  -- Of any calls of Connect one after another, with no module stopped in between, one at most makes
  -- a module, and none where there is one already; the claim is taken at the end exactly if it was
  -- at the start or one of the calls made a module.
  pub connect_all-one_module :
      (cs : List ConnectConfig) (live : Bool)
      → let r = connect_all cs live in
        (one live + count is_embedded r.0 ≤ 1) × (one r.1 ≡ one live + count is_embedded r.0)
  connect_all-one_module cs live =
      let claims = connect_all-Claims cs live in
      (omega (arith, claims, one-le (connect_all cs live).1), claims)
