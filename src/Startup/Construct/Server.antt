-- ===== src/Startup/Construct/Server.antt =====
-- pkg/server.go: NewServer as far as it builds and gives up, Start and Stop.
use license_service.Prelude.{◌≡◌, Bool, true, false, ◌&&◌, Option, List}
use license_service.Cert.Payload.{Crypto}
use license_service.Startup.Construct.{
  database, redis, Component, Connector, Stopper, Config, Injected, NewError, ServiceRoot, Built,
  built, gave_up, new_service,
}

module _ {Db Rdb Cron : Type 0} (crypto : Crypto) (dbx : Connector database Db)
    (redisx : Connector redis Rdb) (mgr : Stopper) (cron : Option Cron) where
  -- A server over a service; or no server, with what was stopped or what was left open.
  pub data NewServer : Type 0 where
    listening : ServiceRoot crypto dbx redisx mgr cron → NewServer
    no_service : NewError → List Component → NewServer
    no_validator : List Component → NewServer

  -- `validates` says whether `protovalidate.New` succeeds. Where it fails, the service stays.
  unfoldable pub with_validator : Bool → Built crypto dbx redisx mgr cron → NewServer
  with_validator validates (gave_up e stopped) = no_service e stopped
  with_validator true (built root) = listening root
  with_validator false (built root) = no_validator root.manager

  unfoldable pub new_server : Bool → Config → Injected Db Rdb Cron → NewServer
  new_server validates cfg o =
      with_validator validates (new_service crypto dbx redisx mgr cron cfg o)

-- What the server drives: the handler with the service behind it, and the gRPC server. The Boolean
-- says whether a call succeeds; a start that fails has stopped again what it had started.
pub record Driven (S : Type 0) : Type 0 where
  pub start : S → Bool × S
  pub stop : S → Bool × S
  pub is_up : S → Bool
  pub start_lem : (s : S) → is_up (start s).1 ≡ (start s).0
  pub stop_lem : (s : S) → is_up (stop s).1 ≡ false

module _ {H G : Type 0} (hdl : Driven H) (grpc : Driven G) where
  -- `Start`, on how the handler and the gRPC server have started.
  unfoldable pub roll_back : Bool × H → Bool × G → Bool × H × G
  roll_back (ok, h) (true, g) = (true, h, g)
  roll_back (ok, h) (false, g) = (false, (hdl.stop h).1, g)

  unfoldable pub start_grpc : Bool × H → G → Bool × H × G
  start_grpc (false, h) g = (false, h, g)
  start_grpc (true, h) g = roll_back (true, h) (grpc.start g)

  unfoldable pub start_server : H × G → Bool × H × G
  start_server (h, g) = start_grpc (hdl.start h) g

  -- `Stop`: the errors of both are joined.
  unfoldable pub stop_server : H × G → Bool × H × G
  stop_server (h, g) = let g' = grpc.stop g in let h' = hdl.stop h in (g'.0 && h'.0, h'.1, g'.1)

  roll_back_lem :
      (h : H) (r : Bool × G)
      → hdl.is_up h ≡ true
      → grpc.is_up r.1 ≡ r.0
      → let out = roll_back (true, h) r in (hdl.is_up out.1 ≡ out.0) × (grpc.is_up out.2 ≡ out.0)
  unfolding roll_back
  roll_back_lem h (true, g) up same = (up, same)
  roll_back_lem h (false, g) up same = (hdl.stop_lem h, same)

  start_grpc_lem :
      (r : Bool × H) (g : G)
      → hdl.is_up r.1 ≡ r.0
      → grpc.is_up g ≡ false
      → let out = start_grpc r g in (hdl.is_up out.1 ≡ out.0) × (grpc.is_up out.2 ≡ out.0)
  unfolding start_grpc
  start_grpc_lem (false, h) g up down = (up, down)
  start_grpc_lem (true, h) g up down = roll_back_lem h (grpc.start g) up (grpc.start_lem g)

  -- A server whose gRPC half is not up starts whole or not at all: after Start both halves are up if
  -- it succeeds, and neither is if it fails; after Stop neither is, whatever errors there are.
  pub start_server-whole :
      (h : H) (g : G)
      → grpc.is_up g ≡ false
      → let out = start_server (h, g) in
        let off = stop_server (h, g) in
        (hdl.is_up out.1 ≡ out.0)
        × (grpc.is_up out.2 ≡ out.0)
        × (hdl.is_up off.1 ≡ false)
        × (grpc.is_up off.2 ≡ false)
  unfolding start_server stop_server
  start_server-whole h g down =
      let (up, also) = start_grpc_lem (hdl.start h) g (hdl.start_lem h) down in
      (up, also, hdl.stop_lem h, grpc.stop_lem g)
