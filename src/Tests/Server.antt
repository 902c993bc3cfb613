-- ===== src/Tests/Server.antt =====
-- The server and the health probe at concrete inputs.
use license_service.Prelude.{
  ◌≡◌, ◌≢◌, refl, true, false, arith, Text, codes, [], ◌∷◌, Option, none, some, pos, if◌then◌else◌,
  str_eq,
}
use license_service.Xcodes.{category, app_unauthorized}
use license_service.Store.Models.{Db}
use license_service.Admin.Scope.{Actor, platform, other}
use license_service.Cert.Signer.{
  ready, Signer, new_signer, load_keys, seed_from_hex, choose_active, require_key, lookup,
}
use license_service.Interceptor.{status, unauthenticated, category_to_grpc}
use license_service.System.Ownership.{WellFormed}
use license_service.System.Reachable.{no_rows}
use license_service.Rpc.{Context, Request}
use license_service.Rpc.Facade.{Root, operator}
use license_service.Rpc.Wire.{Edge, lifted, serve}
use license_service.Rpc.Doors.{refusal, serve-closed, serve-platform_only}
use license_service.Rpc.Sound.{Served, nothing_served, served, Served-WellFormed, serve-reading}
use license_service.Rpc.Client.{Forwarding, call}
use license_service.Rpc.Client.Agrees.{in_process, call-in_process}
use license_service.Tests.Libraries.{toy_crypto}
use license_service.Tests.Fixtures.{deps, service, fair, swap_request, noise}

abbrev root : Root deps
root = record {
  domain = service;
  valid = λ tk. if str_eq tk [] then false else true;
  info = record {
    version = codes "v1";
    git_commit = codes "unknown";
    git_branch = codes "main";
    build_time = codes "now";
    go_version = codes "go";
  };
  build = some ((codes "vcs.revision", codes "0123456789") ∷ []);
  started_at = 5;
}

-- The tenant key and the actor of a call; every request keeps to the rules.
abbrev edge : Edge
edge = record {
  Metadata = Option Text × Option Actor;
  trusted_actor = λ md. md.1;
  trusted_tenant_key = λ md. md.0;
  incoming_key = λ md. md.0;
  violates = λ _. false;
  marshals = λ _. true;
}

abbrev context : Context
context = record {
  incoming = none;
  tenant = none;
  actor = none;
  gate_env = fair;
  env = fair;
  new_id = 7;
  groups = λ _. some noise;
  app_bytes = λ n. n ∷ [];
  probe = some 1;
  now = 9;
}

no_tenant : (tk : Text) → edge.incoming_key (none, some platform) ≡ some tk → root.valid tk ≡ false
no_tenant tk e = cc

serve-closed_example :
    serve deps root edge (none, some platform) context (Request.activate swap_request) no_rows
    ≡ (status unauthenticated app_unauthorized none, no_rows)
serve-closed_example =
    serve-closed deps root edge (none, some platform) context (Request.activate swap_request)
      no_rows refl no_tenant

unnamed : edge.trusted_tenant_key (none, some other) ≢ some []
unnamed e = cc

no_operator :
    edge.trusted_tenant_key (none, some other) ≡ none
    → edge.trusted_actor (none, some other) ≢ some platform
no_operator e h = ground (arith, h)

serve-platform_only_example :
    let code = refusal (operator deps root (lifted deps root edge (none, some other) context)) in
    serve deps root edge (none, some other) context (Request.revoke_key (codes "lk_1")) no_rows
    ≡ (status (category_to_grpc (category code)) code none, no_rows)
serve-platform_only_example =
    serve-platform_only deps root edge (none, some other) context
      (Request.revoke_key (codes "lk_1")) no_rows refl unnamed no_operator

-- A tenant's row is made, then a key; a device takes a slot.
abbrev first_day : Db
first_day =
    (serve deps root edge (some (codes "ten_a"), none) context (Request.activate swap_request)
      (serve deps root edge (none, some platform) context
        (Request.create_key (record { slots = pos 0; label = []; grants = [] })) no_rows).1).1

first_day-Served : Served deps root edge first_day
first_day-Served =
    served (some (codes "ten_a"), none) context (Request.activate swap_request) _
      (served (none, some platform) context
        (Request.create_key (record { slots = pos 0; label = []; grants = [] })) no_rows
        nothing_served)

Served-WellFormed_example : WellFormed first_day
Served-WellFormed_example = Served-WellFormed deps root edge first_day first_day-Served

serve-reading_example :
    (serve deps root edge (none, some platform) context (Request.list_keys (pos 0) 0) first_day).1
    ≡ first_day
serve-reading_example =
    serve-reading deps root edge (none, some platform) context (Request.list_keys (pos 0) 0)
      first_day refl

abbrev seed : Text
seed = codes "0123456789abcdef0123456789abcdef"

abbrev started : Signer toy_crypto
started = record { keys = (codes "k1", seed) ∷ []; active = codes "k1" }

starts_up : new_signer toy_crypto ((codes "k1", seed) ∷ []) [] ≡ ready started
unfolding new_signer load_keys seed_from_hex choose_active require_key lookup str_eq
starts_up = refl

-- An operator's console behind a client.
abbrev forwarding : Forwarding edge
forwarding = record {
  forward = λ ctx. (ctx.tenant, ctx.actor);
  forward-actor = λ ctx. refl;
  forward-tenant = λ ctx. refl;
  forward-incoming = λ ctx. refl;
}

abbrev console : Context
console = record context { actor = some platform }

call-in_process_example :
    call deps root edge forwarding console (Request.show_key (codes "lk_1")) no_rows
    ≡ in_process deps root edge forwarding console (Request.show_key (codes "lk_1")) no_rows
call-in_process_example =
    call-in_process deps root edge forwarding console (Request.show_key (codes "lk_1")) no_rows refl
      refl
