-- ===== src/Tests/Service.antt =====
-- Errors, scopes, grants, signers and the whole service at concrete inputs.
use license_service.Prelude.{
  false, ◌≤◌, ℕ, ◌+◌, ◌*◌, ◌<◌, ◌≡◌, ◌≢◌, ◌↔◌, ◌⊎◌, refl, true, Text, codes, str_eq, List, [], ◌∷◌,
  Option, none, some, pos, pos_part,
}
use license_service.Xcodes.{ok, err, plain, key_not_found, http_status}
use license_service.Store.Models.{Db}
use license_service.Cert.Payload.{Entitlement, Payload, nanoseconds}
use license_service.Cert.Canonical.{marshal_canonical}
use license_service.Cert.Signer.{
  ready, Signer, new_signer, load_keys, seed_from_hex, choose_active, require_key, lookup, is_ready,
  sign, verify, public_keys,
}
use license_service.Cert.Canonical.Order.{swap, marshal_canonical-Shuffled}
use license_service.Cert.Signer.Ready.{new_signer-signs}
use license_service.Interceptor.{intercept}
use license_service.Interceptor.Statuses.{seen, seen-intercept}
use license_service.Admin.Scope.{Caller, platform, require_platform_scope}
use license_service.Admin.Scope.Closure.{require_platform_scope_iff}
use license_service.Admin.Expiry.{subscription, perpetual, resolve_expiry, bounded_expiry, base_of}
use license_service.Admin.Expiry.Extends.{resolve_expiry-ok, later_of}
use license_service.System.Ownership.{WellFormed}
use license_service.System.Reachable.{
  creating_key, activating, deleting_key, after, no_rows, Reachable, fresh, called,
  Reachable-WellFormed,
}
use license_service.Store.Rows.{count}
use license_service.Startup.{
  SigningConfig, resolved, signing_map, wrap_signer, build_signer, resolve_signer,
}
use license_service.Startup.Distinct.{has_key_id, resolve_signer-Distinct}
use license_service.Tests.Libraries.{toy_crypto, plain_formats}
use license_service.Tests.Fixtures.{deps, service, fair, noise, swap_request}

seen-intercept_example :
    seen {A = ℕ} (intercept (λ _. true) (err (plain key_not_found)))
    ≡ some (http_status key_not_found, key_not_found)
seen-intercept_example = seen-intercept ℕ (λ _. true) (plain key_not_found)

abbrev operator : Caller
operator = record { tenant = none; actor = some platform }

none-not_empty : operator.tenant ≢ some []
none-not_empty e = cc

require_platform_scope_iff_example :
    (require_platform_scope operator ≡ ok tt)
    ↔ ((operator.tenant ≡ none) × (operator.actor ≡ some platform))
require_platform_scope_iff_example = require_platform_scope_iff operator none-not_empty

abbrev extended : Option ℕ
extended = some (9 + 30 * (86_400 * nanoseconds))

month_granted : resolve_expiry subscription (pos 30) none (some 9) 7 ≡ ok extended
unfolding resolve_expiry bounded_expiry base_of
month_granted = refl

resolve_expiry-ok_example :
    ((subscription ≡ perpetual)
      × (◌≡◌ {A = Option ℕ} none none)
      × (pos_part (pos 30) ≡ 0)
      × (extended ≡ none))
    ⊎ ((pos_part (pos 30) ≡ 0) × (t : ℕ) × (◌≡◌ {A = Option ℕ} none (some t)) × (extended ≡ some t))
    ⊎ ((0 < pos_part (pos 30))
        × (◌≡◌ {A = Option ℕ} none none)
        × (extended ≡ some (later_of (some 9) 7 + 30 * (86_400 * nanoseconds))))
resolve_expiry-ok_example = resolve_expiry-ok subscription (pos 30) none (some 9) 7 month_granted

abbrev seed : Text
seed = codes "0123456789abcdef0123456789abcdef"

abbrev one_key : List (Text × Text)
one_key = (codes "k1", seed) ∷ []

abbrev started : Signer toy_crypto
started = record { keys = one_key; active = codes "k1" }

starts_up : new_signer toy_crypto one_key [] ≡ ready started
unfolding new_signer load_keys seed_from_hex choose_active require_key lookup str_eq
starts_up = refl

abbrev keyless : Payload
keyless = record {
  v = pos 1;
  cert_id = codes "u";
  license_id = none;
  device_token = codes "d1";
  fingerprint_id = codes "f1";
  issued_at = 1000;
  signing_key_id = codes "k1";
  entitlements = [];
}

new_signer-signs_example :
    (is_ready toy_crypto started ≡ true)
    × (key : Text) × (signature : Text) × (sign toy_crypto plain_formats started keyless
        ≡ some (marshal_canonical plain_formats keyless, signature))
    × (verify toy_crypto key (marshal_canonical plain_formats keyless) signature ≡ true)
    × (lookup (codes "k1") (public_keys toy_crypto started) ≡ some key)
new_signer-signs_example =
    new_signer-signs toy_crypto plain_formats one_key [] keyless starts_up refl

-- A key is created, and a device takes a slot; the key is then deleted.
abbrev history : Db
history = after deps service (deleting_key fair operator (codes "lk_1") (some true)) (
    after deps service (activating fair swap_request) (
      after deps service
        (creating_key fair (λ _. some noise) operator
          (record { slots = pos 0; label = []; grants = [] }))
        no_rows))

history-Reachable : Reachable deps service history
history-Reachable = called (deleting_key fair operator (codes "lk_1") (some true)) _ (
    called (activating fair swap_request) _ (
      called
        (creating_key fair (λ _. some noise) operator
          (record { slots = pos 0; label = []; grants = [] }))
        no_rows fresh))

Reachable-WellFormed_example : WellFormed history
Reachable-WellFormed_example = Reachable-WellFormed deps service history history-Reachable

abbrev signing : SigningConfig
signing = record {
  keys = some (record { key_id = codes "k1"; seed = seed }) ∷ none ∷ [];
  sign_key_id = [];
}

signing_accepted : resolve_signer toy_crypto (some signing) ≡ resolved started
unfolding resolve_signer build_signer wrap_signer signing_map new_signer load_keys seed_from_hex
    choose_active require_key lookup str_eq
signing_accepted = refl

resolve_signer-Distinct_example :
    ((id : Text) → count (has_key_id id) signing.keys ≤ 1)
    × ((id : Text) → count (λ e. str_eq e.0 id) started.keys ≡ count (has_key_id id) signing.keys)
    × (k : Text) × (lookup (codes "k1") one_key ≡ some k)
resolve_signer-Distinct_example = resolve_signer-Distinct toy_crypto signing signing_accepted

abbrev tools_entry : Text × Entitlement
tools_entry = (codes "tools", record { kind = codes "trial"; expires_at = some 5 })

abbrev downloads_entry : Text × Entitlement
downloads_entry = (codes "downloads", record { kind = codes "perpetual"; expires_at = none })

abbrev two_modules : Payload
two_modules = record keyless { entitlements = tools_entry ∷ downloads_entry ∷ [] }

modules_apart : str_eq tools_entry.0 downloads_entry.0 ≡ false
unfolding str_eq
modules_apart = refl

marshal_canonical-Shuffled_example :
    marshal_canonical plain_formats two_modules
    ≡ marshal_canonical plain_formats
        (record two_modules { entitlements = downloads_entry ∷ tools_entry ∷ [] })
marshal_canonical-Shuffled_example =
    marshal_canonical-Shuffled plain_formats two_modules (downloads_entry ∷ tools_entry ∷ [])
      (swap tools_entry downloads_entry [] modules_apart)
