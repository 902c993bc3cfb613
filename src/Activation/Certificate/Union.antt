-- ===== src/Activation/Certificate/Union.antt =====
-- What a certificate says of one module.
use license_service.Prelude.{
  ◌≡◌, refl, ◌∙◌, ap, ◌+◌, ◌*◌, not, codes, eq_ℤ, pos, negsuc, pos_part, Bool, true, false, ◌&&◌,
  Text, str_eq, str_eq_iff, List, [], ◌∷◌, Option, none, some, if◌then◌else◌, ℤ, arith,
}
use license_service.Store.Models.{LicenseEntitlement, LicenseTrial}
use license_service.Store.Rows.{latest, or_else}
use license_service.Cert.Payload.{Entitlement}
use license_service.Cert.Signer.{lookup}
use license_service.Activation.Keys.{module_wire_name, kind_from_int32}
use license_service.Activation.Certificate.{
  Entitlements, insert, trial_entry, add_trials, add_entitlement, add_entitlements, assemble,
}

-- The names of the modules on the wire: 1 is downloads, 2 is tools.
abbrev pub module_word : ℤ → Text
module_word m =
    if eq_ℤ m (pos 1) then codes "downloads" else if eq_ℤ m (pos 2) then codes "tools" else []

-- The names of the kinds: 1 is perpetual, 2 is subscription, 3 is trial.
abbrev pub kind_word : ℤ → Option Text
kind_word k =
    if eq_ℤ k (pos 1)
    then some (codes "perpetual")
    else if eq_ℤ k (pos 2)
    then some (codes "subscription")
    else if eq_ℤ k (pos 3)
    then some (codes "trial")
    else none

abbrev pub is_known : Option Text → Bool
is_known none = false
is_known (some k) = true

abbrev pub known_kind : Option Text → Text
known_kind none = []
known_kind (some k) = k

-- An entitlement row of the named module, of a kind that has a name.
abbrev pub grants : Text → LicenseEntitlement → Bool
grants name e =
    str_eq (module_word e.module_id) name && (is_known (kind_word e.kind) && not (str_eq name []))

abbrev pub tries : Text → LicenseTrial → Bool
tries name t = str_eq (module_word t.module_id) name && not (str_eq name [])

abbrev pub granted_entry : LicenseEntitlement → Entitlement
granted_entry e = record { kind = known_kind (kind_word e.kind); expires_at = e.expires_at }

-- A trial ends so many days of 86,400 seconds after its start.
abbrev pub tried_entry : ℤ → LicenseTrial → Entitlement
tried_entry days t = record {
  kind = codes "trial";
  expires_at = some (t.started_at + pos_part days * 86_400_000_000_000);
}

-- The entry of a module: the key's entitlement, else the trial.
abbrev pub entry : ℤ → Option LicenseEntitlement → Option LicenseTrial → Option Entitlement
entry days (some e) trial = some (granted_entry e)
entry days none (some t) = some (tried_entry days t)
entry days none none = none

module_wire_name_lem : (m : ℤ) → module_wire_name m ≡ module_word m
unfolding module_wire_name eq_ℤ
module_wire_name_lem (pos n) = ground arith
module_wire_name_lem (negsuc n) = refl

kind_from_int32_lem : (k : ℤ) → kind_from_int32 k ≡ kind_word k
unfolding kind_from_int32 eq_ℤ
kind_from_int32_lem (pos n) = ground arith
kind_from_int32_lem (negsuc n) = refl

lookup-insert :
    (name k : Text) (e : Entitlement) (m : Entitlements)
    → lookup name (insert k e m) ≡ (if str_eq k name then some e else lookup name m)
unfolding lookup insert
lookup-insert name k e [] = refl
lookup-insert name k e ((j, f) ∷ m) =
    ground (arith, lookup-insert name k e m, str_eq_iff j k, str_eq_iff j name, str_eq_iff k name)

-- One row more.
abbrev with_kind : Text → Option Text → LicenseEntitlement → Entitlements → Option Entitlement
with_kind name kind e m =
    if str_eq (module_word e.module_id) name && (is_known kind && not (str_eq name []))
    then some (record { kind = known_kind kind; expires_at = e.expires_at })
    else lookup name m

lookup-add_entitlement :
    (name : Text) (e : LicenseEntitlement) (kind : Option Text) (m : Entitlements)
    → lookup name (add_entitlement e kind m) ≡ with_kind name kind e m
unfolding add_entitlement
lookup-add_entitlement name e none m = ground arith
lookup-add_entitlement name e (some k) m = ground (
  arith,
  module_wire_name_lem e.module_id,
  str_eq_iff (module_word e.module_id) [],
  str_eq_iff (module_word e.module_id) name,
  str_eq_iff name [],
  lookup-insert name (module_wire_name e.module_id) (record { kind = k; expires_at = e.expires_at })
      m,
)

abbrev granted_or : Option LicenseEntitlement → Option Entitlement → Option Entitlement
granted_or none rest = rest
granted_or (some e) rest = some (granted_entry e)

granted_step :
    (o : Option LicenseEntitlement) (b : Bool) (x : LicenseEntitlement) (rest : Option Entitlement)
    → granted_or o (if b then some (granted_entry x) else rest)
      ≡ granted_or (or_else o (if b then some x else none)) rest
granted_step (some e) b x rest = refl
granted_step none true x rest = refl
granted_step none false x rest = refl

lookup-add_entitlements :
    (name : Text) (es : List LicenseEntitlement) (m : Entitlements)
    → lookup name (add_entitlements es m) ≡ granted_or (latest (grants name) es) (lookup name m)
unfolding add_entitlements latest
lookup-add_entitlements name [] m = refl
lookup-add_entitlements name (x ∷ es) m =
    lookup-add_entitlements name es (add_entitlement x (kind_from_int32 x.kind) m)
    ∙ ap (granted_or (latest (grants name) es)) (
        lookup-add_entitlement name x (kind_from_int32 x.kind) m
        ∙ ap (λ k. with_kind name k x m) (kind_from_int32_lem x.kind))
    ∙ granted_step (latest (grants name) es) (grants name x) x (lookup name m)

-- One trial more.
abbrev with_trial : ℤ → LicenseTrial → Entitlements → Entitlements
with_trial days t m =
    if str_eq (module_wire_name t.module_id) []
    then m
    else insert (module_wire_name t.module_id) (trial_entry days t) m

lookup-with_trial :
    (days : ℤ) (name : Text) (t : LicenseTrial) (m : Entitlements)
    → lookup name (with_trial days t m)
      ≡ (if tries name t then some (tried_entry days t) else lookup name m)
lookup-with_trial days name t m = ground (
  arith,
  module_wire_name_lem t.module_id,
  str_eq_iff (module_word t.module_id) [],
  str_eq_iff (module_word t.module_id) name,
  str_eq_iff name [],
  lookup-insert name (module_wire_name t.module_id) (tried_entry days t) m,
)

abbrev tried_or : ℤ → Option LicenseTrial → Option Entitlement → Option Entitlement
tried_or days none rest = rest
tried_or days (some t) rest = some (tried_entry days t)

tried_step :
    (days : ℤ) (o : Option LicenseTrial) (b : Bool) (x : LicenseTrial) (rest : Option Entitlement)
    → tried_or days o (if b then some (tried_entry days x) else rest)
      ≡ tried_or days (or_else o (if b then some x else none)) rest
tried_step days (some t) b x rest = refl
tried_step days none true x rest = refl
tried_step days none false x rest = refl

lookup-add_trials :
    (days : ℤ) (name : Text) (ts : List LicenseTrial) (m : Entitlements)
    → lookup name (add_trials days ts m) ≡ tried_or days (latest (tries name) ts) (lookup name m)
unfolding add_trials latest
lookup-add_trials days name [] m = refl
lookup-add_trials days name (x ∷ ts) m =
    lookup-add_trials days name ts (with_trial days x m)
    ∙ ap (tried_or days (latest (tries name) ts)) (lookup-with_trial days name x m)
    ∙ tried_step days (latest (tries name) ts) (tries name x) x (lookup name m)

either_entry :
    (days : ℤ) (e : Option LicenseEntitlement) (t : Option LicenseTrial)
    → granted_or e (tried_or days t none) ≡ entry days e t
either_entry days (some e) t = refl
either_entry days none (some t) = refl
either_entry days none none = refl

-- The certificate's entry for a module is the last entitlement row of the key for it that has a
-- known kind, with that kind's name and the row's own expiry whatever the trials say; where there is
-- none, the last trial of the module, of the kind "trial", which ends the configured number of days
-- after its start; and there is no entry where there is neither, nor under the empty name.
pub lookup-assemble :
    (days : ℤ) (ents : List LicenseEntitlement) (trials : List LicenseTrial) (name : Text)
    → lookup name (assemble days ents trials)
      ≡ entry days (latest (grants name) ents) (latest (tries name) trials)
unfolding assemble lookup
lookup-assemble days ents trials name =
    lookup-add_entitlements name ents (add_trials days trials [])
    ∙ ap (granted_or (latest (grants name) ents)) (lookup-add_trials days name trials [])
    ∙ either_entry days (latest (grants name) ents) (latest (tries name) trials)
