-- ===== src/Activation/Certificate/Described.antt =====
-- What a certificate says, field by field.
use license_service.Prelude.{
  ◌≡◌, refl, Text, codes, ◌++◌, take, List, Option, none, some, pos, leb_ℤ, str_eq, Bool, arith,
}
use license_service.Store.Models.{Db, LicenseEntitlement, LicenseTrial}
use license_service.Store.Rows.{latest}
use license_service.Store.Sql.{Sql}
use license_service.Store.Entitlement.{list_entitlements_by_key_hash}
use license_service.Store.Trial.{list_trials_by_fingerprint}
use license_service.Store.Reply.{Env}
use license_service.Cert.Payload.{Payload}
use license_service.Cert.Signer.{lookup}
use license_service.Activation.Keys.{license_id}
use license_service.Activation.Service.{Deps, Service}
use license_service.Activation.Certificate.{certificate}
use license_service.Activation.Certificate.Union.{grants, tries, entry, lookup-assemble}

-- The license id that clients see of a key hash.
abbrev pub named_license : Option Text → Option Text
named_license none = none
named_license (some h) = some (codes "lk_" ++ take 32 h)

-- The entitlements of a key and the trials of a fingerprint, ascending by module.
abbrev pub grants_of : Sql → Text → Db → List LicenseEntitlement
grants_of sql h db =
    sql.find (λ a b. leb_ℤ a.module_id b.module_id) (λ e. str_eq e.key_hash h) db.entitlements

abbrev pub trials_of : Sql → Text → Db → List LicenseTrial
trials_of sql fp db =
    sql.find (λ a b. leb_ℤ a.module_id b.module_id) (λ t. str_eq t.fingerprint_id fp) db.trials

pub listed_grants_lem :
    (sql : Sql) (up : Bool) (h : Text) (db : Db) {ents : List LicenseEntitlement}
    → list_entitlements_by_key_hash sql up h db ≡ some ents
    → ents ≡ grants_of sql h db
unfolding list_entitlements_by_key_hash
listed_grants_lem sql up h db e = ground (arith, e)

pub listed_trials_lem :
    (sql : Sql) (up : Bool) (fp : Text) (db : Db) {trials : List LicenseTrial}
    → list_trials_by_fingerprint sql up fp db ≡ some trials
    → trials ≡ trials_of sql fp db
unfolding list_trials_by_fingerprint
listed_trials_lem sql up fp db e = ground (arith, e)

module _ (d : Deps) (s : Service d) (env : Env) where
  -- The payload is of version 1 and has the call's fresh identifier, the license id of the key where
  -- there is one, the device and the fingerprint, the time of the call and the active signing key; it
  -- has an entry for a module exactly where these rows give it one, and that entry.
  pub record Describes (key_ref : Option Text) (token fp : Text) (ents : List LicenseEntitlement)
      (trials : List LicenseTrial) (p : Payload) : Type 0 where
    pub version : p.v ≡ pos 1
    pub fresh : p.cert_id ≡ env.uuid
    pub license : p.license_id ≡ named_license key_ref
    pub device : p.device_token ≡ token
    pub machine : p.fingerprint_id ≡ fp
    pub issued : p.issued_at ≡ env.clock 1
    pub signing : p.signing_key_id ≡ s.signer.active
    pub entries :
        (name : Text)
        → lookup name p.entitlements
          ≡ entry s.trial_days (latest (grants name) ents) (latest (tries name) trials)

  pub certificate-Describes :
      (key_ref : Option Text) (token fp : Text) (ents : List LicenseEntitlement)
      (trials : List LicenseTrial)
      → Describes key_ref token fp ents trials (certificate d s env 1 key_ref token fp ents trials)
  unfolding certificate license_id
  certificate-Describes key_ref token fp ents trials = record {
    version = refl;
    fresh = refl;
    license = license_lem key_ref;
    device = refl;
    machine = refl;
    issued = refl;
    signing = refl;
    entries = λ name. lookup-assemble s.trial_days ents trials name;
  }
    where
      license_lem :
          (key_ref : Option Text)
          → (elim key_ref [ none ↦ none | some h ↦ some (license_id h) ]) ≡ named_license key_ref
      license_lem none = refl
      license_lem (some h) = refl
