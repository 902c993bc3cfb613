-- ===== src/Store/Models.antt =====
-- internal/store/models: the rows of the five tables. `UpdatedAt` of the first four, which gorm
-- maintains and no code reads, is left out.
use license_service.Prelude.{ℕ, ℤ, Text, Bool, List, [], Option, none, some, str_eq, if◌then◌else◌}

-- `time.Time`, in nanoseconds since Go's zero time.
abbrev pub Time : Type 0
Time = ℕ

pub record LicenseKey : Type 0 where
  pub key_hash : Text
  pub license_id : Text
  pub key_prefix : Text
  pub label : Text
  pub max_slots : ℤ
  pub status : ℤ
  pub revoked_at : Option Time
  pub created_at : Time

pub record LicenseEntitlement : Type 0 where
  pub key_hash : Text
  pub module_id : ℤ
  pub kind : ℤ
  pub expires_at : Option Time
  pub granted_at : Time
  pub created_at : Time

pub record LicenseDevice : Type 0 where
  pub key_hash : Text
  pub device_token : Text
  pub fingerprint_id : Text
  pub last_seen_at : Time
  pub last_fingerprint_at : Option Time
  pub created_at : Time

pub record LicenseTrial : Type 0 where
  pub fingerprint_id : Text
  pub module_id : ℤ
  pub started_at : Time
  pub first_device_token : Text
  pub created_at : Time

pub record LicenseApp : Type 0 where
  pub id : ℕ
  pub app_key : Text
  pub name : Text
  pub tenant_key : Option Text
  pub disabled : Bool
  pub created_at : Time
  pub updated_at : Time

-- `TenantKeyOf`
abbrev pub tenant_key_of : Option Text → Text
tenant_key_of none = []
tenant_key_of (some tk) = tk

-- `TenantKeyPtr`
abbrev pub tenant_key_ptr : Text → Option Text
tenant_key_ptr s = if str_eq s [] then none else some s

-- `AppTenantKey`; the code calls it on rows only, never on nil.
unfoldable pub app_tenant_key : LicenseApp → Text
app_tenant_key a =
    if str_eq (tenant_key_of a.tenant_key) [] then a.app_key else tenant_key_of a.tenant_key

-- The database.
pub record Db : Type 0 where
  pub keys : List LicenseKey
  pub entitlements : List LicenseEntitlement
  pub devices : List LicenseDevice
  pub trials : List LicenseTrial
  pub apps : List LicenseApp
