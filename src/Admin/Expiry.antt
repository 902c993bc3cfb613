-- ===== src/Admin/Expiry.antt =====
-- `resolveExpiry` and `grantRow` of internal/service/admin/admin.go.
pub mod Extends
use license_service.Prelude.{
  ℕ, ltb, Bool, true, false, Text, Option, none, some, if◌then◌else◌, ℤ, pos, negsuc, pos_part,
  ◌&&◌, ◌||◌, ◌==◌,
}
use license_service.Xcodes.{Result, ok, err, plain, Code, ◌>>=◌}
use license_service.Store.Models.{LicenseEntitlement, Time}
use license_service.Activation.Certificate.{add_days}

-- `licensev1.EntitlementKind`, as the switch reads it.
pub data Kind : Type 0 where
  perpetual subscription trial unknown_kind : Kind

unfoldable pub kind_of : ℤ → Kind
kind_of (pos n) =
    if n == 1
    then perpetual
    else if n == 2
    then subscription
    else if n == 3
    then trial
    else unknown_kind
kind_of (negsuc n) = unknown_kind

-- `durationDays > 0`
abbrev pub has_duration : ℤ → Bool
has_duration days = ltb 0 (pos_part days)

abbrev pub is_given : Option Time → Bool
is_given none = false
is_given (some t) = true

-- Where an extension starts: the unexpired remainder, else now.
unfoldable pub base_of : Option Time → Time → Time
base_of none now = now
base_of (some current) now = if ltb now current then current else now

-- The arm of the subscriptions and trials.
unfoldable pub bounded_expiry : ℤ → Option Time → Option Time → Time → Result (Option Time)
bounded_expiry days (some t) current now = ok (some t)
bounded_expiry days none current now =
    if has_duration days
    then ok (some (add_days (base_of current now) days))
    else err (plain Code.bad_request)

unfoldable pub resolve_expiry : Kind → ℤ → Option Time → Option Time → Time → Result (Option Time)
resolve_expiry kind days expires_at current now =
    if has_duration days && is_given expires_at then err (plain Code.bad_request) else elim kind [
      | perpetual ↦
          if has_duration days || is_given expires_at then err (plain Code.bad_request) else ok none
      | subscription ↦ bounded_expiry days expires_at current now
      | trial ↦ bounded_expiry days expires_at current now
      | unknown_kind ↦ err (plain Code.bad_request)
    ]

-- A grant of a request.
pub record Grant : Type 0 where
  pub module_id : ℤ
  pub kind : ℤ
  pub duration_days : ℤ
  pub expires_at : Option Time

-- `grantRow`; gorm fills in `created_at`.
unfoldable pub grant_row : Text → Grant → Option Time → Time → Time → Result LicenseEntitlement
grant_row key_hash g current now stamp = do
  expiry ← resolve_expiry (kind_of g.kind) g.duration_days g.expires_at current now
  ok (record {
    key_hash = key_hash;
    module_id = g.module_id;
    kind = g.kind;
    expires_at = expiry;
    granted_at = now;
    created_at = stamp;
  })
