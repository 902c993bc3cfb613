-- ===== src/Xcodes.antt =====
-- pkg/xcodes: the error codes of the service, with the details that ride along, and the result of
-- a fallible call. The texts of the messages are left out.
use license_service.Prelude.{ℕ, ◌≡◌, refl, ℤ, Text, List, ◌⊎◌, inl, inr}

-- `xcodes.Err…`; the generic ones first.
pub data Code : Type 0 where
  bad_request unauthorized forbidden not_found conflict too_many_requests : Code
  internal service_unavailable : Code
  bad_key_format key_not_found key_revoked slot_limit already_entitled rate_limited : Code
  app_not_found app_exists app_unauthorized : Code

-- `xerr.Category…`
pub data Category : Type 0 where
  bad_request unauthorized forbidden not_found conflict too_many_requests : Category
  internal service_unavailable : Category

unfoldable pub category : Code → Category
category Code.bad_request = Category.bad_request
category Code.unauthorized = Category.unauthorized
category Code.forbidden = Category.forbidden
category Code.not_found = Category.not_found
category Code.conflict = Category.conflict
category Code.too_many_requests = Category.too_many_requests
category Code.internal = Category.internal
category Code.service_unavailable = Category.service_unavailable
category bad_key_format = Category.bad_request
category key_not_found = Category.unauthorized
category key_revoked = Category.forbidden
category slot_limit = Category.conflict
category already_entitled = Category.bad_request
category rate_limited = Category.too_many_requests
category app_not_found = Category.not_found
category app_exists = Category.conflict
category app_unauthorized = Category.unauthorized

-- The HTTP status that each code is declared with.
unfoldable pub http_status : Code → ℕ
http_status Code.bad_request = 400
http_status Code.unauthorized = 401
http_status Code.forbidden = 403
http_status Code.not_found = 404
http_status Code.conflict = 409
http_status Code.too_many_requests = 429
http_status Code.internal = 500
http_status Code.service_unavailable = 503
http_status bad_key_format = 400
http_status key_not_found = 401
http_status key_revoked = 403
http_status slot_limit = 409
http_status already_entitled = 400
http_status rate_limited = 429
http_status app_not_found = 404
http_status app_exists = 409
http_status app_unauthorized = 401

-- `licensev1.DeviceSlotInfo`
pub record DeviceSlotInfo : Type 0 where
  pub device_token : Text
  pub fingerprint_id : Text
  pub first_seen_at : ℕ
  pub last_seen_at : ℕ

-- `licensev1.SlotLimitInfo` and `licensev1.RetryAfterInfo`
pub data Details : Type 0 where
  slot_limit_info : ℤ → List DeviceSlotInfo → Details
  retry_after_info : ℤ → Details

-- What an operation fails with: a bare code, `xcodes.Detailed`, or an error that no code
-- wraps.
pub data Error : Type 0 where
  unwrapped : Error
  plain : Code → Error
  detailed : Code → Details → Error

-- A value, or what went wrong.
pub data Result {ℓ} (A : Type ℓ) : Type ℓ where
  err : Error → Result A
  ok : A → Result A

-- An early return on an error.
infixl 5 ◌>>=◌
abbrev pub ◌>>=◌ {a b} :
    {Value : Type a} {Next : Type b} → Result Value → (Value → Result Next) → Result Next
err problem >>= continue = err problem
ok value >>= continue = continue value

pub Result-cases {ℓ} :
    {A : Type ℓ} (r : Result A) → ((a : A) × (r ≡ ok a)) ⊎ ((e : Error) × (r ≡ err e))
Result-cases (ok a) = inl (a, refl)
Result-cases (err e) = inr (e, refl)

-- To go on from a successful chain, one step at a time.
pub bind-cases {ℓ κ μ} :
    {A : Type ℓ} {B : Type κ} {P : Type μ} (m : Result A) (f : A → Result B) {b : B}
    → (m >>= f) ≡ ok b
    → ((a : A) → m ≡ ok a → f a ≡ ok b → P)
    → P
bind-cases (ok a) f h k = k a refl h
bind-cases (err e) f h k = cc

pub ok-injective {ℓ} : {A : Type ℓ} {a b : A} → ok a ≡ ok b → a ≡ b
ok-injective h = cc
