-- ===== src/Interceptor.antt =====
-- pkg/interceptor/error.go: the gRPC status of an error.
pub mod Statuses
use license_service.Prelude.{ℕ, ◌≡◌, refl, Bool, Text, codes, Option, none, some, if◌then◌else◌}
use license_service.Xcodes.{
  Code, Category, category, http_status, Details, Error, unwrapped, plain, detailed, Result, ok,
  err, bad_key_format, key_not_found, key_revoked, slot_limit, already_entitled, rate_limited,
  app_not_found, app_exists, app_unauthorized,
}

-- `codes.…` of gRPC.
pub data GrpcCode : Type 0 where
  invalid_argument unauthenticated permission_denied not_found already_exists : GrpcCode
  resource_exhausted internal unavailable : GrpcCode

-- `categoryToGRPC`
unfoldable pub category_to_grpc : Category → GrpcCode
category_to_grpc Category.bad_request = invalid_argument
category_to_grpc Category.unauthorized = unauthenticated
category_to_grpc Category.forbidden = permission_denied
category_to_grpc Category.not_found = GrpcCode.not_found
category_to_grpc Category.conflict = already_exists
category_to_grpc Category.too_many_requests = resource_exhausted
category_to_grpc Category.internal = GrpcCode.internal
category_to_grpc Category.service_unavailable = unavailable

-- A response, a status, or an error that passes through. The code stands for the status message.
pub data Answer (A : Type 0) : Type 0 where
  response : A → Answer A
  status : GrpcCode → Code → Option Details → Answer A
  passed_through : Answer A

module _ {A : Type 0} where
  -- `withDetails`; the flag says whether `WithDetails` can marshal them.
  unfoldable pub with_details : Bool → Code → Details → Answer A
  with_details marshals c d =
      status (category_to_grpc (category c)) c (if marshals then some d else none)

  -- `Error`
  unfoldable pub intercept : (Details → Bool) → Result A → Answer A
  intercept marshals (ok a) = response a
  intercept marshals (err (detailed c d)) = with_details (marshals d) c d
  intercept marshals (err (plain c)) = status (category_to_grpc (category c)) c none
  intercept marshals (err unwrapped) = passed_through
