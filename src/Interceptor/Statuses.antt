-- ===== src/Interceptor/Statuses.antt =====
-- The HTTP gateway that pkg/xcodes/license.go announces, and what it recovers of an error.
use license_service.Prelude.{ℕ, ◌≡◌, refl, Bool, arith, Option, none, some}
use license_service.Xcodes.{
  Code, category, http_status, Details, Error, unwrapped, plain, detailed, err,
}
use license_service.Interceptor.{
  GrpcCode, invalid_argument, unauthenticated, permission_denied, already_exists,
  resource_exhausted, unavailable, category_to_grpc, Answer, status, response, passed_through,
  intercept, with_details,
}

-- The HTTP status that the gateway gives a gRPC code.
unfoldable pub gateway_status : GrpcCode → ℕ
gateway_status invalid_argument = 400
gateway_status unauthenticated = 401
gateway_status permission_denied = 403
gateway_status GrpcCode.not_found = 404
gateway_status already_exists = 409
gateway_status resource_exhausted = 429
gateway_status GrpcCode.internal = 500
gateway_status unavailable = 503

grpc_of : Code → GrpcCode
grpc_of c = category_to_grpc (category c)

gateway_status-grpc : (c : Code) → gateway_status (grpc_of c) ≡ http_status c
unfolding gateway_status grpc_of category_to_grpc category http_status
gateway_status-grpc c = ground arith

-- The code of an error, which the message of its status begins with.
abbrev pub code_of : Error → Option Code
code_of unwrapped = none
code_of (plain c) = some c
code_of (detailed c d) = some c

-- The error of an answer, by the gateway: its HTTP status and its code.
abbrev pub seen : {A : Type 0} → Answer A → Option (ℕ × Code)
seen (response a) = none
seen (status g c d) = some (gateway_status g, c)
seen passed_through = none

-- Whatever error a call ends with, if a code wraps it then the gateway sees that code and the HTTP
-- status that the code is declared with, with the details or without; an error that no code wraps
-- passes through.
pub seen-intercept :
    (A : Type 0) (marshals : Details → Bool) (e : Error)
    → seen {A = A} (intercept marshals (err e))
      ≡ elim (code_of e) [ none ↦ none | some c ↦ some (http_status c, c) ]
unfolding intercept grpc_of with_details http_status
seen-intercept A marshals unwrapped = refl
seen-intercept A marshals (plain c) = rw gateway_status-grpc
seen-intercept A marshals (detailed c d) = rw gateway_status-grpc
