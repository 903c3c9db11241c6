-- ===== src/Api/Errors.antt =====
-- src/coordinator/src/app/error.rs.
use coordinator.Base.{ℕ, Text, ◌++◌, codes}

pub data AppError : Type 0 where
  bad_request : Text → AppError
  unauthorized not_found : AppError
  no_nodes upstream internal : Text → AppError

-- The status code of the response.
unfoldable pub status_code : AppError → ℕ
status_code (bad_request t) = 400
status_code unauthorized = 401
status_code not_found = 404
status_code (no_nodes t) = 503
status_code (upstream t) = 502
status_code (internal t) = 500

-- `Display`, which is the `error` field of the response's body.
unfoldable pub display : AppError → Text
display (bad_request t) = codes "bad request: " ++ t
display unauthorized = codes "unauthorized"
display not_found = codes "not found"
display (no_nodes t) = codes "no nodes available: " ++ t
display (upstream t) = codes "upstream node error: " ++ t
display (internal t) = codes "internal: " ++ t
