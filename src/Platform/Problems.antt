-- ===== src/Platform/Problems.antt =====
-- Problems as errors of a handler (server/internal/platform/httpx/problem.go). The cause, which reaches the
-- log alone, is left out; a detail is its runes.
use vybe.Base.{ℕ, List, [], ◌∷◌, ◌++◌}
use vybe.Base.Json.{runes_of}
use vybe.Base.Maps.{put_entry}
use vybe.Base.Text.{String}

pub record FieldError : Type 0 where
  pub field : String
  pub code : String
  pub detail : String

pub record Problem : Type 0 where
  pub status : ℕ
  pub code : String
  pub title : String
  pub detail : List ℕ
  pub errors : List FieldError
  pub extra : List (String × String)

abbrev pub new_problem : ℕ → String → String → String → Problem
new_problem status code title detail = record {
  status = status;
  code = code;
  title = title;
  detail = runes_of detail;
  errors = [];
  extra = [];
}

abbrev pub with_detail : Problem → List ℕ → Problem
with_detail p detail = record p { detail = detail }

abbrev pub with_extra : Problem → String → String → Problem
with_extra p key value = record p { extra = put_entry key value p.extra }

abbrev pub with_field_error : Problem → FieldError → Problem
with_field_error p e = record p { errors = p.errors ++ e ∷ [] }

abbrev pub err_validation : Problem
err_validation =
    new_problem 422 "VALIDATION_FAILED" "Validation Failed" "One or more fields are invalid."

abbrev pub err_unauthorized : Problem
err_unauthorized = new_problem 401 "UNAUTHORIZED" "Unauthorized" "Authentication is required."

abbrev pub err_internal : Problem
err_internal =
    new_problem 500 "INTERNAL" "Internal Server Error" "Something went wrong on our side."

abbrev pub err_unavailable : Problem
err_unavailable =
    new_problem 503 "UNAVAILABLE" "Service Unavailable" "The service is temporarily unavailable."

abbrev pub err_offset_pagination : Problem
err_offset_pagination =
    new_problem 400 "OFFSET_PAGINATION_UNSUPPORTED" "Offset Pagination Unsupported"
      "This API uses opaque cursor pagination. Use ?cursor= with the value from the previous page."

abbrev pub err_limit_invalid : Problem
err_limit_invalid =
    new_problem 400 "LIMIT_INVALID" "Limit Invalid"
      "The limit must be a positive integer within the documented maximum."
