-- ===== src/Identity/Handler.antt =====
-- The HTTP handlers of accounts (server/internal/modules/identity/handler.go) over the service. The decoded
-- body and the date in it are arguments: a problem where the body does not decode, no date where the text
-- is none. The claims of the caller are there where RequireAuth has let the request pass. Times stand
-- unformatted.
pub mod Uniform
use vybe.Base.{ℕ, Bool, Option, none, some, List, [], ◌∷◌, ◌⊎◌, inl, inr}
use vybe.Base.Int.{ℤ, pos}
use vybe.Base.Json.{runes_of}
use vybe.Platform.Problems.{
  Problem, new_problem, with_detail, with_field_error, err_validation, err_unauthorized,
  err_internal, err_unavailable,
}
use vybe.Identity.Registration.{AgeBand, Date, PasswordError}
use vybe.Identity.Store.{Repo, User, user_by_id}
use vybe.Identity.Service.{Issuer, TokenPair, RefreshError, refresh, logout}
use vybe.Identity.Credentials.{Accounts, AccountError}
use vybe.Identity.Accounts.{Passwords, Draws, RegisterInput, register, LoginInput, login}
use vybe.Identity.Ticket.{WsTicket, Tickets, new_ws_ticket, put}

pub record UserResponse : Type 0 where
  pub id : List ℕ
  pub handle : List ℕ
  pub display_name : List ℕ
  pub avatar_url : List ℕ
  pub locale : List ℕ
  pub region : List ℕ
  pub numeral_system : List ℕ
  pub age_band : AgeBand
  pub entitlement_tier : List ℕ
  pub is_discoverable : Bool
  pub created_at : ℤ

pub record SessionResponse : Type 0 where
  pub access_token : List ℕ
  pub refresh_token : List ℕ
  pub expires_at : ℤ
  pub session_id : List ℕ
  pub user : UserResponse

abbrev pub to_user_response : User → UserResponse
to_user_response u = record {
  id = u.id;
  handle = u.handle;
  display_name = u.display_name;
  avatar_url = u.avatar_url;
  locale = u.locale;
  region = u.region;
  numeral_system = u.numeral_system;
  age_band = u.age_band;
  entitlement_tier = u.entitlement_tier;
  is_discoverable = u.is_discoverable;
  created_at = u.created_at;
}

abbrev pub to_session_response : TokenPair → SessionResponse
to_session_response p = record {
  access_token = p.access_token;
  refresh_token = p.refresh_token;
  expires_at = p.expires_at;
  session_id = p.session_id;
  user = to_user_response p.user;
}

abbrev pub invalid_credentials_problem : Problem
invalid_credentials_problem =
    new_problem 401 "INVALID_CREDENTIALS" "Invalid Credentials"
      "The email or password is incorrect."

abbrev pub refresh_rejected_problem : Problem
refresh_rejected_problem =
    new_problem 401 "REFRESH_REJECTED" "Refresh Rejected"
      "This refresh token cannot be used. Sign in again."

abbrev pub password_weak_problem : Problem
password_weak_problem =
    new_problem 422 "PASSWORD_WEAK" "Password Not Accepted"
      "That password does not meet the minimum requirements."

-- `registrationProblem`; a nil pointer is a panic, for the server's recoverer.
unfoldable pub registration_problem : AccountError → Problem
registration_problem AccountError.email_taken =
    with_field_error
      (new_problem 409 "EMAIL_TAKEN" "Email Registered" "That email is already registered.")
      (record { field = "email"; code = "TAKEN"; detail = "already registered" })
registration_problem AccountError.handle_taken =
    with_field_error
      (new_problem 409 "HANDLE_TAKEN" "Handle Taken" "That handle is already in use.")
      (record { field = "handle"; code = "TAKEN"; detail = "already in use" })
registration_problem AccountError.under_minimum_age =
    new_problem 403 "UNDER_MINIMUM_AGE" "Below Minimum Age"
      "You must be at least 13 to create an account."
registration_problem (AccountError.bad_password PasswordError.breached) =
    with_field_error
      (new_problem 422 "PASSWORD_BREACHED" "Password Breached"
        "That password has appeared in a public breach. Choose a different one.")
      (record { field = "password"; code = "BREACHED"; detail = "found in a breach corpus" })
registration_problem (AccountError.bad_password PasswordError.too_short) =
    with_field_error password_weak_problem
      (record { field = "password"; code = "TOO_SHORT"; detail = "below the minimum length" })
registration_problem (AccountError.bad_password PasswordError.too_long) =
    with_field_error password_weak_problem
      (record { field = "password"; code = "TOO_LONG"; detail = "above the maximum length" })
registration_problem (AccountError.bad_password PasswordError.breach_set_unavailable) =
    with_detail err_unavailable (runes_of "Registration is temporarily unavailable.")
registration_problem AccountError.invalid_handle =
    with_field_error
      (with_detail err_validation
        (runes_of "The handle must be 3–30 characters: a–z, 0–9, underscore or dot."))
      (record { field = "handle"; code = "INVALID"; detail = "disallowed characters or length" })
registration_problem AccountError.invalid_email =
    with_field_error (with_detail err_validation (runes_of "The email address is not valid."))
      (record { field = "email"; code = "INVALID"; detail = "not a valid address" })
registration_problem AccountError.invalid_credentials = err_internal
registration_problem AccountError.internal = err_internal
registration_problem AccountError.nil_pointer = err_internal

-- The one answer to every login that is refused.
unfoldable pub login_problem : AccountError → Problem
login_problem AccountError.invalid_credentials = invalid_credentials_problem
login_problem _ = err_internal

-- A problem, or what a success holds, with its status.
pub data Reply : Type 0 where
  refusal : Problem → Reply
  session : (status : ℕ) → SessionResponse → Reply
  account : UserResponse → Reply
  ticket : (plaintext : List ℕ) (expires_at : ℤ) (expires_in_seconds : ℤ) → Reply
  no_content : Reply

unfoldable pub session_or : (AccountError → Problem) → ℕ → AccountError ⊎ TokenPair → Reply
session_or problem status (inl e) = Reply.refusal (problem e)
session_or problem status (inr pair) = Reply.session status (to_session_response pair)

abbrev pub invalid_date : Problem
invalid_date =
    with_field_error
      (with_detail err_validation (runes_of "dateOfBirth must be a YYYY-MM-DD date."))
      (record { field = "dateOfBirth"; code = "INVALID_DATE"; detail = "expected YYYY-MM-DD" })

-- The body of a registration, with the number of runes of the password and the date of its text.
pub record RegisterRequest : Type 0 where
  pub email : List ℕ
  pub password : List ℕ
  pub password_runes : ℕ
  pub handle : List ℕ
  pub display_name : List ℕ
  pub date_of_birth : Option Date
  pub locale : List ℕ
  pub region : List ℕ
  pub device_name : List ℕ
  pub platform : List ℕ

abbrev pub register_input : RegisterRequest → Date → RegisterInput
register_input req dob = record {
  email = req.email;
  password = req.password;
  password_runes = req.password_runes;
  handle = req.handle;
  display_name = req.display_name;
  date_of_birth = dob;
  locale = req.locale;
  region = req.region;
  device_name = req.device_name;
  platform = req.platform;
}

unfoldable pub register_dated :
    Passwords
    → Issuer
    → Accounts
    → Draws
    → RegisterRequest
    → Option Date
    → Date
    → ℤ
    → Accounts × Reply
register_dated p i s d req none today now = (s, Reply.refusal invalid_date)
register_dated p i s d req (some dob) today now =
    let answer = register p i s d (register_input req dob) today now in
    (answer.0, session_or registration_problem 201 answer.1)

unfoldable pub handle_register :
    Passwords → Issuer → Accounts → Draws → Problem ⊎ RegisterRequest → Date → ℤ → Accounts × Reply
handle_register p i s d (inl problem) today now = (s, Reply.refusal problem)
handle_register p i s d (inr req) today now = register_dated p i s d req req.date_of_birth today now

unfoldable pub handle_login :
    Passwords → Issuer → Accounts → Draws → Problem ⊎ LoginInput → ℤ → Accounts × Reply
handle_login p i s d (inl problem) now = (s, Reply.refusal problem)
handle_login p i s d (inr req) now =
    let answer = login p i s d req now in (answer.0, session_or login_problem 200 answer.1)

unfoldable pub refreshed : RefreshError ⊎ TokenPair → Reply
refreshed (inl RefreshError.rejected) = Reply.refusal refresh_rejected_problem
refreshed (inl RefreshError.internal) = Reply.refusal err_internal
refreshed (inr pair) = Reply.session 200 (to_session_response pair)

-- `minted` and `jti` are what the service draws.
unfoldable pub handle_refresh :
    Issuer → Option (List ℕ) → List ℕ → ℤ → Repo → Problem ⊎ List ℕ → Repo × Reply
handle_refresh i minted jti now s (inl problem) = (s, Reply.refusal problem)
handle_refresh i minted jti now s (inr plaintext) =
    let answer = refresh i minted plaintext jti now s in (answer.0, refreshed answer.1)

-- What the handlers read of the claims.
pub record Claims : Type 0 where
  pub subject : List ℕ
  pub session_id : List ℕ

unfoldable pub handle_logout : Repo → Option Claims → ℤ → Repo × Reply
handle_logout s none now = (s, Reply.refusal err_unauthorized)
handle_logout s (some claims) now = (logout s claims.session_id now, Reply.no_content)

unfoldable pub account_or_gone : Option User → Reply
account_or_gone none =
    Reply.refusal (with_detail err_unauthorized (runes_of "This account no longer exists."))
account_or_gone (some u) = Reply.account (to_user_response u)

unfoldable pub handle_me : Repo → Option Claims → Reply
handle_me s none = Reply.refusal err_unauthorized
handle_me s (some claims) = account_or_gone (user_by_id s claims.subject)

unfoldable pub ticket_or_error : Tickets → Option WsTicket → Tickets × Reply
ticket_or_error s none = (s, Reply.refusal err_internal)
ticket_or_error s (some t) = (put s t, Reply.ticket t.plaintext t.expires_at (pos 60))

-- `random` is the text that the ticket is drawn from.
unfoldable pub handle_ws_ticket :
    (List ℕ → List ℕ) → Option (List ℕ) → Tickets → Option Claims → ℤ → Tickets × Reply
handle_ws_ticket sha256 random s none now = (s, Reply.refusal err_unauthorized)
handle_ws_ticket sha256 random s (some claims) now =
    ticket_or_error s (new_ws_ticket sha256 random claims.subject claims.session_id now)
