-- ===== src/Identity/Credentials.antt =====
-- The users and credentials of the in-memory repository
-- (server/internal/modules/identity/identitytest/memstore.go), and the errors of what changes them
-- (server/internal/modules/identity/service.go).
use vybe.Base.{
  ℕ, Bool, true, false, Option, none, some, List, [], ◌∷◌, if◌then◌else◌, ◌⊎◌, inl, inr,
}
use vybe.Base.Bytes.{bytes_eq, lookup, assign}
use vybe.Identity.Registration.{PasswordError}
use vybe.Identity.Store.{Repo, User, user_by_id}

pub record Credentials : Type 0 where
  pub user_id : List ℕ
  pub email : List ℕ
  pub password_hash : List ℕ

pub record Accounts : Type 0 where
  pub repo : Repo
  pub creds : List (List ℕ × Credentials)
  pub handles : List (List ℕ × List ℕ)

pub data AccountError : Type 0 where
  invalid_credentials handle_taken email_taken under_minimum_age invalid_handle invalid_email :
      AccountError
  bad_password : PasswordError → AccountError
  internal nil_pointer : AccountError

abbrev pub is_found {ℓ} : {A : Type ℓ} → Option A → Bool
is_found none = false
is_found (some a) = true

unfoldable pub email_taken_by : Accounts → List ℕ → Bool
email_taken_by s email = is_found (lookup email s.creds)

unfoldable pub handle_taken_by : Accounts → List ℕ → Bool
handle_taken_by s handle = is_found (lookup handle s.handles)

abbrev pub with_user : Accounts → User → List ℕ → List ℕ → Accounts
with_user s u email password_hash = record {
  repo = record s.repo { users = assign u.id u s.repo.users };
  creds =
      assign email (record { user_id = u.id; email = email; password_hash = password_hash })
        s.creds;
  handles = assign u.handle u.id s.handles;
}

unfoldable pub create_user : Accounts → User → List ℕ → List ℕ → AccountError ⊎ Accounts
create_user s u email password_hash =
    if email_taken_by s email
    then inl AccountError.email_taken
    else if handle_taken_by s u.handle
    then inl AccountError.handle_taken
    else inr (with_user s u email password_hash)

-- The account under an email; credentials without their user are a nil pointer.
pub data Found : Type 0 where
  absent dangling : Found
  found : User → Credentials → Found

abbrev pub found_user : Option User → Credentials → Found
found_user none c = Found.dangling
found_user (some u) c = Found.found u c

abbrev pub found_creds : Option Credentials → Accounts → Found
found_creds none s = Found.absent
found_creds (some c) s = found_user (user_by_id s.repo c.user_id) c

unfoldable pub user_by_email : Accounts → List ℕ → Found
user_by_email s email = found_creds (lookup email s.creds) s

-- The first credentials of the user, in the order of the range.
unfoldable pub with_hash :
    List ℕ → List ℕ → List (List ℕ × Credentials) → List (List ℕ × Credentials)
with_hash user_id hash [] = []
with_hash user_id hash ((k, c) ∷ l) =
    let rest = with_hash user_id hash l in
    if bytes_eq c.user_id user_id then (k, record c { password_hash = hash }) ∷ l else (k, c) ∷ rest

unfoldable pub update_password_hash : Accounts → List ℕ → List ℕ → Accounts
update_password_hash s user_id hash = record s { creds = with_hash user_id hash s.creds }
