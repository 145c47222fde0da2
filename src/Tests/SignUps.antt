-- ===== src/Tests/SignUps.antt =====
-- A registration and the login after it (server/internal/modules/identity/service.go).
use vybe.Base.{
  ℕ, ◌≡◌, ◌≢◌, refl, ap, true, false, Bool, not, Option, some, none, List, [], ◌∷◌, ◌⊎◌, inl, inr,
}
use vybe.Base.Int.{pos, ◌-ℤ◌}
use vybe.Base.Bytes.{bytes_eq, bytes_eq_refl, lookup, assign}
use vybe.Base.Json.{utf8}
use vybe.Base.Runes.{trim_space, trim_left, trim_right, is_space}
use vybe.Identity.Normal.{
  normalise_email, normalise_handle, folded, bytes_of, to_lower, index_byte, contains_byte,
  has_blank, handle_from,
}
use vybe.Identity.Normal.Handles.{IsHandle, normalise_handle-IsHandle}
use vybe.Identity.Registration.{
  AgeBand, Date, derive_age_band, completed_years, is_before_birthday, band_of, is_minor_under_16,
  validate_password, breach_check, breach_error,
}
use vybe.Identity.Store.{
  User, user_by_id, create_session, create_family, insert_refresh_token, insert_over,
}
use vybe.Identity.Service.{Issuer, TokenPair}
use vybe.Identity.Credentials.{
  Accounts, AccountError, email_taken_by, handle_taken_by, create_user, user_by_email,
}
use vybe.Identity.Accounts.{
  Passwords, Draws, RegisterInput, start_session, start_with_token, minted_pair, register_created,
  register_hashed, register_aged, register_checked, register_named, register_addressed, register,
  login, LoginInput, new_user,
}
use vybe.Identity.Handler.{Reply, invalid_credentials_problem, handle_login}
use vybe.Identity.Handler.Uniform.{IsWrongAt, handle_login_uniform}
use vybe.Identity.Accounts.SignIn.{IsSignedIn}
use vybe.Identity.Accounts.Made.{IsMade}
use vybe.Identity.Accounts.Registered.{Answer}
use vybe.Identity.Accounts.Logins.{IsVerified, register-IsSignedIn, register-login}

abbrev passwords : Passwords
passwords = record {
  hash = λ salt password. some password;
  verify = λ password hash. bytes_eq password hash;
  needs_rehash = λ hash. true;
  breaches = some (λ password. some false);
  lower_rune = λ r. r;
}

abbrev issuer : Issuer
issuer = record { sha256 = λ l. l; mint = λ user session tier id. some id }

abbrev nobody : Accounts
nobody = record {
  repo = record { users = []; sessions = []; families = []; tokens = [] };
  creds = [];
  handles = [];
}

abbrev draws : ℕ → Draws
draws n = record {
  user_id = n ∷ [];
  session_id = n ∷ [];
  family_id = n ∷ [];
  jti = n ∷ [];
  salt = [];
  refresh_token = some (n ∷ []);
}

abbrev today : Date
today = record { year = pos 2026; month = 7; day = 1 }

-- " Ab_1 " of "A@b.c", who is 16.
abbrev applicant : RegisterInput
applicant = record {
  email = 65 ∷ 64 ∷ 98 ∷ 46 ∷ 99 ∷ [];
  password = 1 ∷ 2 ∷ 3 ∷ [];
  password_runes = 12;
  handle = 32 ∷ 65 ∷ 98 ∷ 95 ∷ 49 ∷ 32 ∷ [];
  display_name = [];
  date_of_birth = record { year = pos 2010; month = 7; day = 1 };
  locale = [];
  region = [];
  device_name = [];
  platform = [];
}

abbrev answer : Answer
answer = register passwords issuer nobody (draws 1) applicant today (pos 5)

abbrev member : User
member = record {
  id = [];
  handle = [];
  display_name = [];
  avatar_url = [];
  locale = [];
  region = [];
  numeral_system = [];
  age_band = AgeBand.adult;
  date_of_birth = today;
  entitlement_tier = [];
  is_discoverable = true;
  created_at = pos 0;
}

abbrev no_pair : TokenPair
no_pair = record {
  access_token = [];
  refresh_token = [];
  expires_at = pos 0;
  session_id = [];
  user = member;
}

abbrev pair_in : AccountError ⊎ TokenPair → TokenPair
pair_in (inl e) = no_pair
pair_in (inr pair) = pair

abbrev is_signed : AccountError ⊎ TokenPair → Bool
is_signed (inl e) = false
is_signed (inr pair) = true

signed_in :
    (a : Answer) → is_signed a.1 ≡ true → (let b : Answer = (a.0, inr (pair_in a.1)) in a ≡ b)
signed_in (s, inl e) h = absurd cc
signed_in (s, inr pair) h = refl

registered : let b : Answer = (answer.0, inr (pair_in answer.1)) in answer ≡ b
unfolding register register_addressed register_named register_checked register_aged register_hashed
    register_created create_user start_session start_with_token minted_pair email_taken_by
    handle_taken_by normalise_email normalise_handle folded bytes_of to_lower utf8 index_byte
    contains_byte has_blank handle_from trim_space trim_left trim_right is_space bytes_eq lookup
    assign validate_password breach_check breach_error derive_age_band completed_years
    is_before_birthday band_of ◌-ℤ◌ create_session create_family insert_refresh_token insert_over
registered = signed_in answer refl

register-IsSignedIn_example :
    let pair = pair_in answer.1 in
    IsMade passwords nobody answer.0 (draws 1) applicant pair.user
    × (pair.user.id ≡ 1 ∷ [])
    × (pair.user.age_band ≡ derive_age_band (record { year = pos 2010; month = 7; day = 1 }) today)
    × (pair.user.age_band ≢ AgeBand.under_13)
    × (pair.user.is_discoverable ≡ not (is_minor_under_16 pair.user.age_band))
    × IsHandle pair.user.handle
    × ((before : Accounts) × IsSignedIn issuer before answer.0 pair.user pair (pos 5))
register-IsSignedIn_example =
    register-IsSignedIn passwords issuer nobody answer.0 (draws 1) applicant today (pos 5)
      (pair_in answer.1) registered

law : IsVerified passwords
law salt password hash h = bytes_match password hash h
  where
    bytes_or : List ℕ → Option (List ℕ) → List ℕ
    bytes_or d none = d
    bytes_or d (some b) = b

    bytes_match : (a b : List ℕ) → some a ≡ some b → bytes_eq a b ≡ true
    bytes_match a b k = let e : a ≡ b = ap (bytes_or a) k in rw e (bytes_eq_refl b)

register-login_example :
    (u : Accounts) × (again : TokenPair) × (before : Accounts) × (let a : Answer =
        login passwords issuer answer.0
          (draws 2)
          (record {
            email = applicant.email;
            password = applicant.password;
            device_name = [];
            platform = [];
          })
          (pos 9) in
      let b : Answer = (u, inr again) in a ≡ b)
    × IsSignedIn issuer before u (pair_in answer.1).user again (pos 9)
register-login_example =
    register-login passwords issuer nobody answer.0 (draws 1) (draws 2) applicant today (pos 5)
      (pos 9) (pair_in answer.1) [] [] (2 ∷ []) (2 ∷ []) law registered refl refl

normalise_handle-IsHandle_example :
    IsHandle (97 ∷ 98 ∷ 95 ∷ 49 ∷ [])
    × (normalise_handle passwords.lower_rune (97 ∷ 98 ∷ 95 ∷ 49 ∷ [])
        ≡ some (97 ∷ 98 ∷ 95 ∷ 49 ∷ []))
unfolding normalise_handle folded bytes_of to_lower utf8 handle_from trim_space trim_left trim_right
    is_space
normalise_handle-IsHandle_example =
    normalise_handle-IsHandle passwords.lower_rune applicant.handle (97 ∷ 98 ∷ 95 ∷ 49 ∷ []) refl

abbrev guess : LoginInput
guess = record { email = applicant.email; password = []; device_name = []; platform = [] }

abbrev vague : LoginInput
vague = record { email = []; password = []; device_name = []; platform = [] }

guess-IsWrongAt :
    IsWrongAt passwords answer.0 guess.password (normalise_email passwords.lower_rune guess.email)
unfolding register register_addressed register_named register_checked register_aged register_hashed
    register_created create_user start_session start_with_token minted_pair email_taken_by
    handle_taken_by normalise_email normalise_handle folded bytes_of to_lower utf8 index_byte
    contains_byte has_blank handle_from trim_space trim_left trim_right is_space bytes_eq lookup
    assign validate_password breach_check breach_error derive_age_band completed_years
    is_before_birthday band_of ◌-ℤ◌ create_session create_family insert_refresh_token insert_over
    user_by_email user_by_id new_user
guess-IsWrongAt = refl

vague-IsWrongAt :
    IsWrongAt passwords nobody vague.password (normalise_email passwords.lower_rune vague.email)
unfolding normalise_email folded bytes_of to_lower trim_space trim_left trim_right index_byte
    contains_byte has_blank bytes_eq
vague-IsWrongAt = tt

handle_login_uniform_example :
    ((handle_login passwords issuer answer.0 (draws 1) (inr guess) (pos 6)).0 ≡ answer.0)
    × ((handle_login passwords issuer answer.0 (draws 1) (inr guess) (pos 6)).1
        ≡ (handle_login passwords issuer nobody (draws 2) (inr vague) (pos 7)).1)
    × ((handle_login passwords issuer answer.0 (draws 1) (inr guess) (pos 6)).1
        ≡ Reply.refusal invalid_credentials_problem)
handle_login_uniform_example =
    handle_login_uniform passwords issuer answer.0 nobody (draws 1) (draws 2) guess vague (pos 6)
      (pos 7) guess-IsWrongAt vague-IsWrongAt
