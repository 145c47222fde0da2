-- ===== src/Identity/Accounts.antt =====
-- Registration and login (server/internal/modules/identity/service.go). Hashing and checking a
-- password, minting a token and SHA-256 are parameters; the ids, the salt and the random token that a call
-- draws are arguments. A text that a caller gives is its runes.
pub mod SignIn
pub mod Registered
pub mod Made
pub mod Logins
use vybe.Identity.Credentials.{
  email_taken_by, handle_taken_by, with_user, create_user, found_user, found_creds, user_by_email,
  with_hash, update_password_hash, Credentials, Accounts, AccountError, Found,
}
use vybe.Base.{
  ℕ, Bool, true, false, not, ◌&&◌, Option, none, some, List, [], ◌∷◌, if◌then◌else◌, ◌⊎◌, inl, inr,
  ltb, length,
}
use vybe.Base.Int.{ℤ, ◌+ℤ◌}
use vybe.Base.Bytes.{bytes_eq, lookup, assign}
use vybe.Base.Json.{runes_of}
use vybe.Base.Runes.{trim_space}
use vybe.Identity.Normal.{
  bytes_of, normalise_email, normalise_handle, normalise_platform, or_default,
}
use vybe.Identity.Refresh.{refresh_token_ttl}
use vybe.Identity.Registration.{
  AgeBand, Date, derive_age_band, defaults_for_band, PasswordError, BreachSet, validate_password,
}
use vybe.Identity.Store.{
  Repo, Session, User, create_session, create_family, insert_refresh_token, user_by_id,
}
use vybe.Identity.Service.{Issuer, TokenPair, access_token_ttl}

-- The passwords package with its salts, the breach set and the lower case of runes outside ASCII.
pub record Passwords : Type 0 where
  pub hash : List ℕ → List ℕ → Option (List ℕ)
  pub verify : List ℕ → List ℕ → Bool
  pub needs_rehash : List ℕ → Bool
  pub breaches : Option BreachSet
  pub lower_rune : ℕ → ℕ

-- What one call draws: ids, a salt and a refresh token, none where the source of randomness fails.
pub record Draws : Type 0 where
  pub user_id : List ℕ
  pub session_id : List ℕ
  pub family_id : List ℕ
  pub jti : List ℕ
  pub salt : List ℕ
  pub refresh_token : Option (List ℕ)

abbrev pub new_session : Passwords → Draws → List ℕ → List ℕ → List ℕ → ℤ → Session
new_session p d user_id device_name platform now = record {
  id = d.session_id;
  user_id = user_id;
  device_name = bytes_of (or_default (trim_space device_name) (runes_of "Unknown device"));
  platform = normalise_platform p.lower_rune platform;
  created_at = now;
  last_seen_at = now;
  revoked_at = none;
}

unfoldable pub minted_pair :
    Option (List ℕ) → Accounts → Draws → User → List ℕ → ℤ → Accounts × (AccountError ⊎ TokenPair)
minted_pair none s d user plaintext now = (s, inl AccountError.internal)
minted_pair (some access) s d user plaintext now = (
  s,
  inr (record {
    access_token = access;
    refresh_token = plaintext;
    expires_at = now +ℤ access_token_ttl;
    session_id = d.session_id;
    user = user;
  }),
)

abbrev pub with_repo : Accounts → Repo → Accounts
with_repo s r = record s { repo = r }

unfoldable pub start_with_token :
    Option (List ℕ) → Issuer → Accounts → Draws → User → ℤ → Accounts × (AccountError ⊎ TokenPair)
start_with_token none i s d user now = (s, inl AccountError.internal)
start_with_token (some plaintext) i s d user now =
    let stored =
      insert_refresh_token s.repo d.family_id (i.sha256 plaintext) (now +ℤ refresh_token_ttl) in
    minted_pair (i.mint user.id d.session_id user.entitlement_tier d.jti) (with_repo s stored) d
      user plaintext now

-- `startSession`
unfoldable pub start_session :
    Passwords
    → Issuer
    → Accounts
    → Draws
    → User
    → List ℕ
    → List ℕ
    → ℤ
    → Accounts × (AccountError ⊎ TokenPair)
start_session p i s d user device_name platform now =
    let opened = create_session s.repo (new_session p d user.id device_name platform now) in
    start_with_token d.refresh_token i
      (with_repo s (create_family opened d.family_id user.id d.session_id)) d user now

-- `password_runes` is the number of runes of the password; `today` is the date of `now`.
pub record RegisterInput : Type 0 where
  pub email : List ℕ
  pub password : List ℕ
  pub password_runes : ℕ
  pub handle : List ℕ
  pub display_name : List ℕ
  pub date_of_birth : Date
  pub locale : List ℕ
  pub region : List ℕ
  pub device_name : List ℕ
  pub platform : List ℕ

abbrev non_empty_or : List ℕ → List ℕ → List ℕ
non_empty_or [] fallback = fallback
non_empty_or (c ∷ l) fallback = c ∷ l

unfoldable pub new_user : Draws → RegisterInput → List ℕ → AgeBand → ℤ → User
new_user d input handle band now = record {
  id = d.user_id;
  handle = handle;
  display_name = non_empty_or (bytes_of (trim_space input.display_name)) handle;
  avatar_url = [];
  locale = bytes_of (or_default input.locale (runes_of "en"));
  region = bytes_of (or_default input.region (runes_of "EG"));
  numeral_system = runes_of "western";
  age_band = band;
  date_of_birth = input.date_of_birth;
  entitlement_tier = runes_of "free";
  is_discoverable = (defaults_for_band band).discoverable;
  created_at = now;
}

unfoldable pub register_created :
    AccountError ⊎ Accounts
    → Passwords
    → Issuer
    → Accounts
    → Draws
    → User
    → RegisterInput
    → ℤ
    → Accounts × (AccountError ⊎ TokenPair)
register_created (inl e) p i s d user input now = (s, inl e)
register_created (inr t) p i s d user input now =
    start_session p i t d user input.device_name input.platform now

unfoldable pub register_hashed :
    Option (List ℕ)
    → Passwords
    → Issuer
    → Accounts
    → Draws
    → User
    → List ℕ
    → RegisterInput
    → ℤ
    → Accounts × (AccountError ⊎ TokenPair)
register_hashed none p i s d user email input now = (s, inl AccountError.internal)
register_hashed (some hash) p i s d user email input now =
    register_created (create_user s user email hash) p i s d user input now

-- From the age band on.
unfoldable pub register_aged :
    AgeBand
    → Passwords
    → Issuer
    → Accounts
    → Draws
    → List ℕ
    → List ℕ
    → RegisterInput
    → ℤ
    → Accounts × (AccountError ⊎ TokenPair)
register_aged AgeBand.under_13 p i s d email handle input now =
    (s, inl AccountError.under_minimum_age)
register_aged band p i s d email handle input now =
    if email_taken_by s email
    then (s, inl AccountError.email_taken)
    else if handle_taken_by s handle
    then (s, inl AccountError.handle_taken)
    else register_hashed (p.hash d.salt input.password) p i s d (new_user d input handle band now)
        email input now

unfoldable pub register_checked :
    Option PasswordError
    → Passwords
    → Issuer
    → Accounts
    → Draws
    → List ℕ
    → List ℕ
    → RegisterInput
    → Date
    → ℤ
    → Accounts × (AccountError ⊎ TokenPair)
register_checked (some e) p i s d email handle input today now =
    (s, inl (AccountError.bad_password e))
register_checked none p i s d email handle input today now =
    register_aged (derive_age_band input.date_of_birth today) p i s d email handle input now

unfoldable pub register_named :
    Option (List ℕ)
    → Passwords
    → Issuer
    → Accounts
    → Draws
    → List ℕ
    → RegisterInput
    → Date
    → ℤ
    → Accounts × (AccountError ⊎ TokenPair)
register_named none p i s d email input today now = (s, inl AccountError.invalid_handle)
register_named (some handle) p i s d email input today now =
    register_checked (validate_password p.breaches input.password_runes input.password) p i s d
      email handle input today now

unfoldable pub register_addressed :
    Option (List ℕ)
    → Passwords
    → Issuer
    → Accounts
    → Draws
    → RegisterInput
    → Date
    → ℤ
    → Accounts × (AccountError ⊎ TokenPair)
register_addressed none p i s d input today now = (s, inl AccountError.invalid_email)
register_addressed (some email) p i s d input today now =
    register_named (normalise_handle p.lower_rune input.handle) p i s d email input today now

unfoldable pub register :
    Passwords
    → Issuer
    → Accounts
    → Draws
    → RegisterInput
    → Date
    → ℤ
    → Accounts × (AccountError ⊎ TokenPair)
register p i s d input today now =
    register_addressed (normalise_email p.lower_rune input.email) p i s d input today now

pub record LoginInput : Type 0 where
  pub email : List ℕ
  pub password : List ℕ
  pub device_name : List ℕ
  pub platform : List ℕ

-- A hash that fails leaves the old one.
unfoldable pub rehashed : Option (List ℕ) → Accounts → List ℕ → Accounts
rehashed none s user_id = s
rehashed (some hash) s user_id = update_password_hash s user_id hash

unfoldable pub login_found :
    Found
    → Passwords
    → Issuer
    → Accounts
    → Draws
    → LoginInput
    → ℤ
    → Accounts × (AccountError ⊎ TokenPair)
login_found Found.absent p i s d input now = (s, inl AccountError.invalid_credentials)
login_found Found.dangling p i s d input now = (s, inl AccountError.nil_pointer)
login_found (Found.found user c) p i s d input now =
    let current =
      if p.needs_rehash c.password_hash
      then rehashed (p.hash d.salt input.password) s user.id
      else s in
    if p.verify input.password c.password_hash
    then start_session p i current d user input.device_name input.platform now
    else (s, inl AccountError.invalid_credentials)

unfoldable pub login_as :
    Option (List ℕ)
    → Passwords
    → Issuer
    → Accounts
    → Draws
    → LoginInput
    → ℤ
    → Accounts × (AccountError ⊎ TokenPair)
login_as none p i s d input now = (s, inl AccountError.invalid_credentials)
login_as (some email) p i s d input now = login_found (user_by_email s email) p i s d input now

unfoldable pub login :
    Passwords → Issuer → Accounts → Draws → LoginInput → ℤ → Accounts × (AccountError ⊎ TokenPair)
login p i s d input now = login_as (normalise_email p.lower_rune input.email) p i s d input now
