-- ===== src/Identity/Accounts/Logins.antt =====
-- From a registration to a login (server/internal/modules/identity/service.go).
use vybe.Base.{
  ℕ, ◌≡◌, ◌≢◌, refl, sym, ap, subst, ◌∙◌, true, not, Option, none, some, List, inr, if◌then◌else◌,
}
use vybe.Base.Int.{ℤ}
use vybe.Base.Bytes.{lookup}
use vybe.Identity.Normal.Handles.{IsHandle, normalise_handle-IsHandle}
use vybe.Identity.Registration.{
  AgeBand, Date, derive_age_band, defaults_for_band, is_minor_under_16,
}
use vybe.Identity.Store.{User, user_by_id}
use vybe.Identity.Service.{Issuer, TokenPair}
use vybe.Identity.Credentials.{Accounts, Credentials, with_user, user_by_email}
use vybe.Identity.Accounts.{
  Passwords, Draws, RegisterInput, rehashed, new_user, start_session, start_with_token, minted_pair,
  register, login_found, login_as, login,
}
use vybe.Identity.Accounts.SignIn.{lookup-own, IsSignedIn, start_session-IsSignedIn}
use vybe.Identity.Accounts.Made.{
  IsMade, email_taken_by-none, handle_taken_by-none, with_user-users, with_user-handles,
  with_user-creds,
}
use vybe.Identity.Accounts.Registered.{Answer, register-IsRegistered}

discoverable-minor : (b : AgeBand) → (defaults_for_band b).discoverable ≡ not (is_minor_under_16 b)
unfolding defaults_for_band is_minor_under_16
discoverable-minor AgeBand.under_13 = refl
discoverable-minor AgeBand.teen_13_15 = refl
discoverable-minor AgeBand.teen_16_17 = refl
discoverable-minor AgeBand.adult = refl

-- A registration that succeeds has made an account: the tables hold the user of the answer under the id that
-- was drawn, its handle and its credentials under the normal forms of what was asked for, which were free,
-- and are as before elsewhere. The user is 13 or over, has a well-formed handle and is discoverable exactly if
-- not under 16. Its session is open and its refresh token may be exchanged.
pub register-IsSignedIn :
    (p : Passwords) (i : Issuer) (s t : Accounts) (d : Draws) (input : RegisterInput) (today : Date)
    (now : ℤ) (pair : TokenPair)
    → register p i s d input today now ≡ (t, inr pair)
    → IsMade p s t d input pair.user
      × (pair.user.id ≡ d.user_id)
      × (pair.user.age_band ≡ derive_age_band input.date_of_birth today)
      × (pair.user.age_band ≢ AgeBand.under_13)
      × (pair.user.is_discoverable ≡ not (is_minor_under_16 pair.user.age_band))
      × IsHandle pair.user.handle
      × ((before : Accounts) × IsSignedIn i before t pair.user pair now)
unfolding new_user
register-IsSignedIn p i s t d input today now pair h =
    let r = register-IsRegistered p i s t d input today now pair h in
    let user = new_user d input r.handle (derive_age_band input.date_of_birth today) now in
    let signed =
      start_session-IsSignedIn p i (with_user s user r.email r.hash) t d user input.device_name
        input.platform now pair r.started in
    subst
      (λ u.
        IsMade p s t d input u
        × (u.id ≡ d.user_id)
        × (u.age_band ≡ derive_age_band input.date_of_birth today)
        × (u.age_band ≢ AgeBand.under_13)
        × (u.is_discoverable ≡ not (is_minor_under_16 u.age_band))
        × IsHandle u.handle
        × ((before : Accounts) × IsSignedIn i before t u pair now))
      (sym signed.signed_user)
      (
        record {
          email = r.email;
          hash = r.hash;
          addressed = r.addressed;
          named = r.named;
          hashed = r.hashed;
          new_email = email_taken_by-none s r.email r.new_email;
          new_handle = handle_taken_by-none s r.handle r.new_handle;
          users = λ k. ap (lookup k) signed.same_users ∙ with_user-users s user r.email r.hash k;
          handles =
              λ k. ap (lookup k) signed.same_handles ∙ with_user-handles s user r.email r.hash k;
          creds = λ k. ap (lookup k) signed.same_creds ∙ with_user-creds s user r.email r.hash k;
        },
        refl,
        refl,
        r.old_enough,
        discoverable-minor (derive_age_band input.date_of_birth today),
        (normalise_handle-IsHandle p.lower_rune input.handle r.handle r.named).0,
        (with_user s user r.email r.hash, signed),
      )

-- An operation that answers with a pair.
Gives : Answer → Type 0
Gives a = (t : Accounts) × (pair : TokenPair) × (let b : Answer = (t, inr pair) in a ≡ b)

minted_pair-Gives :
    (o : Option (List ℕ)) (s : Accounts) (d : Draws) (user : User) (plaintext access : List ℕ)
    (now : ℤ)
    → o ≡ some access
    → Gives (minted_pair o s d user plaintext now)
unfolding minted_pair Gives
minted_pair-Gives none s d user plaintext access now h = absurd cc
minted_pair-Gives (some a) s d user plaintext access now h = (_, _, refl)

start_with_token-Gives :
    (o : Option (List ℕ)) (i : Issuer) (s : Accounts) (d : Draws) (user : User)
    (plaintext access : List ℕ) (now : ℤ)
    → o ≡ some plaintext
    → i.mint user.id d.session_id user.entitlement_tier d.jti ≡ some access
    → Gives (start_with_token o i s d user now)
unfolding start_with_token
start_with_token-Gives none i s d user plaintext access now h m = absurd cc
start_with_token-Gives (some q) i s d user plaintext access now h m =
    minted_pair-Gives (i.mint user.id d.session_id user.entitlement_tier d.jti) _ d user q access
      now m

start_session-some :
    (p : Passwords) (i : Issuer) (s : Accounts) (d : Draws) (user : User)
    (device platform plaintext access : List ℕ) (now : ℤ)
    → d.refresh_token ≡ some plaintext
    → i.mint user.id d.session_id user.entitlement_tier d.jti ≡ some access
    → Gives (start_session p i s d user device platform now)
unfolding start_session
start_session-some p i s d user device platform plaintext access now drawn minted =
    start_with_token-Gives d.refresh_token i _ d user plaintext access now drawn minted

-- The password that a hash was made from passes its check.
abbrev pub IsVerified : Passwords → Type 0
IsVerified p =
    (salt password hash : List ℕ) → p.hash salt password ≡ some hash → p.verify password hash ≡ true

-- Who has registered can log in with the same email and password, on any device, whether or not the hash is
-- renewed on the way, when the password check accepts what was hashed and the token and its signature are
-- there: the answer is a sign-in of the registered user.
pub register-login :
    (p : Passwords) (i : Issuer) (s t : Accounts) (d again : Draws) (input : RegisterInput)
    (today : Date) (now later : ℤ) (pair : TokenPair) (device platform plaintext access : List ℕ)
    → IsVerified p
    → register p i s d input today now ≡ (t, inr pair)
    → again.refresh_token ≡ some plaintext
    → i.mint pair.user.id again.session_id pair.user.entitlement_tier again.jti ≡ some access
    → (u : Accounts) × (answer : TokenPair) × (before : Accounts) × (let a : Answer =
          login p i t again
            (record {
              email = input.email;
              password = input.password;
              device_name = device;
              platform = platform;
            })
            later in
        let b : Answer = (u, inr answer) in a ≡ b)
      × IsSignedIn i before u pair.user answer later
unfolding login login_as login_found user_by_email user_by_id new_user Gives
register-login p i s t d again input today now later pair device platform plaintext access law h
      drawn minted =
    let r = register-IsRegistered p i s t d input today now pair h in
    let user = new_user d input r.handle (derive_age_band input.date_of_birth today) now in
    let signed =
      start_session-IsSignedIn p i (with_user s user r.email r.hash) t d user input.device_name
        input.platform now pair r.started in
    let c : Credentials = record { user_id = user.id; email = r.email; password_hash = r.hash } in
    let in_creds : lookup r.email t.creds ≡ some c =
      ap (lookup r.email) signed.same_creds ∙ lookup-own r.email c s.creds in
    let in_users : lookup user.id t.repo.users ≡ some user =
      ap (lookup user.id) signed.same_users ∙ lookup-own user.id user s.repo.users in
    let passes = law d.salt input.password r.hash r.hashed in
    let current =
      if p.needs_rehash r.hash then rehashed (p.hash again.salt input.password) t user.id else t in
    let own : pair.user ≡ user = signed.signed_user in
    let (u, answer, is) =
      start_session-some p i current again user device platform plaintext access later drawn
        (ap (λ x. i.mint x.id again.session_id x.entitlement_tier again.jti) (sym own) ∙ minted) in
    (
      u,
      answer,
      current,
      rw (r.addressed, in_creds) (rw (in_users, passes) is),
      subst (λ x. IsSignedIn i current u x answer later) (sym own)
          (start_session-IsSignedIn p i current u again user device platform later answer is),
    )
