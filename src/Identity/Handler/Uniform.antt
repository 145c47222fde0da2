-- ===== src/Identity/Handler/Uniform.antt =====
-- What a refused login tells (server/internal/modules/identity/handler.go).
use vybe.Base.{◌≡◌, refl, false, Option, none, some, List, inl, inr, ℕ}
use vybe.Base.Int.{ℤ}
use vybe.Identity.Service.{Issuer}
use vybe.Identity.Normal.{normalise_email}
use vybe.Identity.Credentials.{Accounts, AccountError, Found, user_by_email}
use vybe.Identity.Accounts.{Passwords, Draws, LoginInput, login_found, login_as, login}
use vybe.Identity.Handler.{
  Reply, handle_login, invalid_credentials_problem, session_or, login_problem,
}

-- There is no account, or its password is another.
abbrev pub IsWrong : Passwords → List ℕ → Found → Type 0
IsWrong p password Found.absent = Unit
IsWrong p password Found.dangling = ⊥
IsWrong p password (Found.found user c) = p.verify password c.password_hash ≡ false

-- The email is none, or leads to no account or to one with another password.
abbrev pub IsWrongAt : Passwords → Accounts → List ℕ → Option (List ℕ) → Type 0
IsWrongAt p s password none = Unit
IsWrongAt p s password (some email) = IsWrong p password (user_by_email s email)

login_found_refused :
    (p : Passwords) (i : Issuer) (s : Accounts) (d : Draws) (input : LoginInput) (now : ℤ)
    (f : Found)
    → IsWrong p input.password f
    → login_found f p i s d input now ≡ (s, inl AccountError.invalid_credentials)
unfolding login_found
login_found_refused p i s d input now Found.absent h = refl
login_found_refused p i s d input now Found.dangling h = absurd h
login_found_refused p i s d input now (Found.found user c) h = rw h refl

login_as_refused :
    (p : Passwords) (i : Issuer) (s : Accounts) (d : Draws) (input : LoginInput) (now : ℤ)
    (o : Option (List ℕ))
    → IsWrongAt p s input.password o
    → login_as o p i s d input now ≡ (s, inl AccountError.invalid_credentials)
unfolding login_as
login_as_refused p i s d input now none h = refl
login_as_refused p i s d input now (some email) h = login_found_refused p i s d input now _ h

-- A login with an email that is none, one without an account, or a wrong password changes nothing, and its
-- answer is the same in all these cases, whatever accounts there are and whatever the call draws.
pub handle_login_uniform :
    (p : Passwords) (i : Issuer) (s t : Accounts) (d e : Draws) (input other : LoginInput)
    (now later : ℤ)
    → IsWrongAt p s input.password (normalise_email p.lower_rune input.email)
    → IsWrongAt p t other.password (normalise_email p.lower_rune other.email)
    → ((handle_login p i s d (inr input) now).0 ≡ s)
      × ((handle_login p i s d (inr input) now).1 ≡ (handle_login p i t e (inr other) later).1)
      × ((handle_login p i s d (inr input) now).1 ≡ Reply.refusal invalid_credentials_problem)
unfolding handle_login login session_or login_problem
handle_login_uniform p i s t d e input other now later h k =
    rw (login_as_refused p i s d input now _ h, login_as_refused p i t e other later _ k)
      (refl, refl, refl)
