-- ===== src/Identity/Accounts/Made.antt =====
-- The account that a registration makes in the tables of the repository
-- (server/internal/modules/identity/service.go, identitytest/memstore.go).
use vybe.Base.{◌≡◌, refl, false, Option, none, some, List, ℕ, if◌then◌else◌}
use vybe.Base.Bytes.{bytes_eq, lookup, lookup-assign}
use vybe.Identity.Normal.{normalise_email, normalise_handle}
use vybe.Identity.Store.{User}
use vybe.Identity.Credentials.{Accounts, is_found, email_taken_by, handle_taken_by, with_user}
use vybe.Identity.Accounts.{Passwords, Draws, RegisterInput}

-- The tables hold the user under its id, its id under its handle and its credentials under its email, none
-- of which but the id they held before, and under every other key they hold what they held.
pub record IsMade (p : Passwords) (s t : Accounts) (d : Draws) (input : RegisterInput) (user : User)
    : Type 0 where
  pub email : List ℕ
  pub hash : List ℕ
  pub addressed : normalise_email p.lower_rune input.email ≡ some email
  pub named : normalise_handle p.lower_rune input.handle ≡ some user.handle
  pub hashed : p.hash d.salt input.password ≡ some hash
  pub new_email : lookup email s.creds ≡ none
  pub new_handle : lookup user.handle s.handles ≡ none
  pub users :
      (k : List ℕ)
      → lookup k t.repo.users ≡ (if bytes_eq user.id k then some user else lookup k s.repo.users)
  pub handles :
      (k : List ℕ)
      → lookup k t.handles ≡ (if bytes_eq user.handle k then some user.id else lookup k s.handles)
  pub creds :
      (k : List ℕ)
      → lookup k t.creds ≡ (
          if bytes_eq email k
          then some (record { user_id = user.id; email = email; password_hash = hash })
          else lookup k s.creds)

is_found-none {ℓ} : {A : Type ℓ} (o : Option A) → is_found o ≡ false → o ≡ none
is_found-none none k = refl
is_found-none (some a) k = absurd cc

pub email_taken_by-none :
    (s : Accounts) (email : List ℕ) → email_taken_by s email ≡ false → lookup email s.creds ≡ none
unfolding email_taken_by
email_taken_by-none s email h = is_found-none (lookup email s.creds) h

pub handle_taken_by-none :
    (s : Accounts) (handle : List ℕ)
    → handle_taken_by s handle ≡ false
    → lookup handle s.handles ≡ none
unfolding handle_taken_by
handle_taken_by-none s handle h = is_found-none (lookup handle s.handles) h

-- What the tables of `with_user` hold.
pub with_user-users :
    (s : Accounts) (u : User) (email hash k : List ℕ)
    → lookup k (with_user s u email hash).repo.users
      ≡ (if bytes_eq u.id k then some u else lookup k s.repo.users)
with_user-users s u email hash k = lookup-assign u.id k u s.repo.users

pub with_user-handles :
    (s : Accounts) (u : User) (email hash k : List ℕ)
    → lookup k (with_user s u email hash).handles
      ≡ (if bytes_eq u.handle k then some u.id else lookup k s.handles)
with_user-handles s u email hash k = lookup-assign u.handle k u.id s.handles

pub with_user-creds :
    (s : Accounts) (u : User) (email hash k : List ℕ)
    → lookup k (with_user s u email hash).creds ≡ (
        if bytes_eq email k
        then some (record { user_id = u.id; email = email; password_hash = hash })
        else lookup k s.creds)
with_user-creds s u email hash k = lookup-assign email k _ s.creds
