-- ===== src/Identity/Accounts/SignIn.antt =====
-- What a sign-in leaves behind (server/internal/modules/identity/service.go).
use vybe.Base.{ℕ, ◌≡◌, refl, sym, ap, ◌∙◌, Option, none, some, List, [], inl, inr, ◌⊎◌}
use vybe.Base.Int.{ℤ, ◌+ℤ◌}
use vybe.Base.Bytes.{bytes_eq_refl, lookup, assign, lookup-assign}
use vybe.Identity.Refresh.{RefreshTokenState, is_unset, refresh_token_ttl}
use vybe.Identity.Store.{
  Repo, Session, User, Family, hex_key, create_session, create_family, insert_refresh_token,
  insert_over, refresh_token_by_hash, session_by_id,
}
use vybe.Identity.Service.{Issuer, TokenPair, authenticate, authenticate_session}
use vybe.Identity.Credentials.{Accounts, AccountError}
use vybe.Identity.Accounts.{
  Passwords, Draws, start_session, start_with_token, minted_pair, new_session,
}

pub lookup-own {ℓ} :
    {V : Type ℓ} (k : List ℕ) (v : V) (m : List (List ℕ × V)) → lookup k (assign k v m) ≡ some v
lookup-own k v m = lookup-assign k k v m ∙ rw (bytes_eq_refl k) refl

-- A sign-in that succeeded: the session is open, the refresh token may be exchanged, and nothing else of the
-- accounts has changed.
pub record IsSignedIn (i : Issuer) (s t : Accounts) (user : User) (pair : TokenPair) (now : ℤ)
    : Type 0 where
  pub signed_user : pair.user ≡ user
  pub same_creds : t.creds ≡ s.creds
  pub same_handles : t.handles ≡ s.handles
  pub same_users : t.repo.users ≡ s.repo.users
  pub live : authenticate t.repo (some pair.session_id) ≡ inr pair.session_id
  pub state : RefreshTokenState
  pub stored : refresh_token_by_hash t.repo (i.sha256 pair.refresh_token) ≡ some state
  pub unused : (state.rotated_at ≡ none) × (state.family_revoked_at ≡ none)
  pub expires : state.expires_at ≡ now +ℤ refresh_token_ttl
  pub owner : (state.user_id ≡ user.id) × (state.session_id ≡ pair.session_id)

minted_pair-IsSignedIn :
    (i : Issuer) (s u t : Accounts) (d : Draws) (user : User) (plaintext : List ℕ) (now : ℤ)
    (o : Option (List ℕ)) (pair : TokenPair) (sess : Session) (state : RefreshTokenState)
    → minted_pair o u d user plaintext now ≡ (t, inr pair)
    → u.creds ≡ s.creds
    → u.handles ≡ s.handles
    → u.repo.users ≡ s.repo.users
    → lookup d.session_id u.repo.sessions ≡ some sess
    → sess.revoked_at ≡ none
    → lookup (hex_key (i.sha256 plaintext)) u.repo.tokens ≡ some state
    → (state.rotated_at ≡ none) × (state.family_revoked_at ≡ none)
    → state.expires_at ≡ now +ℤ refresh_token_ttl
    → (state.user_id ≡ user.id) × (state.session_id ≡ d.session_id)
    → IsSignedIn i s t user pair now
unfolding minted_pair authenticate authenticate_session session_by_id refresh_token_by_hash is_unset
minted_pair-IsSignedIn i s u t d user plaintext now none pair sess state h a b c e f g j k l =
    absurd (no_pair (ap (λ x. x.1) h))
  where
    no_pair : {e : AccountError} → inl e ≡ inr pair → ⊥
    no_pair x = cc
minted_pair-IsSignedIn i s u t d user plaintext now (some access) pair sess state h a b c e f g j k
      l =
    let store : u ≡ t = ap (λ x. x.0) h in
    let made : TokenPair = record {
      access_token = access;
      refresh_token = plaintext;
      expires_at = now +ℤ vybe.Identity.Service.access_token_ttl;
      session_id = d.session_id;
      user = user;
    } in
    let same : made ≡ pair = ap (pair_or made) (ap (λ x. x.1) h) in
    rw (sym store, sym same)
      record {
        signed_user = refl;
        same_creds = a;
        same_handles = b;
        same_users = c;
        live = rw (e, f) refl;
        state = state;
        stored = g;
        unused = j;
        expires = k;
        owner = l;
      }
  where
    pair_or : TokenPair → AccountError ⊎ TokenPair → TokenPair
    pair_or d (inl e) = d
    pair_or d (inr x) = x

start_with_token-IsSignedIn :
    (i : Issuer) (s u t : Accounts) (d : Draws) (user : User) (now : ℤ) (o : Option (List ℕ))
    (pair : TokenPair) (sess : Session) (f : Family)
    → start_with_token o i u d user now ≡ (t, inr pair)
    → u.creds ≡ s.creds
    → u.handles ≡ s.handles
    → u.repo.users ≡ s.repo.users
    → lookup d.session_id u.repo.sessions ≡ some sess
    → sess.revoked_at ≡ none
    → lookup d.family_id u.repo.families ≡ some f
    → f.revoked_at ≡ none
    → (f.user_id ≡ user.id) × (f.session_id ≡ d.session_id)
    → IsSignedIn i s t user pair now
unfolding start_with_token insert_refresh_token insert_over
start_with_token-IsSignedIn i s u t d user now none pair sess f h a b c e g j k l =
    absurd (no_pair (ap (λ x. x.1) h))
  where
    no_pair : {e : AccountError} → inl e ≡ inr pair → ⊥
    no_pair x = cc
start_with_token-IsSignedIn i s u t d user now (some plaintext) pair sess f h a b c e g j k l =
    let state : RefreshTokenState = record {
      token_hash = i.sha256 plaintext;
      family_id = d.family_id;
      session_id = f.session_id;
      user_id = f.user_id;
      expires_at = now +ℤ refresh_token_ttl;
      rotated_at = none;
      valid_until_overlap = none;
      family_revoked_at = f.revoked_at;
      family_revoked_why = f.revoked_reason;
    } in
    let repo : Repo = record u.repo {
      tokens = assign (hex_key (i.sha256 plaintext)) state u.repo.tokens;
    } in
    let stored : insert_refresh_token u.repo d.family_id (i.sha256 plaintext)
          (now +ℤ refresh_token_ttl)
        ≡ repo =
      ap (λ x. insert_over x u.repo d.family_id (i.sha256 plaintext) (now +ℤ refresh_token_ttl))
        j in
    let access = i.mint user.id d.session_id user.entitlement_tier d.jti in
    minted_pair-IsSignedIn i s (record u { repo = repo }) t d user plaintext now access pair sess
      state
      (ap (λ r. minted_pair access (record u { repo = r }) d user plaintext now) (sym stored) ∙ h) a
      b c e g (lookup-own (hex_key (i.sha256 plaintext)) state u.repo.tokens) (refl, k) refl l

pub start_session-IsSignedIn :
    (p : Passwords) (i : Issuer) (s t : Accounts) (d : Draws) (user : User)
    (device platform : List ℕ) (now : ℤ) (pair : TokenPair)
    → start_session p i s d user device platform now ≡ (t, inr pair)
    → IsSignedIn i s t user pair now
unfolding start_session create_session create_family
start_session-IsSignedIn p i s t d user device platform now pair h =
    start_with_token-IsSignedIn i s _ t d user now d.refresh_token pair
      (new_session p d user.id device platform now)
      (record {
        id = d.family_id;
        user_id = user.id;
        session_id = d.session_id;
        revoked_at = none;
        revoked_reason = [];
      })
      h refl refl refl (lookup-own d.session_id _ s.repo.sessions) refl
      (lookup-own d.family_id _ s.repo.families) refl (refl, refl)
