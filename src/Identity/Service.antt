-- ===== src/Identity/Service.antt =====
-- Refreshing, logging out and authenticating (server/internal/modules/identity/service.go) over the
-- in-memory repository. Minting and verifying an access token and SHA-256 are parameters; a fresh id
-- or random token is an argument.
pub mod Replay
pub mod Rotation
pub mod Logout
use vybe.Base.{
  ℕ, Bool, true, false, Option, none, some, List, [], ◌∷◌, if◌then◌else◌, ◌⊎◌, inl, inr,
}
use vybe.Base.Int.{ℤ, pos, ◌+ℤ◌}
use vybe.Identity.Refresh.{
  RefreshTokenState, RefreshOutcome, RotationResult, unknown, rotate_now, overlap_replay,
  reuse_detected, expired, family_revoked, evaluate_refresh, rotate, is_unset, overlap_window,
  reuse_reason, family_revocation_reason, refresh_token_ttl,
}
use vybe.Identity.Store.{
  Repo, Session, User, session_by_id, user_by_id, revoke_family, revoke_session, mark_rotated,
  insert_refresh_token, refresh_token_by_hash, create_session, create_family,
}

-- AccessTokenTTL, in nanoseconds.
abbrev pub access_token_ttl : ℤ
access_token_ttl = pos 900_000_000_000

-- What NewRefreshToken, ids.New and Mint work with: `mint user session tier id`.
pub record Issuer : Type 0 where
  pub sha256 : List ℕ → List ℕ
  pub mint : List ℕ → List ℕ → List ℕ → List ℕ → Option (List ℕ)

pub record TokenPair : Type 0 where
  pub access_token : List ℕ
  pub refresh_token : List ℕ
  pub expires_at : ℤ
  pub session_id : List ℕ
  pub user : User

-- ErrRefreshRejected, or a wrapped failure.
pub data RefreshError : Type 0 where
  rejected internal : RefreshError

unfoldable pub pair_with : Option (List ℕ) → RefreshTokenState → User → ℤ → RefreshError ⊎ TokenPair
pair_with none state user now = inl internal
pair_with (some access) state user now = inr (record {
  access_token = access;
  refresh_token = [];
  expires_at = now +ℤ access_token_ttl;
  session_id = state.session_id;
  user = user;
})

unfoldable pub pair_of : Issuer → RefreshTokenState → User → List ℕ → ℤ → RefreshError ⊎ TokenPair
pair_of i state user jti now =
    pair_with (i.mint user.id state.session_id user.entitlement_tier jti) state user now

unfoldable pub issue_for_session :
    Issuer
    → Option Session
    → Option User
    → RefreshTokenState
    → List ℕ
    → ℤ
    → RefreshError ⊎ TokenPair
issue_for_session i none user state jti now = inl rejected
issue_for_session i (some session) none state jti now = inl rejected
issue_for_session i (some session) (some user) state jti now =
    if is_unset session.revoked_at then pair_of i state user jti now else inl rejected

unfoldable pub issue_for_existing_family :
    Issuer → Repo → RefreshTokenState → List ℕ → ℤ → RefreshError ⊎ TokenPair
issue_for_existing_family i s state jti now =
    issue_for_session i (session_by_id s state.session_id) (user_by_id s state.user_id) state jti
      now

unfoldable pub with_refresh_token : List ℕ → RefreshError ⊎ TokenPair → RefreshError ⊎ TokenPair
with_refresh_token plaintext (inl e) = inl e
with_refresh_token plaintext (inr pair) = inr (record pair { refresh_token = plaintext })

-- After MarkRotated: its store and whether it changed a row.
unfoldable pub refresh_marked :
    Issuer
    → Option RotationResult
    → RefreshTokenState
    → List ℕ
    → ℤ
    → Repo
    → Bool
    → Repo × (RefreshError ⊎ TokenPair)
refresh_marked i next state jti now s false = (s, issue_for_existing_family i s state jti now)
refresh_marked i none state jti now s true = (s, inl internal)
refresh_marked i (some next) state jti now s true =
    let t = insert_refresh_token s state.family_id next.hash next.expires_at in
    (t, with_refresh_token next.plaintext (issue_for_existing_family i t state jti now))

-- `Refresh` from its read on: `state` is what was loaded, which the store may have left behind.
unfoldable pub refresh_as :
    RefreshOutcome
    → Issuer
    → Option (List ℕ)
    → RefreshTokenState
    → List ℕ
    → ℤ
    → Repo
    → Repo × (RefreshError ⊎ TokenPair)
refresh_as reuse_detected i minted state jti now s = (
  revoke_session (revoke_family s state.family_id (family_revocation_reason reuse_detected) now)
      state.session_id reuse_reason now,
  inl rejected,
)
refresh_as overlap_replay i minted state jti now s =
    (s, issue_for_existing_family i s state jti now)
refresh_as rotate_now i minted state jti now s =
    let marked = mark_rotated s state.token_hash now (now +ℤ overlap_window) in
    refresh_marked i (rotate i.sha256 minted (some state) now) state jti now marked.0 marked.1
refresh_as _ i minted state jti now s = (s, inl rejected)

unfoldable pub refresh_loaded :
    Issuer
    → Option (List ℕ)
    → Option RefreshTokenState
    → List ℕ
    → ℤ
    → Repo
    → Repo × (RefreshError ⊎ TokenPair)
refresh_loaded i minted none jti now s = (s, inl rejected)
refresh_loaded i minted (some state) jti now s =
    refresh_as (evaluate_refresh (some state) now) i minted state jti now s

unfoldable pub refresh :
    Issuer → Option (List ℕ) → List ℕ → List ℕ → ℤ → Repo → Repo × (RefreshError ⊎ TokenPair)
refresh i minted plaintext jti now s =
    refresh_loaded i minted (refresh_token_by_hash s (i.sha256 plaintext)) jti now s

-- The text "logout".
abbrev pub logout_reason : List ℕ
logout_reason = 108 ∷ 111 ∷ 103 ∷ 111 ∷ 117 ∷ 116 ∷ []

unfoldable pub logout : Repo → List ℕ → ℤ → Repo
logout s session_id now = revoke_session s session_id logout_reason now

pub data AuthError : Type 0 where
  unverified session_revoked : AuthError

unfoldable pub authenticate_session : Option Session → List ℕ → AuthError ⊎ List ℕ
authenticate_session none session_id = inl session_revoked
authenticate_session (some session) session_id =
    if is_unset session.revoked_at then inr session_id else inl session_revoked

-- `verified` is the session id of the claims that Verify returns, none when it fails.
unfoldable pub authenticate : Repo → Option (List ℕ) → AuthError ⊎ List ℕ
authenticate s none = inl unverified
authenticate s (some session_id) = authenticate_session (session_by_id s session_id) session_id
