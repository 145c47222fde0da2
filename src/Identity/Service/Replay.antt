-- ===== src/Identity/Service/Replay.antt =====
-- What a refresh token is worth after its rotation: in the overlap window, after it, and in a race
-- (server/internal/modules/identity/service.go).
use vybe.Base.{
  ℕ, ◌≡◌, refl, ap, sym, subst, ◌∙◌, true, false, Option, none, some, List, [], arith, Bool-cases,
  inl, inr, ◌⊎◌,
}
use vybe.Base.Int.{ℤ, leb_ℤ, ◌+ℤ◌}
use vybe.Base.Bytes.{lookup}
use vybe.Identity.Refresh.{
  RefreshTokenState, RefreshOutcome, is_unset, is_reached, is_within, is_expired, evaluate_refresh,
  overlap_replay, reuse_detected, overlap_window, reuse_reason, family_revocation_reason,
}
use vybe.Identity.Store.{
  Repo, Family, Session, User, revoke_family, revoke_session, refresh_token_by_hash, session_by_id,
  user_by_id,
}
use vybe.Identity.Store.Revocation.{IsFamilyDead, revoke_family-dead, revoke_session-keeps}
use vybe.Identity.Service.{
  Issuer, TokenPair, RefreshError, rejected, refresh, refresh_loaded, refresh_as,
  issue_for_existing_family, issue_for_session, pair_of, pair_with,
}

-- The row of a token rotated at an instant.
unfoldable pub rotated_row : RefreshTokenState → ℤ → RefreshTokenState
rotated_row t at = record t {
  rotated_at = some at;
  valid_until_overlap = some (at +ℤ overlap_window);
}

-- A pair that carries no refresh token, or a refusal.
unfoldable pub IsWithoutToken : RefreshError ⊎ TokenPair → Type 0
IsWithoutToken (inl e) = Unit
IsWithoutToken (inr pair) = pair.refresh_token ≡ []

-- Neither the family's revocation nor the expiry of a row has been reached.
abbrev pub IsAlive : RefreshTokenState → ℤ → Type 0
IsAlive t now = is_reached now t.family_revoked_at ≡ false × is_expired t now ≡ false

evaluate-overlap :
    (t : RefreshTokenState) (at now : ℤ)
    → IsAlive t now
    → leb_ℤ now (at +ℤ overlap_window) ≡ true
    → evaluate_refresh (some (rotated_row t at)) now ≡ overlap_replay
unfolding evaluate_refresh rotated_row is_within is_unset is_expired
evaluate-overlap t at now (a, b) h = ground (arith, a, b, h)

evaluate-late :
    (t : RefreshTokenState) (at now : ℤ)
    → IsAlive t now
    → leb_ℤ now (at +ℤ overlap_window) ≡ false
    → evaluate_refresh (some (rotated_row t at)) now ≡ reuse_detected
unfolding evaluate_refresh rotated_row is_within is_unset is_expired
evaluate-late t at now (a, b) h = ground (arith, a, b, h)

pair_with-IsWithoutToken :
    (o : Option (List ℕ)) (t : RefreshTokenState) (u : User) (now : ℤ)
    → IsWithoutToken (pair_with o t u now)
unfolding pair_with IsWithoutToken
pair_with-IsWithoutToken none t u now = tt
pair_with-IsWithoutToken (some x) t u now = refl

session-IsWithoutToken :
    (i : Issuer) (a : Option Session) (u : Option User) (t : RefreshTokenState) (jti : List ℕ)
    (now : ℤ)
    → IsWithoutToken (issue_for_session i a u t jti now)
unfolding issue_for_session pair_of IsWithoutToken
session-IsWithoutToken i none u t jti now = tt
session-IsWithoutToken i (some a) none t jti now = tt
session-IsWithoutToken i (some a) (some u) t jti now = elim (Bool-cases (is_unset a.revoked_at)) [
  | inl e ↦
      rw e (pair_with-IsWithoutToken (i.mint u.id t.session_id u.entitlement_tier jti) t u now)
  | inr e ↦ rw e tt
]

pub issue-IsWithoutToken :
    (i : Issuer) (s : Repo) (t : RefreshTokenState) (jti : List ℕ) (now : ℤ)
    → IsWithoutToken (issue_for_existing_family i s t jti now)
unfolding issue_for_existing_family
issue-IsWithoutToken i s t jti now =
    session-IsWithoutToken i (session_by_id s t.session_id) (user_by_id s t.user_id) t jti now

-- A row that is in the store decides the refresh.
pub refresh-stored :
    (i : Issuer) (minted : Option (List ℕ)) (p jti : List ℕ) (now : ℤ) (s : Repo)
    (t : RefreshTokenState) (o : RefreshOutcome)
    → refresh_token_by_hash s (i.sha256 p) ≡ some t
    → evaluate_refresh (some t) now ≡ o
    → refresh i minted p jti now s ≡ refresh_as o i minted t jti now s
unfolding refresh refresh_loaded
refresh-stored i minted p jti now s t o h e =
    ap (λ x. refresh_loaded i minted x jti now s) h ∙ ap (λ x. refresh_as x i minted t jti now s) e

-- A rotated token presented within the overlap window changes nothing and earns no refresh token.
pub refresh-retry :
    (i : Issuer) (minted : Option (List ℕ)) (p jti : List ℕ) (at now : ℤ) (s : Repo)
    (t : RefreshTokenState)
    → refresh_token_by_hash s (i.sha256 p) ≡ some (rotated_row t at)
    → IsAlive t now
    → leb_ℤ now (at +ℤ overlap_window) ≡ true
    → (refresh i minted p jti now s).0 ≡ s × IsWithoutToken (refresh i minted p jti now s).1
unfolding refresh_as
refresh-retry i minted p jti at now s t h a w =
    let r = rotated_row t at in
    let e =
      refresh-stored i minted p jti now s r overlap_replay h (evaluate-overlap t at now a w) in
    (ap (λ x. x.0) e, subst (λ x. IsWithoutToken x.1) (sym e) (issue-IsWithoutToken i s r jti now))

-- A rotated token presented after the overlap window, while neither its expiry nor a revocation
-- of its family is reached, is refused, and every token of its family is dead from then on, when
-- its family stands in the store under its id and was not revoked before.
pub refresh-reuse :
    (i : Issuer) (minted : Option (List ℕ)) (p jti : List ℕ) (at now : ℤ) (s : Repo)
    (t : RefreshTokenState) (f : Family)
    → refresh_token_by_hash s (i.sha256 p) ≡ some (rotated_row t at)
    → IsAlive t now
    → leb_ℤ now (at +ℤ overlap_window) ≡ false
    → lookup f.id s.families ≡ some f
    → is_unset f.revoked_at ≡ true
    → t.family_id ≡ f.id
    → (refresh i minted p jti now s).1 ≡ inl rejected
      × IsFamilyDead now f.id (refresh i minted p jti now s).0.tokens
unfolding refresh_as rotated_row
refresh-reuse i minted p jti at now s t f h a w hf hu hi =
    let r = rotated_row t at in
    let e = refresh-stored i minted p jti now s r reuse_detected h (evaluate-late t at now a w) in
    let why = family_revocation_reason reuse_detected in
    let dead =
      revoke_session-keeps (revoke_family s f.id why now) f.id t.session_id reuse_reason now
        (revoke_family-dead s f why now hf hu) in
    (
      ap (λ x. x.1) e,
      subst (λ x. IsFamilyDead now f.id x.0.tokens) (sym e)
          (subst
            (λ x.
              IsFamilyDead now f.id
                (revoke_session (revoke_family s x why now) t.session_id reuse_reason now).tokens)
            (sym hi) dead),
    )
