-- ===== src/Identity/Service/Logout.antt =====
-- What is left of a session after a logout (server/internal/modules/identity/service.go).
use vybe.Base.{
  ℕ, ◌≡◌, refl, ap, sym, subst, ◌∙◌, Bool, true, false, Option, none, some, List, Bool-cases,
  Option-cases, inl, inr, ◌⊎◌,
}
use vybe.Base.Int.{ℤ, ◌+ℤ◌}
use vybe.Base.Bytes.{bytes_eq_refl, lookup, lookup-assign}
use vybe.Identity.Refresh.{
  RefreshTokenState, RefreshOutcome, is_unset, evaluate_refresh, unknown, rotate_now,
  overlap_replay, reuse_detected, expired, family_revoked, overlap_window, rotate, RotationResult,
}
use vybe.Identity.Store.{
  Repo, Session, mark_rotated, mark_over, insert_refresh_token, insert_over, refresh_token_by_hash,
  revoke_session, revoke_session_over, session_by_id, user_by_id, closed, hex_key,
}
use vybe.Identity.Service.{
  Issuer, TokenPair, RefreshError, rejected, refresh, refresh_as, refresh_marked,
  issue_for_existing_family, issue_for_session, with_refresh_token, logout, logout_reason,
  authenticate, authenticate_session, session_revoked,
}
use vybe.Identity.Service.Replay.{refresh-stored}

-- No token pair was given out.
unfoldable pub IsRefused : RefreshError ⊎ TokenPair → Type 0
IsRefused (inl e) = Unit
IsRefused (inr pair) = ⊥

-- The session stands in the repository, revoked.
abbrev pub IsClosed : Repo → List ℕ → Type 0
IsClosed s sid =
    (sess : Session) × (lookup sid s.sessions ≡ some sess) × (is_unset sess.revoked_at ≡ false)

closed-revoked : (sess : Session) (at : ℤ) → is_unset (closed sess at).revoked_at ≡ false
unfolding is_unset
closed-revoked sess at = elim (Bool-cases (is_unset sess.revoked_at)) [
  | inl e ↦ rw e refl
  | inr e ↦ rw e e
]

logout-IsClosed :
    (s : Repo) (sid : List ℕ) (now : ℤ) (sess : Session)
    → lookup sid s.sessions ≡ some sess
    → IsClosed (logout s sid now) sid
unfolding logout revoke_session revoke_session_over
logout-IsClosed s sid now sess h = (
  closed sess now,
  ap (λ o. lookup sid (revoke_session_over o s sid logout_reason now).sessions) h
      ∙ lookup-assign sid sid (closed sess now) s.sessions
      ∙ rw (bytes_eq_refl sid) refl,
  closed-revoked sess now,
)

issue-IsRefused :
    (i : Issuer) (s : Repo) (t : RefreshTokenState) (jti : List ℕ) (now : ℤ)
    → IsClosed s t.session_id
    → issue_for_existing_family i s t jti now ≡ inl rejected
unfolding issue_for_existing_family session_by_id issue_for_session
issue-IsRefused i s t jti now (sess, h, c) =
    ap (λ o. issue_for_session i o (user_by_id s t.user_id) t jti now) h
    ∙ elim (Option-cases (user_by_id s t.user_id)) [
      | inl e ↦ rw e refl
      | inr (u, e) ↦ ap (λ o. issue_for_session i (some sess) o t jti now) e ∙ rw c refl
    ]

mark_rotated-sessions :
    (s : Repo) (hash : List ℕ) (at until : ℤ)
    → (mark_rotated s hash at until).0.sessions ≡ s.sessions
unfolding mark_rotated mark_over
mark_rotated-sessions s hash at until = elim (Option-cases (lookup (hex_key hash) s.tokens)) [
  | inl e ↦ ap (λ o. (mark_over o s hash at until).0.sessions) e
  | inr (t, e) ↦
      ap (λ o. (mark_over o s hash at until).0.sessions) e
      ∙ elim (Bool-cases (is_unset t.rotated_at)) [ inl b ↦ rw b refl | inr b ↦ rw b refl ]
]

insert-sessions :
    (s : Repo) (fam hash : List ℕ) (expires : ℤ)
    → (insert_refresh_token s fam hash expires).sessions ≡ s.sessions
unfolding insert_refresh_token insert_over
insert-sessions s fam hash expires = elim (Option-cases (lookup fam s.families)) [
  | inl e ↦ ap (λ o. (insert_over o s fam hash expires).sessions) e
  | inr (f, e) ↦ ap (λ o. (insert_over o s fam hash expires).sessions) e
]

-- A closed session is closed in any store with the same sessions.
IsClosed-same :
    (s t : Repo) (sid : List ℕ) → t.sessions ≡ s.sessions → IsClosed s sid → IsClosed t sid
IsClosed-same s t sid e (sess, h, c) = (sess, ap (lookup sid) e ∙ h, c)

marked-IsRefused :
    (i : Issuer) (next : Option RotationResult) (t : RefreshTokenState) (jti : List ℕ) (now : ℤ)
    (s : Repo) (b : Bool)
    → IsClosed s t.session_id
    → IsRefused (refresh_marked i next t jti now s b).1
unfolding refresh_marked with_refresh_token IsRefused
marked-IsRefused i next t jti now s false c = rw (issue-IsRefused i s t jti now c) tt
marked-IsRefused i none t jti now s true c = tt
marked-IsRefused i (some next) t jti now s true c =
    let u = insert_refresh_token s t.family_id next.hash next.expires_at in
    rw
      (issue-IsRefused i u t jti now (
        IsClosed-same s u t.session_id (insert-sessions s t.family_id next.hash next.expires_at) c))
      tt

refresh_as-IsRefused :
    (o : RefreshOutcome) (i : Issuer) (minted : Option (List ℕ)) (t : RefreshTokenState)
    (jti : List ℕ) (now : ℤ) (s : Repo)
    → IsClosed s t.session_id
    → IsRefused (refresh_as o i minted t jti now s).1
unfolding refresh_as IsRefused
refresh_as-IsRefused unknown i minted t jti now s c = tt
refresh_as-IsRefused expired i minted t jti now s c = tt
refresh_as-IsRefused family_revoked i minted t jti now s c = tt
refresh_as-IsRefused reuse_detected i minted t jti now s c = tt
refresh_as-IsRefused overlap_replay i minted t jti now s c = rw (issue-IsRefused i s t jti now c) tt
refresh_as-IsRefused rotate_now i minted t jti now s c =
    let m = mark_rotated s t.token_hash now (now +ℤ overlap_window) in
    marked-IsRefused i (rotate i.sha256 minted (some t) now) t jti now m.0 m.1 (
      IsClosed-same s m.0 t.session_id
        (mark_rotated-sessions s t.token_hash now (now +ℤ overlap_window)) c)

-- After the logout of a session that exists, no access token of it authenticates and no refresh
-- token bound to it earns a token pair, at any later reading of the clock.
pub logout-refuses :
    (i : Issuer) (minted : Option (List ℕ)) (p jti sid : List ℕ) (at now : ℤ) (s : Repo)
    (sess : Session) (t : RefreshTokenState)
    → lookup sid s.sessions ≡ some sess
    → refresh_token_by_hash (logout s sid at) (i.sha256 p) ≡ some t
    → t.session_id ≡ sid
    → authenticate (logout s sid at) (some sid) ≡ inl session_revoked
      × IsRefused (refresh i minted p jti now (logout s sid at)).1
unfolding authenticate session_by_id authenticate_session
logout-refuses i minted p jti sid at now s sess t h ht hs =
    let c = logout-IsClosed s sid at sess h in
    let u = logout s sid at in
    (
      ap (λ o. authenticate_session o sid) c.1 ∙ rw c.2 refl,
      subst (λ x. IsRefused x.1)
          (sym (refresh-stored i minted p jti now u t (evaluate_refresh (some t) now) ht refl))
          (refresh_as-IsRefused (evaluate_refresh (some t) now) i minted t jti now u
            (subst (λ x. IsClosed u x) (sym hs) c)),
    )
