-- ===== src/Identity/Service/Rotation.antt =====
-- Rotating a refresh token: what the store holds afterwards, a lost answer and a race
-- (server/internal/modules/identity/service.go).
use vybe.Base.{
  ℕ, ◌≡◌, refl, ap, sym, subst, ◌∙◌, true, false, Option, none, some, List, arith, Option-cases,
  inl, inr,
}
use vybe.Base.Int.{ℤ, leb_ℤ, ◌+ℤ◌}
use vybe.Base.Bytes.{bytes_eq, bytes_eq_refl, lookup, assign, lookup-assign}
use vybe.Identity.Refresh.{
  RefreshTokenState, is_unset, evaluate_refresh, rotate_now, overlap_window, rotate,
  refresh_token_ttl,
}
use vybe.Identity.Store.{
  Repo, Family, hex_key, mark_rotated, mark_over, insert_refresh_token, insert_over,
  refresh_token_by_hash,
}
use vybe.Identity.Store.Revocation.{IsFamilyDead}
use vybe.Identity.Service.{
  Issuer, rejected, refresh, refresh_loaded, refresh_as, refresh_marked, issue_for_existing_family,
}
use vybe.Identity.Service.Replay.{
  rotated_row, IsAlive, IsWithoutToken, refresh-stored, refresh-retry, refresh-reuse,
  issue-IsWithoutToken,
}

current-unset :
    (t : RefreshTokenState) (now : ℤ)
    → evaluate_refresh (some t) now ≡ rotate_now
    → is_unset t.rotated_at ≡ true
unfolding evaluate_refresh
current-unset t now h = ground (arith, h)

-- The store with a row marked as rotated.
abbrev marked : Repo → RefreshTokenState → ℤ → Repo
marked s t now = record s { tokens = assign (hex_key t.token_hash) (rotated_row t now) s.tokens }

mark_rotated-current :
    (s : Repo) (t : RefreshTokenState) (now : ℤ)
    → refresh_token_by_hash s t.token_hash ≡ some t
    → is_unset t.rotated_at ≡ true
    → mark_rotated s t.token_hash now (now +ℤ overlap_window) ≡ (marked s t now, true)
unfolding mark_rotated mark_over refresh_token_by_hash rotated_row
mark_rotated-current s t now h u =
    ap (λ o. mark_over o s t.token_hash now (now +ℤ overlap_window)) h ∙ rw u refl

mark_rotated-again :
    (s : Repo) (t : RefreshTokenState) (hash : List ℕ) (at now until : ℤ)
    → refresh_token_by_hash s hash ≡ some (rotated_row t at)
    → mark_rotated s hash now until ≡ (s, false)
unfolding mark_rotated mark_over refresh_token_by_hash rotated_row is_unset
mark_rotated-again s t hash at now until h = ap (λ o. mark_over o s hash now until) h

insert-other :
    (s : Repo) (fam q hash : List ℕ) (expires : ℤ)
    → bytes_eq (hex_key q) (hex_key hash) ≡ false
    → refresh_token_by_hash (insert_refresh_token s fam q expires) hash
      ≡ refresh_token_by_hash s hash
unfolding insert_refresh_token refresh_token_by_hash insert_over
insert-other s fam q hash expires d = elim (Option-cases (lookup fam s.families)) [
  | inl e ↦ ap (λ o. lookup (hex_key hash) (insert_over o s fam q expires).tokens) e
  | inr (f, e) ↦
      ap (λ o. lookup (hex_key hash) (insert_over o s fam q expires).tokens) e
      ∙ lookup-assign (hex_key q) (hex_key hash)
          (record {
            token_hash = q;
            family_id = fam;
            session_id = f.session_id;
            user_id = f.user_id;
            expires_at = expires;
            rotated_at = none;
            valid_until_overlap = none;
            family_revoked_at = f.revoked_at;
            family_revoked_why = f.revoked_reason;
          })
          s.tokens
      ∙ rw d refl
]

marked-row :
    (s : Repo) (t : RefreshTokenState) (now : ℤ)
    → refresh_token_by_hash (marked s t now) t.token_hash ≡ some (rotated_row t now)
unfolding refresh_token_by_hash
marked-row s t now =
    lookup-assign (hex_key t.token_hash) (hex_key t.token_hash) (rotated_row t now) s.tokens
    ∙ rw (bytes_eq_refl (hex_key t.token_hash)) refl

-- A refresh that rotates leaves the presented token's row rotated at that instant, when the successor
-- has another hash.
refresh_as-row :
    (i : Issuer) (q jti : List ℕ) (now : ℤ) (s : Repo) (t : RefreshTokenState)
    → refresh_token_by_hash s t.token_hash ≡ some t
    → is_unset t.rotated_at ≡ true
    → bytes_eq (hex_key (i.sha256 q)) (hex_key t.token_hash) ≡ false
    → refresh_token_by_hash (refresh_as rotate_now i (some q) t jti now s).0 t.token_hash
      ≡ some (rotated_row t now)
unfolding refresh_as refresh_marked rotate
refresh_as-row i q jti now s t h u d =
    let m = mark_rotated-current s t now h u in
    ap
      (λ x.
        refresh_token_by_hash
          (refresh_marked i (rotate i.sha256 (some q) (some t) now) t jti now x.0 x.1).0
          t.token_hash)
      m
    ∙ insert-other (marked s t now) t.family_id (i.sha256 q) t.token_hash (now +ℤ refresh_token_ttl)
        d
    ∙ marked-row s t now

refresh-row :
    (i : Issuer) (q p jti : List ℕ) (now : ℤ) (s : Repo) (t : RefreshTokenState)
    → refresh_token_by_hash s (i.sha256 p) ≡ some t
    → t.token_hash ≡ i.sha256 p
    → evaluate_refresh (some t) now ≡ rotate_now
    → bytes_eq (hex_key (i.sha256 q)) (hex_key (i.sha256 p)) ≡ false
    → refresh_token_by_hash (refresh i (some q) p jti now s).0 (i.sha256 p)
      ≡ some (rotated_row t now)
refresh-row i q p jti now s t h hash c d =
    let u = current-unset t now c in
    let row =
      refresh_as-row i q jti now s t (subst (λ x. refresh_token_by_hash s x ≡ some t) (sym hash) h)
        u (subst (λ x. bytes_eq (hex_key (i.sha256 q)) (hex_key x) ≡ false) (sym hash) d) in
    ap (λ x. refresh_token_by_hash x.0 (i.sha256 p))
      (refresh-stored i (some q) p jti now s t rotate_now h c)
    ∙ subst
        (λ x.
          refresh_token_by_hash (refresh_as rotate_now i (some q) t jti now s).0 x
          ≡ some (rotated_row t now))
        hash row

-- The answer to a rotation is lost. A retry of the old token within the overlap window gets no
-- refresh token and changes nothing, so the next use of that token after the window is refused and
-- kills its family. Here the row is stored under its own hash and is current, the successor has
-- another hash, the row stays alive, and the family stands in the store, not revoked, after the
-- rotation.
pub refresh-lost_answer :
    (i : Issuer) (q : List ℕ) (minted minted' : Option (List ℕ)) (p jti jti' jti'' : List ℕ)
    (now soon late : ℤ) (s : Repo) (t : RefreshTokenState) (f : Family)
    → refresh_token_by_hash s (i.sha256 p) ≡ some t
    → t.token_hash ≡ i.sha256 p
    → evaluate_refresh (some t) now ≡ rotate_now
    → bytes_eq (hex_key (i.sha256 q)) (hex_key (i.sha256 p)) ≡ false
    → IsAlive t soon
    → leb_ℤ soon (now +ℤ overlap_window) ≡ true
    → IsAlive t late
    → leb_ℤ late (now +ℤ overlap_window) ≡ false
    → lookup f.id (refresh i (some q) p jti now s).0.families ≡ some f
    → is_unset f.revoked_at ≡ true
    → t.family_id ≡ f.id
    → let rotated = (refresh i (some q) p jti now s).0 in
      let retried = refresh i minted p jti' soon rotated in
      let reused = refresh i minted' p jti'' late retried.0 in
      retried.0 ≡ rotated
      × IsWithoutToken retried.1
      × reused.1 ≡ inl rejected
      × IsFamilyDead late f.id reused.0.tokens
refresh-lost_answer i q minted minted' p jti jti' jti'' now soon late s t f h hash c d a w a' w' hf
      hu hi =
    let rotated = (refresh i (some q) p jti now s).0 in
    let row = refresh-row i q p jti now s t h hash c d in
    let retry = refresh-retry i minted p jti' now soon rotated t row a w in
    let reuse = refresh-reuse i minted' p jti'' now late rotated t f row a' w' hf hu hi in
    let both =
      subst
        (λ x.
          (refresh i minted' p jti'' late x).1 ≡ inl rejected
          × IsFamilyDead late f.id (refresh i minted' p jti'' late x).0.tokens)
        (sym retry.0) reuse in
    (retry.0, retry.1, both.0, both.1)

-- Two requests load the same row before either writes, and find it current. Whichever comes
-- second changes nothing and gets no refresh token: one presentation mints one successor. The row
-- is the one stored under its hash, and the successor has another hash.
pub refresh_loaded-race :
    (i : Issuer) (q : List ℕ) (minted : Option (List ℕ)) (jti jti' : List ℕ) (now now' : ℤ)
    (s : Repo) (t : RefreshTokenState)
    → refresh_token_by_hash s t.token_hash ≡ some t
    → evaluate_refresh (some t) now ≡ rotate_now
    → evaluate_refresh (some t) now' ≡ rotate_now
    → bytes_eq (hex_key (i.sha256 q)) (hex_key t.token_hash) ≡ false
    → let first = (refresh_loaded i (some q) (some t) jti now s).0 in
      let second = refresh_loaded i minted (some t) jti' now' first in
      second.0 ≡ first × IsWithoutToken second.1
unfolding refresh_loaded refresh_as refresh_marked
refresh_loaded-race i q minted jti jti' now now' s t h c c' d =
    let first = (refresh_loaded i (some q) (some t) jti now s).0 in
    let row : refresh_token_by_hash first t.token_hash ≡ some (rotated_row t now) =
      ap (λ o. refresh_token_by_hash (refresh_as o i (some q) t jti now s).0 t.token_hash) c
      ∙ refresh_as-row i q jti now s t h (current-unset t now c) d in
    let again = mark_rotated-again first t t.token_hash now now' (now' +ℤ overlap_window) row in
    let same : refresh_loaded i minted (some t) jti' now' first
        ≡ (first, issue_for_existing_family i first t jti' now') =
      ap (λ o. refresh_as o i minted t jti' now' first) c'
      ∙ ap (λ x. refresh_marked i (rotate i.sha256 minted (some t) now') t jti' now' x.0 x.1)
          again in
    (
      ap (λ x. x.0) same,
      subst (λ x. IsWithoutToken x.1) (sym same) (issue-IsWithoutToken i first t jti' now'),
    )
