-- ===== src/Identity/Store/Revocation.antt =====
-- What revoking a family or a session does to the refresh tokens
-- (server/internal/modules/identity/identitytest/memstore.go).
use vybe.Base.{
  Option-cases, All, subst, ℕ, ◌≡◌, refl, sym, ◌∙◌, Bool, true, not, ◌&&◌, Option, none, some, List,
  [], ◌∷◌, arith, Bool-cases, inl, inr, ◌⊎◌,
}
use vybe.Base.Int.{ℤ, leb_ℤ, ltb_ℤ}
use vybe.Base.Bytes.{bytes_eq, bytes_eq_iff, lookup}
use vybe.Identity.Refresh.{
  RefreshTokenState, is_unset, is_reached, evaluate_refresh, family_revoked,
}
use vybe.Identity.Store.{
  Repo, Family, propagate, stamped, revoked, revoke_family, revoke_family_over, revoke_bound,
  revoke_session, revoke_session_over,
}

-- The family of the token is known to be revoked at an instant.
abbrev pub IsDead : ℤ → RefreshTokenState → Type 0
IsDead at t = is_reached at t.family_revoked_at ≡ true

-- Every token of a family is dead.
abbrev pub IsFamilyDead : ℤ → List ℕ → List (List ℕ × RefreshTokenState) → Type 0
IsFamilyDead at fam = All (λ p. p.1.family_id ≡ fam → IsDead at p.1)

stamped-IsDead :
    (at : ℤ) (f : Family) (t : RefreshTokenState)
    → is_reached at f.revoked_at ≡ true
    → IsDead at t ⊎ (t.family_id ≡ f.id)
    → IsDead at (stamped f t)
stamped-IsDead at f t h d = elim (Bool-cases (bytes_eq t.family_id f.id)) [
  | inl e ↦ rw e h
  | inr e ↦ rw e (ground (arith, d, bytes_eq_iff t.family_id f.id))
]

not_before_itself : (a : ℤ) → not (ltb_ℤ a a) ≡ true
not_before_itself a = ground arith

stamped-family :
    (f : Family) (t : RefreshTokenState) (fam : List ℕ)
    → (stamped f t).family_id ≡ fam
    → t.family_id ≡ fam
stamped-family f t fam e = elim (Bool-cases (bytes_eq t.family_id f.id)) [
  | inl b ↦ sym (rw b refl) ∙ e
  | inr b ↦ sym (rw b refl) ∙ e
]

revoked-reached :
    (f : Family) (reason : List ℕ) (at : ℤ)
    → is_unset f.revoked_at ≡ true
    → is_reached at (revoked f reason at).revoked_at ≡ true
unfolding revoked is_reached
revoked-reached f reason at h = simp h (not_before_itself at)

revoked-id : (f : Family) (reason : List ℕ) (at : ℤ) → (revoked f reason at).id ≡ f.id
unfolding revoked
revoked-id f reason at = elim (Bool-cases (is_unset f.revoked_at)) [
  | inl e ↦ rw e refl
  | inr e ↦ rw e refl
]

reached-later :
    (at now : ℤ) (o : Option ℤ)
    → is_reached at o ≡ true
    → leb_ℤ at now ≡ true
    → is_reached now o ≡ true
unfolding is_reached
reached-later at now none h l = h
reached-later at now (some t) h l = ground arith

propagate-kills :
    (at : ℤ) (fam : List ℕ) (f : Family) (l : List (List ℕ × RefreshTokenState))
    → f.id ≡ fam
    → is_reached at f.revoked_at ≡ true
    → IsFamilyDead at fam (propagate f l)
unfolding propagate
propagate-kills at fam f [] i h = tt
propagate-kills at fam f ((k, t) ∷ l) i h = (
  λ e. stamped-IsDead at f t h (inr (stamped-family f t fam e ∙ sym i)),
  propagate-kills at fam f l i h,
)

propagate-keeps :
    (at : ℤ) (fam : List ℕ) (f : Family) (l : List (List ℕ × RefreshTokenState))
    → is_reached at f.revoked_at ≡ true
    → IsFamilyDead at fam l
    → IsFamilyDead at fam (propagate f l)
unfolding propagate
propagate-keeps at fam f [] h d = d
propagate-keeps at fam f ((k, t) ∷ l) h d = (
  λ e. stamped-IsDead at f t h (inl (d.0 (stamped-family f t fam e))),
  propagate-keeps at fam f l h d.1,
)

and_right : (a b : Bool) → (a && b) ≡ true → b ≡ true
and_right a b h = ground arith

revoke_bound-keeps :
    (at : ℤ) (fam sid reason : List ℕ) (fs : List (List ℕ × Family))
    (l : List (List ℕ × RefreshTokenState))
    → IsFamilyDead at fam l
    → IsFamilyDead at fam (revoke_bound sid reason at fs l).1
unfolding revoke_bound
revoke_bound-keeps at fam sid reason [] l d = d
revoke_bound-keeps at fam sid reason ((k, f) ∷ fs) l d =
    elim (Bool-cases (bytes_eq f.session_id sid && is_unset f.revoked_at)) [
      | inl e ↦ rw e (
          revoke_bound-keeps at fam sid reason fs (propagate (revoked f reason at) l) (
            propagate-keeps at fam (revoked f reason at) l
              (revoked-reached f reason at
                (and_right (bytes_eq f.session_id sid) (is_unset f.revoked_at) e))
              d))
      | inr e ↦ rw e (revoke_bound-keeps at fam sid reason fs l d)
    ]

lookup-IsFamilyDead :
    (at : ℤ) (fam : List ℕ) (l : List (List ℕ × RefreshTokenState)) (k : List ℕ)
    (t : RefreshTokenState)
    → IsFamilyDead at fam l
    → lookup k l ≡ some t
    → t.family_id ≡ fam
    → IsDead at t
unfolding lookup
lookup-IsFamilyDead at fam [] k t d h e = cc
lookup-IsFamilyDead at fam ((j, u) ∷ l) k t d h e = elim (Bool-cases (bytes_eq k j)) [
  | inl b ↦
      let same : u ≡ t = ground (arith, b, h) in
      subst (λ x. x.family_id ≡ fam → IsDead at x) same d.0 e
  | inr b ↦ lookup-IsFamilyDead at fam l k t d.1 ground (arith, b, h) e
]

pub revoke_family-dead :
    (s : Repo) (f : Family) (reason : List ℕ) (at : ℤ)
    → lookup f.id s.families ≡ some f
    → is_unset f.revoked_at ≡ true
    → IsFamilyDead at f.id (revoke_family s f.id reason at).tokens
unfolding revoke_family revoke_family_over
revoke_family-dead s f reason at hf hu =
    let g = revoked f reason at in
    subst (λ o. IsFamilyDead at f.id (revoke_family_over o s f.id reason at).tokens) (sym hf)
      (propagate-kills at f.id g s.tokens (revoked-id f reason at) (revoked-reached f reason at hu))

pub revoke_session-keeps :
    (s : Repo) (fam sid reason : List ℕ) (at : ℤ)
    → IsFamilyDead at fam s.tokens
    → IsFamilyDead at fam (revoke_session s sid reason at).tokens
unfolding revoke_session revoke_session_over
revoke_session-keeps s fam sid reason at d = elim (Option-cases (lookup sid s.sessions)) [
  | inl e ↦
      subst (λ o. IsFamilyDead at fam (revoke_session_over o s sid reason at).tokens) (sym e) d
  | inr (sess, e) ↦
      subst (λ o. IsFamilyDead at fam (revoke_session_over o s sid reason at).tokens) (sym e)
        (revoke_bound-keeps at fam sid reason s.families s.tokens d)
]

-- A token of a dead family is refused as such from that instant on.
pub dead-refused :
    (at now : ℤ) (fam k : List ℕ) (l : List (List ℕ × RefreshTokenState)) (t : RefreshTokenState)
    → IsFamilyDead at fam l
    → lookup k l ≡ some t
    → t.family_id ≡ fam
    → leb_ℤ at now ≡ true
    → evaluate_refresh (some t) now ≡ family_revoked
unfolding evaluate_refresh
dead-refused at now fam k l t d hl ht h =
    rw (reached-later at now t.family_revoked_at (lookup-IsFamilyDead at fam l k t d hl ht) h) refl

-- Once a family is revoked, every token of it that the store knows is refused as a token of a revoked
-- family from that instant on, when the family was not revoked before and stands under its own id.
pub revoke_family-kills :
    (s : Repo) (f : Family) (reason : List ℕ) (at now : ℤ) (k : List ℕ) (t : RefreshTokenState)
    → lookup f.id s.families ≡ some f
    → is_unset f.revoked_at ≡ true
    → lookup k (revoke_family s f.id reason at).tokens ≡ some t
    → t.family_id ≡ f.id
    → leb_ℤ at now ≡ true
    → evaluate_refresh (some t) now ≡ family_revoked
revoke_family-kills s f reason at now k t hf hu hl ht h =
    dead-refused at now f.id k (revoke_family s f.id reason at).tokens t
      (revoke_family-dead s f reason at hf hu) hl ht h
