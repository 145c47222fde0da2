-- ===== src/Identity/Ticket/SingleUse.antt =====
-- How often a ticket opens a socket (server/internal/modules/identity/ticket.go).
use vybe.Base.{
  ℕ, ◌+◌, ◌≤◌, ◌≡◌, refl, sym, ap, subst, ◌∙◌, false, Option, none, some, List, [], ◌∷◌,
  if◌then◌else◌, inl, inr, arith, Bool-cases, Option-cases,
}
use vybe.Base.Int.{ℤ}
use vybe.Base.Bytes.{bytes_eq, bytes_eq_iff, bytes_eq_refl, lookup, lookup-delete}
use vybe.Identity.Store.{hex_key}
use vybe.Identity.Ticket.{WsTicket, Tickets, redeem, redeem_found, ticket_expired}

unfoldable pub one_if_some : Option WsTicket → ℕ
one_if_some none = 0
one_if_some (some t) = 1

-- How many of a sequence of attempts, each a text and an instant, redeem the ticket of a given key.
unfoldable pub uses : (List ℕ → List ℕ) → List ℕ → Tickets → List (List ℕ × ℤ) → ℕ
uses sha256 k s [] = 0
uses sha256 k s ((p, now) ∷ l) =
    let a = redeem sha256 s p now in
    let rest = uses sha256 k a.0 l in
    if bytes_eq k (hex_key (sha256 p)) then one_if_some a.1 + rest else rest

redeem-other :
    (sha256 : List ℕ → List ℕ) (k p : List ℕ) (s : Tickets) (now : ℤ)
    → bytes_eq k (hex_key (sha256 p)) ≡ false
    → lookup k (redeem sha256 s p now).0 ≡ lookup k s
unfolding redeem redeem_found
redeem-other sha256 k p s now d =
    let j = hex_key (sha256 p) in
    elim (Option-cases (lookup j s)) [
      | inl e ↦ ap (λ o. lookup k (redeem_found o s j now).0) e
      | inr (t, e) ↦
          ap (λ o. lookup k (redeem_found o s j now).0) e
          ∙ ground (arith, lookup-delete j k s, bytes_eq_iff j k, bytes_eq_iff k j, d)
    ]

found-own :
    (s : Tickets) (now : ℤ) (o : Option WsTicket) (k : List ℕ)
    → lookup k s ≡ o
    → (lookup k (redeem_found o s k now).0 ≡ none)
      × (one_if_some (redeem_found o s k now).1 ≤ one_if_some o)
unfolding redeem_found one_if_some
found-own s now none k e = (e, omega arith)
found-own s now (some t) k e = (
  lookup-delete k k s ∙ rw (bytes_eq_refl k) refl,
  elim (Bool-cases (ticket_expired (some t) now)) [
    | inl x ↦ rw x (omega arith)
    | inr x ↦ rw x (omega arith)
  ],
)

-- A redemption, successful or not, leaves no ticket under its key, and is counted once if there was one.
redeem-own :
    (sha256 : List ℕ → List ℕ) (p : List ℕ) (s : Tickets) (now : ℤ)
    → let k = hex_key (sha256 p) in
      (lookup k (redeem sha256 s p now).0 ≡ none)
      × (one_if_some (redeem sha256 s p now).1 ≤ one_if_some (lookup k s))
unfolding redeem
redeem-own sha256 p s now =
    let k = hex_key (sha256 p) in
    elim (Option-cases (lookup k s)) [
      | inl e ↦ rw e (found-own s now none k e)
      | inr (t, e) ↦ rw e (found-own s now (some t) k e)
    ]

use-once : (a b c : ℕ) → a ≤ c → b ≤ one_if_some none → a + b ≤ c
unfolding one_if_some
use-once a b c p q = omega arith

uses-held :
    (sha256 : List ℕ → List ℕ) (k : List ℕ) (l : List (List ℕ × ℤ)) (s : Tickets)
    → uses sha256 k s l ≤ one_if_some (lookup k s)
unfolding uses
uses-held sha256 k [] s = omega arith
uses-held sha256 k ((p, now) ∷ l) s =
    let next = (redeem sha256 s p now).0 in
    let rest = uses-held sha256 k l next in
    elim (Bool-cases (bytes_eq k (hex_key (sha256 p)))) [
      | inl e ↦
          let own = redeem-own sha256 p s now in
          let same = (bytes_eq_iff k (hex_key (sha256 p))).0 e in
          rw e (
            use-once (one_if_some (redeem sha256 s p now).1) (uses sha256 k next l)
              (one_if_some (lookup k s))
              (subst (λ x. one_if_some (redeem sha256 s p now).1 ≤ one_if_some (lookup x s))
                (sym same) own.1)
              (subst (λ o. uses sha256 k next l ≤ one_if_some o)
                (ap (λ x. lookup x next) same ∙ own.0) rest))
      | inr e ↦
          rw e (
            subst (λ o. uses sha256 k next l ≤ one_if_some o) (redeem-other sha256 k p s now e)
              rest)
    ]

-- Over any sequence of attempts on any store, with whatever texts and at whatever instants, the ticket
-- of a key is redeemed once at most, and never when the store does not hold one.
pub redeem-once :
    (sha256 : List ℕ → List ℕ) (k : List ℕ) (l : List (List ℕ × ℤ)) (s : Tickets)
    → (uses sha256 k s l ≤ 1) × (lookup k s ≡ none → uses sha256 k s l ≡ 0)
unfolding one_if_some
redeem-once sha256 k l s =
    let u = uses-held sha256 k l s in
    elim (Option-cases (lookup k s)) [
      | inl e ↦
          let z : uses sha256 k s l ≤ 0 = subst (λ o. uses sha256 k s l ≤ one_if_some o) e u in
          (omega arith, λ h. omega arith)
      | inr (t, e) ↦
          let z : uses sha256 k s l ≤ 1 = subst (λ o. uses sha256 k s l ≤ one_if_some o) e u in
          (z, λ h. absurd cc)
    ]
