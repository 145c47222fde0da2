-- ===== src/Rooms/Succession/Agreement.antt =====
-- Two servers that evaluate `SuccessorFor` (server/internal/modules/rooms/state.go) over the same room.
use vybe.Base.{
  ◌≡◌, ◌↔◌, refl, ap, ◌⊎◌, inl, inr, Bool, true, false, Option, none, some, List, [], ◌∷◌, arith,
  Occurs, All, All-Occurs, Bool-cases,
}
use vybe.Base.Int.{ℤ, ◌+ℤ◌, ◌<ℤ◌, ◌-ℤ◌, -ℤ_parts, +ℤ_parts}
use vybe.Base.Word.{IsInt64, saturate64-eq_self}
use vybe.Rooms.Succession.{
  Participant, find_host, seat_is_kept, earlier, user_or_empty, successor_for, host_grace_window,
}
use vybe.Rooms.Succession.Choice.{IsLongest, longest_tenured-IsLongest, earlier_total}

-- The same participants, in whatever order and however often each is listed.
abbrev pub SameMembers : List Participant → List Participant → Type 0
SameMembers ps qs = (p : Participant) → Occurs p ps ↔ Occurs p qs

abbrev pub OneHost : List Participant → Type 0
OneHost ps =
    (p q : Participant) → Occurs p ps → Occurs q ps → p.is_host ≡ true → q.is_host ≡ true → p ≡ q

abbrev IsHost : Option Participant → List Participant → Type 0
IsHost none l = All (λ p. p.is_host ≡ false) l
IsHost (some h) l = Occurs h l × (h.is_host ≡ true)

keep_looking :
    (x : Participant)
    → x.is_host ≡ false
    → (r : Option Participant) (l : List Participant) → IsHost r l
    → IsHost r (x ∷ l)
keep_looking x bad none l h = (bad, h)
keep_looking x bad (some s) l (o, good) = (inr o, good)

find_host-IsHost : (l : List Participant) → IsHost (find_host l) l
unfolding find_host
find_host-IsHost [] = tt
find_host-IsHost (x ∷ l) = elim (Bool-cases x.is_host) [
  | inl host ↦ simp host (inl refl, refl)
  | inr guest ↦ simp guest (keep_looking x guest (find_host l) l (find_host-IsHost l))
]

clash : {b : Bool} → b ≡ false → b ≡ true → ⊥
clash h k = cc

hosts_agree :
    (r s : Option Participant) (ps qs : List Participant)
    → SameMembers ps qs
    → OneHost ps
    → IsHost r ps
    → IsHost s qs
    → r ≡ s
hosts_agree none none ps qs same one h k = refl
hosts_agree none (some q) ps qs same one h (o, host) =
    absurd (clash (All-Occurs _ q ps h ((same q).1 o)) host)
hosts_agree (some p) none ps qs same one (o, host) k =
    absurd (clash (All-Occurs _ p qs k ((same p).0 o)) host)
hosts_agree (some p) (some q) ps qs same one (o, host) (o', host') =
    ap some (one p q o ((same q).1 o') host host')

choices_agree :
    (r s : Option Participant) (ps qs : List Participant)
    → SameMembers ps qs
    → IsLongest r ps
    → IsLongest s qs
    → user_or_empty r ≡ user_or_empty s
choices_agree none none ps qs same h k = refl
choices_agree none (some q) ps qs same h (o, good, a) =
    absurd (clash (All-Occurs _ q ps h ((same q).1 o)) good)
choices_agree (some p) none ps qs same (o, good, a) k =
    absurd (clash (All-Occurs _ p qs k ((same p).0 o)) good)
choices_agree (some p) (some q) ps qs same (o, good, a) (o', good', a') =
    let not_after : earlier q p ≡ false = All-Occurs _ q ps a ((same q).1 o') good' in
    let not_before : earlier p q ≡ false = All-Occurs _ p qs a' ((same p).0 o) good in
    ground (arith, earlier_total p q)

-- Two servers that see the same participants, in any order, with no two hosts among them, and that take the
-- same time from their clocks, name the same successor, or both name none.
pub successor_for_agrees :
    (ps qs : List Participant) (now : ℤ)
    → SameMembers ps qs
    → OneHost ps
    → successor_for ps now ≡ successor_for qs now
unfolding successor_for
successor_for_agrees ps qs now same one =
    let host = hosts_agree _ _ ps qs same one (find_host-IsHost ps) (find_host-IsHost qs) in
    let choice =
      choices_agree _ _ ps qs same (longest_tenured-IsLongest ps) (longest_tenured-IsLongest qs) in
    rw (host, choice) refl

-- In a room without two hosts, a host who is connected, or who went away without a time or less
-- than 60 seconds ago, as a 64-bit duration, is never replaced.
pub successor_for_grace :
    (ps : List Participant) (now : ℤ) (h : Participant)
    → OneHost ps
    → Occurs h ps
    → h.is_host ≡ true
    → ((h.connected ≡ true)
        ⊎ (h.disconnected_at ≡ none)
        ⊎ ((gone : ℤ) × (h.disconnected_at ≡ some gone)
            × IsInt64 (now -ℤ gone)
            × (now <ℤ gone +ℤ host_grace_window)))
    → successor_for ps now ≡ ""
unfolding successor_for seat_is_kept
successor_for_grace ps now h one o host away =
    let found =
      hosts_agree (find_host ps) (some h) ps ps (λ p. ((λ x. x), λ x. x)) one (find_host-IsHost ps)
        (o, host) in
    rw found (elim away [
      | inl here ↦ ground arith
      | inr (inl unknown) ↦ ground arith
      | inr (inr (gone, e, fits, early)) ↦ ground (
        arith,
        saturate64-eq_self (now -ℤ gone) fits,
        -ℤ_parts now gone,
        +ℤ_parts gone host_grace_window,
      )
    ])
