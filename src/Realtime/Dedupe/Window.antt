-- ===== src/Realtime/Dedupe/Window.antt =====
-- `DedupeLRU` (server/internal/modules/realtime/eventlog.go) against its specification: a
-- first-in-first-out window of ids.
use mathlib.Core.Path.{ap₂}
use mathlib.Core.List.{append-nil, append_assoc}
use native.Mathlib.Nat.{mod-eq_of_lt, mod_self}
use vybe.Base.{
  ℕ, suc, ◌+◌, ◌%◌, ◌≤◌, ◌<◌, ◌≡◌, refl, sym, ◌∙◌, inl, inr, Bool, true, false, ◌||◌, some, List,
  [], ◌∷◌, ◌++◌, if◌then◌else◌, ltb, arith, length, get_elem?, set, take, drop, length-append,
  length-set, drop-set, take-set, drop-get_elem?, drop_all, take_all, take-append-drop, ltb→lt,
  get_elem?-some, Bool-cases, length-drop, length-take,
}
use vybe.Base.Int.{ℤ, pos, leb_ℤ, pos_part}
use vybe.Base.Text.{String}
use vybe.Realtime.EventLog.{contains_text}
use vybe.Realtime.Dedupe.{DedupeLru, has_key, seen, new_dedupe_lru}
use vybe.Realtime.Dedupe.Invariant.{
  IsValid, added, replaced, added-IsValid, replaced-IsValid, new_dedupe_lru-IsValid,
}

-- The ids that the memory holds, oldest first.
abbrev pub view : DedupeLru → List String
view d = drop d.next d.order ++ take d.next d.order

-- A first-in-first-out window of at most `cap` ids.
abbrev pub observe_id : ℕ → List String → String → List String × Bool
observe_id cap w id =
    if contains_text id w
    then (w, true)
    else if ltb (length w) cap
    then (w ++ id ∷ [], false)
    else (drop 1 w ++ id ∷ [], false)

contains_text-append :
    (k : String) (xs ys : List String)
    → contains_text k (xs ++ ys) ≡ contains_text k xs || contains_text k ys
unfolding contains_text
contains_text-append k [] ys = refl
contains_text-append k (x ∷ xs) ys = ground (arith, contains_text-append k xs ys)

contains_text-rotate :
    (k : String) (n : ℕ) (l : List String)
    → contains_text k (drop n l ++ take n l) ≡ contains_text k l
contains_text-rotate k n l = ground (
  arith,
  contains_text-append k (drop n l) (take n l),
  contains_text-append k (take n l) (drop n l),
  take-append-drop n l,
)

next-le : (d : DedupeLru) → IsValid d → d.next ≤ length d.order
next-le d v = ground (arith, v.filling, v.pointed)

length-view : (d : DedupeLru) → IsValid d → length (view d) ≡ length d.order
length-view d v = omega (
  arith,
  length-append (drop d.next d.order) (take d.next d.order),
  length-drop d.next d.order,
  length-take d.next d.order (next-le d v),
  next-le d v,
)

view-added :
    (d : DedupeLru) (id : String)
    → IsValid d
    → length d.order < d.capacity
    → view (added d id) ≡ view d ++ id ∷ []
view-added d id v room = rw (v.filling room) simp append-nil

view-replaced :
    (d : DedupeLru) (id e : String)
    → IsValid d
    → d.capacity ≤ length d.order
    → get_elem? d.order d.next ≡ some e
    → view (replaced d id e) ≡ drop 1 (view d) ++ id ∷ []
view-replaced d id e v full at =
    let front : view d ≡ e ∷ (drop (suc d.next) d.order ++ take d.next d.order) =
      rw (drop-get_elem? d.next d.order e at) in
    elim (Bool-cases (ltb (d.next + 1) d.capacity)) [
      | inl inside ↦
          let n : (d.next + 1) % d.capacity ≡ suc d.next =
            mod-eq_of_lt (ground arith) ∙ omega arith in
          rw (n, front, drop-set d.next d.order id, take-set d.next d.order id (omega arith))
            (sym (append_assoc (drop (suc d.next) d.order) (take d.next d.order) (id ∷ [])))
      | inr wraps ↦
          let last : d.next + 1 ≡ d.capacity = ground (arith, v.pointed) in
          let n : (d.next + 1) % d.capacity ≡ 0 = rw last (mod_self d.capacity) in
          let all =
            take_all (suc d.next) (set d.order d.next id)
              (omega (arith, length-set d.order d.next id, v.bounded)) in
          rw (n, front, drop_all (suc d.next) d.order (omega (arith, v.bounded)), append-nil)
            (sym all ∙ take-set d.next d.order id (omega arith))
    ]

seen_old : (d : DedupeLru) (id : String) → has_key id d.seen_index ≡ true → seen d id ≡ (d, true)
unfolding seen
seen_old d id old = rw old

seen_room :
    (d : DedupeLru) (id : String)
    → has_key id d.seen_index ≡ false
    → ltb (length d.order) d.capacity ≡ true
    → seen d id ≡ (added d id, false)
unfolding seen
seen_room d id new room = rw (new, room)

seen_full :
    (d : DedupeLru) (id e : String)
    → has_key id d.seen_index ≡ false
    → ltb (length d.order) d.capacity ≡ false
    → get_elem? d.order d.next ≡ some e
    → seen d id ≡ (replaced d id e, false)
unfolding seen
seen_full d id e new full at = rw (new, full, at)

observe_lem :
    (d : DedupeLru) (id : String)
    → IsValid d
    → observe_id d.capacity (view d) id ≡ (
        if has_key id d.seen_index
        then (view d, true)
        else if ltb (length d.order) d.capacity
        then (view d ++ id ∷ [], false)
        else (drop 1 (view d) ++ id ∷ [], false))
observe_lem d id v = rw (contains_text-rotate id d.next d.order, ← v.agrees id, length-view d v)

-- One call against the specification: from a valid memory the ids that it holds, in order of age, change
-- as those of the window, the answer is the same, and the memory stays valid.
pub seen_lem :
    (d : DedupeLru) (id : String)
    → IsValid d
    → IsValid (seen d id).0
      × ((seen d id).0.capacity ≡ d.capacity)
      × (view (seen d id).0 ≡ (observe_id d.capacity (view d) id).0)
      × ((seen d id).1 ≡ (observe_id d.capacity (view d) id).1)
seen_lem d id v = elim (Bool-cases (has_key id d.seen_index)) [
  | inl old ↦ rw (seen_old d id old, observe_lem d id v, old) (v, refl, refl, refl)
  | inr new ↦ elim (Bool-cases (ltb (length d.order) d.capacity)) [
    | inl room ↦
        rw (seen_room d id new room, observe_lem d id v, new, room)
          (
            added-IsValid d id v new (ltb→lt _ _ room),
            refl,
            view-added d id v (ltb→lt _ _ room),
            refl,
          )
    | inr full ↦
        let (e, at) = get_elem?-some d.next d.order (ground (arith, v.pointed)) in
        rw (seen_full d id e new full at, observe_lem d id v, new, full)
          (
            replaced-IsValid d id e v new (ground arith) at,
            refl,
            view-replaced d id e v (ground arith) at,
            refl,
          )
  ]
]

-- The duplicates that a connection reports over a sequence of ids.
abbrev pub seen_all : DedupeLru → List String → List Bool
seen_all d [] = []
seen_all d (id ∷ l) = let (d', b) = seen d id in b ∷ seen_all d' l

abbrev pub observe_ids : ℕ → List String → List String → List Bool
observe_ids cap w [] = []
observe_ids cap w (id ∷ l) = let (w', b) = observe_id cap w id in b ∷ observe_ids cap w' l

seen_all-observe_ids :
    (d : DedupeLru) (cap : ℕ) (w : List String) (l : List String)
    → IsValid d
    → d.capacity ≡ cap
    → view d ≡ w
    → seen_all d l ≡ observe_ids cap w l
seen_all-observe_ids d cap w [] v c e = refl
seen_all-observe_ids d cap w (id ∷ l) v c e =
    let (v', c', e', b) = seen_lem d id v in
    let rest =
      seen_all-observe_ids (seen d id).0 cap (observe_id cap w id).0 l v' (c' ∙ c)
        (e' ∙ (λ i. (observe_id (c i) (e i) id).0)) in
    ap₂ ◌∷◌ (b ∙ (λ i. (observe_id (c i) (e i) id).1)) rest

-- Over its whole life a memory reports exactly the duplicates of a first-in-first-out window of its
-- capacity, which is 500 where the one asked for is not positive.
pub seen_all-new :
    (c : ℤ) (l : List String)
    → seen_all (new_dedupe_lru c) l ≡ observe_ids (if leb_ℤ c (pos 0) then 500 else pos_part c) [] l
unfolding new_dedupe_lru
seen_all-new c l =
    seen_all-observe_ids (new_dedupe_lru c) _ [] l (new_dedupe_lru-IsValid c) refl refl
