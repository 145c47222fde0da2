-- ===== src/Rooms/Listing/Walk.antt =====
-- A walk over the pages of a user's rooms (server/internal/modules/rooms/handler.go).
use vybe.Base.{
  ℕ, zero, suc, ◌+◌, ◌-◌, ◌≤◌, ◌<◌, ◌≡◌, refl, sym, ap, ◌∙◌, subst, true, false, Option, none, some,
  List, [], ◌∷◌, ◌++◌, arith, Bool-cases, inl, inr, All, leb, ltb, ◌==◌, length, take, drop,
  get_elem?, length-take, length-drop, take-append-drop, drop-get_elem?, get_elem?-some, take_all,
}
use vybe.Base.Text.{String}
use vybe.Rooms.Log.{Room, RoomStore}
use vybe.Rooms.Directory.{newer, rooms_with, rooms_past, past, limited, rooms_for_user}
use vybe.Rooms.Listing.{Cursor, Page, key_of, last_key, new_page, cursor_of, list_after, list}
use vybe.Rooms.Listing.Order.{IsNewestFirst, newer_irrefl, newer_asym, rooms_with-IsNewestFirst}
use vybe.Rooms.Service.Requests.{IsKept}

past-newer : (x r : Room) → past x.created_at x.id r ≡ newer x r
unfolding newer
past-newer x r = ground arith

rooms_past-All :
    (x : Room) (l : List Room) → All (λ r. newer x r ≡ true) l → rooms_past x.created_at x.id l ≡ l
unfolding rooms_past
rooms_past-All x [] h = refl
rooms_past-All x (r ∷ l) h = rw (past-newer x r ∙ h.0) (ap (λ k. r ∷ k) (rooms_past-All x l h.1))

All-after :
    (P : Room → Type 0) (pre : List Room) (x : Room) (post : List Room)
    → All P (pre ++ x ∷ post)
    → P x
All-after P [] x post h = h.0
All-after P (y ∷ pre) x post h = All-after P pre x post h.1

-- Past a room of the list stands what follows it.
rooms_past-rest :
    (pre : List Room) (x : Room) (post : List Room)
    → IsNewestFirst (pre ++ x ∷ post)
    → rooms_past x.created_at x.id (pre ++ x ∷ post) ≡ post
unfolding rooms_past IsNewestFirst
rooms_past-rest [] x post v = rw (past-newer x x ∙ newer_irrefl x) (rooms_past-All x post v.0)
rooms_past-rest (y ∷ pre) x post v =
    let before = All-after (λ r. newer y r ≡ true) pre x post v.0 in
    rw (past-newer x y ∙ newer_asym y x before) (rooms_past-rest pre x post v.1)

take-take : {A : Type 0} (n m : ℕ) (l : List A) → n ≤ m → take n (take m l) ≡ take n l
take-take zero m l h = refl
take-take (suc n) zero l h = absurd (omega arith)
take-take (suc n) (suc m) [] h = refl
take-take (suc n) (suc m) (x ∷ l) h = ap (◌∷◌ x) (take-take n m l (omega arith))

get_elem?-take :
    {A : Type 0} (i n : ℕ) (l : List A) → i < n → get_elem? (take n l) i ≡ get_elem? l i
get_elem?-take i zero l h = absurd (omega arith)
get_elem?-take i (suc n) [] h = refl
get_elem?-take zero (suc n) (x ∷ l) h = refl
get_elem?-take (suc i) (suc n) (x ∷ l) h = get_elem?-take i n l (omega arith)

limited-take : (n : ℕ) (l : List Room) → 0 < n → limited n l ≡ take n l
unfolding limited
limited-take n l p =
    let some_limit : ltb 0 n ≡ true = ground arith in
    elim (Bool-cases (ltb n (length l))) [
      | inl more ↦ rw (some_limit, more) refl
      | inr fits ↦ rw (some_limit, fits) (sym (take_all n l (ground (arith, fits))))
    ]

-- A page of what is left: all of it, or the rows up to the limit with the key of the last.
page_of : List Room → ℕ → Page Room
page_of rest limit = new_page (limited (limit + 1) rest) limit cursor_of

page_of-last :
    (rest : List Room) (limit : ℕ)
    → 0 < limit
    → length rest ≤ limit
    → page_of rest limit ≡ record { items = rest; next_cursor = none }
unfolding page_of new_page
page_of-last rest limit p h =
    let all : limited (limit + 1) rest ≡ rest =
      limited-take (limit + 1) rest (omega arith) ∙ take_all (limit + 1) rest (omega arith) in
    let some_limit : (limit == 0) ≡ false = ground arith in
    let fits : leb (length rest) limit ≡ true = ground arith in rw (all, some_limit, fits) refl

page_of-more :
    (rest : List Room) (limit : ℕ) (x : Room)
    → 0 < limit
    → limit < length rest
    → get_elem? rest (limit - 1) ≡ some x
    → page_of rest limit ≡ record { items = take limit rest; next_cursor = some (cursor_of x) }
unfolding page_of new_page last_key
page_of-more rest limit x p h at =
    let one_more : limited (limit + 1) rest ≡ take (limit + 1) rest =
      limited-take (limit + 1) rest (omega arith) in
    let some_limit : (limit == 0) ≡ false = ground arith in
    let over : leb (length (take (limit + 1) rest)) limit ≡ false =
      ground (arith, length-take (limit + 1) rest) in
    let items : take limit (take (limit + 1) rest) ≡ take limit rest =
      take-take limit (limit + 1) rest (omega arith) in
    let key : get_elem? (take limit rest) (limit - 1) ≡ some x =
      get_elem?-take (limit - 1) limit rest (omega arith) ∙ at in
    rw (one_more, some_limit, over, items)
      (ap (λ o. record { items = take limit rest; next_cursor = key_of cursor_of o }) key)

-- A cursor with the rooms that are left behind it.
Leaves : List Room → Option Cursor → List Room → Type 0
Leaves all none rest = all ≡ rest
Leaves all (some c) rest =
    (pre : List Room) × (x : Room) × (c ≡ cursor_of x) × (all ≡ pre ++ x ∷ rest)

list-page_of :
    (s : RoomStore) (user : String) (c : Option Cursor) (limit : ℕ) (rest : List Room)
    → IsNewestFirst (rooms_with s user s.room_ids)
    → Leaves (rooms_with s user s.room_ids) c rest
    → list s user c limit ≡ page_of rest limit
unfolding list list_after rooms_for_user page_of Leaves
list-page_of s user none limit rest v h =
    ap (λ l. new_page (limited (limit + 1) l) limit cursor_of) h
list-page_of s user (some c) limit rest v (pre, x, key, all) =
    let past_it : rooms_past c.created_at c.id (rooms_with s user s.room_ids) ≡ rest =
      ap (λ k. rooms_past k.created_at k.id (rooms_with s user s.room_ids)) key
      ∙ ap (rooms_past x.created_at x.id) all
      ∙ rooms_past-rest pre x rest (subst IsNewestFirst all v) in
    ap (λ l. new_page (limited (limit + 1) l) limit cursor_of) past_it

-- All the rows that a client reads that follows the cursors, `fuel` pages at most.
unfoldable pub walk : ℕ → RoomStore → String → Option Cursor → ℕ → List Room
walk zero s user c limit = []
walk (suc fuel) s user c limit =
    (list s user c limit).items ++ elim (list s user c limit).next_cursor [
      | none ↦ []
      | some next ↦ walk fuel s user (some next) limit
    ]

walk-page :
    (fuel : ℕ) (s : RoomStore) (user : String) (c : Option Cursor) (limit : ℕ) (p : Page Room)
    → list s user c limit ≡ p
    → walk (suc fuel) s user c limit ≡ (
        p.items
        ++ elim p.next_cursor [ none ↦ [] | some next ↦ walk fuel s user (some next) limit ])
unfolding walk
walk-page fuel s user c limit p e =
    ap
      (λ q.
        q.items
        ++ elim q.next_cursor [ none ↦ [] | some next ↦ walk fuel s user (some next) limit ])
      e

append_nil : (l : List Room) → (l ++ []) ≡ l
append_nil [] = refl
append_nil (x ∷ l) = ap (◌∷◌ x) (append_nil l)

split_at :
    (k : ℕ) (l : List Room) (x : Room) → get_elem? l k ≡ some x → l ≡ take k l ++ x ∷ drop (suc k) l
split_at k l x at = sym (take-append-drop k l) ∙ ap (λ d. take k l ++ d) (drop-get_elem? k l x at)

append_assoc : (a b c : List Room) → a ++ (b ++ c) ≡ (a ++ b) ++ c
append_assoc [] b c = refl
append_assoc (x ∷ a) b c = ap (◌∷◌ x) (append_assoc a b c)

Leaves-later :
    (all rest : List Room) (c : Option Cursor) (n : ℕ) (x : Room)
    → Leaves all c rest
    → 0 < n
    → get_elem? rest (n - 1) ≡ some x
    → Leaves all (some (cursor_of x)) (drop n rest)
unfolding Leaves
Leaves-later all rest c zero x h p at = absurd (omega arith)
Leaves-later all rest none (suc k) x h p at =
    let own : get_elem? rest k ≡ some x = ap (get_elem? rest) (omega arith) ∙ at in
    (take k rest, x, refl, h ∙ split_at k rest x own)
Leaves-later all rest (some c) (suc k) x (pre, y, key, is) p at =
    let own : get_elem? rest k ≡ some x = ap (get_elem? rest) (omega arith) ∙ at in
    (
      pre ++ y ∷ take k rest,
      x,
      refl,
      is
          ∙ ap (λ r. pre ++ y ∷ r) (split_at k rest x own)
          ∙ append_assoc pre (y ∷ take k rest) (x ∷ drop (suc k) rest),
    )

walk-rest :
    (fuel : ℕ) (s : RoomStore) (user : String) (c : Option Cursor) (limit : ℕ) (rest : List Room)
    → 0 < limit
    → length rest < fuel
    → IsNewestFirst (rooms_with s user s.room_ids)
    → Leaves (rooms_with s user s.room_ids) c rest
    → walk fuel s user c limit ≡ rest
walk-rest zero s user c limit rest p h v l = absurd (omega arith)
walk-rest (suc fuel) s user c limit rest p h v l = elim (Bool-cases (leb (length rest) limit)) [
  | inl fits ↦
      walk-page fuel s user c limit _
        (list-page_of s user c limit rest v l ∙ page_of-last rest limit p (ground (arith, fits)))
      ∙ append_nil rest
  | inr over ↦
      let (x, at) = get_elem?-some (limit - 1) rest (ground (arith, over)) in
      walk-page fuel s user c limit _ (
        list-page_of s user c limit rest v l
        ∙ page_of-more rest limit x p (ground (arith, over)) at)
      ∙ ap (λ k. take limit rest ++ k)
          (walk-rest fuel s user (some (cursor_of x)) limit (drop limit rest) p
            (ground (arith, over, length-drop limit rest)) v
            (Leaves-later (rooms_with s user s.room_ids) rest c limit x l p at))
      ∙ take-append-drop limit rest
]

-- A client that follows the cursors from the first page reads every room of the user once, newest first:
-- all the pages together are the whole sorted list, for any limit but 0 and enough pages, one more than
-- the user has rooms.
pub walk_complete :
    (fuel : ℕ) (s : RoomStore) (user : String) (limit : ℕ)
    → IsKept s
    → 0 < limit
    → length (rooms_with s user s.room_ids) < fuel
    → (walk fuel s user none limit ≡ rooms_with s user s.room_ids)
      × IsNewestFirst (rooms_with s user s.room_ids)
unfolding Leaves
walk_complete fuel s user limit v p h =
    let sorted = rooms_with-IsNewestFirst s user s.room_ids v v.distinct_keys in
    (walk-rest fuel s user none limit (rooms_with s user s.room_ids) p h sorted refl, sorted)
