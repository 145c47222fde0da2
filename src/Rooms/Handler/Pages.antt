-- ===== src/Rooms/Handler/Pages.antt =====
-- The rooms that a page of the list shows (server/internal/modules/rooms/handler.go).
use vybe.Base.{
  ℕ, zero, suc, ◌+◌, ◌-◌, ◌≡◌, refl, ap, ◌∙◌, ◌⊎◌, ◌||◌, true, Option, none, some, List, [], ◌∷◌,
  map, length, take, get_elem?, All, Occurs, Bool-cases, inl, inr, arith, leb, ltb, ◌&&◌, ◌==◌,
}
use vybe.Base.Int.{ℤ}
use vybe.Base.Text.{String, str_eq, eq_iff}
use vybe.Rooms.Succession.{Participant}
use vybe.Rooms.Log.{Room, RoomStore}
use vybe.Rooms.Directory.{
  has_user, takes_part, place_room, newer, add_if_member, rooms_with, past, rooms_past, from_cursor,
  limited, rooms_for_user,
}
use vybe.Rooms.Service.Requests.{IsKept}
use vybe.Rooms.Listing.{Cursor, new_page, last_key, key_of, cursor_of, list, list_after}
use vybe.Rooms.Answers.{RoomResponse}
use vybe.Rooms.Handler.{Handler, list_item, response_cursor, found_after}

-- The user hosts the room or has a place in it, left or not.
abbrev pub HasTakenPart : RoomStore → Room → String → Type 0
HasTakenPart s r user =
    (r.host_user_id ≡ user)
    ⊎ ((p : Participant) × Occurs p (s.participants r.id) × (p.user_id ≡ user))

-- A stored room that the user has taken part in.
abbrev pub IsOwn : RoomStore → String → Room → Type 0
IsOwn s user r = (s.rooms r.id ≡ some r) × HasTakenPart s r user

has_user-Occurs :
    (user : String) (l : List Participant)
    → has_user user l ≡ true
    → (p : Participant) × Occurs p l × (p.user_id ≡ user)
unfolding has_user
has_user-Occurs user [] h = absurd cc
has_user-Occurs user (p ∷ l) h = elim (Bool-cases (str_eq p.user_id user)) [
  | inl own ↦ (p, inl refl, (eq_iff p.user_id user).0 own)
  | inr other ↦ let (q, o, is) = has_user-Occurs user l (ground (arith, other, h)) in (q, inr o, is)
]

takes_part-IsOwn :
    (s : RoomStore) (user id : String) (r : Room)
    → r.id ≡ id
    → s.rooms id ≡ some r
    → takes_part s user id r ≡ true
    → IsOwn s user r
takes_part-IsOwn s user id r is found h = elim (Bool-cases (str_eq r.host_user_id user)) [
  | inl host ↦ (ap s.rooms is ∙ found, inl ((eq_iff r.host_user_id user).0 host))
  | inr guest ↦ (
    ap s.rooms is ∙ found,
    inr (
        has_user-Occurs user (s.participants r.id)
          (ap (λ j. has_user user (s.participants j)) is ∙ ground (arith, guest, h))),
  )
]

place_room-All {κ} :
    (P : Room → Type κ) (r : Room) (l : List Room) → P r → All P l → All P (place_room r l)
unfolding place_room
place_room-All P r [] h a = (h, tt)
place_room-All P r (q ∷ l) h a = elim (Bool-cases (newer q r)) [
  | inl later ↦ rw later (a.0, place_room-All P r l h a.1)
  | inr before ↦ rw before (h, a)
]

add_if_member-IsOwn :
    (s : RoomStore) (user id : String) (o : Option Room) (l : List Room)
    → s.rooms id ≡ o
    → IsKept s
    → All (IsOwn s user) l
    → All (IsOwn s user) (add_if_member s user id o l)
add_if_member-IsOwn s user id none l found v a = a
add_if_member-IsOwn s user id (some r) l found v a = elim (Bool-cases (takes_part s user id r)) [
  | inr stranger ↦ rw stranger a
  | inl member ↦ rw member (
      place_room-All (IsOwn s user) r l
        (takes_part-IsOwn s user id r (v.keyed id r found) found member) a)
]

rooms_with-IsOwn :
    (s : RoomStore) (user : String) (ids : List String)
    → IsKept s
    → All (IsOwn s user) (rooms_with s user ids)
unfolding rooms_with
rooms_with-IsOwn s user [] v = tt
rooms_with-IsOwn s user (id ∷ ids) v =
    add_if_member-IsOwn s user id (s.rooms id) (rooms_with s user ids) refl v
      (rooms_with-IsOwn s user ids v)

rooms_past-All {κ} :
    (P : Room → Type κ) (before : ℤ) (before_id : String) (l : List Room)
    → All P l
    → All P (rooms_past before before_id l)
unfolding rooms_past
rooms_past-All P before before_id [] a = tt
rooms_past-All P before before_id (r ∷ l) a = elim (Bool-cases (past before before_id r)) [
  | inl older ↦ rw older (a.0, rooms_past-All P before before_id l a.1)
  | inr kept ↦ rw kept (rooms_past-All P before before_id l a.1)
]

from_cursor-All {κ} :
    (P : Room → Type κ) (before : Option ℤ) (before_id : String) (l : List Room)
    → All P l
    → All P (from_cursor before before_id l)
from_cursor-All P none before_id l a = a
from_cursor-All P (some before) before_id l a = rooms_past-All P before before_id l a

take-All {ℓ κ} : {A : Type ℓ} (P : A → Type κ) (n : ℕ) (l : List A) → All P l → All P (take n l)
take-All P zero l a = tt
take-All P (suc n) [] a = tt
take-All P (suc n) (x ∷ l) a = (a.0, take-All P n l a.1)

limited-All {κ} :
    (P : Room → Type κ) (limit : ℕ) (l : List Room) → All P l → All P (limited limit l)
unfolding limited
limited-All P limit l a = elim (Bool-cases (ltb 0 limit && ltb limit (length l))) [
  | inl cut ↦ rw cut (take-All P limit l a)
  | inr whole ↦ rw whole a
]

found_after-IsOwn :
    (s : RoomStore) (user : String) (c : Option Cursor) (limit : ℕ)
    → IsKept s
    → All (IsOwn s user) (found_after s user c limit)
unfolding found_after rooms_for_user
found_after-IsOwn s user none limit v =
    limited-All (IsOwn s user) limit _ (rooms_with-IsOwn s user s.room_ids v)
found_after-IsOwn s user (some c) limit v = limited-All (IsOwn s user) limit _ (
    from_cursor-All (IsOwn s user) (some c.created_at) c.id _
      (rooms_with-IsOwn s user s.room_ids v))

new_page-All {ℓ κ} :
    {A : Type ℓ} (P : A → Type κ) (rows : List A) (limit : ℕ) (key : A → Cursor)
    → All P rows
    → All P (new_page rows limit key).items
unfolding new_page
new_page-All P rows limit key a = elim (Bool-cases (limit == 0 || leb (length rows) limit)) [
  | inl last ↦ rw last a
  | inr more ↦ rw more (take-All P limit rows a)
]

-- What a page shows is of rooms that the user has taken part in, as they are stored.
abbrev pub IsOwnItem : RoomStore → String → Handler → RoomResponse → Type 0
IsOwnItem s user h a = (r : Room) × (a ≡ list_item h r) × IsOwn s user r

items-IsOwnItem :
    (s : RoomStore) (user : String) (h : Handler) (l : List Room)
    → All (IsOwn s user) l
    → All (IsOwnItem s user h) (map (list_item h) l)
items-IsOwnItem s user h [] a = tt
items-IsOwnItem s user h (r ∷ l) a = ((r, refl, a.0), items-IsOwnItem s user h l a.1)

pub page-IsOwnItem :
    (s : RoomStore) (user : String) (h : Handler) (c : Option Cursor) (limit : ℕ)
    → IsKept s
    → All
        (IsOwnItem s user h)
        (new_page
          (map (list_item h) (found_after s user c (limit + 1)))
          limit
          response_cursor).items
page-IsOwnItem s user h c limit v =
    new_page-All (IsOwnItem s user h) _ limit response_cursor
      (items-IsOwnItem s user h _ (found_after-IsOwn s user c (limit + 1) v))

-- From one property of each entry to another.
pub All-weaken {ℓ κ μ} :
    {A : Type ℓ} (P : A → Type κ) (Q : A → Type μ) (l : List A)
    → ((x : A) → P x → Q x)
    → All P l
    → All Q l
All-weaken P Q [] f a = tt
All-weaken P Q (x ∷ l) f a = (f x a.0, All-weaken P Q l f a.1)

length-map {ℓ μ} : {A : Type ℓ} {B : Type μ} (f : A → B) (l : List A) → length (map f l) ≡ length l
length-map f [] = refl
length-map f (x ∷ l) = ap suc (length-map f l)

take-map {ℓ μ} :
    {A : Type ℓ} {B : Type μ} (f : A → B) (n : ℕ) (l : List A) → take n (map f l) ≡ map f (take n l)
take-map f zero l = refl
take-map f (suc n) [] = refl
take-map f (suc n) (x ∷ l) = ap (◌∷◌ (f x)) (take-map f n l)

key-map :
    (h : Handler) (l : List Room) (i : ℕ)
    → key_of response_cursor (get_elem? (map (list_item h) l) i) ≡ key_of cursor_of (get_elem? l i)
key-map h [] i = refl
key-map h (x ∷ l) zero = refl
key-map h (x ∷ l) (suc i) = key-map h l i

new_page-map :
    (h : Handler) (rows : List Room) (limit : ℕ)
    → ((new_page (map (list_item h) rows) limit response_cursor).items
        ≡ map (list_item h) (new_page rows limit cursor_of).items)
      × ((new_page (map (list_item h) rows) limit response_cursor).next_cursor
          ≡ (new_page rows limit cursor_of).next_cursor)
unfolding new_page last_key
new_page-map h rows limit = elim (Bool-cases (limit == 0 || leb (length rows) limit)) [
  | inl last ↦ rw (length-map (list_item h) rows, last) (refl, refl)
  | inr more ↦
      rw (length-map (list_item h) rows, more, take-map (list_item h) limit rows)
        (refl, key-map h (take limit rows) (limit - 1))
]

-- The page of the answer is the page of the rows, each shown with its code, under the same cursor.
pub page-list :
    (s : RoomStore) (user : String) (h : Handler) (c : Option Cursor) (limit : ℕ)
    → let shown =
        new_page (map (list_item h) (found_after s user c (limit + 1))) limit response_cursor in
      (shown.items ≡ map (list_item h) (list s user c limit).items)
      × (shown.next_cursor ≡ (list s user c limit).next_cursor)
unfolding found_after list list_after
page-list s user h none limit = new_page-map h (rooms_for_user s user none "" (limit + 1)) limit
page-list s user h (some c) limit =
    new_page-map h (rooms_for_user s user (some c.created_at) c.id (limit + 1)) limit
