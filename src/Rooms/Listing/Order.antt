-- ===== src/Rooms/Listing/Order.antt =====
-- The order of a user's rooms (server/internal/modules/rooms/roomstest/memstore.go).
use vybe.Base.{
  ◌≡◌, ◌≢◌, inl, inr, refl, sym, ◌∙◌, true, false, Option, none, some, List, [], ◌∷◌, arith,
  Bool-cases, All,
}
use vybe.Base.Text.{String, eq_iff, str_ltb_irrefl, str_ltb_trans, str_ltb_total}
use vybe.Realtime.EventLog.{contains_text}
use vybe.Rooms.Log.{Room, RoomStore}
use vybe.Rooms.Directory.{newer, place_room, rooms_with, add_if_member, takes_part}
use vybe.Rooms.Service.Requests.{IsKept, HasDistinctKeys}

pub newer_irrefl : (a : Room) → newer a a ≡ false
unfolding newer
newer_irrefl a = ground (arith, str_ltb_irrefl a.id)

newer_trans : (a b c : Room) → newer a b ≡ true → newer b c ≡ true → newer a c ≡ true
unfolding newer
newer_trans a b c h k = ground (arith, str_ltb_trans c.id b.id a.id)

newer_total : (a b : Room) → a.id ≢ b.id → newer a b ≡ false → newer b a ≡ true
unfolding newer
newer_total a b h k = ground (arith, str_ltb_total a.id b.id, h)

pub newer_asym : (a b : Room) → newer a b ≡ true → newer b a ≡ false
unfolding newer
newer_asym a b h = elim (Bool-cases (newer b a)) [
  | inl k ↦ absurd (both (newer_trans a b a h k) (newer_irrefl a))
  | inr k ↦ k
]
  where
    both : newer a a ≡ true → newer a a ≡ false → ⊥
    both p q = cc

-- Newest first, and no two alike.
unfoldable pub IsNewestFirst : List Room → Type 0
IsNewestFirst [] = Unit
IsNewestFirst (r ∷ l) = All (λ x. newer r x ≡ true) l × IsNewestFirst l

older-still :
    (r q : Room) (l : List Room)
    → newer r q ≡ true
    → All (λ x. newer q x ≡ true) l
    → All (λ x. newer r x ≡ true) l
older-still r q [] h a = tt
older-still r q (x ∷ l) h a = (newer_trans r q x h a.0, older-still r q l h a.1)

place_room-All {κ} :
    (P : Room → Type κ) (r : Room) (l : List Room) → P r → All P l → All P (place_room r l)
unfolding place_room
place_room-All P r [] h a = (h, tt)
place_room-All P r (q ∷ l) h a = elim (Bool-cases (newer q r)) [
  | inl later ↦ rw later (a.0, place_room-All P r l h a.1)
  | inr before ↦ rw before (h, a)
]

place_room-IsNewestFirst :
    (r : Room) (l : List Room)
    → All (λ x. x.id ≢ r.id) l
    → IsNewestFirst l
    → IsNewestFirst (place_room r l)
unfolding place_room IsNewestFirst
place_room-IsNewestFirst r [] d v = (tt, tt)
place_room-IsNewestFirst r (q ∷ l) d v = elim (Bool-cases (newer q r)) [
  | inl later ↦
      rw later
        (place_room-All (λ x. newer q x ≡ true) r l later v.0, place_room-IsNewestFirst r l d.1 v.1)
  | inr before ↦
      let first = newer_total q r d.0 before in rw before ((first, older-still r q l first v.0), v)
]

add_if_member-All {κ} :
    (P : Room → Type κ) (s : RoomStore) (user key : String) (o : Option Room) (l : List Room)
    → ((r : Room) → o ≡ some r → P r)
    → All P l
    → All P (add_if_member s user key o l)
add_if_member-All P s user key none l h a = a
add_if_member-All P s user key (some r) l h a = elim (Bool-cases (takes_part s user key r)) [
  | inl member ↦ rw member (place_room-All P r l (h r refl) a)
  | inr stranger ↦ rw stranger a
]

rooms_with-other :
    (s : RoomStore) (user id : String) (ids : List String)
    → IsKept s
    → contains_text id ids ≡ false
    → All (λ x. x.id ≢ id) (rooms_with s user ids)
unfolding rooms_with contains_text
rooms_with-other s user id [] v h = tt
rooms_with-other s user id (j ∷ ids) v h =
    add_if_member-All (λ x. x.id ≢ id) s user j (s.rooms j) (rooms_with s user ids)
      (λ r found same. absurd (differs r (v.keyed j r found) same))
      (rooms_with-other s user id ids v (ground (arith, h)))
  where
    differs : (r : Room) → r.id ≡ j → r.id ≡ id → ⊥
    differs r own same = absurd (ground (arith, h, (eq_iff id j).1 (sym same ∙ own)))

add_if_member-IsNewestFirst :
    (s : RoomStore) (user key : String) (o : Option Room) (l : List Room)
    → ((r : Room) → o ≡ some r → All (λ x. x.id ≢ r.id) l)
    → IsNewestFirst l
    → IsNewestFirst (add_if_member s user key o l)
add_if_member-IsNewestFirst s user key none l h v = v
add_if_member-IsNewestFirst s user key (some r) l h v =
    elim (Bool-cases (takes_part s user key r)) [
      | inl member ↦ rw member (place_room-IsNewestFirst r l (h r refl) v)
      | inr stranger ↦ rw stranger v
    ]

pub rooms_with-IsNewestFirst :
    (s : RoomStore) (user : String) (ids : List String)
    → IsKept s
    → HasDistinctKeys ids
    → IsNewestFirst (rooms_with s user ids)
unfolding rooms_with IsNewestFirst HasDistinctKeys
rooms_with-IsNewestFirst s user [] v d = tt
rooms_with-IsNewestFirst s user (j ∷ ids) v d =
    add_if_member-IsNewestFirst s user j (s.rooms j) (rooms_with s user ids)
      (λ r found. rw (v.keyed j r found) (rooms_with-other s user j ids v d.0))
      (rooms_with-IsNewestFirst s user ids v d.1)
