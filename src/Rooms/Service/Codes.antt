-- ===== src/Rooms/Service/Codes.antt =====
-- Join codes of live rooms: their lookup and their allocation
-- (server/internal/modules/rooms/service.go, server/internal/modules/rooms/roomstest/memstore.go).
use vybe.Base.{
  ◌<◌, ◌≡◌, refl, sym, ap, ◌∙◌, true, false, Option, none, some, List, [], ◌∷◌, arith, Bool-cases,
  Option-cases, inl, inr, ℕ, Occurs, zero, suc, get_elem?, take, All,
}
use vybe.Base.Text.{String}
use vybe.Base.Bytes.{bytes_eq, bytes_eq_iff}
use vybe.Rooms.Log.{Room, RoomStore, is_ended}
use vybe.Rooms.Directory.{live_with, first_live, join_code_taken}
use vybe.Rooms.Operation.{Service}
use vybe.Rooms.Creation.{CodeResult, draw_code, allocate_join_code, join_code_attempts}

live_with-some :
    (code : List ℕ) (o : Option Room) (r : Room)
    → live_with code o ≡ some r
    → (o ≡ some r) × (r.join_code ≡ code) × (is_ended r.state ≡ false)
unfolding live_with
live_with-some code none r h = absurd cc
live_with-some code (some q) r h = elim (Bool-cases (bytes_eq q.join_code code)) [
  | inr other ↦ absurd (ground (arith, h, other))
  | inl same ↦ elim (Bool-cases (is_ended q.state)) [
    | inl over ↦ absurd (ground (arith, h, same, over))
    | inr live ↦
        let k : some q ≡ some r = sym (rw (same, live) refl) ∙ h in
        let e : q ≡ r = ap (λ o. or_room q o) k in
        (k, rw (sym e) ((bytes_eq_iff q.join_code code).0 same), rw (sym e) live)
  ]
]
  where
    or_room : Room → Option Room → Room
    or_room d none = d
    or_room d (some x) = x

-- A lookup finds a live room under the code.
pub first_live-some :
    (rooms : String → Option Room) (code : List ℕ) (ids : List String) (r : Room)
    → first_live rooms code ids ≡ some r
    → (j : String) × (rooms j ≡ some r) × (r.join_code ≡ code) × (is_ended r.state ≡ false)
unfolding first_live
first_live-some rooms code [] r h = absurd cc
first_live-some rooms code (id ∷ ids) r h = elim (Option-cases (live_with code (rooms id))) [
  | inl absent ↦ first_live-some rooms code ids r (ground (arith, absent, h))
  | inr (q, present) ↦
      let (found, same, live) = live_with-some code (rooms id) r (ground (arith, present, h)) in
      (id, found, same, live)
]

live_with-live :
    (code : List ℕ) (r : Room)
    → r.join_code ≡ code
    → is_ended r.state ≡ false
    → live_with code (some r) ≡ some r
unfolding live_with
live_with-live code r h k = rw (k, (bytes_eq_iff r.join_code code).1 h) refl

-- A live room under a listed id is not overlooked.
pub first_live-found :
    (rooms : String → Option Room) (code : List ℕ) (ids : List String) (j : String) (r : Room)
    → Occurs j ids
    → rooms j ≡ some r
    → r.join_code ≡ code
    → is_ended r.state ≡ false
    → (q : Room) × (first_live rooms code ids ≡ some q)
unfolding first_live
first_live-found rooms code [] j r o h k l = absurd o
first_live-found rooms code (id ∷ ids) j r o h k l =
    elim (Option-cases (live_with code (rooms id))) [
      | inr (q, present) ↦ (q, rw present refl)
      | inl absent ↦ elim o [
        | inl e ↦
            let at : rooms id ≡ some r = ap rooms (sym e) ∙ h in
            let here : live_with code (rooms id) ≡ some r =
              ap (live_with code) at ∙ live_with-live code r k l in
            absurd (ground (arith, absent, here))
        | inr later ↦ rw absent (first_live-found rooms code ids j r later h k l)
      ]
    ]

pub join_code_taken-first :
    (s : RoomStore) (code : List ℕ)
    → join_code_taken s code ≡ false
    → first_live s.rooms code s.room_ids ≡ none
unfolding join_code_taken
join_code_taken-first s code h = elim (Option-cases (first_live s.rooms code s.room_ids)) [
  | inl absent ↦ absent
  | inr (q, present) ↦ absurd (ground (arith, h, present))
]

-- A draw that a live room holds.
abbrev pub IsTaken : RoomStore → Option (List ℕ) → Type 0
IsTaken s none = ⊥
IsTaken s (some c) = join_code_taken s c ≡ true

draw_code_lem :
    (n : ℕ) (draws : List (Option (List ℕ))) (s : RoomStore) (c : List ℕ)
    → draw_code n draws s ≡ CodeResult.drawn c
    → (k : ℕ) × (k < n)
      × (get_elem? draws k ≡ some (some c))
      × All (IsTaken s) (take k draws)
      × (join_code_taken s c ≡ false)
unfolding draw_code
draw_code_lem zero draws s c h = absurd cc
draw_code_lem (suc n) [] s c h = absurd cc
draw_code_lem (suc n) (none ∷ draws) s c h = absurd cc
draw_code_lem (suc n) (some d ∷ draws) s c h = elim (Bool-cases (join_code_taken s d)) [
  | inl taken ↦
      let (k, below, at, before, free) = draw_code_lem n draws s c (ground (arith, taken, h)) in
      (suc k, omega arith, at, (taken, before), free)
  | inr free ↦
      let now : CodeResult.drawn d ≡ CodeResult.drawn c = sym (rw free refl) ∙ h in
      let e : d ≡ c = ap (code_or d) now in
      (zero, omega arith, ap (λ x. some (some x)) e, tt, rw (sym e) free)
]
  where
    code_or : List ℕ → CodeResult → List ℕ
    code_or d (CodeResult.drawn x) = x
    code_or d (CodeResult.code_failed e) = d

-- The code allocated is the first draw that no live room holds, and one of the first five; every draw
-- before it was held by a live room.
pub allocate_join_code_lem :
    (svc : Service) (s : RoomStore) (c : List ℕ)
    → allocate_join_code svc s ≡ CodeResult.drawn c
    → (k : ℕ) × (k < join_code_attempts)
      × (get_elem? svc.new_code k ≡ some (some c))
      × All (IsTaken s) (take k svc.new_code)
      × (join_code_taken s c ≡ false)
unfolding allocate_join_code
allocate_join_code_lem svc s c h = draw_code_lem join_code_attempts svc.new_code s c h
