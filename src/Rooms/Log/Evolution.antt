-- ===== src/Rooms/Log/Evolution.antt =====
-- What the writes of the repository leave as it is, and when they are accepted
-- (server/internal/modules/rooms/roomstest/memstore.go).
use vybe.Base.{◌≡◌, refl, sym, ap, ◌∙◌, true, Option, none, some, Bool-cases, inl, inr}
use vybe.Base.Text.{String, str_eq, eq_iff}
use vybe.Realtime.EventLog.{Envelope}
use vybe.Rooms.Log.{
  Room, RoomStore, with_entry, numbered, append_locked, add_participant, remove_participant,
  change_room, transfer_host, set_state, end_room, is_ended,
}
use vybe.Rooms.Log.Append.{
  after_append, append_locked-accepted, RoomWrite, joins, leaves, hands_over, moves, ends,
  write_room,
}

-- A room keeps its id and its code, and once ended stays ended; none appears or goes.
abbrev pub SameRoom : Room → Room → Type 0
SameRoom r t =
    (t.id ≡ r.id)
    × (t.join_code ≡ r.join_code)
    × (is_ended r.state ≡ true → is_ended t.state ≡ true)

abbrev pub Follows : Option Room → Option Room → Type 0
Follows none none = Unit
Follows none (some t) = ⊥
Follows (some r) none = ⊥
Follows (some r) (some t) = SameRoom r t

pub Follows-refl : (o : Option Room) → Follows o o
Follows-refl none = tt
Follows-refl (some r) = (refl, refl, λ h. h)

pub Follows-trans : (a b c : Option Room) → Follows a b → Follows b c → Follows a c
Follows-trans none none none h k = tt
Follows-trans none none (some t) h k = k
Follows-trans none (some u) c h k = absurd h
Follows-trans (some r) none c h k = absurd h
Follows-trans (some r) (some u) none h k = k
Follows-trans (some r) (some u) (some t) h k = (k.0 ∙ h.0, k.1 ∙ h.1, λ e. k.2 (h.2 e))

-- From one store to a later one: the rooms, and no event where there is no room.
pub record Evolves (s t : RoomStore) : Type 0 where
  pub same_ids : t.room_ids ≡ s.room_ids
  pub same_rooms : (j : String) → Follows (s.rooms j) (t.rooms j)
  pub no_event : (j : String) → s.rooms j ≡ none → t.events j ≡ s.events j

pub Evolves-refl : (s : RoomStore) → Evolves s s
Evolves-refl s = record {
  same_ids = refl;
  same_rooms = λ j. Follows-refl (s.rooms j);
  no_event = λ j h. refl;
}

Follows-none : (a b : Option Room) → Follows a b → a ≡ none → b ≡ none
Follows-none none none h e = refl
Follows-none none (some t) h e = absurd h
Follows-none (some r) b h e = absurd cc

pub Evolves-trans : (s t u : RoomStore) → Evolves s t → Evolves t u → Evolves s u
Evolves-trans s t u a b = record {
  same_ids = b.same_ids ∙ a.same_ids;
  same_rooms =
      λ j. Follows-trans (s.rooms j) (t.rooms j) (u.rooms j) (a.same_rooms j) (b.same_rooms j);
  no_event = λ j h.
      b.no_event j (Follows-none (s.rooms j) (t.rooms j) (a.same_rooms j) h) ∙ a.no_event j h;
}

numbered-Follows : (a b : Option Room) (e : Envelope) → Follows a b → Follows a (numbered b e)
unfolding numbered
numbered-Follows none none e h = h
numbered-Follows none (some t) e h = h
numbered-Follows (some r) none e h = h
numbered-Follows (some r) (some t) e h = h

-- An append over a changed store `u`.
appended-Evolves :
    (s u : RoomStore) (room : String) (r : Room) (e : Envelope)
    → s.rooms room ≡ some r
    → u.room_ids ≡ s.room_ids
    → u.events ≡ s.events
    → ((j : String) → Follows (s.rooms j) (u.rooms j))
    → Evolves s (after_append u room e)
unfolding with_entry
appended-Evolves s u room r e found ids events rooms = record {
  same_ids = ids;
  same_rooms = λ j. elim (Bool-cases (str_eq j room)) [
    | inl same ↦
        let at : j ≡ room = (eq_iff j room).0 same in
        rw (same, at) (numbered-Follows (s.rooms room) (u.rooms room) e (rooms room))
    | inr other ↦ rw other (rooms j)
  ];
  no_event = λ j h. elim (Bool-cases (str_eq j room)) [
    | inl same ↦
        let no : some r ≡ none = sym found ∙ ap s.rooms (sym ((eq_iff j room).0 same)) ∙ h in
        absurd cc
    | inr other ↦ rw other (ap (λ m. m j) events)
  ];
}

-- An append to a store after the write `u` that was accepted.
accepted-Evolves :
    (s u t : RoomStore) (room : String) (r : Room) (e : Envelope)
    → append_locked u room e ≡ some t
    → s.rooms room ≡ some r
    → u.room_ids ≡ s.room_ids
    → u.events ≡ s.events
    → ((j : String) → Follows (s.rooms j) (u.rooms j))
    → Evolves s t
accepted-Evolves s u t room r e h found ids events rooms =
    let a = append_locked-accepted u t room e h in
    rw (sym a.1) (appended-Evolves s u room r e found ids events rooms)

entry-Follows :
    (s : RoomStore) (room j : String) (r t : Room)
    → s.rooms room ≡ some r
    → SameRoom r t
    → Follows (s.rooms j) (with_entry s.rooms room (some t) j)
unfolding with_entry
entry-Follows s room j r t found same = elim (Bool-cases (str_eq j room)) [
  | inl at ↦
      let here : s.rooms j ≡ some r = ap s.rooms ((eq_iff j room).0 at) ∙ found in
      rw (at, here) same
  | inr off ↦ rw off (Follows-refl (s.rooms j))
]

change_room-Evolves :
    (s u t : RoomStore) (room : String) (r : Room) (f : Room → Room) (e : Envelope)
    → change_room (u.rooms room) f u room e ≡ some t
    → s.rooms room ≡ some r
    → u.room_ids ≡ s.room_ids
    → u.events ≡ s.events
    → u.rooms ≡ s.rooms
    → SameRoom r (f r)
    → Evolves s t
unfolding change_room
change_room-Evolves s u t room r f e h found ids events rooms same =
    let here : u.rooms room ≡ some r = ap (λ m. m room) rooms ∙ found in
    let k : change_room (some r) f u room e ≡ some t =
      ap (λ o. change_room o f u room e) (sym here) ∙ h in
    accepted-Evolves s (record u { rooms = with_entry u.rooms room (some (f r)) }) t room r e k
      found ids events (λ j. rw rooms (entry-Follows s room j r (f r) found same))

-- A move to another state does not reopen a room.
abbrev pub KeepsEnded : Room → RoomWrite → Type 0
KeepsEnded r (moves to at) = is_ended r.state ≡ true → is_ended to ≡ true
KeepsEnded r (joins user is_host at) = Unit
KeepsEnded r (leaves user at) = Unit
KeepsEnded r (hands_over new_host) = Unit
KeepsEnded r (ends reason at) = Unit

pub write_room-Evolves :
    (s t : RoomStore) (room : String) (r : Room) (w : RoomWrite) (e : Envelope)
    → write_room s room w e ≡ some t
    → s.rooms room ≡ some r
    → KeepsEnded r w
    → Evolves s t
unfolding write_room add_participant remove_participant transfer_host set_state end_room is_ended
write_room-Evolves s t room r (joins user is_host at) e h found k =
    accepted-Evolves s _ t room r e h found refl refl (λ j. Follows-refl (s.rooms j))
write_room-Evolves s t room r (leaves user at) e h found k =
    accepted-Evolves s _ t room r e h found refl refl (λ j. Follows-refl (s.rooms j))
write_room-Evolves s t room r (hands_over new_host) e h found k =
    change_room-Evolves s _ t room r _ e h found refl refl refl (refl, refl, λ x. x)
write_room-Evolves s t room r (moves to at) e h found k =
    change_room-Evolves s s t room r _ e h found refl refl refl (refl, refl, k)
write_room-Evolves s t room r (ends reason at) e h found k =
    change_room-Evolves s s t room r _ e h found refl refl refl (refl, refl, λ x. refl)
