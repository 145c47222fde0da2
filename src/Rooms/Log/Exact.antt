-- ===== src/Rooms/Log/Exact.antt =====
-- When a write of the repository is accepted, and what it then does
-- (server/internal/modules/rooms/roomstest/memstore.go).
use vybe.Base.{
  ℕ, ◌+◌, ◌⊎◌, ◌≡◌, refl, sym, ap, subst, ◌∙◌, true, Option, none, some, length, arith, Bool-cases,
  Option-cases, inl, inr,
}
use vybe.Base.Int.{ℤ, pos, eqb_ℤ, eq_of_parts}
use vybe.Base.Text.{String}
use vybe.Realtime.EventLog.{Envelope, Invalid, validate}
use vybe.Rooms.Log.{
  Room, RoomStore, appended, append_locked, next_seq, add_participant, remove_participant,
  change_room, transfer_host, set_state, end_room,
}
use vybe.Rooms.Log.Append.{RoomWrite, joins, leaves, hands_over, moves, ends, write_room}
use vybe.Rooms.Log.Applied.{write_room-IsApplied}
use vybe.Rooms.Log.Effects.{IsWritten, applied-IsWritten}

-- The event has the number that is next in the room's log, and is valid.
abbrev pub IsNext : RoomStore → String → Envelope → Type 0
IsNext s room e = (e.seq ≡ pos (length (s.events room) + 1)) × (validate e ≡ none)

-- The event has another number, or is not valid.
abbrev pub IsOutOfTurn : RoomStore → String → Envelope → Type 0
IsOutOfTurn s room e =
    ¬ (e.seq ≡ pos (length (s.events room) + 1)) ⊎ ((i : Invalid) × (validate e ≡ some i))

same_number : (a : ℤ) (n : ℕ) → eqb_ℤ a (pos n) ≡ true → a ≡ pos n
same_number a n h = ground (arith, h, eq_of_parts a (pos n))

in_turn_or_not :
    (s : RoomStore) (room : String) (e : Envelope) → IsNext s room e ⊎ IsOutOfTurn s room e
in_turn_or_not s room e = elim (Bool-cases (eqb_ℤ e.seq (pos (length (s.events room) + 1)))) [
  | inl same ↦ elim (Option-cases (validate e)) [
    | inl valid ↦ inl (same_number e.seq _ same, valid)
    | inr invalid ↦ inr (inr invalid)
  ]
  | inr off ↦ inr (inl (λ q. ground (arith, off, q)))
]

-- Refused: the event is out of turn. Accepted: it is next, and the store is written.
abbrev pub IsOutcome : RoomStore → String → Room → RoomWrite → Envelope → Option RoomStore → Type 0
IsOutcome s room r w e none = IsOutOfTurn s room e
IsOutcome s room r w e (some t) = IsNext s room e × IsWritten s room r w e t

append_locked-none :
    (s u : RoomStore) (room : String) (e : Envelope)
    → u.events ≡ s.events
    → IsOutOfTurn s room e
    → append_locked u room e ≡ none
unfolding append_locked appended
append_locked-none s u room e events (inl off) =
    elim (Bool-cases (eqb_ℤ e.seq (pos (length (u.events room) + 1)))) [
      | inl same ↦
          absurd (off (same_number e.seq _ same ∙ ap (λ m. pos (length (m room) + 1)) events))
      | inr other ↦ rw other refl
    ]
append_locked-none s u room e events (inr (i, invalid)) =
    elim (Bool-cases (eqb_ℤ e.seq (pos (length (u.events room) + 1)))) [
      | inl same ↦ rw (same, invalid) refl
      | inr other ↦ rw other refl
    ]

change_room-none :
    (s u : RoomStore) (room : String) (r : Room) (f : Room → Room) (e : Envelope)
    → u.rooms room ≡ some r
    → u.events ≡ s.events
    → IsOutOfTurn s room e
    → change_room (u.rooms room) f u room e ≡ none
unfolding change_room
change_room-none s u room r f e found events out =
    ap (λ o. change_room o f u room e) found ∙ append_locked-none s _ room e events out

write_room-none :
    (s : RoomStore) (room : String) (r : Room) (w : RoomWrite) (e : Envelope)
    → s.rooms room ≡ some r
    → IsOutOfTurn s room e
    → write_room s room w e ≡ none
unfolding write_room add_participant remove_participant transfer_host set_state end_room
write_room-none s room r (joins user is_host at) e found out =
    append_locked-none s _ room e refl out
write_room-none s room r (leaves user at) e found out = append_locked-none s _ room e refl out
write_room-none s room r (hands_over host) e found out =
    change_room-none s _ room r _ e found refl out
write_room-none s room r (moves to at) e found out = change_room-none s s room r _ e found refl out
write_room-none s room r (ends reason at) e found out =
    change_room-none s s room r _ e found refl out

-- A write of a room that exists is accepted exactly if its event is valid and has the number next in the
-- room's log; it is refused otherwise. An accepted write puts the event at the end of the log, moves the
-- row's number and time to the event's and sets the fields of the row that the operation names, with the
-- start kept from the first play. A join adds a connected entry at the end; a leave disconnects the
-- entries of that user and no other; a transfer marks as host the entries of the new host and no other; a
-- move or an end keeps the members. No other room, log or list of members changes.
pub write_room-IsWritten :
    (s : RoomStore) (room : String) (r : Room) (w : RoomWrite) (e : Envelope)
    → s.rooms room ≡ some r
    → IsOutcome s room r w e (write_room s room w e)
unfolding next_seq
write_room-IsWritten s room r w e found = elim (in_turn_or_not s room e) [
  | inl (q, valid) ↦
      let (t, is, applied) = write_room-IsApplied s room r w e found q valid in
      subst (IsOutcome s room r w e) (sym is) ((q, valid), applied-IsWritten s room r w e t applied)
  | inr out ↦ subst (IsOutcome s room r w e) (sym (write_room-none s room r w e found out)) out
]
