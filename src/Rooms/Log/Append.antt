-- ===== src/Rooms/Log/Append.antt =====
-- The writes of the repository against the numbering of the logs
-- (server/internal/modules/rooms/roomstest/memstore.go).
use vybe.Base.{
  ◌⊎◌, ℕ, ◌+◌, ◌≡◌, refl, sym, ap, subst, ◌∙◌, Bool, true, false, Option, none, some, List, [], ◌∷◌,
  ◌++◌, if◌then◌else◌, length, map, arith, Bool-cases, inl, inr, length-append,
}
use vybe.Base.Int.{ℤ, pos, eqb_ℤ, eq_of_parts}
use vybe.Base.Text.{String, str_eq, eq_iff}
use vybe.Realtime.EventLog.{Envelope, Invalid, validate}
use vybe.Realtime.EventLog.Contiguity.{seqs, run_from}
use vybe.Rooms.Lifecycle.{State}
use vybe.Rooms.Log.{
  seated, Room, RoomStore, with_entry, numbered, appended, append_locked, add_participant,
  remove_participant, change_room, transfer_host, set_state, end_room,
}
use vybe.Rooms.Log.Reader.{IsInStep}

-- Every room is in step.
abbrev pub IsSound : RoomStore → Type 0
IsSound s = (room : String) → IsInStep s room

seqs-append :
    (l : List Envelope) (f : ℕ) (e : Envelope)
    → seqs l ≡ run_from f (length l)
    → e.seq ≡ pos (f + length l)
    → seqs (l ++ e ∷ []) ≡ run_from f (length (l ++ e ∷ []))
seqs-append [] f e h q = ground (arith, q)
seqs-append (x ∷ l) f e h q = ground (arith, h, seqs-append l (f + 1) e)

numbered-seq :
    (o : Option Room) (e : Envelope) (r : Room) → numbered o e ≡ some r → r.current_seq ≡ e.seq
unfolding numbered
numbered-seq none e r h = absurd cc
numbered-seq (some q) e r h = ground (arith, h)

-- The store after an append that was accepted.
abbrev pub after_append : RoomStore → String → Envelope → RoomStore
after_append s room e = record s {
  events = with_entry s.events room (s.events room ++ e ∷ []);
  rooms = with_entry s.rooms room (numbered (s.rooms room) e);
}

after_append-IsInStep :
    (s : RoomStore) (room j : String) (e : Envelope)
    → e.seq ≡ pos (length (s.events room) + 1)
    → IsSound s
    → IsInStep (after_append s room e) j
unfolding with_entry
after_append-IsInStep s room j e q v = elim (Bool-cases (str_eq j room)) [
  | inl same ↦ record {
    gap_free = rw same (seqs-append (s.events room) 1 e (v room).gap_free (ground (arith, q)));
    current = rw same (λ r h.
        numbered-seq (s.rooms room) e r h
        ∙ q
        ∙ ap pos (sym (length-append (s.events room) (e ∷ []))));
  }
  | inr other ↦ record { gap_free = rw other (v j).gap_free; current = rw other (v j).current }
]

or_store : RoomStore → Option RoomStore → RoomStore
or_store s none = s
or_store s (some t) = t

appended-accepted :
    (s t : RoomStore) (room : String) (e : Envelope) (o : Option Invalid)
    → appended o s room e ≡ some t
    → after_append s room e ≡ t
unfolding appended or_store
appended-accepted s t room e (some i) h = absurd cc
appended-accepted s t room e none h = ap (or_store s) h

pub append_locked-accepted :
    (s t : RoomStore) (room : String) (e : Envelope)
    → append_locked s room e ≡ some t
    → (e.seq ≡ pos (length (s.events room) + 1)) × (after_append s room e ≡ t)
unfolding append_locked
append_locked-accepted s t room e h =
    elim (Bool-cases (eqb_ℤ e.seq (pos (length (s.events room) + 1)))) [
      | inl same ↦ (
        ground (arith, same, eq_of_parts e.seq (pos (length (s.events room) + 1))),
        appended-accepted s t room e (validate e) (sym (rw same refl) ∙ h),
      )
      | inr other ↦ absurd (ground (arith, other, h))
    ]

pub append_locked-IsSound :
    (s t : RoomStore) (room : String) (e : Envelope)
    → append_locked s room e ≡ some t
    → IsSound s
    → IsSound t
append_locked-IsSound s t room e h v =
    let a = append_locked-accepted s t room e h in
    subst IsSound a.1 (λ j. after_append-IsInStep s room j e a.0 v)

-- A change that leaves the logs and where the rooms stand.
abbrev KeepsLogs : RoomStore → RoomStore → Type 0
KeepsLogs s t =
    (t.events ≡ s.events)
    × ((j : String) (r : Room)
        → t.rooms j ≡ some r
        → (q : Room) × (s.rooms j ≡ some q) × (r.current_seq ≡ q.current_seq))

kept-IsSound : (s t : RoomStore) → KeepsLogs s t → IsSound s → IsSound t
kept-IsSound s t (e, c) v j = record {
  gap_free = subst (λ m. seqs (m j) ≡ run_from 1 (length (m j))) (sym e) (v j).gap_free;
  current = λ r h.
      let (q, found, same) = c j r h in
      same ∙ (v j).current q found ∙ ap (λ m. pos (length (m j))) (sym e);
}

members-KeepsLogs : (s t : RoomStore) → t.events ≡ s.events → t.rooms ≡ s.rooms → KeepsLogs s t
members-KeepsLogs s t same_events same_rooms =
    (same_events, λ j r h. (r, ap (λ m. m j) (sym same_rooms) ∙ h, refl))

some_room : Room → Option Room → Room
some_room d none = d
some_room d (some r) = r

chosen :
    (b : Bool) (m : Option Room) (r q : Room)
    → (if b then some r else m) ≡ some q
    → ((b ≡ true) × (r ≡ q)) ⊎ ((b ≡ false) × (m ≡ some q))
unfolding some_room
chosen true m r q h = inl (refl, ap (some_room r) h)
chosen false m r q h = inr (refl, h)

changed-KeepsLogs :
    (s : RoomStore) (room : String) (r r' : Room)
    → s.rooms room ≡ some r
    → r'.current_seq ≡ r.current_seq
    → KeepsLogs s (record s { rooms = with_entry s.rooms room (some r') })
unfolding with_entry
changed-KeepsLogs s room r r' found same = (
  refl,
  λ j q h. elim (chosen (str_eq j room) (s.rooms j) r' q h) [
    | inl (at, is) ↦
        (r, ap s.rooms ((eq_iff j room).0 at) ∙ found, ap (λ x. x.current_seq) (sym is) ∙ same)
    | inr (off, is) ↦ (q, is, refl)
  ],
)

change_room-IsSound :
    (o : Option Room) (f : Room → Room) (s t : RoomStore) (room : String) (e : Envelope)
    → s.rooms room ≡ o
    → ((r : Room) → (f r).current_seq ≡ r.current_seq)
    → change_room o f s room e ≡ some t
    → IsSound s
    → IsSound t
unfolding change_room
change_room-IsSound none f s t room e found same h v = absurd cc
change_room-IsSound (some r) f s t room e found same h v =
    let u : RoomStore = record s { rooms = with_entry s.rooms room (some (f r)) } in
    append_locked-IsSound u t room e h
      (kept-IsSound s u (changed-KeepsLogs s room r (f r) found (same r)) v)

members-IsSound :
    (s u t : RoomStore) (room : String) (e : Envelope)
    → append_locked u room e ≡ some t
    → u.events ≡ s.events
    → u.rooms ≡ s.rooms
    → IsSound s
    → IsSound t
members-IsSound s u t room e h same_events same_rooms v =
    append_locked-IsSound u t room e h
      (kept-IsSound s u (members-KeepsLogs s u same_events same_rooms) v)

-- A write of the repository after a room's creation: an operation and its event.
pub data RoomWrite : Type 0 where
  joins : (user : String) (is_host : Bool) (at : ℤ) → RoomWrite
  leaves : (user : String) (at : ℤ) → RoomWrite
  hands_over : (new_host : String) → RoomWrite
  moves : (to : State) (at : ℤ) → RoomWrite
  ends : (reason : String) (at : ℤ) → RoomWrite

unfoldable pub write_room : RoomStore → String → RoomWrite → Envelope → Option RoomStore
write_room s room (joins user is_host at) e = add_participant s room user is_host at e
write_room s room (leaves user at) e = remove_participant s room user at e
write_room s room (hands_over new_host) e = transfer_host s room new_host e
write_room s room (moves to at) e = set_state s room to at e
write_room s room (ends reason at) e = end_room s room reason at e

-- Every write that the repository accepts, with whatever event, keeps the log of every room numbered
-- from 1 without a gap, and the room standing at its end.
pub write_room-IsSound :
    (s t : RoomStore) (room : String) (w : RoomWrite) (e : Envelope)
    → write_room s room w e ≡ some t
    → IsSound s
    → IsSound t
unfolding write_room add_participant remove_participant transfer_host set_state end_room
write_room-IsSound s t room (joins user is_host at) e h v =
    members-IsSound s _ t room e h refl refl v
write_room-IsSound s t room (leaves user at) e h v = members-IsSound s _ t room e h refl refl v
write_room-IsSound s t room (hands_over new_host) e h v =
    let u : RoomStore = record s {
      participants = with_entry s.participants room (map (seated new_host) (s.participants room));
    } in
    change_room-IsSound (s.rooms room) _ u t room e refl (λ r. refl) h
      (kept-IsSound s u (members-KeepsLogs s u refl refl) v)
write_room-IsSound s t room (moves to at) e h v =
    change_room-IsSound (s.rooms room) _ s t room e refl (λ r. refl) h v
write_room-IsSound s t room (ends reason at) e h v =
    change_room-IsSound (s.rooms room) _ s t room e refl (λ r. refl) h v
