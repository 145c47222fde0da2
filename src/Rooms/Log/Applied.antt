-- ===== src/Rooms/Log/Applied.antt =====
-- What each write of the repository does, exactly, and when it is accepted
-- (server/internal/modules/rooms/roomstest/memstore.go).
use vybe.Base.{
  Bool-cases, inl, inr, ◌+◌, ◌≡◌, refl, sym, ap, ◌∙◌, Bool, true, Option, none, some, List, [], ◌∷◌,
  ◌++◌, length, arith, map,
}
use vybe.Base.Int.{ℤ, pos, eqb_ℤ}
use vybe.Base.Text.{String, str_eq, eq_iff}
use vybe.Realtime.EventLog.{Envelope, validate}
use vybe.Rooms.Lifecycle.{State}
use vybe.Rooms.Succession.{Participant}
use vybe.Rooms.Log.{
  Room, RoomStore, with_entry, numbered, appended, append_locked, next_seq, add_participant,
  remove_participant, change_room, transfer_host, set_state, end_room, departed, seated,
  first_start,
}
use vybe.Rooms.Log.Append.{
  after_append, RoomWrite, joins, leaves, hands_over, moves, ends, write_room,
}

-- The row of the room after a write.
abbrev pub row_after : RoomWrite → Envelope → Room → Room
row_after (joins user is_host at) e r = record r { current_seq = e.seq; updated_at = e.ts }
row_after (leaves user at) e r = record r { current_seq = e.seq; updated_at = e.ts }
row_after (hands_over new_host) e r = record r {
  host_user_id = new_host;
  current_seq = e.seq;
  updated_at = e.ts;
}
row_after (moves to at) e r = record r {
  state = to;
  started_at = first_start to r.started_at at;
  current_seq = e.seq;
  updated_at = e.ts;
}
row_after (ends reason at) e r = record r {
  state = State.ended;
  ended_at = some at;
  end_reason = reason;
  current_seq = e.seq;
  updated_at = e.ts;
}

abbrev pub newcomer : String → Bool → ℤ → Participant
newcomer user is_host at = record {
  user_id = user;
  joined_at = at;
  connected = true;
  is_host = is_host;
  disconnected_at = none;
}

-- The members of the room after a write.
abbrev pub members_after : RoomWrite → List Participant → List Participant
members_after (joins user is_host at) ps = ps ++ newcomer user is_host at ∷ []
members_after (leaves user at) ps = map (departed user at) ps
members_after (hands_over new_host) ps = map (seated new_host) ps
members_after (moves to at) ps = ps
members_after (ends reason at) ps = ps

-- Of a room other than the one named, the two stores say the same, and they have the same rooms.
pub record IsSameElsewhere (s : RoomStore) (room : String) (t : RoomStore) : Type 0 where
  pub rooms : (k : String) → ¬ (k ≡ room) → t.rooms k ≡ s.rooms k
  pub events : (k : String) → ¬ (k ≡ room) → t.events k ≡ s.events k
  pub participants : (k : String) → ¬ (k ≡ room) → t.participants k ≡ s.participants k
  pub room_ids : t.room_ids ≡ s.room_ids
  pub content : t.content ≡ s.content

-- `t` is `s` with the write of the room and its event at the end of the room's log.
pub record IsApplied (s : RoomStore) (room : String) (r : Room) (w : RoomWrite) (e : Envelope)
    (t : RoomStore) : Type 0 where
  pub row : t.rooms room ≡ some (row_after w e r)
  pub log : t.events room ≡ s.events room ++ e ∷ []
  pub members : t.participants room ≡ members_after w (s.participants room)
  pub elsewhere : IsSameElsewhere s room t

pub entry-same {ℓ} : {A : Type ℓ} (m : String → A) (k : String) (v : A) → with_entry m k v k ≡ v
unfolding with_entry
entry-same m k v = rw ((eq_iff k k).1 refl) refl

entry-other {ℓ} :
    {A : Type ℓ} (m : String → A) (k j : String) (v : A) → ¬ (j ≡ k) → with_entry m k v j ≡ m j
unfolding with_entry
entry-other m k j v n = elim (Bool-cases (str_eq j k)) [
  | inl same ↦ absurd (n ((eq_iff j k).0 same))
  | inr other ↦ rw other refl
]

members-IsSameElsewhere :
    (s : RoomStore) (room : String) (l : List Participant)
    → IsSameElsewhere s room (record s { participants = with_entry s.participants room l })
members-IsSameElsewhere s room l = record {
  rooms = λ k n. refl;
  events = λ k n. refl;
  participants = λ k n. entry-other s.participants room k l n;
  room_ids = refl;
  content = refl;
}

itself-IsSameElsewhere : (s : RoomStore) (room : String) → IsSameElsewhere s room s
itself-IsSameElsewhere s room = record {
  rooms = λ k n. refl;
  events = λ k n. refl;
  participants = λ k n. refl;
  room_ids = refl;
  content = refl;
}

row-IsSameElsewhere :
    (s u : RoomStore) (room : String) (o : Option Room)
    → IsSameElsewhere s room u
    → IsSameElsewhere s room (record u { rooms = with_entry u.rooms room o })
row-IsSameElsewhere s u room o v = record {
  rooms = λ k n. entry-other u.rooms room k o n ∙ v.rooms k n;
  events = v.events;
  participants = v.participants;
  room_ids = v.room_ids;
  content = v.content;
}

after_append-IsSameElsewhere :
    (s u : RoomStore) (room : String) (e : Envelope)
    → IsSameElsewhere s room u
    → IsSameElsewhere s room (after_append u room e)
after_append-IsSameElsewhere s u room e v = record {
  rooms = λ k n. entry-other u.rooms room k (numbered (u.rooms room) e) n ∙ v.rooms k n;
  events = λ k n. entry-other u.events room k (u.events room ++ e ∷ []) n ∙ v.events k n;
  participants = v.participants;
  room_ids = v.room_ids;
  content = v.content;
}

pub append_locked-some :
    (u : RoomStore) (room : String) (e : Envelope)
    → e.seq ≡ next_seq u room
    → validate e ≡ none
    → append_locked u room e ≡ some (after_append u room e)
unfolding append_locked next_seq appended
append_locked-some u room e q v =
    let same : eqb_ℤ e.seq (pos (length (u.events room) + 1)) ≡ true = ground (arith, q) in
    rw (same, v) refl

-- The append over a changed store `u`.
append-IsApplied :
    (s u : RoomStore) (room : String) (r t : Room) (w : RoomWrite) (e : Envelope)
    → u.rooms room ≡ some t
    → record t { current_seq = e.seq; updated_at = e.ts } ≡ row_after w e r
    → u.events ≡ s.events
    → u.participants room ≡ members_after w (s.participants room)
    → IsSameElsewhere s room u
    → IsApplied s room r w e (after_append u room e)
unfolding numbered
append-IsApplied s u room r t w e found row events members same = record {
  row =
      entry-same u.rooms room (numbered (u.rooms room) e)
      ∙ ap (λ o. numbered o e) found
      ∙ ap some row;
  log = entry-same u.events room (u.events room ++ e ∷ []) ∙ ap (λ m. m room ++ e ∷ []) events;
  members = members;
  elsewhere = after_append-IsSameElsewhere s u room e same;
}

Accepted : RoomStore → String → Room → RoomWrite → Envelope → Option RoomStore → Type 0
Accepted s room r w e o = (t : RoomStore) × (o ≡ some t) × IsApplied s room r w e t

change-Accepted :
    (s u : RoomStore) (room : String) (r : Room) (f : Room → Room) (w : RoomWrite) (e : Envelope)
    → u.rooms room ≡ some r
    → u.events ≡ s.events
    → e.seq ≡ next_seq s room
    → validate e ≡ none
    → record (f r) { current_seq = e.seq; updated_at = e.ts } ≡ row_after w e r
    → u.participants room ≡ members_after w (s.participants room)
    → IsSameElsewhere s room u
    → Accepted s room r w e (change_room (u.rooms room) f u room e)
unfolding change_room next_seq Accepted
change-Accepted s u room r f w e found events q v row members same =
    let a : RoomStore = record u { rooms = with_entry u.rooms room (some (f r)) } in
    let number : e.seq ≡ pos (length (a.events room) + 1) =
      q ∙ ap (λ m. pos (length (m room) + 1)) (sym events) in
    (
      after_append a room e,
      ap (λ o. change_room o f u room e) found ∙ append_locked-some a room e number v,
      append-IsApplied s a room r (f r) w e (entry-same u.rooms room (some (f r))) row events
          members (row-IsSameElsewhere s u room (some (f r)) same),
    )

members-Accepted :
    (s u : RoomStore) (room : String) (r : Room) (w : RoomWrite) (e : Envelope)
    → u.rooms room ≡ some r
    → u.events ≡ s.events
    → e.seq ≡ next_seq s room
    → validate e ≡ none
    → record r { current_seq = e.seq; updated_at = e.ts } ≡ row_after w e r
    → u.participants room ≡ members_after w (s.participants room)
    → IsSameElsewhere s room u
    → Accepted s room r w e (append_locked u room e)
unfolding next_seq Accepted
members-Accepted s u room r w e found events q v row members same =
    let number : e.seq ≡ pos (length (u.events room) + 1) =
      q ∙ ap (λ m. pos (length (m room) + 1)) (sym events) in
    (
      after_append u room e,
      append_locked-some u room e number v,
      append-IsApplied s u room r r w e found row events members same,
    )

-- A write of a room that exists, with a valid event under the number that NextSeq gives, is accepted.
pub write_room-IsApplied :
    (s : RoomStore) (room : String) (r : Room) (w : RoomWrite) (e : Envelope)
    → s.rooms room ≡ some r
    → e.seq ≡ next_seq s room
    → validate e ≡ none
    → (t : RoomStore) × (write_room s room w e ≡ some t) × IsApplied s room r w e t
unfolding write_room add_participant remove_participant transfer_host set_state end_room Accepted
write_room-IsApplied s room r (joins user is_host at) e found q v =
    members-Accepted s _ room r (joins user is_host at) e found refl q v refl
      (entry-same s.participants room _) (members-IsSameElsewhere s room _)
write_room-IsApplied s room r (leaves user at) e found q v =
    members-Accepted s _ room r (leaves user at) e found refl q v refl
      (entry-same s.participants room _) (members-IsSameElsewhere s room _)
write_room-IsApplied s room r (hands_over new_host) e found q v =
    change-Accepted s _ room r _ (hands_over new_host) e found refl q v refl
      (entry-same s.participants room _) (members-IsSameElsewhere s room _)
write_room-IsApplied s room r (moves to at) e found q v =
    change-Accepted s s room r _ (moves to at) e found refl q v refl refl
      (itself-IsSameElsewhere s room)
write_room-IsApplied s room r (ends reason at) e found q v =
    change-Accepted s s room r _ (ends reason at) e found refl q v refl refl
      (itself-IsSameElsewhere s room)
