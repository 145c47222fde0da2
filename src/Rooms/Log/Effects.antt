-- ===== src/Rooms/Log/Effects.antt =====
-- What a write of the repository does to the row, the members, the log and the other rooms, field by field
-- (server/internal/modules/rooms/roomstest/memstore.go).
use vybe.Base.{
  ◌≡◌, refl, sym, subst, Bool, true, false, Option, none, some, List, [], ◌∷◌, ◌++◌, arith, map,
  Bool-cases, inl, inr,
}
use vybe.Base.Int.{ℤ}
use vybe.Base.Text.{String, str_eq, eq_iff}
use vybe.Realtime.EventLog.{Envelope}
use vybe.Rooms.Lifecycle.{State}
use vybe.Rooms.Succession.{Participant}
use vybe.Rooms.Log.{Room, RoomStore, departed, seated, first_start}
use vybe.Rooms.Log.Append.{RoomWrite, joins, leaves, hands_over, moves, ends}
use vybe.Rooms.Log.Applied.{IsSameElsewhere, IsApplied, members_after}

-- The lists have the same length, and the relation holds between the elements at each place.
pub Matched : (Participant → Participant → Type 0) → List Participant → List Participant → Type 0
Matched R [] [] = Unit
Matched R [] (q ∷ l) = ⊥
Matched R (p ∷ l) [] = ⊥
Matched R (p ∷ l) (q ∷ m) = R p q × Matched R l m

map-Matched :
    (R : Participant → Participant → Type 0) (f : Participant → Participant)
    → ((p : Participant) → R p (f p))
    → (l : List Participant) → Matched R l (map f l)
unfolding Matched
map-Matched R f h [] = tt
map-Matched R f h (p ∷ l) = (h p, map-Matched R f h l)

-- `q` is `p` after the user left at `at`: the user's own entry is disconnected from then on, with the rest
-- kept, and the entry of anybody else is as it was.
pub record HasLeft (user : String) (at : ℤ) (p q : Participant) : Type 0 where
  pub user_id : q.user_id ≡ p.user_id
  pub joined_at : q.joined_at ≡ p.joined_at
  pub is_host : q.is_host ≡ p.is_host
  pub own : p.user_id ≡ user → (q.connected ≡ false) × (q.disconnected_at ≡ some at)
  pub other : ¬ (p.user_id ≡ user) → q ≡ p

-- `q` is `p` after the host became `host`: marked as host exactly if it is that user's, with the rest kept.
pub record HasPassed (host : String) (p q : Participant) : Type 0 where
  pub user_id : q.user_id ≡ p.user_id
  pub joined_at : q.joined_at ≡ p.joined_at
  pub connected : q.connected ≡ p.connected
  pub disconnected_at : q.disconnected_at ≡ p.disconnected_at
  pub own : p.user_id ≡ host → q.is_host ≡ true
  pub other : ¬ (p.user_id ≡ host) → q.is_host ≡ false

departed-HasLeft :
    (user : String) (at : ℤ) (p : Participant) → HasLeft user at p (departed user at p)
departed-HasLeft user at p = elim (Bool-cases (str_eq p.user_id user)) [
  | inl same ↦ rw same (record {
    user_id = refl;
    joined_at = refl;
    is_host = refl;
    own = λ h. (refl, refl);
    other = λ n. absurd (n ((eq_iff _ _).0 same));
  })
  | inr off ↦ rw off (record {
    user_id = refl;
    joined_at = refl;
    is_host = refl;
    own = λ h. absurd (ground (arith, off, (eq_iff p.user_id user).1 h));
    other = λ n. refl;
  })
]

not_same : (a b : String) → ¬ (a ≡ b) → str_eq a b ≡ false
not_same a b n = elim (Bool-cases (str_eq a b)) [
  | inl same ↦ absurd (n ((eq_iff a b).0 same))
  | inr off ↦ off
]

seated-HasPassed : (host : String) (p : Participant) → HasPassed host p (seated host p)
seated-HasPassed host p = record {
  user_id = refl;
  joined_at = refl;
  connected = refl;
  disconnected_at = refl;
  own = λ h. (eq_iff p.user_id host).1 h;
  other = λ n. not_same p.user_id host n;
}

-- The user's entry as it joins.
pub record IsNew (user : String) (host : Bool) (at : ℤ) (q : Participant) : Type 0 where
  pub user_id : q.user_id ≡ user
  pub joined_at : q.joined_at ≡ at
  pub connected : q.connected ≡ true
  pub is_host : q.is_host ≡ host
  pub disconnected_at : q.disconnected_at ≡ none

-- The members before and after a write.
abbrev pub Members : RoomWrite → List Participant → List Participant → Type 0
Members (joins user is_host at) l m =
    (q : Participant) × (m ≡ l ++ q ∷ []) × IsNew user is_host at q
Members (leaves user at) l m = Matched (HasLeft user at) l m
Members (hands_over host) l m = Matched (HasPassed host) l m
Members (moves to at) l m = m ≡ l
Members (ends reason at) l m = m ≡ l

members_after-Members : (w : RoomWrite) (l : List Participant) → Members w l (members_after w l)
members_after-Members (joins user is_host at) l = (
  _,
  refl,
  record {
    user_id = refl;
    joined_at = refl;
    connected = refl;
    is_host = refl;
    disconnected_at = refl;
  },
)
members_after-Members (leaves user at) l = map-Matched _ _ (departed-HasLeft user at) l
members_after-Members (hands_over host) l = map-Matched _ _ (seated-HasPassed host) l
members_after-Members (moves to at) l = refl
members_after-Members (ends reason at) l = refl

-- The start of a room is the time at which it first played.
pub record HasStarted (to : State) (at : ℤ) (before after : Option ℤ) : Type 0 where
  pub first : to ≡ State.playing → before ≡ none → after ≡ some at
  pub again : (t : ℤ) → before ≡ some t → after ≡ some t
  pub still : ¬ (to ≡ State.playing) → after ≡ before

first_start-HasStarted :
    (to : State) (at : ℤ) (before : Option ℤ) → HasStarted to at before (first_start to before at)
unfolding first_start
first_start-HasStarted State.playing at none = record {
  first = λ p h. refl;
  again = λ t h. absurd cc;
  still = λ n. absurd (n refl);
}
first_start-HasStarted State.playing at (some t) = record {
  first = λ p h. absurd cc;
  again = λ u h. h;
  still = λ n. refl;
}
first_start-HasStarted State.lobby at before = record {
  first = λ p h. absurd cc;
  again = λ t h. h;
  still = λ n. refl;
}
first_start-HasStarted State.ready at before = record {
  first = λ p h. absurd cc;
  again = λ t h. h;
  still = λ n. refl;
}
first_start-HasStarted State.ended at before = record {
  first = λ p h. absurd cc;
  again = λ t h. h;
  still = λ n. refl;
}
first_start-HasStarted (State.other x) at before = record {
  first = λ p h. absurd cc;
  again = λ t h. h;
  still = λ n. refl;
}

abbrev pub Started : RoomWrite → Option ℤ → Option ℤ → Type 0
Started (moves to at) before after = HasStarted to at before after
Started (joins user is_host at) before after = after ≡ before
Started (leaves user at) before after = after ≡ before
Started (hands_over host) before after = after ≡ before
Started (ends reason at) before after = after ≡ before

-- The fields of the row that a write sets beside the number and the time, with the start as given.
abbrev pub changed_row : RoomWrite → Option ℤ → Room → Room
changed_row (joins user is_host at) started r = r
changed_row (leaves user at) started r = r
changed_row (hands_over host) started r = record r { host_user_id = host }
changed_row (moves to at) started r = record r { state = to; started_at = started }
changed_row (ends reason at) started r = record r {
  state = State.ended;
  ended_at = some at;
  end_reason = reason;
}

-- `t` is `s` after the write of the room with the event `e`.
pub record IsWritten (s : RoomStore) (room : String) (r : Room) (w : RoomWrite) (e : Envelope)
    (t : RoomStore) : Type 0 where
  pub started : Option ℤ
  pub start : Started w r.started_at started
  pub row :
      t.rooms room
      ≡ some (record (changed_row w started r) { current_seq = e.seq; updated_at = e.ts })
  pub log : t.events room ≡ s.events room ++ e ∷ []
  pub members : Members w (s.participants room) (t.participants room)
  pub elsewhere : IsSameElsewhere s room t

as_written-Members :
    (s : RoomStore) (room : String) (w : RoomWrite) {l : List Participant}
    → l ≡ members_after w (s.participants room)
    → Members w (s.participants room) l
as_written-Members s room w is =
    subst (Members w (s.participants room)) (sym is) (members_after-Members w (s.participants room))

pub applied-IsWritten :
    (s : RoomStore) (room : String) (r : Room) (w : RoomWrite) (e : Envelope) (t : RoomStore)
    → IsApplied s room r w e t
    → IsWritten s room r w e t
applied-IsWritten s room r (joins user is_host at) e t v = record {
  started = r.started_at;
  start = refl;
  row = v.row;
  log = v.log;
  members = as_written-Members s room (joins user is_host at) v.members;
  elsewhere = v.elsewhere;
}
applied-IsWritten s room r (leaves user at) e t v = record {
  started = r.started_at;
  start = refl;
  row = v.row;
  log = v.log;
  members = as_written-Members s room (leaves user at) v.members;
  elsewhere = v.elsewhere;
}
applied-IsWritten s room r (hands_over host) e t v = record {
  started = r.started_at;
  start = refl;
  row = v.row;
  log = v.log;
  members = as_written-Members s room (hands_over host) v.members;
  elsewhere = v.elsewhere;
}
applied-IsWritten s room r (moves to at) e t v = record {
  started = first_start to r.started_at at;
  start = first_start-HasStarted to at r.started_at;
  row = v.row;
  log = v.log;
  members = as_written-Members s room (moves to at) v.members;
  elsewhere = v.elsewhere;
}
applied-IsWritten s room r (ends reason at) e t v = record {
  started = r.started_at;
  start = refl;
  row = v.row;
  log = v.log;
  members = as_written-Members s room (ends reason at) v.members;
  elsewhere = v.elsewhere;
}
