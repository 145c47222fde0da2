-- ===== src/Rooms/Lifecycle.antt =====
-- The room's state machine, capacity and reaping (server/internal/modules/rooms/state.go). The Go types
-- are strings: `other` is any value but the named ones. Times are integers of nanoseconds.
pub mod Machine
use vybe.Base.{ℕ, Bool, true, false, Option, none, some, ◌||◌, if◌then◌else◌}
use vybe.Base.Int.{ℤ, pos, leb_ℤ}
use vybe.Base.Word.{time_sub}
use vybe.Base.Text.{String, str_eq}

pub data State : Type 0 where
  lobby ready playing ended : State
  other : String → State

pub data Event : Type 0 where
  arm start reanchor end cancel : Event
  other : String → Event

pub record IllegalTransition : Type 0 where
  pub from : State
  pub event : Event

pub data Result {ℓ} (A : Type ℓ) : Type ℓ where
  ok : A → Result A
  illegal : IllegalTransition → Result A

-- The table: `none` for a state that it does not list, then the state that each listed event leads to.
abbrev pub transitions : State → Option (Event → Option State)
transitions State.lobby =
    some (elim [ Event.arm ↦ some State.ready | Event.end ↦ some State.ended | _ ↦ none ])
transitions State.ready = some (elim [
  | Event.start ↦ some State.playing
  | Event.cancel ↦ some State.lobby
  | Event.end ↦ some State.ended
  | _ ↦ none
])
transitions State.playing =
    some (elim [ Event.reanchor ↦ some State.ready | Event.end ↦ some State.ended | _ ↦ none ])
transitions State.ended = some (λ _. none)
transitions (State.other _) = none

abbrev pub or_illegal : State → Event → Option State → Result State
or_illegal from event none = Result.illegal (record { from = from; event = event })
or_illegal from event (some to) = Result.ok to

unfoldable pub next : State → Event → Result State
next from event = elim (transitions from) [
  | none ↦ Result.illegal (record { from = from; event = event })
  | some allowed ↦ or_illegal from event (allowed event)
]

unfoldable pub can_transition : State → Event → Bool
can_transition from event = elim (next from event) [ Result.ok _ ↦ true | Result.illegal _ ↦ false ]

unfoldable pub is_terminal : State → Bool
is_terminal State.ended = true
is_terminal State.lobby = false
is_terminal State.ready = false
is_terminal State.playing = false
is_terminal (State.other _) = false

abbrev pub free_tier_max_participants : ℤ
free_tier_max_participants = pos 4

abbrev pub plus_tier_max_participants : ℤ
plus_tier_max_participants = pos 8

unfoldable pub max_participants : String → ℤ
max_participants tier =
    if str_eq tier "plus" then plus_tier_max_participants else free_tier_max_participants

pub data JoinError : Type 0 where
  room_ended room_full : JoinError

-- `none` is nil.
unfoldable pub can_join : State → String → ℤ → Option JoinError
unfolding is_terminal max_participants
can_join s host_tier current_participants =
    if is_terminal s
    then some JoinError.room_ended
    else if leb_ℤ (max_participants host_tier) current_participants
    then some JoinError.room_full
    else none

-- EmptyRoomReapAfter, in nanoseconds.
abbrev pub empty_room_reap_after : ℤ
empty_room_reap_after = pos 600_000_000_000

unfoldable pub should_reap : State → Option ℤ → ℤ → Bool
unfolding is_terminal
should_reap s none now = false
should_reap s (some empty_since) now =
    if is_terminal s then false else leb_ℤ empty_room_reap_after (time_sub now empty_since)
