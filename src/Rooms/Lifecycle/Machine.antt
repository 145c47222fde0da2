-- ===== src/Rooms/Lifecycle/Machine.antt =====
-- The state machine of FR-15 (server/internal/modules/rooms/state.go) as a relation and over histories.
use vybe.Base.{ℕ, ◌+◌, ◌≤◌, ◌≡◌, ◌≢◌, ◌↔◌, refl, subst, none, List, [], ◌∷◌, arith, if◌then◌else◌}
use vybe.Base.Int.{pos, ◌≤ℤ◌}
use vybe.Base.Text.{String, str_eq}
use vybe.Rooms.Lifecycle.{State, Event, Result, next, can_join}

-- The legal moves, one for each arrow of the diagram.
pub data Step : State → Event → State → Type 0 where
  arms : Step State.lobby Event.arm State.ready
  starts : Step State.ready Event.start State.playing
  cancels : Step State.ready Event.cancel State.lobby
  reanchors : Step State.playing Event.reanchor State.ready
  ends_lobby : Step State.lobby Event.end State.ended
  ends_ready : Step State.ready Event.end State.ended
  ends_playing : Step State.playing Event.end State.ended

next-Step : (s : State) (e : Event) (t : State) → next s e ≡ Result.ok t → Step s e t
unfolding next
next-Step State.lobby Event.arm t h = subst (Step State.lobby Event.arm) (cc) arms
next-Step State.ready Event.start t h = subst (Step State.ready Event.start) (cc) starts
next-Step State.ready Event.cancel t h = subst (Step State.ready Event.cancel) (cc) cancels
next-Step State.playing Event.reanchor t h =
    subst (Step State.playing Event.reanchor) (cc) reanchors
next-Step State.lobby Event.end t h = subst (Step State.lobby Event.end) (cc) ends_lobby
next-Step State.ready Event.end t h = subst (Step State.ready Event.end) (cc) ends_ready
next-Step State.playing Event.end t h = subst (Step State.playing Event.end) (cc) ends_playing
next-Step s e t h = cc

Step-next : {s : State} {e : Event} {t : State} → Step s e t → next s e ≡ Result.ok t
unfolding next
Step-next arms = refl
Step-next starts = refl
Step-next cancels = refl
Step-next reanchors = refl
Step-next ends_lobby = refl
Step-next ends_ready = refl
Step-next ends_playing = refl

-- `Next` accepts exactly the moves of the diagram, each with its one target.
pub next_iff : (s : State) (e : Event) (t : State) → (next s e ≡ Result.ok t) ↔ Step s e t
next_iff s e t = (next-Step s e t, Step-next)

-- A room that is sent events: an illegal one is refused and leaves the state as it was. The tally counts
-- the countdowns that were armed, by ARM or REANCHOR, and those that fired or were called off.
pub record History : Type 0 where
  pub state : State
  pub armed : ℕ
  pub settled : ℕ

abbrev pub count_armed : Event → ℕ
count_armed Event.arm = 1
count_armed Event.reanchor = 1
count_armed _ = 0

abbrev pub count_settled : Event → ℕ
count_settled Event.start = 1
count_settled Event.cancel = 1
count_settled _ = 0

abbrev pub record_event : History → Event → Result State → History
record_event h e (Result.ok t) = record {
  state = t;
  armed = h.armed + count_armed e;
  settled = h.settled + count_settled e;
}
record_event h e (Result.illegal _) = h

abbrev pub send_all : History → List Event → History
send_all h [] = h
send_all h (e ∷ l) = send_all (record_event h e (next h.state e)) l

-- How many countdowns run: none outside READY, one in READY, at most one in a room that has ended.
abbrev pub IsBalanced : State → ℕ → ℕ → Type 0
IsBalanced State.lobby a s = a ≡ s
IsBalanced State.ready a s = a ≡ s + 1
IsBalanced State.playing a s = a ≡ s
IsBalanced State.ended a s = (s ≤ a) × (a ≤ s + 1)
IsBalanced (State.other _) a s = Unit {0}

Step-IsBalanced :
    {s t : State} {e : Event} (a b : ℕ)
    → Step s e t
    → IsBalanced s a b
    → IsBalanced t (a + count_armed e) (b + count_settled e)
Step-IsBalanced a b arms h = omega arith
Step-IsBalanced a b starts h = omega arith
Step-IsBalanced a b cancels h = omega arith
Step-IsBalanced a b reanchors h = omega arith
Step-IsBalanced a b ends_lobby h = omega arith
Step-IsBalanced a b ends_ready h = omega arith
Step-IsBalanced a b ends_playing h = omega arith

record_event-IsBalanced :
    (h : History) (e : Event) (r : Result State)
    → next h.state e ≡ r
    → IsBalanced h.state h.armed h.settled
    → let g = record_event h e r in IsBalanced g.state g.armed g.settled
record_event-IsBalanced h e (Result.ok t) m b =
    Step-IsBalanced h.armed h.settled (next-Step h.state e t m) b
record_event-IsBalanced h e (Result.illegal i) m b = b

send_all-from :
    (h : History) (l : List Event)
    → IsBalanced h.state h.armed h.settled
    → let g = send_all h l in IsBalanced g.state g.armed g.settled
send_all-from h [] b = b
send_all-from h (e ∷ l) b =
    send_all-from (record_event h e (next h.state e)) l (record_event-IsBalanced h e _ refl b)

abbrev pub opened : History
opened = record { state = State.lobby; armed = 0; settled = 0 }

-- Whatever events a new room is sent, at most one countdown runs: the rituals that were armed exceed
-- those that fired or were cancelled by one in READY, and by none in LOBBY and PLAYING.
pub send_all-IsBalanced :
    (l : List Event) → let g = send_all opened l in IsBalanced g.state g.armed g.settled
send_all-IsBalanced l = send_all-from opened l refl

-- A room that has ended refuses every event: its state never changes again.
pub ended_absorbs :
    (a s : ℕ) (l : List Event)
    → let h : History = record { state = State.ended; armed = a; settled = s } in send_all h l ≡ h
unfolding next
ended_absorbs a s [] = refl
ended_absorbs a s (e ∷ l) = ended_absorbs a s l

-- The seats: a room admits exactly while it has not ended and fewer are in it than the host's tier allows,
-- so an admission never exceeds the cap, which is 8 for "plus" and 4 for every other text.
pub can_join_iff :
    (s : State) (tier : String) (n : ℕ)
    → (can_join s tier (pos n) ≡ none)
      ↔ ((s ≢ State.ended) × (pos (n + 1) ≤ℤ (if str_eq tier "plus" then pos 8 else pos 4)))
unfolding can_join
can_join_iff s tier n = (λ h. (λ e. ground arith, ground arith), λ h. ground arith)
