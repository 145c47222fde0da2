-- ===== src/Rooms/Handler/Published.antt =====
-- What a call of a room handler makes its listeners see
-- (server/internal/modules/rooms/handler.go, server/internal/modules/realtime/hub.go).
use vybe.Base.{
  ◌≡◌, refl, ap, ◌⊎◌, Bool, true, false, Option, none, some, List, [], ◌∷◌, ◌++◌, Bool-cases, inl,
  inr, ℕ, if◌then◌else◌, Option-cases,
}
use vybe.Base.Text.{String, is_empty}
use vybe.Realtime.EventLog.{Envelope, validate}
use vybe.Realtime.Hub.{Hub, publish, publish_to, publish_checked}
use vybe.Realtime.Hub.Delivery.{IsDistinct, audience, publish_to-delivers}
use vybe.Rooms.Lifecycle.{Event}
use vybe.Rooms.Succession.{Participant}
use vybe.Rooms.Log.{Room, RoomStore}
use vybe.Rooms.Operation.{Outcome}
use vybe.Rooms.Service.Logged.{
  IsLast, IsLogged, create-IsLogged, join_by_code-IsLogged, leave-IsLogged, end-IsLogged,
  transition-IsLogged,
}
use vybe.Platform.Problems.{Problem}
use vybe.Rooms.Listing.{PageParams, parse_page_params, default_page_limit, max_page_limit}
use vybe.Rooms.Handler.{
  Handler, World, Call, answered, publish_event, parse_event, move_by, handle_create, handle_join,
  handle_get, handle_leave, handle_end, handle_transition, handle_for, handle, listed, handle_list,
  as_actor,
}

-- What a connection's buffer is after an event was published: as before, or with the event at its end.
abbrev Receives : Hub → Hub → ℕ → Envelope → Type 0
Receives before after k e =
    ((after.conns k).send ≡ (before.conns k).send)
    ⊎ ((after.conns k).send ≡ (before.conns k).send ++ e ∷ [])

one_or_other :
    (b : Bool) (l before : List Envelope) (e : Envelope)
    → l ≡ (if b then before ++ e ∷ [] else before)
    → (l ≡ before) ⊎ (l ≡ before ++ e ∷ [])
one_or_other true l before e h = inr h
one_or_other false l before e h = inl h

publish-Receives :
    (pick : ℕ → Bool) (h : Hub) (e : Envelope) (k : ℕ)
    → IsDistinct (audience h e [])
    → Receives h (publish pick h e).0 k e
unfolding publish publish_to publish_checked
publish-Receives pick h e k d = elim (Option-cases (validate e)) [
  | inl valid ↦ one_or_other _ _ _ e (publish_to-delivers pick h e [] k valid d).0
  | inr (i, bad) ↦ inl (ap (λ o. ((publish_checked o pick h e []).0.conns k).send) bad)
]

-- The buffer is as before, or ends with one more event, which is the last in the log of its room.
abbrev pub IsInformed : World → World → ℕ → Type 0
IsInformed w after k =
    ((after.hub.conns k).send ≡ (w.hub.conns k).send)
    ⊎ ((e : Envelope) × ((after.hub.conns k).send ≡ (w.hub.conns k).send ++ e ∷ [])
        × IsLast after.store (some e))

published-IsInformed :
    (pick : ℕ → Bool) (w : World) (t : RoomStore) (k : ℕ) (o : Option Envelope)
    → ((e : Envelope) → IsDistinct (audience w.hub e []))
    → IsLast t o
    → IsInformed w (record { store = t; hub = publish_event pick w.hub o }) k
unfolding publish_event
published-IsInformed pick w t k none d last = inl refl
published-IsInformed pick w t k (some e) d last = elim (Bool-cases (is_empty e.id)) [
  | inl nameless ↦ rw nameless (inl refl)
  | inr named ↦ rw named (elim (publish-Receives pick w.hub e k (d e)) [
    | inl same ↦ inl same
    | inr more ↦ inr (e, more, last)
  ])
]

answered-IsInformed :
    (h : Handler) (w : World) (status k : ℕ) (code : Bool)
    (members : RoomStore → Room → List Participant) (o : Outcome)
    → ((e : Envelope) → IsDistinct (audience w.hub e []))
    → IsLogged o
    → IsInformed w (answered h w.hub status code members o).0 k
unfolding answered
answered-IsInformed h w status k code members (Outcome.failed t e) d last = inl refl
answered-IsInformed h w status k code members (Outcome.done t m) d last =
    published-IsInformed h.pick w t k m.event d last

move_by-IsInformed :
    (h : Handler) (w : World) (user room raw : String) (k : ℕ) (o : Option Event)
    → ((e : Envelope) → IsDistinct (audience w.hub e []))
    → IsInformed w (move_by h w user room raw o).0 k
unfolding move_by
move_by-IsInformed h w user room raw k none d = inl refl
move_by-IsInformed h w user room raw k (some ev) d =
    answered-IsInformed h w 200 k true _ _ d (transition-IsLogged h.svc w.store room user ev)

listed-IsInformed :
    (h : Handler) (w : World) (user : String) (k : ℕ) (o : Problem ⊎ PageParams)
    → IsInformed w (listed h w user o).0 k
unfolding listed
listed-IsInformed h w user k (inl p) = inl refl
listed-IsInformed h w user k (inr params) = inl refl

-- Whatever a call does, and whether it fails or not, each connection of the hub gets at most one event from
-- it, at the end of its buffer, and such an event is by then the last in the log of its room. No other
-- event of the buffers changes. The sinks of each room are distinct.
pub handle-IsInformed :
    (h : Handler) (w : World) (actor : Option String) (call : Call) (k : ℕ)
    → ((e : Envelope) → IsDistinct (audience w.hub e []))
    → IsInformed w (handle h w actor call).0 k
unfolding handle as_actor listed handle_list handle_for handle_create handle_join handle_get
    handle_leave handle_end handle_transition
handle-IsInformed h w none call k d = inl refl
handle-IsInformed h w (some user) (Call.to_create (inl p)) k d = inl refl
handle-IsInformed h w (some user) (Call.to_create (inr req)) k d =
    answered-IsInformed h w 201 k true _ _ d (create-IsLogged h.svc w.store _)
handle-IsInformed h w (some user) (Call.to_list q) k d =
    listed-IsInformed h w user k (parse_page_params h.quote q default_page_limit max_page_limit)
handle-IsInformed h w (some user) (Call.to_join (inl p)) k d = inl refl
handle-IsInformed h w (some user) (Call.to_join (inr code)) k d =
    answered-IsInformed h w 200 k true _ _ d (join_by_code-IsLogged h.svc w.store code user)
handle-IsInformed h w (some user) (Call.to_get room) k d = inl refl
handle-IsInformed h w (some user) (Call.to_leave room) k d =
    answered-IsInformed h w 200 k false _ _ d (leave-IsLogged h.svc w.store room user)
handle-IsInformed h w (some user) (Call.to_end room) k d =
    answered-IsInformed h w 200 k false _ _ d (end-IsLogged h.svc w.store room user)
handle-IsInformed h w (some user) (Call.to_transition room (inl p)) k d = inl refl
handle-IsInformed h w (some user) (Call.to_transition room (inr raw)) k d =
    move_by-IsInformed h w user room raw k (parse_event raw) d
