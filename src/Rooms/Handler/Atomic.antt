-- ===== src/Rooms/Handler/Atomic.antt =====
-- What a call of a room handler leaves behind (server/internal/modules/rooms/handler.go).
use vybe.Base.{
  ◌≡◌, refl, ap, ◌∙◌, ◌||◌, Bool, true, false, Option, none, some, List, Bool-cases, inl, inr, ℕ,
  ◌==◌, All, ◌⊎◌, subst, sym,
}
use vybe.Base.Int.{ℤ}
use vybe.Base.Text.{String, str_eq}
use vybe.Rooms.Lifecycle.{Event}
use vybe.Rooms.Succession.{Participant}
use vybe.Rooms.Log.{Room, RoomStore}
use vybe.Rooms.Directory.{participants_of}
use vybe.Rooms.Operation.{Outcome, state_text}
use vybe.Rooms.Service.{contains, get, get_found}
use vybe.Rooms.Service.Requests.{
  IsKept, IsReady, creates, joins_by, leaves_room, ends_room, transitions, serve,
}
use vybe.Rooms.Service.Kept.{Keeps, serve-Keeps}
use vybe.Platform.Problems.{Problem}
use vybe.Rooms.Listing.{PageParams, parse_page_params, default_page_limit, max_page_limit}
use vybe.Rooms.Handler.Pages.{IsOwnItem, page-IsOwnItem, All-weaken}
use vybe.Rooms.Handler.{
  Handler, World, Reply, Call, RoomResponse, answered, shown, parse_event, move_by, handle_create,
  handle_join, handle_get, handle_leave, handle_end, handle_transition, handle_for, handle, listed,
  handle_list, as_actor,
}

-- The store holds the room with the state, the host and the number of the answer.
abbrev pub IsStored : RoomStore → RoomResponse → Type 0
IsStored t a =
    (x : Room) × (t.rooms a.id ≡ some x)
    × (state_text x.state ≡ a.state)
    × (x.host_user_id ≡ a.host_user_id)
    × (x.current_seq ≡ a.current_seq)

-- A refusal and a list leave everything, and what a list shows is stored; a room that is shown is stored, in a well-formed store, with a status of
-- 200 or 201.
abbrev pub IsAtomic : World → World × Reply → Type 0
IsAtomic w (after, Reply.refusal p) = after ≡ w
IsAtomic w (after, Reply.lists page) = (after ≡ w) × All (IsStored after.store) page.items
IsAtomic w (after, Reply.shows status a) =
    IsKept after.store × ((status == 200 || status == 201) ≡ true) × IsStored after.store a

answered-IsAtomic :
    (h : Handler) (w : World) (status : ℕ) (code : Bool)
    (members : RoomStore → Room → List Participant) (o : Outcome)
    → (status == 200 || status == 201) ≡ true
    → Keeps w.store o
    → IsAtomic w (answered h w.hub status code members o)
unfolding answered
answered-IsAtomic h w status code members (Outcome.failed t e) good k =
    let over : RoomStore → World = λ x. record { store = x; hub = w.hub } in ap over k.0
answered-IsAtomic h w status code members (Outcome.done t m) good k =
    let (x, found, agrees) = k.1 in
    (k.0, good, (x, found, ap state_text agrees.1, agrees.2, agrees.4))

get_found-IsAtomic :
    (w : World) (room user : String) (later : ℤ) (o : Option Room)
    → w.store.rooms room ≡ o
    → IsKept w.store
    → IsAtomic w (w, shown later (get_found o w.store room user))
unfolding get_found shown
get_found-IsAtomic w room user later none found v = refl
get_found-IsAtomic w room user later (some r) found v =
    let stored : w.store.rooms r.id ≡ some r = ap w.store.rooms (v.keyed room r found) ∙ found in
    elim (Bool-cases (contains (participants_of w.store room) user)) [
      | inl member ↦ rw member (v, refl, (r, stored, refl, refl, refl))
      | inr stranger ↦ elim (Bool-cases (str_eq r.host_user_id user)) [
        | inl host ↦ rw (stranger, host) (v, refl, (r, stored, refl, refl, refl))
        | inr guest ↦ rw (stranger, guest) refl
      ]
    ]

move_by-IsAtomic :
    (h : Handler) (w : World) (user room raw : String) (o : Option Event)
    → IsKept w.store
    → IsReady h.svc w.store
    → IsAtomic w (move_by h w user room raw o)
unfolding move_by serve
move_by-IsAtomic h w user room raw none v ready = refl
move_by-IsAtomic h w user room raw (some ev) v ready =
    answered-IsAtomic h w 200 true _ _ refl
      (serve-Keeps h.svc w.store (transitions room user ev) v ready)

item-IsStored :
    (s : RoomStore) (user : String) (h : Handler) (a : RoomResponse)
    → IsOwnItem s user h a
    → IsStored s a
item-IsStored s user h a (r, is, own) = subst (IsStored s) (sym is) (r, own.0, refl, refl, refl)

listed-IsAtomic :
    (h : Handler) (w : World) (user : String)
    → IsKept w.store
    → (o : Problem ⊎ PageParams) → IsAtomic w (listed h w user o)
unfolding listed
listed-IsAtomic h w user v (inl p) = refl
listed-IsAtomic h w user v (inr params) = (
  refl,
  All-weaken (IsOwnItem w.store user h) (IsStored w.store) _ (item-IsStored w.store user h)
      (page-IsOwnItem w.store user h params.cursor params.limit v),
)

-- Over a well-formed store, a call that is refused, and a list, changes neither the store nor the hub; what a
-- list shows has the state, the host and the number that the store has. Any other call is answered with 200 or 201, leaves a well-formed store, and shows the room with the state, the host and the
-- number that the store has.
pub handle-IsAtomic :
    (h : Handler) (w : World) (actor : Option String) (call : Call)
    → IsKept w.store
    → IsReady h.svc w.store
    → IsAtomic w (handle h w actor call)
unfolding handle as_actor handle_list handle_for handle_create handle_join handle_get handle_leave
    handle_end handle_transition serve get
handle-IsAtomic h w none call v ready = refl
handle-IsAtomic h w (some user) (Call.to_create (inl p)) v ready = refl
handle-IsAtomic h w (some user) (Call.to_create (inr req)) v ready =
    answered-IsAtomic h w 201 true _ _ refl (serve-Keeps h.svc w.store (creates _) v ready)
handle-IsAtomic h w (some user) (Call.to_list q) v ready =
    listed-IsAtomic h w user v (parse_page_params h.quote q default_page_limit max_page_limit)
handle-IsAtomic h w (some user) (Call.to_join (inl p)) v ready = refl
handle-IsAtomic h w (some user) (Call.to_join (inr code)) v ready =
    answered-IsAtomic h w 200 true _ _ refl (serve-Keeps h.svc w.store (joins_by code user) v ready)
handle-IsAtomic h w (some user) (Call.to_get room) v ready =
    get_found-IsAtomic w room user h.later (w.store.rooms room) refl v
handle-IsAtomic h w (some user) (Call.to_leave room) v ready =
    answered-IsAtomic h w 200 false _ _ refl
      (serve-Keeps h.svc w.store (leaves_room room user) v ready)
handle-IsAtomic h w (some user) (Call.to_end room) v ready =
    answered-IsAtomic h w 200 false _ _ refl
      (serve-Keeps h.svc w.store (ends_room room user) v ready)
handle-IsAtomic h w (some user) (Call.to_transition room (inl p)) v ready = refl
handle-IsAtomic h w (some user) (Call.to_transition room (inr raw)) v ready =
    move_by-IsAtomic h w user room raw (parse_event raw) v ready
