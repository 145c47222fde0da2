-- ===== src/Rooms/Handler/Secrecy.antt =====
-- Who learns the join code of a room (server/internal/modules/rooms/handler.go).
use vybe.Base.{
  ◌≡◌, refl, ap, ◌∙◌, ◌⊎◌, true, false, Option, none, some, List, [], Bool-cases, inl, inr, ℕ, All,
  Occurs, subst, sym,
}
use vybe.Base.Int.{ℤ}
use vybe.Base.Text.{String, str_eq, eq_iff}
use vybe.Realtime.EventLog.{Envelope, Invalid}
use vybe.Rooms.Lifecycle.{Event, State, Result}
use vybe.Rooms.Succession.{Participant}
use vybe.Rooms.Log.{Room, RoomStore}
use vybe.Rooms.Directory.{CreateResult, participants_of}
use vybe.Rooms.Operation.{Service, Mutation, Outcome, wrote}
use vybe.Rooms.Service.{contains, move_to, get, get_found, join_by_code}
use vybe.Rooms.Creation.{create_checked, created_as, opened_room}
use vybe.Rooms.Service.Cases.{create_cases, transition_cases}
use vybe.Rooms.Service.Requests.{IsKept, IsReady}
use vybe.Rooms.Service.Capacity.{join_by_code-IsAdmitted}
use vybe.Platform.Problems.{Problem}
use vybe.Rooms.Answers.{RoomResponse}
use vybe.Rooms.Listing.{PageParams, parse_page_params, default_page_limit, max_page_limit}
use vybe.Rooms.Handler.Pages.{IsOwnItem, page-IsOwnItem, All-weaken}
use vybe.Rooms.Handler.{
  Handler, World, Reply, Call, shown, answered, parse_event, move_by, handle_create, handle_join,
  handle_get, handle_leave, handle_end, handle_transition, handle_for, handle, listed, handle_list,
  as_actor,
}

-- The user is an active member of the room, or its host.
abbrev pub BelongsTo : RoomStore → String → String → String → Type 0
BelongsTo t room host user = (contains (participants_of t room) user ≡ true) ⊎ (host ≡ user)

-- The user is the host of the room, or has a place in it, left or not.
abbrev pub IsOnceIn : RoomStore → String → RoomResponse → Type 0
IsOnceIn t user a =
    (a.host_user_id ≡ user)
    ⊎ ((p : Participant) × Occurs p (t.participants a.id) × (p.user_id ≡ user))

item-IsOnceIn :
    (s : RoomStore) (user : String) (h : Handler) (a : RoomResponse)
    → IsOwnItem s user h a
    → IsOnceIn s user a
item-IsOnceIn s user h a (r, is, own) = subst (IsOnceIn s user) (sym is) own.1

-- The answer holds no code, or the caller belongs to its room; or it is a list, and the caller is the host of
-- each room on it, or has a place there that need not be active.
abbrev pub KeepsCode : RoomStore → Option String → Reply → Type 0
KeepsCode t actor (Reply.refusal p) = Unit
KeepsCode t actor (Reply.lists page) =
    (user : String) × (actor ≡ some user) × All (IsOnceIn t user) page.items
KeepsCode t actor (Reply.shows status r) =
    ((r.join_code ≡ []) × (r.share_url ≡ []))
    ⊎ ((user : String) × (actor ≡ some user) × BelongsTo t r.id r.host_user_id user)

listed-KeepsCode :
    (h : Handler) (w : World) (user : String)
    → IsKept w.store
    → (o : Problem ⊎ PageParams)
    → KeepsCode (listed h w user o).0.store (some user) (listed h w user o).1
unfolding listed
listed-KeepsCode h w user v (inl p) = tt
listed-KeepsCode h w user v (inr params) = (
  user,
  refl,
  All-weaken (IsOwnItem w.store user h) (IsOnceIn w.store user) _ (item-IsOnceIn w.store user h)
      (page-IsOwnItem w.store user h params.cursor params.limit v),
)

-- Where an operation succeeds, the user belongs to the room.
abbrev Admits : String → Outcome → Type 0
Admits user (Outcome.failed t e) = Unit
Admits user (Outcome.done t m) = BelongsTo t m.room.id m.room.host_user_id user

answered-KeepsCode :
    (h : Handler) (w : World) (status : ℕ) (members : RoomStore → Room → List Participant)
    (user : String) (o : Outcome)
    → Admits user o
    → KeepsCode
        (answered h w.hub status true members o).0.store
        (some user)
        (answered h w.hub status true members o).1
unfolding answered
answered-KeepsCode h w status members user (Outcome.failed t e) a = tt
answered-KeepsCode h w status members user (Outcome.done t m) a = inr (user, refl, a)

withheld-KeepsCode :
    (h : Handler) (w : World) (status : ℕ) (members : RoomStore → Room → List Participant)
    (user : String) (o : Outcome)
    → KeepsCode
        (answered h w.hub status false members o).0.store
        (some user)
        (answered h w.hub status false members o).1
unfolding answered
withheld-KeepsCode h w status members user (Outcome.failed t e) = tt
withheld-KeepsCode h w status members user (Outcome.done t m) = inl (refl, refl)

created-Admits :
    (s : RoomStore) (r : Room) (e : Envelope) (user : String) (c : CreateResult)
    → r.host_user_id ≡ user
    → Admits user (created_as s (record { room = r; event = some e }) c)
created-Admits s r e user CreateResult.code_conflict h = tt
created-Admits s r e user CreateResult.panicked h = tt
created-Admits s r e user (CreateResult.created t) h = inr h

create_checked-Admits :
    (s : RoomStore) (r : Room) (e : Envelope) (user : String) (o : Option Invalid)
    → r.host_user_id ≡ user
    → Admits user (create_checked o s r e)
unfolding create_checked
create_checked-Admits s r e user (some i) h = tt
create_checked-Admits s r e user none h = created-Admits s r e user _ h

wrote-Admits :
    (s : RoomStore) (m : Mutation) (user : String) (o : Option RoomStore)
    → m.room.host_user_id ≡ user
    → Admits user (wrote s m o)
unfolding wrote
wrote-Admits s m user none h = tt
wrote-Admits s m user (some t) h = inr h

move_to-Admits :
    (svc : Service) (s : RoomStore) (r : Room) (room user : String) (ev : Event) (n : Result State)
    → r.host_user_id ≡ user
    → Admits user (move_to n svc s r room user ev)
unfolding move_to
move_to-Admits svc s r room user ev (Result.illegal i) h = tt
move_to-Admits svc s r room user ev (Result.ok to) h = wrote-Admits s _ user _ h

join-Admits :
    (svc : Service) (s : RoomStore) (raw_code : List ℕ) (user : String) (o : Outcome)
    → IsKept s
    → IsReady svc s
    → join_by_code svc s raw_code user ≡ o
    → Admits user o
join-Admits svc s raw_code user (Outcome.failed t e) v ready h = tt
join-Admits svc s raw_code user (Outcome.done t m) v ready h =
    inl (join_by_code-IsAdmitted svc s t m raw_code user v ready h).present

get_found-KeepsCode :
    (s : RoomStore) (room user : String) (later : ℤ) (o : Option Room)
    → ((r : Room) → o ≡ some r → r.id ≡ room)
    → KeepsCode s (some user) (shown later (get_found o s room user))
unfolding get_found shown
get_found-KeepsCode s room user later none keyed = tt
get_found-KeepsCode s room user later (some r) keyed =
    elim (Bool-cases (contains (participants_of s room) user)) [
      | inl member ↦ rw member (
          inr (
            user,
            refl,
            inl (ap (λ j. contains (participants_of s j) user) (keyed r refl) ∙ member),
          ))
      | inr stranger ↦ elim (Bool-cases (str_eq r.host_user_id user)) [
        | inl host ↦ rw (stranger, host) (inr (user, refl, inr ((eq_iff _ _).0 host)))
        | inr guest ↦ rw (stranger, guest) tt
      ]
    ]

move_by-KeepsCode :
    (h : Handler) (w : World) (user room raw : String) (o : Option Event)
    → KeepsCode (move_by h w user room raw o).0.store (some user) (move_by h w user room raw o).1
unfolding move_by
move_by-KeepsCode h w user room raw none = tt
move_by-KeepsCode h w user room raw (some ev) = answered-KeepsCode h w 200 _ user _ (
    transition_cases h.svc w.store room user ev (Admits user) (λ e. tt)
      (λ r host. move_to-Admits h.svc w.store r room user ev _ ((eq_iff _ _).0 host)))

-- Over a well-formed store, an answer about one room holds its join code or link only if the caller is known
-- and is, in the store after the call, an active member of that room or its host. The answer to a list holds
-- the codes of rooms of which the caller is the host or has been a member, whether or not the caller has left.
pub handle-KeepsCode :
    (h : Handler) (w : World) (actor : Option String) (call : Call)
    → IsKept w.store
    → IsReady h.svc w.store
    → KeepsCode (handle h w actor call).0.store actor (handle h w actor call).1
unfolding handle as_actor handle_list handle_for handle_create handle_join handle_get handle_leave
    handle_end handle_transition opened_room get
handle-KeepsCode h w none call v ready = tt
handle-KeepsCode h w (some user) (Call.to_create (inl p)) v ready = tt
handle-KeepsCode h w (some user) (Call.to_create (inr req)) v ready =
    answered-KeepsCode h w 201 _ user _ (
      create_cases h.svc w.store _ (Admits user) (λ e. tt)
        (λ mode tier code. create_checked-Admits w.store _ _ user _ refl))
handle-KeepsCode h w (some user) (Call.to_list q) v ready =
    listed-KeepsCode h w user v (parse_page_params h.quote q default_page_limit max_page_limit)
handle-KeepsCode h w (some user) (Call.to_join (inl p)) v ready = tt
handle-KeepsCode h w (some user) (Call.to_join (inr code)) v ready =
    answered-KeepsCode h w 200 _ user _ (join-Admits h.svc w.store code user _ v ready refl)
handle-KeepsCode h w (some user) (Call.to_get room) v ready =
    get_found-KeepsCode w.store room user h.later (w.store.rooms room)
      (λ r found. v.keyed room r found)
handle-KeepsCode h w (some user) (Call.to_leave room) v ready = withheld-KeepsCode h w 200 _ user _
handle-KeepsCode h w (some user) (Call.to_end room) v ready = withheld-KeepsCode h w 200 _ user _
handle-KeepsCode h w (some user) (Call.to_transition room (inl p)) v ready = tt
handle-KeepsCode h w (some user) (Call.to_transition room (inr raw)) v ready =
    move_by-KeepsCode h w user room raw (parse_event raw)
