-- ===== src/Rooms/Service/Kept.antt =====
-- The operations of the rooms service over well-formed stores
-- (server/internal/modules/rooms/service.go).
use vybe.Base.{
  ◌+◌, ◌≡◌, refl, sym, ap, ◌∙◌, Bool, true, false, Option, none, some, List, [], ◌∷◌, length, arith,
  Bool-cases, inl, inr, ℕ, zero, suc, ltb,
}
use vybe.Base.Int.{pos}
use vybe.Base.Text.{String, eq_iff}
use vybe.Base.Runes.{trim_space}
use vybe.Realtime.EventLog.{Envelope, validate}
use vybe.Rooms.Log.{Room, RoomStore, with_entry, numbered, next_seq, is_ended}
use vybe.Rooms.Log.Append.{after_append}
use vybe.Rooms.Log.Reader.{IsInStep}
use vybe.Rooms.Log.Evolution.{Evolves, Follows, SameRoom}
use vybe.Rooms.Log.Applied.{append_locked-some}
use vybe.Rooms.Directory.{CreateResult, create_room, with_room, join_code_taken}
use vybe.Rooms.Operation.{Service, ServiceError, Outcome, envelope}
use vybe.Rooms.Creation.{
  CreateInput, CodeResult, create_checked, create_coded, create_for, create_in_mode, create,
  opening, opened_room, allocate_join_code, draw_code, join_code_attempts, max_title_length,
  normalise_sync_mode,
}
use vybe.Rooms.Service.Requests.{
  IsKept, IsReady, Request, creates, joins_by, leaves_room, ends_room, transitions, serve,
  envelope-valid,
}
use vybe.Rooms.Service.Writes.{Stands}
use vybe.Rooms.Service.Settled.{
  Settles, is_write_failed, end-Settles, transition-Settles, leave-Settles,
}
use vybe.Rooms.Service.Joining.{join_by_code-Settles}
use vybe.Rooms.Service.Codes.{allocate_join_code_lem}
use vybe.Rooms.Service.Opening.{opened-IsKept}

-- A success over a well-formed store that holds what it reports, or an error that leaves the store and is
-- not a failed write.
abbrev pub Keeps : RoomStore → Outcome → Type 0
Keeps s (Outcome.done t m) = IsKept t × Stands t m
Keeps s (Outcome.failed t e) = (t ≡ s) × (is_write_failed e ≡ false)

origin :
    (o : Option Room) (x : Room) → Follows o (some x) → (r : Room) × (o ≡ some r) × SameRoom r x
origin none x h = absurd h
origin (some r) x h = (r, refl, h)

origin-none : (o : Option Room) → Follows o none → o ≡ none
origin-none none h = refl
origin-none (some r) h = absurd h

Evolves-origin :
    (s t : RoomStore) (j : String) (x : Room)
    → Evolves s t
    → t.rooms j ≡ some x
    → (r : Room) × (s.rooms j ≡ some r) × SameRoom r x
Evolves-origin s t j x v h = origin (s.rooms j) x (rw (sym h) (v.same_rooms j))

live_before : (a b : Bool) → (a ≡ true → b ≡ true) → b ≡ false → a ≡ false
live_before true b h k = absurd (ground (arith, h refl, k))
live_before false b h k = refl

evolved-IsKept :
    (s t : RoomStore) → IsKept s → Evolves s t → ((j : String) → IsInStep t j) → IsKept t
evolved-IsKept s t v later sound = record {
  distinct_keys = rw later.same_ids v.distinct_keys;
  sound = sound;
  keyed =
      λ j x h. let (r, found, same) = Evolves-origin s t j x later h in same.0 ∙ v.keyed j r found;
  named = λ j x h. let (r, found, same) = Evolves-origin s t j x later h in v.named j r found;
  listed = λ j x h.
      let (r, found, same) = Evolves-origin s t j x later h in
      rw later.same_ids (v.listed j r found);
  unlogged = λ j h.
      let gone = origin-none (s.rooms j) (rw (sym h) (later.same_rooms j)) in
      later.no_event j gone ∙ v.unlogged j gone;
  unique_codes = λ i j q x hi hj live_q live_x same.
      let (a, found_a, same_a) = Evolves-origin s t i q later hi in
      let (b, found_b, same_b) = Evolves-origin s t j x later hj in
      v.unique_codes i j a b found_a found_b
        (live_before (is_ended a.state) (is_ended q.state) same_a.2 live_q)
        (live_before (is_ended b.state) (is_ended x.state) same_b.2 live_x)
        (sym same_a.1 ∙ same ∙ same_b.1);
}

settled-Keeps : (s : RoomStore) (o : Outcome) → IsKept s → Settles s o → Keeps s o
settled-Keeps s (Outcome.done t m) v h = (evolved-IsKept s t v h.1 h.0, h.2)
settled-Keeps s (Outcome.failed t e) v h = h

create_room-created :
    (s : RoomStore) (r : Room) (e : Envelope)
    → join_code_taken s r.join_code ≡ false
    → s.events r.id ≡ []
    → e.seq ≡ pos 1
    → validate e ≡ none
    → create_room s r e ≡ CreateResult.created (after_append (with_room s r) r.id e)
unfolding create_room next_seq
create_room-created s r e free empty first valid =
    let number : e.seq ≡ pos (length (s.events r.id) + 1) =
      first ∙ ap (λ l. pos (length l + 1)) (sym empty) in
    rw (free, append_locked-some (with_room s r) r.id e number valid) refl

opened-row :
    (s : RoomStore) (r : Room) (e : Envelope)
    → (after_append (with_room s r) r.id e).rooms r.id
      ≡ some (record r { current_seq = e.seq; updated_at = e.ts })
unfolding with_entry numbered
opened-row s r e = rw ((eq_iff r.id r.id).1 refl) refl

create_coded-Keeps :
    (svc : Service) (s : RoomStore) (input : CreateInput) (mode tier : String) (c : CodeResult)
    → allocate_join_code svc s ≡ c
    → IsKept s
    → IsReady svc s
    → ((e : ServiceError) → c ≡ CodeResult.code_failed e → is_write_failed e ≡ false)
    → Keeps s (create_coded c svc s input mode tier)
unfolding create_coded create_checked opened_room envelope
create_coded-Keeps svc s input mode tier (CodeResult.code_failed e) is v ready sane =
    (refl, sane e refl)
create_coded-Keeps svc s input mode tier (CodeResult.drawn c) is v ready sane =
    let r = opened_room svc input mode tier c in
    let e = opening svc input in
    let (k, below, at, before, free) = allocate_join_code_lem svc s c is in
    let valid : validate e ≡ none =
      envelope-valid (svc.new_id 1) r.id "ROOM_STATE_CHANGED" input.host_user_id 0 svc.now _
        (ready.ids 1) (ready.ids 0) refl ready.clock in
    rw (valid, create_room-created s r e free (v.unlogged r.id ready.fresh) refl valid)
      (
        opened-IsKept s r e v ready.fresh refl (ready.ids 0) free,
        (
          record r { current_seq = e.seq; updated_at = e.ts },
          opened-row s r e,
          (refl, refl, refl, refl, refl, refl, refl),
        ),
      )

draw_code-sane :
    (n : ℕ) (draws : List (Option (List ℕ))) (s : RoomStore) (e : ServiceError)
    → draw_code n draws s ≡ CodeResult.code_failed e
    → is_write_failed e ≡ false
unfolding draw_code
draw_code-sane zero draws s e h = ground (arith, h)
draw_code-sane (suc n) [] s e h = ground (arith, h)
draw_code-sane (suc n) (none ∷ draws) s e h = ground (arith, h)
draw_code-sane (suc n) (some c ∷ draws) s e h = ground (arith, h, draw_code-sane n draws s e)

create_for-Keeps :
    (svc : Service) (s : RoomStore) (input : CreateInput) (mode : String) (tier : Option String)
    → IsKept s
    → IsReady svc s
    → Keeps s (create_for tier svc s input mode)
unfolding create_for allocate_join_code
create_for-Keeps svc s input mode none v ready = (refl, refl)
create_for-Keeps svc s input mode (some tier) v ready =
    create_coded-Keeps svc s input mode tier (allocate_join_code svc s) refl v ready
      (λ e h. draw_code-sane join_code_attempts svc.new_code s e h)

create_in_mode-Keeps :
    (svc : Service) (s : RoomStore) (input : CreateInput) (mode : Option String)
    → IsKept s
    → IsReady svc s
    → Keeps s (create_in_mode mode svc s input)
unfolding create_in_mode
create_in_mode-Keeps svc s input none v ready = (refl, refl)
create_in_mode-Keeps svc s input (some mode) v ready =
    elim (Bool-cases (s.content input.content_id)) [
      | inl known ↦
          rw known
            (create_for-Keeps svc s input mode (svc.entitlement_tier input.host_user_id) v ready)
      | inr unknown ↦ rw unknown (refl, refl)
    ]

create-Keeps :
    (svc : Service) (s : RoomStore) (input : CreateInput)
    → IsKept s
    → IsReady svc s
    → Keeps s (create svc s input)
unfolding create
create-Keeps svc s input v ready =
    elim (Bool-cases (ltb max_title_length (length (trim_space input.title)))) [
      | inl long ↦ rw long (refl, refl)
      | inr short ↦ rw short (
          create_in_mode-Keeps svc s input (normalise_sync_mode svc.upper_rune input.sync_mode) v
            ready)
    ]

-- Over a well-formed store, with a clock past the zero time and fresh ids that are not empty, no operation
-- of the service runs into a panic of the repository or a write without its room. A success leaves a
-- well-formed store, in which the room has the state, the host, the code, the number and the end that the
-- operation reports; an error leaves the store as it was.
pub serve-Keeps :
    (svc : Service) (s : RoomStore) (request : Request)
    → IsKept s
    → IsReady svc s
    → Keeps s (serve svc s request)
unfolding serve
serve-Keeps svc s (creates input) v ready = create-Keeps svc s input v ready
serve-Keeps svc s (joins_by raw_code user) v ready =
    settled-Keeps s _ v (join_by_code-Settles svc s raw_code user v ready)
serve-Keeps svc s (leaves_room room user) v ready =
    settled-Keeps s _ v (leave-Settles svc s room user v ready)
serve-Keeps svc s (ends_room room user) v ready =
    settled-Keeps s _ v (end-Settles svc s room user v ready)
serve-Keeps svc s (transitions room user event) v ready =
    settled-Keeps s _ v (transition-Settles svc s room user event v ready)
