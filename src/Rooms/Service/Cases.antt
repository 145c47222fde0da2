-- ===== src/Rooms/Service/Cases.antt =====
-- How `create` and `transition` of the rooms service can come out: what holds of their errors and of their
-- last step holds of them (server/internal/modules/rooms/service.go).
use vybe.Base.{◌≡◌, true, Option, none, some, List, Bool-cases, inl, inr, ltb, length, ℕ}
use vybe.Base.Runes.{trim_space}
use vybe.Base.Text.{String, str_eq}
use vybe.Realtime.EventLog.{validate}
use vybe.Rooms.Lifecycle.{Event, next}
use vybe.Rooms.Log.{Room, RoomStore}
use vybe.Rooms.Operation.{Service, ServiceError, Outcome}
use vybe.Rooms.Creation.{
  CreateInput, CodeResult, create_checked, create_coded, create_for, create_in_mode, create,
  opened_room, opening, max_title_length,
}
use vybe.Rooms.Service.{move_to, transition_found, transition}

module _ (svc : Service) (s : RoomStore) (input : CreateInput) (P : Outcome → Type 0)
    (fails : (e : ServiceError) → P (Outcome.failed s e))
    (opens : (mode tier : String) (code : List ℕ)
      → P (
          create_checked
            (validate (opening svc input))
            s
            (opened_room svc input mode tier code)
            (opening svc input))) where
  create_coded_cases :
      (mode tier : String) (c : CodeResult) → P (create_coded c svc s input mode tier)
  unfolding create_coded
  create_coded_cases mode tier (CodeResult.code_failed e) = fails e
  create_coded_cases mode tier (CodeResult.drawn c) = opens mode tier c

  create_for_cases : (mode : String) (o : Option String) → P (create_for o svc s input mode)
  unfolding create_for
  create_for_cases mode none = fails _
  create_for_cases mode (some tier) = create_coded_cases mode tier _

  create_in_mode_cases : (o : Option String) → P (create_in_mode o svc s input)
  unfolding create_in_mode
  create_in_mode_cases none = fails _
  create_in_mode_cases (some mode) = elim (Bool-cases (s.content input.content_id)) [
    | inl known ↦ rw known (create_for_cases mode _)
    | inr unknown ↦ rw unknown (fails _)
  ]

  pub create_cases : P (create svc s input)
  unfolding create
  create_cases = elim (Bool-cases (ltb max_title_length (length (trim_space input.title)))) [
    | inl long ↦ rw long (fails _)
    | inr fits ↦ rw fits (create_in_mode_cases _)
  ]

module _ (svc : Service) (s : RoomStore) (room user : String) (ev : Event) (P : Outcome → Type 0)
    (fails : (e : ServiceError) → P (Outcome.failed s e))
    (moves : (r : Room)
      → str_eq r.host_user_id user ≡ true
      → P (move_to (next r.state ev) svc s r room user ev)) where
  transition_found_cases : (o : Option Room) → P (transition_found o svc s room user ev)
  unfolding transition_found
  transition_found_cases none = fails _
  transition_found_cases (some r) = elim (Bool-cases (str_eq r.host_user_id user)) [
    | inr other ↦ rw other (fails _)
    | inl host ↦ rw host (moves r host)
  ]

  pub transition_cases : P (transition svc s room user ev)
  unfolding transition
  transition_cases = transition_found_cases _
