-- ===== src/Realtime/EventLog.antt =====
-- The event log and the resync decision (server/internal/modules/realtime/eventlog.go). Sequence
-- numbers are 64-bit words, texts are strings, a payload is its bytes.
pub mod Contiguity
pub mod Decision
use vybe.Base.{ℕ, Bool, true, false, Option, none, some, List, [], ◌∷◌, if◌then◌else◌, ◌||◌}
use vybe.Base.Int.{ℤ, pos, ltb_ℤ, eqb_ℤ}
use vybe.Base.Word.{◌+64◌, ◌-64◌, is_zero_time}
use vybe.Base.Text.{String, str_eq, is_empty}

abbrev pub envelope_version : ℤ
envelope_version = pos 1

pub record Envelope : Type 0 where
  pub v : ℤ
  pub id : String
  pub room : String
  pub seq : ℤ
  pub kind : String
  pub ts : ℤ
  pub actor : String
  pub payload : List ℕ

-- What the text of an ErrInvalidEnvelope names.
pub data Invalid : Type 0 where
  bad_version empty_id empty_room bad_seq empty_type zero_ts no_payload : Invalid

-- `none` is nil.
unfoldable pub validate : Envelope → Option Invalid
validate e =
    if not_one e.v
    then some Invalid.bad_version
    else if is_empty e.id
    then some Invalid.empty_id
    else if is_empty e.room
    then some Invalid.empty_room
    else if ltb_ℤ e.seq (pos 1)
    then some Invalid.bad_seq
    else if is_empty e.kind
    then some Invalid.empty_type
    else if is_zero_time e.ts
    then some Invalid.zero_ts
    else no_bytes e.payload
  where
    not_one : ℤ → Bool
    not_one v = if eqb_ℤ v envelope_version then false else true

    no_bytes : List ℕ → Option Invalid
    no_bytes [] = some Invalid.no_payload
    no_bytes (_ ∷ _) = none

pub record SeqGap : Type 0 where
  pub expected : ℤ
  pub got : ℤ

unfoldable pub next_seq : ℤ → ℤ
next_seq current = current +64 pos 1

-- `none` is nil.
unfoldable pub verify_contiguous : List Envelope → ℤ → Option SeqGap
verify_contiguous [] want = none
verify_contiguous (e ∷ l) want =
    let rest = verify_contiguous l (want +64 pos 1) in
    if eqb_ℤ e.seq want then rest else some (record { expected = want; got = e.seq })

pub data ResyncMode : Type 0 where
  delta snapshot up_to_date invalid : ResyncMode

abbrev pub default_delta_threshold : ℤ
default_delta_threshold = pos 200

-- The reasons, with the numbers that their texts carry.
pub data Reason : Type 0 where
  client_ahead already_current : Reason
  gap_exceeds gap_within : ℤ → ℤ → Reason
  aged_out : ℤ → ℤ → Reason

pub record ResyncDecision : Type 0 where
  pub mode : ResyncMode
  pub from_seq : ℤ
  pub to_seq : ℤ
  pub reason : Reason

abbrev pub without_range : ResyncMode → Reason → ResyncDecision
without_range m r = record { mode = m; from_seq = pos 0; to_seq = pos 0; reason = r }

unfoldable pub decide_resync : ℤ → ℤ → ℤ → ℤ → ResyncDecision
decide_resync last_seq current_seq oldest_retained threshold =
    if ltb_ℤ current_seq last_seq
    then without_range ResyncMode.invalid Reason.client_ahead
    else if eqb_ℤ last_seq current_seq
    then without_range ResyncMode.up_to_date Reason.already_current
    else if ltb_ℤ threshold (current_seq -64 last_seq)
    then without_range ResyncMode.snapshot (Reason.gap_exceeds (current_seq -64 last_seq) threshold)
    else if ltb_ℤ (last_seq +64 pos 1) oldest_retained
    then without_range ResyncMode.snapshot (Reason.aged_out (last_seq +64 pos 1) oldest_retained)
    else record {
      mode = ResyncMode.delta;
      from_seq = last_seq +64 pos 1;
      to_seq = current_seq;
      reason = Reason.gap_within (current_seq -64 last_seq) threshold;
    }

-- KnownEventTypes.
abbrev pub known_event_types : List String
known_event_types =
    "ROOM_STATE_CHANGED" ∷ "PARTICIPANT_JOINED" ∷ "PARTICIPANT_LEFT" ∷ "HOST_CHANGED" ∷ "SYNC_ARM"
    ∷ "TIMELINE_ANCHORED" ∷ "TIMELINE_REANCHOR" ∷ "CHAT_MESSAGE" ∷ "REACTION_BUCKET"
    ∷ "TRIVIA_START" ∷ "QUESTION_OPEN" ∷ "QUESTION_CLOSE" ∷ "SCOREBOARD_UPDATE" ∷ "ROOM_ENDED"
    ∷ "PRESENCE_CHANGED" ∷ []

unfoldable pub contains_text : String → List String → Bool
contains_text t [] = false
contains_text t (k ∷ l) = str_eq t k || contains_text t l

unfoldable pub is_known_event_type : String → Bool
is_known_event_type t = contains_text t known_event_types
