-- ===== src/Realtime/Resync.antt =====
-- Frames and the resync handler of a connection (server/internal/modules/realtime/protocol.go and
-- handler.go). What the rooms module answers is a record of functions, `none` where one fails;
-- `time.Now` is an argument, and a frame that cannot be written is lost as in the code.
pub mod Completeness
use vybe.Base.{ℕ, Bool, true, false, Option, none, some, List, [], ◌∷◌, if◌then◌else◌, ◌/◌}
use vybe.Base.Int.{ℤ, pos, leb_ℤ}
use vybe.Base.Word.{◌-64◌}
use vybe.Base.Text.{String, str_eq}
use vybe.Realtime.EventLog.{
  Envelope, ResyncMode, ResyncDecision, Reason, decide_resync, verify_contiguous,
  default_delta_threshold, SeqGap,
}

-- What a read of events comes to: an error, a panic, or the events.
pub data Read : Type 0 where
  failed panicked : Read
  read : List Envelope → Read

-- RoomReader.
pub record RoomReader : Type 0 where
  pub membership : String → String → Option ℤ
  pub events_since : String → ℤ → ℤ → Read
  pub oldest_retained_seq : String → Option ℤ
  pub snapshot : String → Option (List ℕ)

pub record ClientFrame : Type 0 where
  pub kind : String
  pub last_seq : ℤ
  pub client_time : ℤ

pub data SnapshotReason : Type 0 where
  decided : Reason → SnapshotReason
  read_failed log_has_gap : SnapshotReason

pub data ErrorCode : Type 0 where
  unknown_frame : ErrorCode
  resync_failed : ErrorCode

-- The control frames that a connection is sent; `no_frame` is none, where a panic ends the connection.
pub data ControlFrame : Type 0 where
  delta_frame : (from_seq to_seq : ℤ) (events : List Envelope) (applied : Bool) → ControlFrame
  snapshot_frame : (current_seq : ℤ) (state : List ℕ) (reason : SnapshotReason) → ControlFrame
  pong_frame : (client_time server_time : ℤ) → ControlFrame
  error_frame : ErrorCode → ControlFrame
  no_frame : ControlFrame

-- `NewHandler`'s threshold.
unfoldable pub handler_threshold : ℤ → ℤ
handler_threshold threshold = if leb_ℤ threshold (pos 0) then default_delta_threshold else threshold

unfoldable pub send_snapshot : RoomReader → String → ℤ → SnapshotReason → ControlFrame
send_snapshot r room current_seq reason = elim (r.snapshot room) [
  | none ↦ error_frame ErrorCode.resync_failed
  | some state ↦ snapshot_frame current_seq state reason
]

abbrev pub checked_delta :
    RoomReader → String → ℤ → ResyncDecision → List Envelope → Option SeqGap → ControlFrame
checked_delta r room current_seq d events none = delta_frame d.from_seq d.to_seq events true
checked_delta r room current_seq d events (some gap) =
    send_snapshot r room current_seq SnapshotReason.log_has_gap

unfoldable pub send_delta : RoomReader → String → ℤ → ResyncDecision → ControlFrame
send_delta r room current_seq d = elim (r.events_since room (d.from_seq -64 pos 1) d.to_seq) [
  | Read.failed ↦ send_snapshot r room current_seq SnapshotReason.read_failed
  | Read.panicked ↦ no_frame
  | Read.read events ↦
      checked_delta r room current_seq d events (verify_contiguous events d.from_seq)
]

abbrev pub answer : RoomReader → String → ℤ → ℤ → ResyncDecision → ResyncMode → ControlFrame
answer r room last_seq current_seq d ResyncMode.up_to_date =
    delta_frame last_seq current_seq [] false
answer r room last_seq current_seq d ResyncMode.invalid =
    send_snapshot r room current_seq (SnapshotReason.decided d.reason)
answer r room last_seq current_seq d ResyncMode.snapshot =
    send_snapshot r room current_seq (SnapshotReason.decided d.reason)
answer r room last_seq current_seq d ResyncMode.delta = send_delta r room current_seq d

-- `handleResync`: the one frame that it writes.
unfoldable pub handle_resync : RoomReader → ℤ → String → String → ℤ → ControlFrame
handle_resync r threshold room user last_seq = elim (r.membership room user) [
  | none ↦ error_frame ErrorCode.resync_failed
  | some current_seq ↦ elim (r.oldest_retained_seq room) [
    | none ↦ error_frame ErrorCode.resync_failed
    | some oldest ↦
        let d = decide_resync last_seq current_seq oldest threshold in
        answer r room last_seq current_seq d d.mode
  ]
]

-- `handleFrame`: a PING, a RESYNC, or a frame that the server does not know.
unfoldable pub handle_frame : RoomReader → ℤ → String → String → ℤ → ClientFrame → ControlFrame
handle_frame r threshold room user now_ms frame =
    if str_eq frame.kind "PING"
    then pong_frame frame.client_time now_ms
    else if str_eq frame.kind "RESYNC"
    then handle_resync r threshold room user frame.last_seq
    else error_frame ErrorCode.unknown_frame
