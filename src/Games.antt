-- ===== src/Games.antt =====
-- The games module: judging and scoring a trivia answer (server/internal/modules/games/scoring.go).
-- Times are integers of nanoseconds, durations and points are 64-bit words, ids are texts.
pub mod Score
pub mod Judging
use vybe.Base.{ℕ, ◌≡◌, Bool, true, false, not, ◌&&◌, ◌||◌, ◌/◌, ◌+◌, ◌*◌, if◌then◌else◌}
use vybe.Base.Int.{ℤ, pos, negsuc, pos_part, neg_part, ltb_ℤ, leb_ℤ, ◌+ℤ◌, quot, sub_ℕ}
use vybe.Base.Word.{◌+64◌, ◌-64◌, ◌*64◌, wrap64, time_sub, is_zero_time, quot64}
use vybe.Base.Text.{String, str_eq, is_empty}

-- AnswerGrace and HumanReactionFloor, in nanoseconds.
abbrev pub answer_grace : ℤ
answer_grace = pos 400_000_000

abbrev pub human_reaction_floor : ℤ
human_reaction_floor = pos 250_000_000

pub data RejectReason : Type 0 where
  none session_inactive not_participant question_not_open question_closed : RejectReason
  invalid_nonce duplicate : RejectReason
  unlisted : String → RejectReason

unfoldable pub http_status : RejectReason → ℕ
http_status RejectReason.none = 200
http_status RejectReason.session_inactive = 422
http_status RejectReason.question_closed = 422
http_status RejectReason.not_participant = 403
http_status RejectReason.invalid_nonce = 403
http_status RejectReason.question_not_open = 404
http_status RejectReason.duplicate = 409
http_status (RejectReason.unlisted text) = 500

pub record Question : Type 0 where
  pub id : String
  pub correct_option_id : String
  pub points : ℤ
  pub time_limit : ℤ
  pub opened_at : ℤ
  pub deadline_at : ℤ
  pub closed_at : ℤ

unfoldable pub open_question : Question → Bool
open_question q = not (is_zero_time q.opened_at) && is_zero_time q.closed_at

pub record Submission : Type 0 where
  pub session_id : String
  pub user_id : String
  pub question_id : String
  pub option_id : String
  pub nonce : String
  pub received_at : ℤ
  pub client_ts : ℤ
  pub rtt : ℤ

pub record Context : Type 0 where
  pub session_active : Bool
  pub is_participant : Bool
  pub question : Question
  pub expected_nonce : String
  pub already_answered : Bool

pub record Result : Type 0 where
  pub rejected : RejectReason
  pub is_correct : Bool
  pub points : ℤ
  pub elapsed : ℤ
  pub suspicious : Bool

abbrev pub reject : RejectReason → Result
reject r = record {
  rejected = r;
  is_correct = false;
  points = pos 0;
  elapsed = pos 0;
  suspicious = false;
}

unfoldable pub accepted : Result → Bool
accepted r = elim r.rejected [ RejectReason.none ↦ true | _ ↦ false ]

unfoldable pub elapsed : ℤ → ℤ → ℤ → ℤ
elapsed opened_at received_at rtt =
    let e = time_sub received_at opened_at -64 quot rtt 2 in if ltb_ℤ e (pos 0) then pos 0 else e

-- The last two steps of `Score`, where the base is positive and some time remains.
unfoldable pub speed_bonus : ℤ → ℤ → ℤ → ℤ
speed_bonus base remaining limit = quot64 (base *64 remaining +64 limit) (pos 2 *64 limit)

unfoldable pub score : ℤ → ℤ → ℤ → ℤ
score base elapsed time_limit =
    let e = if ltb_ℤ elapsed (pos 0) then pos 0 else elapsed in
    if leb_ℤ base (pos 0)
    then pos 0
    else if leb_ℤ time_limit (pos 0)
    then base
    else if leb_ℤ time_limit e
    then base
    else base +64 speed_bonus base (time_limit -64 e) time_limit

unfoldable pub max_score : ℤ → ℤ
max_score base = if leb_ℤ base (pos 0) then pos 0 else base +64 quot (base +64 pos 1) 2

-- The answer stands: what `Validate` returns once no check has refused it.
unfoldable pub judge : Submission → Context → Result
judge sub ctx =
    let q = ctx.question in
    let e = elapsed q.opened_at sub.received_at sub.rtt in
    let correct = str_eq sub.option_id q.correct_option_id in
    record {
      rejected = RejectReason.none;
      is_correct = correct;
      points = if correct then score q.points e q.time_limit else pos 0;
      elapsed = e;
      suspicious = ltb_ℤ e human_reaction_floor;
    }

unfoldable pub validate : Submission → Context → Result
unfolding open_question
validate sub ctx =
    let q = ctx.question in
    if not ctx.session_active
    then reject RejectReason.session_inactive
    else if not ctx.is_participant
    then reject RejectReason.not_participant
    else if not (open_question q)
    then (if is_zero_time q.opened_at
        then reject RejectReason.question_not_open
        else reject RejectReason.question_closed)
    else if is_empty ctx.expected_nonce || not (str_eq sub.nonce ctx.expected_nonce)
    then reject RejectReason.invalid_nonce
    else if ctx.already_answered
    then reject RejectReason.duplicate
    else if ltb_ℤ (q.deadline_at +ℤ answer_grace) sub.received_at
    then reject RejectReason.question_closed
    else judge sub ctx
