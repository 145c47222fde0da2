-- ===== src/Tests/Games.antt =====
-- One trivia question and its answers (server/internal/modules/games/scoring.go).
use vybe.Base.{◌≡◌, false, ◌↔◌, true, false, arith}
use vybe.Base.Int.{pos}
use vybe.Games.{Question, Submission, Context, accepted, validate}
use vybe.Games.Score.{IsScorable}
use vybe.Games.Judging.{IsAcceptable, validate-accepted}

-- 100 points, 20 seconds, opened a second after the epoch.
abbrev question : Question
question = record {
  id = "q";
  correct_option_id = "b";
  points = pos 100;
  time_limit = pos 20_000_000_000;
  opened_at = pos 1_000_000_000;
  deadline_at = pos 21_000_000_000;
  closed_at = pos 0;
}

abbrev right_answer : Submission
right_answer = record {
  session_id = "s";
  user_id = "u";
  question_id = "q";
  option_id = "b";
  nonce = "n";
  received_at = pos 6_000_000_000;
  client_ts = pos 0;
  rtt = pos 40_000_000;
}

abbrev open_context : Context
open_context = record {
  session_active = true;
  is_participant = true;
  question = question;
  expected_nonce = "n";
  already_answered = false;
}

question-IsScorable : IsScorable 100 20_000_000_000
question-IsScorable = (omega arith, omega arith, omega arith, omega arith)

validate-accepted_example :
    (accepted (validate right_answer open_context) ≡ true) ↔ IsAcceptable right_answer open_context
validate-accepted_example = validate-accepted right_answer open_context
