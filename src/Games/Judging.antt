-- ===== src/Games/Judging.antt =====
-- What `Validate` (server/internal/modules/games/scoring.go) admits, and what it tells to whom.
use vybe.Base.{◌≡◌, ◌≢◌, ◌↔◌, refl, true, false, ◌⊎◌, arith, ℕ}
use vybe.Base.Int.{ℤ, pos, ◌≤ℤ◌, ◌+ℤ◌}
use vybe.Base.Text.{String, eq_iff, is_empty}
use vybe.Games.{Submission, Context, validate, judge, accepted, answer_grace, elapsed, max_score}
use vybe.Games.Score.{IsScorable, score_bounds}

-- Every condition of §8.1 step 5, as one list of facts.
pub record IsAcceptable (sub : Submission) (ctx : Context) : Type 0 where
  pub active : ctx.session_active ≡ true
  pub member : ctx.is_participant ≡ true
  pub opened : ctx.question.opened_at ≢ pos 0
  pub still_open : ctx.question.closed_at ≡ pos 0
  pub nonce_issued : ctx.expected_nonce ≢ ""
  pub nonce_matches : sub.nonce ≡ ctx.expected_nonce
  pub first_answer : ctx.already_answered ≡ false
  pub in_time : sub.received_at ≤ℤ ctx.question.deadline_at +ℤ answer_grace

is_empty_iff : (s : String) → (is_empty s ≡ true) ↔ (s ≡ "")
is_empty_iff String.[] = (λ _. refl, λ _. refl)
is_empty_iff (String.◌∷◌ c s) = ((λ h. cc), λ h. cc)

-- `Validate` accepts an answer exactly when the session is active, the user takes part, the
-- question is open, the nonce is the one issued, no answer was given before, and the server received
-- it no later than the deadline and the grace.
pub validate-accepted :
    (sub : Submission) (ctx : Context) → (accepted (validate sub ctx) ≡ true) ↔ IsAcceptable sub ctx
unfolding validate judge accepted
validate-accepted sub ctx = (
  λ h. record {
    active = ground arith;
    member = ground arith;
    opened = ground arith;
    still_open = ground arith;
    nonce_issued = ground (arith, is_empty_iff ctx.expected_nonce);
    nonce_matches = ground (arith, eq_iff sub.nonce ctx.expected_nonce);
    first_answer = ground arith;
    in_time = ground arith;
  },
  λ h. ground (arith, h, eq_iff sub.nonce ctx.expected_nonce, is_empty_iff ctx.expected_nonce),
)

-- A stranger gets one answer: with the session in the same state, two requests by users outside the
-- room have the same result, whatever the questions, nonces and earlier answers behind them.
pub validate_hides_questions :
    (sub sub' : Submission) (ctx ctx' : Context)
    → ctx.is_participant ≡ false
    → ctx'.is_participant ≡ false
    → ctx.session_active ≡ ctx'.session_active
    → validate sub ctx ≡ validate sub' ctx'
unfolding validate
validate_hides_questions sub sub' ctx ctx' out out' same = ground arith

-- No input makes the time taken negative: not a round trip longer than the answer, and not clocks
-- so far apart that the subtraction saturates or wraps.
pub elapsed_nonneg : (o r d : ℤ) → pos 0 ≤ℤ elapsed o r d
unfolding elapsed
elapsed_nonneg o r d = ground arith

-- For a scorable question: an answer earns points only if it is accepted and right, and then at least
-- the base and at most `MaxScore`.
pub validate_points :
    (sub : Submission) (ctx : Context) (b l : ℕ)
    → ctx.question.points ≡ pos b
    → ctx.question.time_limit ≡ pos l
    → IsScorable b l
    → let r = validate sub ctx in
      ((r.points ≡ pos 0)
        × ((accepted r ≡ false) ⊎ (sub.option_id ≢ ctx.question.correct_option_id)))
      ⊎ ((accepted r ≡ true)
          × (sub.option_id ≡ ctx.question.correct_option_id)
          × (pos b ≤ℤ r.points)
          × (r.points ≤ℤ max_score (pos b)))
unfolding validate judge accepted
validate_points sub ctx b l pb pl s = ground (
  arith,
  eq_iff sub.option_id ctx.question.correct_option_id,
  score_bounds b l (elapsed ctx.question.opened_at sub.received_at sub.rtt) s,
)
