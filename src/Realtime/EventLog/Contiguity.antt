-- ===== src/Realtime/EventLog/Contiguity.antt =====
-- What `VerifyContiguous` (server/internal/modules/realtime/eventlog.go) establishes.
use vybe.Base.{ℕ, zero, suc, ◌+◌, ◌<◌, ◌≡◌, ◌↔◌, refl, ap, none, List, [], ◌∷◌, arith, length, map}
use vybe.Base.Int.{ℤ, pos, +ℤ-pos}
use vybe.Base.Word.{wrap64-pos}
use vybe.Realtime.EventLog.{Envelope, verify_contiguous}

abbrev pub seqs : List Envelope → List ℤ
seqs = map (λ e. e.seq)

-- first, first + 1, …: as many as asked for.
abbrev pub run_from : ℕ → ℕ → List ℤ
run_from first zero = []
run_from first (suc n) = pos first ∷ run_from (first + 1) n

verify_contiguous-run :
    (l : List Envelope) (first : ℕ)
    → first + length l < 0x8000000000000000
    → verify_contiguous l (pos first) ≡ none
    → seqs l ≡ run_from first (length l)
unfolding verify_contiguous
verify_contiguous-run [] first h e = refl
verify_contiguous-run (x ∷ l) first h e =
    ground (arith, +ℤ-pos first 1, wrap64-pos (first + 1), verify_contiguous-run l (first + 1))

run-verify_contiguous :
    (l : List Envelope) (first : ℕ)
    → first + length l < 0x8000000000000000
    → seqs l ≡ run_from first (length l)
    → verify_contiguous l (pos first) ≡ none
unfolding verify_contiguous
run-verify_contiguous [] first h e = refl
run-verify_contiguous (x ∷ l) first h e =
    ground (arith, +ℤ-pos first 1, wrap64-pos (first + 1), run-verify_contiguous l (first + 1))

-- For sequence numbers within 64 bits: a run of events passes exactly when its numbers are the first one
-- expected and then each the next, as many as there are events.
pub verify_contiguous_iff :
    (l : List Envelope) (first : ℕ)
    → first + length l < 0x8000000000000000
    → (verify_contiguous l (pos first) ≡ none) ↔ (seqs l ≡ run_from first (length l))
verify_contiguous_iff l first h = (verify_contiguous-run l first h, run-verify_contiguous l first h)

pub length-seqs : (l : List Envelope) → length (seqs l) ≡ length l
length-seqs [] = refl
length-seqs (x ∷ l) = ap suc (length-seqs l)

pub length-run_from : (first n : ℕ) → length (run_from first n) ≡ n
length-run_from first zero = refl
length-run_from first (suc n) = ap suc (length-run_from (first + 1) n)
