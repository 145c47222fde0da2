-- ===== src/Platform/Idempotency/Recording.antt =====
-- What the recorder of the middleware keeps of a response (`recorder` in
-- server/internal/platform/httpx/idempotency.go).
use vybe.Base.{
  ℕ, zero, suc, ◌-◌, ◌≡◌, refl, ap, true, List, [], ◌∷◌, ◌++◌, if◌then◌else◌, ltb, leb, length,
  take, take_all, arith, Bool-cases, inl, inr, ◌∙◌, sym,
}
use mathlib.Core.List.{append-nil, append_assoc}
use vybe.Base.{min}
use vybe.Platform.Idempotency.{
  Write, write_header, write, Recorder, new_recorder, record_all, recorder_write_header,
  recorder_write, max_idem_body_bytes,
}

-- Everything a handler writes, and the status it answers with.
unfoldable pub sent_by : List Write → List ℕ
sent_by [] = []
sent_by (write_header s ∷ l) = sent_by l
sent_by (write b ∷ l) = b ++ sent_by l

unfoldable pub first_status : List Write → ℕ
first_status [] = 200
first_status (write_header s ∷ l) = s
first_status (write b ∷ l) = 200

take-sub_zero : (n : ℕ) (ys : List ℕ) → take n ys ≡ take (n - 0) ys
take-sub_zero n ys = ap (λ m. take m ys) (omega arith)

take-append : (n : ℕ) (xs ys : List ℕ) → take n (xs ++ ys) ≡ take n xs ++ take (n - length xs) ys
take-append zero [] ys = refl
take-append (suc n) [] ys = take-sub_zero (suc n) ys
take-append zero (x ∷ xs) ys = ground arith
take-append (suc n) (x ∷ xs) ys = ground (arith, take-append n xs ys)

-- One more write to a mirror that holds the first `n` bytes.
unfoldable mirror : ℕ → List ℕ → List ℕ → List ℕ
mirror n body b =
    if ltb (length body) n
    then body ++ (if leb (length b) (n - length body) then b else take (n - length body) b)
    else body

take_none : (m : ℕ) (b : List ℕ) → m ≡ 0 → take m b ≡ []
take_none m b h = rw h refl

mirror-append : (n : ℕ) (xs b : List ℕ) → mirror n xs b ≡ xs ++ take (n - length xs) b
unfolding mirror
mirror-append n xs b =
    ground (arith, append-nil xs, take_all (n - length xs) b, take_none (n - length xs) b)

length-take_le : (n : ℕ) (xs : List ℕ) → length (take n xs) ≡ min n (length xs)
length-take_le zero xs = ground arith
length-take_le (suc n) [] = ground arith
length-take_le (suc n) (x ∷ xs) = ground (arith, length-take_le n xs)

take-take_rest : (n : ℕ) (xs b : List ℕ) → take (n - length (take n xs)) b ≡ take (n - length xs) b
take-take_rest n xs b = ap (λ m. take m b) (ground (arith, length-take_le n xs))

mirror-take : (n : ℕ) (xs b : List ℕ) → mirror n (take n xs) b ≡ take n (xs ++ b)
mirror-take n xs b =
    mirror-append n (take n xs) b
    ∙ ap (◌++◌ (take n xs)) (take-take_rest n xs b)
    ∙ sym (take-append n xs b)

recorder_write-body :
    (r : Recorder) (b : List ℕ) → (recorder_write r b).body ≡ mirror max_idem_body_bytes r.body b
unfolding recorder_write recorder_write_header mirror
recorder_write-body r b = elim (Bool-cases r.wrote_header) [ inl e ↦ rw e refl | inr e ↦ rw e refl ]

-- A recorder whose mirror is the first bytes of what it passed on.
abbrev pub IsMirror : Recorder → Type 0
IsMirror r = r.body ≡ take max_idem_body_bytes r.sent

recorder_write-sent : (r : Recorder) (b : List ℕ) → (recorder_write r b).sent ≡ r.sent ++ b
unfolding recorder_write recorder_write_header
recorder_write-sent r b = elim (Bool-cases r.wrote_header) [ inl e ↦ rw e refl | inr e ↦ rw e refl ]

recorder_write-IsMirror : (r : Recorder) (b : List ℕ) → IsMirror r → IsMirror (recorder_write r b)
recorder_write-IsMirror r b h =
    recorder_write-body r b
    ∙ ap (λ x. mirror max_idem_body_bytes x b) h
    ∙ mirror-take max_idem_body_bytes r.sent b
    ∙ ap (take max_idem_body_bytes) (sym (recorder_write-sent r b))

header-kept : (r : Recorder) (s : ℕ) → r.wrote_header ≡ true → recorder_write_header r s ≡ r
unfolding recorder_write_header
header-kept r s h = simp h

header-body :
    (r : Recorder) (s : ℕ)
    → (recorder_write_header r s).body ≡ r.body × (recorder_write_header r s).sent ≡ r.sent
unfolding recorder_write_header
header-body r s = elim (Bool-cases r.wrote_header) [
  | inl e ↦ rw e (refl, refl)
  | inr e ↦ rw e (refl, refl)
]

record_all_from :
    (l : List Write) (r : Recorder)
    → IsMirror r
    → IsMirror (record_all r l) × (record_all r l).sent ≡ r.sent ++ sent_by l
unfolding record_all sent_by
record_all_from [] r h = (h, sym (append-nil r.sent))
record_all_from (write_header s ∷ l) r h =
    let kept = header-body r s in
    let rest =
      record_all_from l (recorder_write_header r s)
        (kept.0 ∙ h ∙ ap (take max_idem_body_bytes) (sym kept.1)) in
    (rest.0, rest.1 ∙ ap (λ x. x ++ sent_by l) kept.1)
record_all_from (write b ∷ l) r h =
    let rest = record_all_from l (recorder_write r b) (recorder_write-IsMirror r b h) in
    (
      rest.0,
      rest.1
          ∙ ap (λ x. x ++ sent_by l) (recorder_write-sent r b)
          ∙ append_assoc r.sent b (sent_by l),
    )

write-kept :
    (r : Recorder) (b : List ℕ)
    → r.wrote_header ≡ true
    → (recorder_write r b).wrote_header ≡ true × (recorder_write r b).status ≡ r.status
unfolding recorder_write recorder_write_header
write-kept r b h = rw h (refl, refl)

record_all-status :
    (l : List Write) (r : Recorder) → r.wrote_header ≡ true → (record_all r l).status ≡ r.status
unfolding record_all
record_all-status [] r h = refl
record_all-status (write_header s ∷ l) r h =
    ap (λ x. (record_all x l).status) (header-kept r s h) ∙ record_all-status l r h
record_all-status (write b ∷ l) r h =
    let kept = write-kept r b h in record_all-status l (recorder_write r b) kept.0 ∙ kept.1

first-status : (l : List Write) → (record_all new_recorder l).status ≡ first_status l
unfolding record_all first_status recorder_write recorder_write_header
first-status [] = refl
first-status (write_header s ∷ l) = record_all-status l (recorder_write_header new_recorder s) refl
first-status (write b ∷ l) = record_all-status l (recorder_write new_recorder b) refl

-- The recorder of any response holds the first 2^20 bytes written, has passed every byte on, and
-- has the status of the first header (200 when a write or nothing comes first).
pub record_all-Agrees :
    (l : List Write)
    → (record_all new_recorder l).body ≡ take max_idem_body_bytes (sent_by l)
      × (record_all new_recorder l).sent ≡ sent_by l
      × (record_all new_recorder l).status ≡ first_status l
record_all-Agrees l =
    let all =
      record_all_from l new_recorder (sym (take_all max_idem_body_bytes [] (omega arith))) in
    (all.0 ∙ ap (take max_idem_body_bytes) all.1, all.1, first-status l)
