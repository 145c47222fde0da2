-- ===== src/Realtime/Drift/Opinions.antt =====
-- One opinion for each user who reports a drift (`EvaluateDriftConsensus` of
-- server/internal/modules/realtime/timeline.go).
use vybe.Base.{
  ◌≡◌, ◌⊎◌, inl, inr, refl, ◌&&◌, true, false, List, [], ◌∷◌, arith, All, Occurs, Bool-cases,
}
use vybe.Base.Int.{ltb_ℤ}
use vybe.Base.Text.{str_eq, eq_iff}
use vybe.Realtime.Drift.{DriftReport, note_report, latest_reports}

-- `q` is no later report of the user of `r`.
abbrev pub IsNoLater : DriftReport → DriftReport → Type 0
IsNoLater r q = (str_eq q.user_id r.user_id && ltb_ℤ r.reported q.reported) ≡ false

-- A report that was made, and none of its user was made later.
abbrev pub IsOpinion : List DriftReport → DriftReport → Type 0
IsOpinion reports r = Occurs r reports × All (IsNoLater r) reports

abbrev pub IsOther : DriftReport → DriftReport → Type 0
IsOther r q = str_eq q.user_id r.user_id ≡ false

-- No two reports are of one user.
abbrev pub HasDistinctUsers : List DriftReport → Type 0
HasDistinctUsers [] = Unit
HasDistinctUsers (r ∷ l) = All (IsOther r) l × HasDistinctUsers l

-- Some report of the same user is at least as late.
abbrev Covers : List DriftReport → DriftReport → Type 0
Covers [] q = ⊥
Covers (x ∷ l) q =
    ((str_eq x.user_id q.user_id ≡ true) × (ltb_ℤ x.reported q.reported ≡ false)) ⊎ Covers l q

note_report-All {κ} :
    (P : DriftReport → Type κ) (m : List DriftReport) (r : DriftReport)
    → All P m
    → P r
    → All P (note_report m r)
unfolding note_report
note_report-All P [] r a h = (h, tt)
note_report-All P (p ∷ m) r a h = elim (Bool-cases (str_eq p.user_id r.user_id)) [
  | inr other ↦ rw other (a.0, note_report-All P m r a.1 h)
  | inl same ↦ elim (Bool-cases (ltb_ℤ p.reported r.reported)) [
    | inl later ↦ rw (same, later) (h, a.1)
    | inr old ↦ rw (same, old) a
  ]
]

others_moved :
    (p r : DriftReport) (m : List DriftReport)
    → str_eq p.user_id r.user_id ≡ true
    → All (IsOther p) m
    → All (IsOther r) m
others_moved p r [] same h = tt
others_moved p r (x ∷ m) same h =
    (ground (arith, h.0, same, eq_iff p.user_id r.user_id), others_moved p r m same h.1)

note_report-HasDistinctUsers :
    (m : List DriftReport) (r : DriftReport)
    → HasDistinctUsers m
    → HasDistinctUsers (note_report m r)
unfolding note_report
note_report-HasDistinctUsers [] r d = (tt, tt)
note_report-HasDistinctUsers (p ∷ m) r d = elim (Bool-cases (str_eq p.user_id r.user_id)) [
  | inr other ↦ rw other (
    note_report-All (IsOther p) m r d.0
        (ground (arith, other, eq_iff p.user_id r.user_id, eq_iff r.user_id p.user_id)),
    note_report-HasDistinctUsers m r d.1,
  )
  | inl same ↦ elim (Bool-cases (ltb_ℤ p.reported r.reported)) [
    | inl later ↦ rw (same, later) (others_moved p r m same d.0, d.1)
    | inr old ↦ rw (same, old) d
  ]
]

note_report-Covers-own : (m : List DriftReport) (r : DriftReport) → Covers (note_report m r) r
unfolding note_report
note_report-Covers-own [] r = inl ((eq_iff r.user_id r.user_id).1 refl, ground arith)
note_report-Covers-own (p ∷ m) r = elim (Bool-cases (str_eq p.user_id r.user_id)) [
  | inr other ↦ rw other (inr (note_report-Covers-own m r))
  | inl same ↦ elim (Bool-cases (ltb_ℤ p.reported r.reported)) [
    | inl later ↦ rw (same, later) (inl ((eq_iff r.user_id r.user_id).1 refl, ground arith))
    | inr old ↦ rw (same, old) (inl (same, old))
  ]
]

note_report-Covers :
    (m : List DriftReport) (r q : DriftReport) → Covers m q → Covers (note_report m r) q
unfolding note_report
note_report-Covers [] r q h = absurd h
note_report-Covers (p ∷ m) r q h = elim (Bool-cases (str_eq p.user_id r.user_id)) [
  | inr other ↦
      rw other (elim h [ inl here ↦ inl here | inr there ↦ inr (note_report-Covers m r q there) ])
  | inl same ↦ elim (Bool-cases (ltb_ℤ p.reported r.reported)) [
    | inr old ↦ rw (same, old) h
    | inl later ↦
        rw (same, later)
          (elim h [
            | inl here ↦ inl (
              ground (arith, here.0, same, eq_iff p.user_id r.user_id),
              ground (arith, here.1, later),
            )
            | inr there ↦ inr there
          ])
  ]
]

latest_reports-All {κ} :
    (P : DriftReport → Type κ) (m l : List DriftReport)
    → All P m
    → All P l
    → All P (latest_reports m l)
unfolding latest_reports
latest_reports-All P m [] a b = a
latest_reports-All P m (r ∷ l) a b =
    latest_reports-All P (note_report m r) l (note_report-All P m r a b.0) b.1

pub latest_reports-HasDistinctUsers :
    (m l : List DriftReport) → HasDistinctUsers m → HasDistinctUsers (latest_reports m l)
unfolding latest_reports
latest_reports-HasDistinctUsers m [] d = d
latest_reports-HasDistinctUsers m (r ∷ l) d =
    latest_reports-HasDistinctUsers (note_report m r) l (note_report-HasDistinctUsers m r d)

latest_reports-kept :
    (m l : List DriftReport) (q : DriftReport) → Covers m q → Covers (latest_reports m l) q
unfolding latest_reports
latest_reports-kept m [] q h = h
latest_reports-kept m (r ∷ l) q h =
    latest_reports-kept (note_report m r) l q (note_report-Covers m r q h)

latest_reports-Covers : (m l : List DriftReport) → All (Covers (latest_reports m l)) l
unfolding latest_reports
latest_reports-Covers m [] = tt
latest_reports-Covers m (r ∷ l) = (
  latest_reports-kept (note_report m r) l r (note_report-Covers-own m r),
  latest_reports-Covers (note_report m r) l,
)

IsOther-covered :
    (x q : DriftReport) (m : List DriftReport) → All (IsOther x) m → Covers m q → IsOther x q
IsOther-covered x q [] a h = absurd h
IsOther-covered x q (y ∷ m) a (inl here) = ground (arith, a.0, here.0, eq_iff y.user_id q.user_id)
IsOther-covered x q (y ∷ m) a (inr there) = IsOther-covered x q m a.1 there

covered-IsNoLater :
    (m : List DriftReport) (q : DriftReport)
    → HasDistinctUsers m
    → Covers m q
    → All (λ x. IsNoLater x q) m
covered-IsNoLater [] q d h = tt
covered-IsNoLater (x ∷ m) q d (inl here) =
    (ground (arith, here.1), elsewhere m (others_moved x q m here.0 d.0))
  where
    elsewhere : (l : List DriftReport) → All (IsOther q) l → All (λ y. IsNoLater y q) l
    elsewhere [] a = tt
    elsewhere (y ∷ l) a = (
      ground (arith, a.0, eq_iff q.user_id y.user_id, eq_iff y.user_id q.user_id),
      elsewhere l a.1,
    )
covered-IsNoLater (x ∷ m) q d (inr there) =
    (ground (arith, IsOther-covered x q m d.0 there), covered-IsNoLater m q d.1 there)

itself-Occurs : (l : List DriftReport) → All (λ x. Occurs x l) l
itself-Occurs l = from l l (λ x h. h)
  where
    from :
        (l whole : List DriftReport)
        → ((x : DriftReport) → Occurs x l → Occurs x whole)
        → All (λ x. Occurs x whole) l
    from [] whole h = tt
    from (x ∷ l) whole h = (h x (inl refl), from l whole (λ y o. h y (inr o)))

no_later :
    (reports m l : List DriftReport)
    → HasDistinctUsers m
    → All (Covers m) l
    → All (λ x. Occurs x reports × All (IsNoLater x) []) m
    → All (λ x. Occurs x reports × All (IsNoLater x) l) m
no_later reports m [] d c a = a
no_later reports m (q ∷ l) d c a =
    joined m (covered-IsNoLater m q d c.0) (no_later reports m l d c.1 a)
  where
    joined :
        (n : List DriftReport)
        → All (λ x. IsNoLater x q) n
        → All (λ x. Occurs x reports × All (IsNoLater x) l) n
        → All (λ x. Occurs x reports × All (IsNoLater x) (q ∷ l)) n
    joined [] a b = tt
    joined (x ∷ n) a b = ((b.0.0, (a.0, b.0.1)), joined n a.1 b.1)

-- What the loop keeps is the opinions.
pub latest_reports-IsOpinion :
    (reports : List DriftReport) → All (IsOpinion reports) (latest_reports [] reports)
latest_reports-IsOpinion reports =
    no_later reports (latest_reports [] reports) reports
      (latest_reports-HasDistinctUsers [] reports tt) (latest_reports-Covers [] reports)
      (latest_reports-All (λ x. Occurs x reports × All (IsNoLater x) []) [] reports tt
        (bare reports (itself-Occurs reports)))
  where
    bare :
        (l : List DriftReport)
        → All (λ x. Occurs x reports) l
        → All (λ x. Occurs x reports × All (IsNoLater x) []) l
    bare [] a = tt
    bare (x ∷ l) a = ((a.0, tt), bare l a.1)
