-- ===== src/Realtime/Drift/Prompt.antt =====
-- When the host is prompted, and with which shift (`EvaluateDriftConsensus` of
-- server/internal/modules/realtime/timeline.go).
use vybe.Base.{
  ℕ, zero, suc, ◌*◌, ◌≤◌, ◌<◌, ◌≡◌, ◌⊎◌, inl, inr, refl, true, false, List, [], ◌∷◌, ltb, length,
  arith, All, Bool-cases,
}
use vybe.Base.Int.{ℤ, pos, negsuc, ◌*ℤ◌, ◌≤ℤ◌, ltb_ℤ, leb_ℤ, *ℤ-pos}
use vybe.Realtime.Drift.{
  DriftReport, latest_reports, drift_of, ahead, behind, larger_group, median_duration, consensus_of,
  evaluate_drift_consensus, drift_threshold, minus_drift_threshold,
}
use vybe.Realtime.Drift.Consensus.{latest-length, groups-length}
use vybe.Realtime.Drift.Opinions.{IsOpinion}
use vybe.Realtime.Drift.Groups.{IsAhead, IsBehind, Agree, larger_group-Agree}
use vybe.Realtime.Drift.Median.{IsWithin, IsHalf, median_duration-IsWithin}

-- The outermost drifts of which two have a 64-bit sum.
abbrev most : ℤ
most = pos 0x3fffffffffffffff

abbrev least : ℤ
least = negsuc 0x3ffffffffffffffe

ahead-IsWithin :
    (l : List DriftReport)
    → All (λ r. IsHalf (drift_of r)) l
    → All (IsWithin drift_threshold most) (ahead l)
unfolding ahead
ahead-IsWithin [] h = tt
ahead-IsWithin (r ∷ l) h = ground (arith, h.0, ahead-IsWithin l h.1)

behind-IsWithin :
    (l : List DriftReport)
    → All (λ r. IsHalf (drift_of r)) l
    → All (IsWithin least minus_drift_threshold) (behind l)
unfolding behind
behind-IsWithin [] h = tt
behind-IsWithin (r ∷ l) h = ground (arith, h.0, behind-IsWithin l h.1)

-- What a consensus that prompts the host says of its group.
consensus_of-prompts :
    (g : List ℤ) (total n : ℕ)
    → (consensus_of g total (pos n)).should_prompt_host ≡ true
    → let c = consensus_of g total (pos n) in
      (2 * n < 5 * length g)
      × (c.agreeing_users ≡ length g)
      × (c.total_reporters ≡ total)
      × (c.suggested_shift ≡ median_duration g)
unfolding consensus_of
consensus_of-prompts g total n h = elim (Bool-cases (ltb_ℤ (pos 2 *ℤ pos n) (pos (5 * length g)))) [
  | inl e ↦ rw e (ground (arith, e, *ℤ-pos 2 n), refl, refl, refl)
  | inr e ↦ absurd (ground (arith, e, h))
]

shift-IsFar :
    (lo hi : ℤ) (g : List ℤ)
    → IsHalf lo
    → IsHalf hi
    → All (IsWithin lo hi) g
    → 0 < length g
    → IsWithin lo hi (median_duration g)
shift-IsFar lo hi [] p q h e = absurd (omega arith)
shift-IsFar lo hi (a ∷ l) p q h e = median_duration-IsWithin lo hi a l p q h

larger_group-IsFar :
    (l : List DriftReport)
    → All (λ r. IsHalf (drift_of r)) l
    → 0 < length (larger_group (ahead l) (behind l))
    → (drift_threshold ≤ℤ median_duration (larger_group (ahead l) (behind l)))
      ⊎ (median_duration (larger_group (ahead l) (behind l)) ≤ℤ minus_drift_threshold)
unfolding larger_group
larger_group-IsFar l h = elim (Bool-cases (ltb (length (ahead l)) (length (behind l)))) [
  | inl e ↦ rw e (λ k.
      inr
        (shift-IsFar least minus_drift_threshold (behind l) (omega arith, omega arith)
          (omega arith, omega arith) (behind-IsWithin l h) k).1)
  | inr e ↦ rw e (λ k.
      inl
        (shift-IsFar drift_threshold most (ahead l) (omega arith, omega arith)
          (omega arith, omega arith) (ahead-IsWithin l h) k).0)
]

larger_group-length : (l : List DriftReport) → length (larger_group (ahead l) (behind l)) ≤ length l
unfolding larger_group
larger_group-length l = ground (arith, groups-length l)

-- When the host is prompted, more than two fifths of the participants agree: as many reports as the result
-- counts, of distinct users, each the latest of its user, all lie 8 seconds or more the same way. There are no
-- more of them than users who have reported, and the shift that is suggested is at least 8 seconds, forwards
-- or backwards. Here the latest drifts are below 2^62 nanoseconds.
pub evaluate_drift_consensus-prompts :
    (reports : List DriftReport) (n : ℕ)
    → All (λ r. IsHalf (drift_of r)) (latest_reports [] reports)
    → (evaluate_drift_consensus reports (pos n)).should_prompt_host ≡ true
    → let c = evaluate_drift_consensus reports (pos n) in
      (2 * n < 5 * c.agreeing_users)
      × (Agree (IsOpinion reports) IsAhead c.agreeing_users
          ⊎ Agree (IsOpinion reports) IsBehind c.agreeing_users)
      × (c.agreeing_users ≤ c.total_reporters)
      × (c.total_reporters ≤ length reports)
      × ((drift_threshold ≤ℤ c.suggested_shift) ⊎ (c.suggested_shift ≤ℤ minus_drift_threshold))
unfolding evaluate_drift_consensus
evaluate_drift_consensus-prompts reports zero small h = absurd cc
evaluate_drift_consensus-prompts reports (suc m) small h =
    let latest = latest_reports [] reports in
    let g = larger_group (ahead latest) (behind latest) in
    let some_left : leb_ℤ (pos (suc m)) (pos 0) ≡ false = ground arith in
    let said = consensus_of-prompts g (length latest) (suc m) ground (arith, h, some_left) in
    let far = larger_group-IsFar latest small (omega (arith, said.0)) in
    rw some_left (
      rw (said.1, said.2, said.3)
        (
          said.0,
          larger_group-Agree reports,
          larger_group-length latest,
          omega (arith, latest-length [] reports),
          far,
        ))
