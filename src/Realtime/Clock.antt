-- ===== src/Realtime/Clock.antt =====
-- The clock discipline of the server (server/internal/modules/realtime/clock.go): round-trip samples
-- and the estimator of one connection. Instants and durations are integers of nanoseconds.
pub mod Accuracy
pub mod Window
pub mod Summary
use vybe.Base.{
  ℕ, ◌+◌, ◌-◌, ◌/◌, Bool, true, false, not, ◌&&◌, ◌||◌, Option, none, some, List, [], ◌∷◌, ◌++◌,
  if◌then◌else◌, ltb, leb, length, drop, get_elem?,
}
use vybe.Base.Int.{ℤ, pos, quot, ltb_ℤ, leb_ℤ}
use vybe.Base.Word.{◌+64◌, ◌-64◌, time_sub}

-- OffsetSampleWindow, and MaxAcceptableRTT in nanoseconds.
abbrev pub offset_sample_window : ℕ
offset_sample_window = 5

abbrev pub max_acceptable_rtt : ℤ
max_acceptable_rtt = pos 2_000_000_000

pub record Sample : Type 0 where
  pub t0 : ℤ
  pub t1 : ℤ
  pub t2 : ℤ
  pub t3 : ℤ

unfoldable pub rtt : Sample → ℤ
rtt s = time_sub s.t3 s.t0 -64 time_sub s.t2 s.t1

unfoldable pub offset : Sample → ℤ
offset s = quot (time_sub s.t1 s.t0 +64 time_sub s.t2 s.t3) 2

unfoldable pub usable : Sample → Bool
usable s = leb_ℤ (pos 0) (rtt s) && leb_ℤ (rtt s) max_acceptable_rtt

-- The rolling window, most recent last.
pub record ClockEstimator : Type 0 where
  pub samples : List Sample

unfoldable pub observe : ClockEstimator → Sample → ClockEstimator
observe e s =
    let l = e.samples ++ s ∷ [] in
    record {
      samples =
          if ltb offset_sample_window (length l)
          then drop (length l - offset_sample_window) l
          else l;
    }

-- The loop of `Best`: `none` while nothing is found.
abbrev pub closer : Option Sample → Sample → Bool
closer none s = true
closer (some b) s = ltb_ℤ (rtt s) (rtt b)

unfoldable pub best_from : Option Sample → List Sample → Option Sample
best_from b [] = b
best_from b (s ∷ l) = best_from (if usable s && closer b s then some s else b) l

-- `none` is ErrNoUsableSamples.
unfoldable pub best : ClockEstimator → Option Sample
best e = best_from none e.samples

unfoldable pub estimate : ClockEstimator → Option ℤ
estimate e = elim (best e) [ none ↦ none | some s ↦ some (offset s) ]

abbrev pub none_usable : List Sample → Bool
none_usable [] = true
none_usable (s ∷ l) = if usable s then false else none_usable l

unfoldable pub degraded : ClockEstimator → Bool
degraded e = elim e.samples [ [] ↦ false | s ∷ l ↦ none_usable (s ∷ l) ]

pub record Stats : Type 0 where
  pub samples : ℕ
  pub usable : ℕ
  pub best_rtt : ℤ
  pub median_rtt : ℤ
  pub offset : ℤ
  pub degraded : Bool

unfoldable pub usable_rtts : List Sample → List ℤ
usable_rtts [] = []
usable_rtts (s ∷ l) = if usable s then rtt s ∷ usable_rtts l else usable_rtts l

-- `sort.Slice` by `<`: of equal durations it makes no difference which comes first.
abbrev pub insert_duration : ℤ → List ℤ → List ℤ
insert_duration a [] = a ∷ []
insert_duration a (b ∷ l) = if leb_ℤ a b then a ∷ b ∷ l else b ∷ insert_duration a l

unfoldable pub sort_durations : List ℤ → List ℤ
sort_durations [] = []
sort_durations (a ∷ l) = insert_duration a (sort_durations l)

abbrev pub or_zero : Option ℤ → ℤ
or_zero none = pos 0
or_zero (some a) = a

-- The early return of `Stats`, where no sample is usable.
unfoldable pub when_measured : List ℤ → ℤ → ℤ
when_measured [] a = pos 0
when_measured (_ ∷ _) a = a

unfoldable pub stats : ClockEstimator → Stats
stats e =
    let rtts = usable_rtts e.samples in
    let sorted = sort_durations rtts in
    record {
      samples = length e.samples;
      usable = length rtts;
      best_rtt = or_zero (get_elem? sorted 0);
      median_rtt = or_zero (get_elem? sorted (length rtts / 2));
      offset = when_measured rtts (or_zero (estimate e));
      degraded = degraded e;
    }
