-- ===== src/Identity/Registration/Minors.antt =====
-- Age bands against birthdays, and what the password policy accepts
-- (server/internal/modules/identity/registration.go).
use vybe.Base.{
  ℕ, ◌+◌, ◌≤◌, ◌<◌, ◌≡◌, ◌↔◌, ◌⊎◌, inl, inr, refl, sym, ap, subst, Bool, true, false, not, Option,
  none, some, List, [], ◌∷◌, length, arith, Bool-cases, Occurs,
}
use vybe.Base.Int.{
  ℤ, pos, ◌-ℤ◌, ◌+ℤ◌, ◌<ℤ◌, pos_part, neg_part, -ℤ_parts, +ℤ_parts, parts_of_eq, eq_of_parts,
}
use vybe.Base.Bytes.{bytes_eq_refl}
use vybe.Identity.Registration.{
  AgeBand, Date, under_13, teen_13_15, teen_16_17, adult, is_before_birthday, completed_years,
  band_of, derive_age_band, is_minor_under_16, defaults_for_band, all_defaults, BreachSet,
  breach_error, breach_check, validate_password, load_lines, is_skipped, trim_newlines, is_member,
}

-- The calendar order of dates.
abbrev pub IsEarlier : Date → Date → Type 0
IsEarlier a b =
    (a.year <ℤ b.year)
    ⊎ (a.year ≡ b.year × (a.month < b.month ⊎ (a.month ≡ b.month × a.day < b.day)))

abbrev pub plus_years : ℕ → Date → Date
plus_years n d = record d { year = d.year +ℤ pos n }

before_birthday_cases :
    (dob now : Date)
    → (is_before_birthday dob now ≡ true)
      ↔ (now.month < dob.month ⊎ (now.month ≡ dob.month × now.day < dob.day))
unfolding is_before_birthday
before_birthday_cases dob now = ground arith

minor-years : (years : ℤ) → (is_minor_under_16 (band_of years) ≡ true) ↔ (years <ℤ pos 16)
unfolding is_minor_under_16 band_of
minor-years years = ground arith

year-parts : (a b : ℤ) → a ≡ b → pos_part a + neg_part b ≡ pos_part b + neg_part a
year-parts a b e = parts_of_eq e

years_lem :
    (dob now : Date) → (completed_years dob now <ℤ pos 16) ↔ IsEarlier now (plus_years 16 dob)
unfolding completed_years
years_lem dob now =
    let y = now.year -ℤ dob.year in
    ground (
      arith,
      before_birthday_cases dob now,
      -ℤ_parts now.year dob.year,
      -ℤ_parts y (pos 1),
      +ℤ_parts dob.year (pos 16),
      eq_of_parts now.year (dob.year +ℤ pos 16),
      year-parts now.year (dob.year +ℤ pos 16),
    )

-- An account is treated as a minor's exactly before the owner's sixteenth birthday.
pub derive_age_band-minor :
    (dob now : Date)
    → (is_minor_under_16 (derive_age_band dob now) ≡ true) ↔ IsEarlier now (plus_years 16 dob)
unfolding derive_age_band
derive_age_band-minor dob now =
    ground (arith, minor-years (completed_years dob now), years_lem dob now)

-- A minor's account has every protection, any other account none.
pub defaults_for_band_iff :
    (band : AgeBand)
    → (is_minor_under_16 band ≡ true) ↔ (defaults_for_band band ≡ all_defaults false)
unfolding is_minor_under_16 defaults_for_band
defaults_for_band_iff under_13 = (λ e. refl, λ e. refl)
defaults_for_band_iff teen_13_15 = (λ e. refl, λ e. refl)
defaults_for_band_iff teen_16_17 = (λ e. absurd cc, λ e. ap (λ d. not d.discoverable) e)
defaults_for_band_iff adult = (λ e. absurd cc, λ e. ap (λ d. not d.discoverable) e)

-- There is a breach set and it has answered that the password is not in it.
unfoldable pub HasCleared : Option BreachSet → List ℕ → Type 0
HasCleared none password = ⊥
HasCleared (some contains) password = contains password ≡ some false

breach_error_iff : (o : Option Bool) → (breach_error o ≡ none) ↔ (o ≡ some false)
unfolding breach_error
breach_error_iff none = ground arith
breach_error_iff (some true) = ground arith
breach_error_iff (some false) = ground arith

breach_check_iff :
    (breaches : Option BreachSet) (password : List ℕ)
    → (breach_check breaches password ≡ none) ↔ HasCleared breaches password
unfolding breach_check HasCleared
breach_check_iff none password = (λ e. cc, λ x. absurd x)
breach_check_iff (some contains) password = breach_error_iff (contains password)

-- A password is accepted exactly when it has 12 runes at least and 256 bytes at most and a configured
-- breach set has answered that it is not breached.
pub validate_password_iff :
    (breaches : Option BreachSet) (runes : ℕ) (password : List ℕ)
    → (validate_password breaches runes password ≡ none)
      ↔ (12 ≤ runes × length password ≤ 256 × HasCleared breaches password)
unfolding validate_password
validate_password_iff breaches runes password = ground (arith, breach_check_iff breaches password)

load_lines-head :
    (l : List ℕ) (lines : List (List ℕ))
    → is_skipped (trim_newlines l) ≡ false
    → is_member (trim_newlines l) (load_lines (l ∷ lines)) ≡ true
unfolding load_lines is_member
load_lines-head l lines h = rw h (rw (bytes_eq_refl (trim_newlines l)) refl)

-- A line of the file that is no comment is a breached password of the loaded set, without its line
-- ending.
pub load_lines-member :
    (lines : List (List ℕ)) (line : List ℕ)
    → Occurs line lines
    → is_skipped (trim_newlines line) ≡ false
    → is_member (trim_newlines line) (load_lines lines) ≡ true
unfolding load_lines is_member
load_lines-member (l ∷ lines) line (inl e) h =
    subst
      (λ x.
        is_skipped (trim_newlines x) ≡ false
        → is_member (trim_newlines x) (load_lines (l ∷ lines)) ≡ true)
      (sym e) (load_lines-head l lines) h
load_lines-member (l ∷ lines) line (inr o) h = elim (Bool-cases (is_skipped (trim_newlines l))) [
  | inl e ↦ rw e (load_lines-member lines line o h)
  | inr e ↦ rw e (ground (arith, load_lines-member lines line o h))
]
load_lines-member [] line o h = absurd o
