-- ===== src/Identity/Registration.antt =====
-- Age bands, the defaults that follow from them and the password policy
-- (server/internal/modules/identity/registration.go). A date is its year, month and day in UTC; a
-- password is its bytes, with their count of runes beside it.
pub mod Minors
use vybe.Base.{
  ℕ, ◌+◌, ◌-◌, Bool, true, false, not, ◌&&◌, ◌||◌, Option, none, some, List, [], ◌∷◌, if◌then◌else◌,
  ltb, ◌==◌, length,
}
use vybe.Base.Int.{ℤ, pos, ◌-ℤ◌, ltb_ℤ, pos_part}
use vybe.Base.Bytes.{bytes_eq}

pub data AgeBand : Type 0 where
  under_13 teen_13_15 teen_16_17 adult : AgeBand

pub record Date : Type 0 where
  pub year : ℤ
  pub month : ℕ
  pub day : ℕ

-- This year's birthday has not arrived yet.
unfoldable pub is_before_birthday : Date → Date → Bool
is_before_birthday dob now =
    ltb now.month dob.month || now.month == dob.month && ltb now.day dob.day

unfoldable pub completed_years : Date → Date → ℤ
completed_years dob now =
    let years = now.year -ℤ dob.year in
    let counted = if is_before_birthday dob now then years -ℤ pos 1 else years in
    if ltb_ℤ counted (pos 0) then pos 0 else counted

unfoldable pub band_of : ℤ → AgeBand
band_of years =
    if ltb_ℤ years (pos 13)
    then under_13
    else if ltb_ℤ years (pos 16)
    then teen_13_15
    else if ltb_ℤ years (pos 18)
    then teen_16_17
    else adult

unfoldable pub derive_age_band : Date → Date → AgeBand
derive_age_band dob now = band_of (completed_years dob now)

pub record MinorDefaults : Type 0 where
  pub allow_public_rooms : Bool
  pub discoverable : Bool
  pub public_leaderboard_entry : Bool

unfoldable pub is_minor_under_16 : AgeBand → Bool
is_minor_under_16 under_13 = true
is_minor_under_16 teen_13_15 = true
is_minor_under_16 teen_16_17 = false
is_minor_under_16 adult = false

abbrev pub all_defaults : Bool → MinorDefaults
all_defaults b = record { allow_public_rooms = b; discoverable = b; public_leaderboard_entry = b }

unfoldable pub defaults_for_band : AgeBand → MinorDefaults
defaults_for_band under_13 = all_defaults false
defaults_for_band teen_13_15 = all_defaults false
defaults_for_band teen_16_17 = all_defaults true
defaults_for_band adult = all_defaults true

pub data PasswordError : Type 0 where
  too_short too_long breached breach_set_unavailable : PasswordError

-- `Contains`: none is an error.
abbrev pub BreachSet : Type 0
BreachSet = List ℕ → Option Bool

unfoldable pub breach_error : Option Bool → Option PasswordError
breach_error none = some breach_set_unavailable
breach_error (some true) = some breached
breach_error (some false) = none

unfoldable pub breach_check : Option BreachSet → List ℕ → Option PasswordError
breach_check none password = some breach_set_unavailable
breach_check (some contains) password = breach_error (contains password)

-- `PasswordPolicy.Validate`; none accepts.
unfoldable pub validate_password : Option BreachSet → ℕ → List ℕ → Option PasswordError
validate_password breaches runes password =
    if ltb runes 12
    then some too_short
    else if ltb 256 (length password)
    then some too_long
    else breach_check breaches password

-- `strings.TrimRight(line, "\r\n")`
unfoldable pub trim_newlines : List ℕ → List ℕ
trim_newlines [] = []
trim_newlines (c ∷ l) = shorten (trim_newlines l)
  where
    shorten : List ℕ → List ℕ
    shorten [] = if c == 10 || c == 13 then [] else c ∷ []
    shorten (d ∷ m) = c ∷ d ∷ m

unfoldable pub is_skipped : List ℕ → Bool
is_skipped [] = true
is_skipped (c ∷ l) = c == 35

-- The loop of LoadStaticBreachSet over the scanner's lines; the set is a list.
unfoldable pub load_lines : List (List ℕ) → List (List ℕ)
load_lines [] = []
load_lines (line ∷ l) =
    let rest = load_lines l in
    let trimmed = trim_newlines line in if is_skipped trimmed then rest else trimmed ∷ rest

-- The set, or none for a failed scan or a list without entries.
unfoldable pub load_static_breach_set : Option (List (List ℕ)) → Option (List (List ℕ))
load_static_breach_set none = none
load_static_breach_set (some lines) = non_empty (load_lines lines)
  where
    non_empty : List (List ℕ) → Option (List (List ℕ))
    non_empty [] = none
    non_empty (x ∷ l) = some (x ∷ l)

unfoldable pub is_member : List ℕ → List (List ℕ) → Bool
is_member password [] = false
is_member password (x ∷ l) = if bytes_eq password x then true else is_member password l

-- `StaticBreachSet.Contains`; none is a nil receiver or an unset map.
unfoldable pub static_contains : Option (List (List ℕ)) → List ℕ → Option Bool
static_contains none password = none
static_contains (some set) password = some (is_member password set)
