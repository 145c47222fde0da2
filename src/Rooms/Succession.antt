-- ===== src/Rooms/Succession.antt =====
-- Host succession (`SuccessorFor` of server/internal/modules/rooms/state.go). Instants are integers of
-- nanoseconds, a nil time is `none`.
pub mod Choice
pub mod Agreement
use vybe.Base.{Bool, true, false, not, ◌&&◌, ◌||◌, Option, none, some, List, [], ◌∷◌, if◌then◌else◌}
use vybe.Base.Int.{ℤ, pos, ltb_ℤ, eqb_ℤ}
use vybe.Base.Word.{time_sub}
use vybe.Base.Text.{String, str_ltb}

-- HostGraceWindow, in nanoseconds.
abbrev pub host_grace_window : ℤ
host_grace_window = pos 60_000_000_000

pub record Participant : Type 0 where
  pub user_id : String
  pub joined_at : ℤ
  pub connected : Bool
  pub is_host : Bool
  pub disconnected_at : Option ℤ

-- The first host in the list.
unfoldable pub find_host : List Participant → Option Participant
find_host [] = none
find_host (p ∷ l) = if p.is_host then some p else find_host l

-- Whether the host's absence leaves the seat as it is.
abbrev pub within_grace : Option ℤ → ℤ → Bool
within_grace none now = true
within_grace (some gone) now = ltb_ℤ (time_sub now gone) host_grace_window

unfoldable pub seat_is_kept : Option Participant → ℤ → Bool
seat_is_kept none now = false
seat_is_kept (some h) now = if h.connected then true else within_grace h.disconnected_at now

unfoldable pub eligible : Participant → Bool
eligible p = if p.is_host || not p.connected then false else true

unfoldable pub earlier : Participant → Participant → Bool
earlier p best =
    ltb_ℤ p.joined_at best.joined_at
    || (eqb_ℤ p.joined_at best.joined_at && str_ltb p.user_id best.user_id)

abbrev pub beats : Participant → Option Participant → Bool
beats p none = true
beats p (some b) = earlier p b

unfoldable pub longest_tenured : Option Participant → List Participant → Option Participant
longest_tenured best [] = best
longest_tenured best (p ∷ l) =
    longest_tenured (if eligible p && beats p best then some p else best) l

abbrev pub user_or_empty : Option Participant → String
user_or_empty none = ""
user_or_empty (some p) = p.user_id

-- "" where no promotion is due.
unfoldable pub successor_for : List Participant → ℤ → String
successor_for participants now =
    if seat_is_kept (find_host participants) now
    then ""
    else user_or_empty (longest_tenured none participants)
