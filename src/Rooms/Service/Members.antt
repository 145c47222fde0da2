-- ===== src/Rooms/Service/Members.antt =====
-- Who is an active member after the writes of the repository
-- (server/internal/modules/rooms/roomstest/memstore.go).
use vybe.Base.{◌≡◌, refl, ◌||◌, ◌&&◌, not, List, [], ◌∷◌, arith, map}
use vybe.Base.Int.{ℤ}
use vybe.Base.Text.{String, str_eq, eq_iff}
use vybe.Rooms.Succession.{Participant}
use vybe.Rooms.Log.{RoomStore, has_active, is_departed, departed, seated}
use vybe.Rooms.Directory.{participants_of, active_in_order, seat, is_active}
use vybe.Rooms.Service.{contains}

pub contains-seat :
    (p : Participant) (l : List Participant) (user : String)
    → contains (seat p l) user ≡ (str_eq p.user_id user || contains l user)
unfolding seat contains
contains-seat p [] user = refl
contains-seat p (q ∷ l) user = ground (arith, contains-seat p l user)

contains-active_in_order :
    (l : List Participant) (user : String) → contains (active_in_order l) user ≡ has_active user l
unfolding active_in_order has_active contains is_active
contains-active_in_order [] user = refl
contains-active_in_order (p ∷ l) user =
    ground (arith, contains-seat p (active_in_order l) user, contains-active_in_order l user)

-- The list that the repository returns and the membership that a connection asks for are one.
pub contains-participants_of :
    (s : RoomStore) (room user : String)
    → contains (participants_of s room) user ≡ has_active user (s.participants room)
unfolding participants_of
contains-participants_of s room user = contains-active_in_order (s.participants room) user

-- After a departure only the one who left is gone.
pub has_active-departed :
    (l : List Participant) (user x : String) (at : ℤ)
    → has_active x (map (departed user at) l) ≡ (has_active x l && not (str_eq user x))
unfolding has_active is_departed
has_active-departed [] user x at = refl
has_active-departed (p ∷ l) user x at = ground (
  arith,
  has_active-departed l user x at,
  eq_iff p.user_id user,
  eq_iff p.user_id x,
  eq_iff user x,
)

pub has_active-seated :
    (l : List Participant) (host x : String) → has_active x (map (seated host) l) ≡ has_active x l
unfolding has_active
has_active-seated [] host x = refl
has_active-seated (p ∷ l) host x = ground (arith, has_active-seated l host x)
