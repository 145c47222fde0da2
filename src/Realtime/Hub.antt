-- ===== src/Realtime/Hub.antt =====
-- The fan-out hub (server/internal/modules/realtime/hub.go) over the connections of
-- server/internal/modules/realtime/wsconn.go. A sink is a pointer to a connection, `handle`, with the ids
-- that never change; the connections are a function of the handle. Where a send finds space in the buffer
-- of a connection that is closed, `select` may take either case: `pick` says which. Maps are association
-- lists.
pub mod Membership
pub mod Delivery
use vybe.Base.{
  ℕ, ◌&&◌, ◌||◌, Bool, true, false, not, Option, none, some, List, [], ◌∷◌, ◌++◌, if◌then◌else◌,
  ltb, ◌==◌, length,
}
use vybe.Base.Maps.{entry, without_entry, put_entry}
use vybe.Base.Text.{String, str_eq}
use vybe.Realtime.EventLog.{Envelope, Invalid, validate, contains_text}

abbrev pub send_buffer : ℕ
send_buffer = 64

-- The buffer of a connection and whether it is done.
pub record Conn : Type 0 where
  pub send : List Envelope
  pub done : Bool

abbrev pub new_conn : Conn
new_conn = record { send = []; done = false }

-- A send that takes the first case of the `select`.
unfoldable pub accepts : Bool → Conn → Bool
accepts pick c = ltb (length c.send) send_buffer && not (c.done && pick)

unfoldable pub after_send : Bool → Envelope → Conn → Conn
after_send pick e c = if accepts pick c then record c { send = c.send ++ e ∷ [] } else c

-- Once is enough: a second close changes nothing.
abbrev pub close : Conn → Conn
close c = record c { done = true }

pub record Sink : Type 0 where
  pub user_id : String
  pub conn_id : String
  pub handle : ℕ

abbrev pub Members : Type 0
Members = List (String × Sink)

abbrev pub Rooms : Type 0
Rooms = List (String × Members)

abbrev pub Conns : Type 0
Conns = ℕ → Conn

pub record Hub : Type 0 where
  pub rooms : Rooms
  pub conns : Conns

abbrev pub members_or_new : Option Members → Members
members_or_new none = []
members_or_new (some m) = m

-- The members of a room; none for a room that is not there.
unfoldable pub members_of : Rooms → String → Members
members_of rooms room = members_or_new (entry room rooms)

unfoldable pub join : Hub → String → Sink → Hub
join h room s = record h {
  rooms = put_entry room (put_entry s.conn_id s (members_of h.rooms room)) h.rooms;
}

-- An empty room is reclaimed.
abbrev pub or_reclaimed : Members → String → Rooms → Rooms
or_reclaimed [] room rooms = without_entry room rooms
or_reclaimed (m ∷ l) room rooms = put_entry room (m ∷ l) rooms

unfoldable pub leave_from : Option Members → Rooms → String → String → Rooms
leave_from none rooms room conn = rooms
leave_from (some m) rooms room conn = or_reclaimed (without_entry conn m) room rooms

unfoldable pub leave : Hub → String → String → Hub
leave h room conn = record h { rooms = leave_from (entry room h.rooms) h.rooms room conn }

unfoldable pub with_conn : Conns → ℕ → Conn → Conns
with_conn conns handle c k = if k == handle then c else conns k

-- No recipient stands for everybody.
abbrev pub allows : List String → Sink → Bool
allows [] s = true
allows (r ∷ l) s = contains_text s.user_id (r ∷ l)

unfoldable pub targets : List String → Members → List Sink
targets recipients [] = []
targets recipients ((k, s) ∷ m) =
    let rest = targets recipients m in if allows recipients s then s ∷ rest else rest

-- The send loop: the connections after it, and the slow sinks.
unfoldable pub send_all : (ℕ → Bool) → Envelope → List Sink → Conns → Conns × List Sink
send_all pick e [] conns = (conns, [])
send_all pick e (s ∷ l) conns =
    let rest =
      send_all pick e l
        (with_conn conns s.handle (after_send (pick s.handle) e (conns s.handle))) in
    if accepts (pick s.handle) (conns s.handle) then rest else (rest.0, s ∷ rest.1)

unfoldable pub drop_slow : Hub → String → Sink → Hub
drop_slow h room s =
    let left = leave h room s.conn_id in
    record left { conns = with_conn left.conns s.handle (close (left.conns s.handle)) }

unfoldable pub drop_all : Hub → String → List Sink → Hub
drop_all h room [] = h
drop_all h room (s ∷ l) = drop_all (drop_slow h room s) room l

unfoldable pub deliver : (ℕ → Bool) → Hub → Envelope → List String → Hub
deliver pick h e recipients =
    let sent = send_all pick e (targets recipients (members_of h.rooms e.room)) h.conns in
    drop_all (record h { conns = sent.0 }) e.room sent.1

unfoldable pub publish_checked :
    Option Invalid → (ℕ → Bool) → Hub → Envelope → List String → Hub × Option Invalid
publish_checked (some i) pick h e recipients = (h, some i)
publish_checked none pick h e recipients = (deliver pick h e recipients, none)

-- PublishTo: the hub after it and its error, none for nil.
unfoldable pub publish_to : (ℕ → Bool) → Hub → Envelope → List String → Hub × Option Invalid
publish_to pick h e recipients = publish_checked (validate e) pick h e recipients

unfoldable pub publish : (ℕ → Bool) → Hub → Envelope → Hub × Option Invalid
publish pick h e = publish_to pick h e []

-- The loop of PresentUserIDs with the ids seen before.
unfoldable pub distinct_users : List String → Members → List String
distinct_users seen [] = []
distinct_users seen ((k, s) ∷ m) =
    let again = distinct_users seen m in
    let first = distinct_users (s.user_id ∷ seen) m in
    if contains_text s.user_id seen then again else s.user_id ∷ first

unfoldable pub present_user_ids : Hub → String → List String
present_user_ids h room = distinct_users [] (members_of h.rooms room)

unfoldable pub has_user : String → Members → Bool
has_user user [] = false
has_user user ((k, s) ∷ m) = str_eq s.user_id user || has_user user m

unfoldable pub is_present : Hub → String → String → Bool
is_present h room user = has_user user (members_of h.rooms room)

unfoldable pub conn_count : Hub → String → ℕ
conn_count h room = length (members_of h.rooms room)

unfoldable pub room_count : Hub → ℕ
room_count h = length h.rooms

unfoldable pub close_all_of : Members → Conns → Conns
close_all_of [] conns = conns
close_all_of ((k, s) ∷ m) conns = close_all_of m (with_conn conns s.handle (close (conns s.handle)))

unfoldable pub close_room : Hub → String → Hub
close_room h room = record {
  rooms = without_entry room h.rooms;
  conns = close_all_of (members_of h.rooms room) h.conns;
}

unfoldable pub close_rooms : Rooms → Conns → Conns
close_rooms [] conns = conns
close_rooms ((room, m) ∷ l) conns = close_rooms l (close_all_of m conns)

unfoldable pub close_all : Hub → Hub
close_all h = record { rooms = []; conns = close_rooms h.rooms h.conns }
