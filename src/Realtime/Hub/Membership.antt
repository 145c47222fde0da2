-- ===== src/Realtime/Hub/Membership.antt =====
-- Who is in which room (server/internal/modules/realtime/hub.go).
use vybe.Base.{
  ℕ, ◌≡◌, ◌≢◌, refl, sym, ap, ◌∙◌, inl, inr, ◌&&◌, ◌||◌, Bool, true, false, not, Option, none, some,
  List, [], ◌∷◌, if◌then◌else◌, length, arith, Bool-cases, All,
}
use vybe.Base.Maps.{entry, without_entry, put_entry, entry-without_entry, entry-put_entry}
use vybe.Base.Text.{String, str_eq, eq_iff}
use vybe.Realtime.EventLog.{Envelope, Invalid, validate, contains_text}
use vybe.Realtime.Hub.{
  Sink, Members, Rooms, Hub, members_of, members_or_new, leave_from, leave, or_reclaimed, join,
  drop_slow, drop_all, distinct_users, present_user_ids, has_user, is_present, close_room,
  close_all, send_all, targets, deliver, publish_checked, publish_to,
}

-- After a join the room has the sink under its connection's id, and all else is as it was.
pub join_lem :
    (h : Hub) (room r c : String) (s : Sink)
    → entry c (members_of (join h room s).rooms r)
      ≡ (if str_eq room r && str_eq s.conn_id c then some s else entry c (members_of h.rooms r))
unfolding join members_of
join_lem h room r c s =
    let rooms = entry-put_entry room r (put_entry s.conn_id s (members_of h.rooms room)) h.rooms in
    let own = entry-put_entry s.conn_id c s (members_of h.rooms room) in
    elim (Bool-cases (str_eq room r)) [
      | inl same ↦
          let at : room ≡ r = (eq_iff room r).0 same in
          ap (λ o. entry c (members_or_new o)) rooms ∙ rw (same, at) (ap (λ x. x) (rw (sym at) own))
      | inr other ↦ ap (λ o. entry c (members_or_new o)) rooms ∙ rw other refl
    ]

entry-or_reclaimed :
    (m : Members) (room r c : String) (rooms : Rooms)
    → entry c (members_or_new (entry r (or_reclaimed m room rooms)))
      ≡ (if str_eq room r then entry c m else entry c (members_or_new (entry r rooms)))
unfolding entry
entry-or_reclaimed [] room r c rooms =
    ap (λ o. entry c (members_or_new o)) (entry-without_entry room r rooms) ∙ of_if (str_eq room r)
  where
    of_if :
        (b : Bool)
        → entry c (members_or_new (if b then none else entry r rooms))
          ≡ (if b then none else entry c (members_or_new (entry r rooms)))
    of_if true = refl
    of_if false = refl
entry-or_reclaimed (x ∷ l) room r c rooms =
    ap (λ o. entry c (members_or_new o)) (entry-put_entry room r (x ∷ l) rooms)
    ∙ of_if (str_eq room r)
  where
    of_if :
        (b : Bool)
        → entry c (members_or_new (if b then some (x ∷ l) else entry r rooms))
          ≡ (if b then entry c (x ∷ l) else entry c (members_or_new (entry r rooms)))
    of_if true = refl
    of_if false = refl

leave_from_lem :
    (o : Option Members) (rooms : Rooms) (room conn r c : String)
    → entry room rooms ≡ o
    → entry c (members_of (leave_from o rooms room conn) r)
      ≡ (if str_eq room r && str_eq conn c then none else entry c (members_of rooms r))
unfolding leave_from members_of entry
leave_from_lem none rooms room conn r c is = elim (Bool-cases (str_eq room r)) [
  | inl same ↦
      let gone : entry r rooms ≡ none =
        ap (λ k. entry k rooms) (sym ((eq_iff room r).0 same)) ∙ is in
      rw (same, gone) ground arith
  | inr other ↦ rw other refl
]
leave_from_lem (some m) rooms room conn r c is =
    entry-or_reclaimed (without_entry conn m) room r c rooms ∙ elim (Bool-cases (str_eq room r)) [
      | inl same ↦
          let at : entry r rooms ≡ some m =
            ap (λ k. entry k rooms) (sym ((eq_iff room r).0 same)) ∙ is in
          rw (same, at) (entry-without_entry conn c m)
      | inr other ↦ rw other refl
    ]

-- After a leave the room has no sink under the connection's id, and all else is as it was.
pub leave_lem :
    (h : Hub) (room conn r c : String)
    → entry c (members_of (leave h room conn).rooms r)
      ≡ (if str_eq room r && str_eq conn c then none else entry c (members_of h.rooms r))
unfolding leave
leave_lem h room conn r c = leave_from_lem (entry room h.rooms) h.rooms room conn r c refl

-- No room is kept without a sink.
abbrev pub IsReclaimed : Rooms → Type 0
IsReclaimed = All (λ x. length x.1 ≢ 0)

without_entry-IsReclaimed :
    (room : String) (rooms : Rooms) → IsReclaimed rooms → IsReclaimed (without_entry room rooms)
unfolding without_entry
without_entry-IsReclaimed room [] v = tt
without_entry-IsReclaimed room (x ∷ l) v = elim (Bool-cases (str_eq room x.0)) [
  | inl same ↦ rw same (without_entry-IsReclaimed room l v.1)
  | inr other ↦ rw other (v.0, without_entry-IsReclaimed room l v.1)
]

put_entry-IsReclaimed :
    (room : String) (m : Members) (rooms : Rooms)
    → length m ≢ 0
    → IsReclaimed rooms
    → IsReclaimed (put_entry room m rooms)
unfolding put_entry
put_entry-IsReclaimed room m rooms h v = (h, without_entry-IsReclaimed room rooms v)

length-put_entry : (k : String) (s : Sink) (m : Members) → length (put_entry k s m) ≢ 0
unfolding put_entry
length-put_entry k s m h = absurd (ground (arith, h))

or_reclaimed-IsReclaimed :
    (m : Members) (room : String) (rooms : Rooms)
    → IsReclaimed rooms
    → IsReclaimed (or_reclaimed m room rooms)
or_reclaimed-IsReclaimed [] room rooms v = without_entry-IsReclaimed room rooms v
or_reclaimed-IsReclaimed (x ∷ l) room rooms v =
    put_entry-IsReclaimed room (x ∷ l) rooms (λ h. absurd (ground (arith, h))) v

leave_from-IsReclaimed :
    (o : Option Members) (rooms : Rooms) (room conn : String)
    → IsReclaimed rooms
    → IsReclaimed (leave_from o rooms room conn)
unfolding leave_from
leave_from-IsReclaimed none rooms room conn v = v
leave_from-IsReclaimed (some m) rooms room conn v =
    or_reclaimed-IsReclaimed (without_entry conn m) room rooms v

leave-IsReclaimed :
    (h : Hub) (room conn : String) → IsReclaimed h.rooms → IsReclaimed (leave h room conn).rooms
unfolding leave
leave-IsReclaimed h room conn v = leave_from-IsReclaimed (entry room h.rooms) h.rooms room conn v

drop_all-IsReclaimed :
    (l : List Sink) (h : Hub) (room : String)
    → IsReclaimed h.rooms
    → IsReclaimed (drop_all h room l).rooms
unfolding drop_all drop_slow
drop_all-IsReclaimed [] h room v = v
drop_all-IsReclaimed (s ∷ l) h room v =
    drop_all-IsReclaimed l (drop_slow h room s) room (leave-IsReclaimed h room s.conn_id v)

publish_checked-IsReclaimed :
    (o : Option Invalid) (pick : ℕ → Bool) (h : Hub) (e : Envelope) (recipients : List String)
    → IsReclaimed h.rooms
    → IsReclaimed (publish_checked o pick h e recipients).0.rooms
unfolding publish_checked deliver
publish_checked-IsReclaimed (some i) pick h e recipients v = v
publish_checked-IsReclaimed none pick h e recipients v =
    let sent = send_all pick e (targets recipients (members_of h.rooms e.room)) h.conns in
    drop_all-IsReclaimed sent.1 (record h { conns = sent.0 }) e.room v

-- What a hub is asked to do.
pub data HubCall : Type 0 where
  joins : (room : String) (sink : Sink) → HubCall
  leaves : (room conn : String) → HubCall
  publishes : (pick : ℕ → Bool) (event : Envelope) (recipients : List String) → HubCall
  closes_room : (room : String) → HubCall
  closes_all : HubCall

unfoldable pub call : Hub → HubCall → Hub
call h (joins room s) = join h room s
call h (leaves room conn) = leave h room conn
call h (publishes pick e recipients) = (publish_to pick h e recipients).0
call h (closes_room room) = close_room h room
call h closes_all = close_all h

unfoldable pub call_all : Hub → List HubCall → Hub
call_all h [] = h
call_all h (c ∷ l) = call_all (call h c) l

call-IsReclaimed : (h : Hub) (c : HubCall) → IsReclaimed h.rooms → IsReclaimed (call h c).rooms
unfolding call join publish_to close_room close_all
call-IsReclaimed h (joins room s) v =
    put_entry-IsReclaimed room _ h.rooms (length-put_entry s.conn_id s (members_of h.rooms room)) v
call-IsReclaimed h (leaves room conn) v = leave-IsReclaimed h room conn v
call-IsReclaimed h (publishes pick e recipients) v =
    publish_checked-IsReclaimed (validate e) pick h e recipients v
call-IsReclaimed h (closes_room room) v = without_entry-IsReclaimed room h.rooms v
call-IsReclaimed h closes_all v = tt

-- Whatever calls a hub has had, it keeps no room without a connection, if it had none before.
pub call_all-IsReclaimed :
    (calls : List HubCall) (h : Hub) → IsReclaimed h.rooms → IsReclaimed (call_all h calls).rooms
unfolding call_all
call_all-IsReclaimed [] h v = v
call_all-IsReclaimed (c ∷ l) h v = call_all-IsReclaimed l (call h c) (call-IsReclaimed h c v)

contains-distinct_users :
    (seen : List String) (m : Members) (user : String)
    → contains_text user (distinct_users seen m)
      ≡ (has_user user m && not (contains_text user seen))
unfolding distinct_users has_user contains_text
contains-distinct_users seen [] user = refl
contains-distinct_users seen (x ∷ m) user = elim (Bool-cases (contains_text x.1.user_id seen)) [
  | inl again ↦ rw again (
      contains-distinct_users seen m user
      ∙ known (str_eq x.1.user_id user) (has_user user m) (contains_text user seen)
          (λ same. ap (λ u. contains_text u seen) (sym ((eq_iff x.1.user_id user).0 same)) ∙ again))
  | inr first ↦ rw first (
      ap (λ b. str_eq user x.1.user_id || b) (contains-distinct_users (x.1.user_id ∷ seen) m user)
      ∙ new (str_eq user x.1.user_id) (str_eq x.1.user_id user) (has_user user m)
          (contains_text user seen)
          (ground (arith, eq_iff x.1.user_id user, eq_iff user x.1.user_id))
          (λ same. ap (λ u. contains_text u seen) ((eq_iff user x.1.user_id).0 same) ∙ first))
]
  where
    known : (a b c : Bool) → (a ≡ true → c ≡ true) → (b && not c) ≡ ((a || b) && not c)
    known true b c h = rw (h refl) ground arith
    known false b c h = refl

    new :
        (a a' b c : Bool)
        → a ≡ a'
        → (a ≡ true → c ≡ false)
        → (a || b && not (a || c)) ≡ ((a' || b) && not c)
    new true a' b c e h = rw (sym e, h refl) refl
    new false a' b c e h = rw (sym e) refl

unfoldable pub HasNoRepeat : List String → Type 0
HasNoRepeat [] = Unit
HasNoRepeat (u ∷ l) = (contains_text u l ≡ false) × HasNoRepeat l

distinct_users-HasNoRepeat :
    (seen : List String) (m : Members) → HasNoRepeat (distinct_users seen m)
unfolding distinct_users HasNoRepeat contains_text
distinct_users-HasNoRepeat seen [] = tt
distinct_users-HasNoRepeat seen (x ∷ m) = elim (Bool-cases (contains_text x.1.user_id seen)) [
  | inl again ↦ rw again (distinct_users-HasNoRepeat seen m)
  | inr first ↦ rw first (
    contains-distinct_users (x.1.user_id ∷ seen) m x.1.user_id
        ∙ own (contains_text x.1.user_id (x.1.user_id ∷ seen)) (has_user x.1.user_id m)
            (seen_first x.1.user_id),
    distinct_users-HasNoRepeat (x.1.user_id ∷ seen) m,
  )
]
  where
    own : (a b : Bool) → a ≡ true → (b && not a) ≡ false
    own a b h = rw h ground arith

    seen_first : (u : String) → contains_text u (u ∷ seen) ≡ true
    seen_first u = ground (arith, eq_iff u u)

-- The users present in a room are listed once each, and a user is listed exactly if it is present.
pub present_user_ids_lem :
    (h : Hub) (room user : String)
    → HasNoRepeat (present_user_ids h room)
      × (contains_text user (present_user_ids h room) ≡ is_present h room user)
unfolding present_user_ids is_present contains_text
present_user_ids_lem h room user = (
  distinct_users-HasNoRepeat [] (members_of h.rooms room),
  contains-distinct_users [] (members_of h.rooms room) user ∙ ground arith,
)
