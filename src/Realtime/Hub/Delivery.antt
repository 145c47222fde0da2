-- ===== src/Realtime/Hub/Delivery.antt =====
-- Who receives a published event (server/internal/modules/realtime/hub.go).
use vybe.Base.{
  ℕ, ◌≡◌, refl, sym, ap, ◌∙◌, ◌⊎◌, inl, inr, ◌&&◌, ◌||◌, Bool, true, false, not, Option, none, some,
  List, [], ◌∷◌, ◌++◌, if◌then◌else◌, ◌==◌, ==_iff, arith, Bool-cases, map, Occurs,
}
use vybe.Base.Text.{String}
use vybe.Realtime.EventLog.{Envelope, Invalid, validate, contains_text}
use vybe.Realtime.Hub.{
  Conn, accepts, after_send, close, Sink, Members, Conns, Hub, members_of, leave, with_conn, allows,
  targets, send_all, drop_slow, drop_all, deliver, publish_checked, publish_to,
}

-- A handle is among those of the sinks.
unfoldable pub has_handle : ℕ → List Sink → Bool
has_handle h [] = false
has_handle h (s ∷ l) = (s.handle == h) || has_handle h l

-- Each sink has a connection of its own.
unfoldable pub IsDistinct : List Sink → Type 0
IsDistinct [] = Unit
IsDistinct (s ∷ l) = (has_handle s.handle l ≡ false) × IsDistinct l

with_conn-other :
    (conns : Conns) (a b : ℕ) (c : Conn) → (a == b) ≡ false → with_conn conns b c a ≡ conns a
unfolding with_conn
with_conn-other conns a b c h = rw h refl

with_conn-own : (conns : Conns) (a : ℕ) (c : Conn) → with_conn conns a c a ≡ c
unfolding with_conn
with_conn-own conns a c = rw ((==_iff a a).1 refl) refl

send_all-conns :
    (pick : ℕ → Bool) (e : Envelope) (s : Sink) (l : List Sink) (conns : Conns)
    → (send_all pick e (s ∷ l) conns).0
      ≡ (send_all pick e l
          (with_conn conns s.handle (after_send (pick s.handle) e (conns s.handle)))).0
unfolding send_all
send_all-conns pick e s l conns = elim (Bool-cases (accepts (pick s.handle) (conns s.handle))) [
  | inl ok ↦ rw ok refl
  | inr full ↦ rw full refl
]

-- A connection that is no target is left alone.
send_all-untouched :
    (pick : ℕ → Bool) (e : Envelope) (l : List Sink) (conns : Conns) (k : ℕ)
    → has_handle k l ≡ false
    → (send_all pick e l conns).0 k ≡ conns k
unfolding send_all has_handle
send_all-untouched pick e [] conns k h = refl
send_all-untouched pick e (s ∷ l) conns k h =
    ap (λ c. c k) (send_all-conns pick e s l conns)
    ∙ send_all-untouched pick e l
        (with_conn conns s.handle (after_send (pick s.handle) e (conns s.handle))) k
        (ground (arith, h))
    ∙ with_conn-other conns k s.handle _ (ground (arith, h))

-- A target has one send, whatever the other targets do.
send_all-target :
    (pick : ℕ → Bool) (e : Envelope) (l : List Sink) (conns : Conns) (k : ℕ)
    → IsDistinct l
    → has_handle k l ≡ true
    → (send_all pick e l conns).0 k ≡ after_send (pick k) e (conns k)
unfolding send_all has_handle IsDistinct
send_all-target pick e [] conns k d h = absurd cc
send_all-target pick e (s ∷ l) conns k d h = elim (Bool-cases (s.handle == k)) [
  | inl own ↦
      let is : s.handle ≡ k = (==_iff s.handle k).0 own in
      ap (λ c. c k) (send_all-conns pick e s l conns)
      ∙ send_all-untouched pick e l
          (with_conn conns s.handle (after_send (pick s.handle) e (conns s.handle))) k
          (rw (sym is) d.0)
      ∙ rw is (with_conn-own conns k (after_send (pick k) e (conns k)))
  | inr other ↦
      ap (λ c. c k) (send_all-conns pick e s l conns)
      ∙ send_all-target pick e l
          (with_conn conns s.handle (after_send (pick s.handle) e (conns s.handle))) k d.1
          (ground (arith, other, h))
      ∙ ap (after_send (pick k) e) (with_conn-other conns k s.handle _ (ground (arith, other)))
]

-- The slow sinks among those of a send loop.
send_all-slow :
    (pick : ℕ → Bool) (e : Envelope) (l : List Sink) (conns : Conns) (k : ℕ)
    → IsDistinct l
    → has_handle k (send_all pick e l conns).1
      ≡ (has_handle k l && not (accepts (pick k) (conns k)))
unfolding send_all has_handle IsDistinct
send_all-slow pick e [] conns k d = refl
send_all-slow pick e (s ∷ l) conns k d =
    let next = with_conn conns s.handle (after_send (pick s.handle) e (conns s.handle)) in
    let rest = send_all-slow pick e l next k d.1 in
    elim (Bool-cases (s.handle == k)) [
      | inl own ↦
          let is : s.handle ≡ k = (==_iff s.handle k).0 own in
          let out : has_handle k l ≡ false = ap (λ x. has_handle x l) (sym is) ∙ d.0 in
          elim (Bool-cases (accepts (pick s.handle) (conns s.handle))) [
            | inl ok ↦
                let ok_k : accepts (pick k) (conns k) ≡ true =
                  ap (λ x. accepts (pick x) (conns x)) (sym is) ∙ ok in
                rw ok (rest ∙ rw (own, out, ok_k) refl)
            | inr full ↦
                let full_k : accepts (pick k) (conns k) ≡ false =
                  ap (λ x. accepts (pick x) (conns x)) (sym is) ∙ full in
                rw full (rw (own, full_k) refl)
          ]
      | inr other ↦
          let same : accepts (pick k) (next k) ≡ accepts (pick k) (conns k) =
            ap (accepts (pick k)) (with_conn-other conns k s.handle _ (ground (arith, other))) in
          elim (Bool-cases (accepts (pick s.handle) (conns s.handle))) [
            | inl ok ↦ rw ok (rest ∙ rw (other, same) refl)
            | inr full ↦ rw full (rw other (rest ∙ rw same refl))
          ]
    ]

drop_all-conns :
    (l : List Sink) (h : Hub) (room : String) (k : ℕ)
    → ((drop_all h room l).conns k).send ≡ (h.conns k).send
      × ((drop_all h room l).conns k).done ≡ ((h.conns k).done || has_handle k l)
unfolding drop_all drop_slow leave has_handle
drop_all-conns [] h room k = (refl, ground arith)
drop_all-conns (s ∷ l) h room k =
    let rest = drop_all-conns l (drop_slow h room s) room k in
    elim (Bool-cases (k == s.handle)) [
      | inl own ↦
          let is : k ≡ s.handle = (==_iff k s.handle).0 own in
          let at : with_conn h.conns s.handle (close (h.conns s.handle)) k ≡ close (h.conns k) =
            rw is (with_conn-own h.conns s.handle (close (h.conns s.handle))) in
          let flip : (s.handle == k) ≡ true = ground (arith, own) in
          (
            rest.0 ∙ ap (λ c. c.send) at,
            rest.1 ∙ ap (λ c. c.done || has_handle k l) at ∙ ground (arith, flip),
          )
      | inr other ↦
          let at : with_conn h.conns s.handle (close (h.conns s.handle)) k ≡ h.conns k =
            with_conn-other h.conns k s.handle (close (h.conns s.handle)) other in
          let flip : (s.handle == k) ≡ false = ground (arith, other) in
          (
            rest.0 ∙ ap (λ c. c.send) at,
            rest.1 ∙ ap (λ c. c.done || has_handle k l) at ∙ rw flip refl,
          )
    ]

-- The sinks that an event goes to.
abbrev pub audience : Hub → Envelope → List String → List Sink
audience h e recipients = targets recipients (members_of h.rooms e.room)

after_send-queue :
    (pick : Bool) (e : Envelope) (c : Conn)
    → (after_send pick e c).send ≡ (if accepts pick c then c.send ++ e ∷ [] else c.send)
      × ((after_send pick e c).done ≡ c.done)
unfolding after_send
after_send-queue pick e c = elim (Bool-cases (accepts pick c)) [
  | inl ok ↦ rw ok (refl, refl)
  | inr full ↦ rw full (refl, refl)
]

-- A valid event reaches each connection of its audience once, at the end of its buffer, unless the buffer is
-- full or the connection done; such a connection is closed, and whether it is has no effect on the others.
-- A connection outside the audience is left as it is. The sinks of the audience are distinct.
pub publish_to-delivers :
    (pick : ℕ → Bool) (h : Hub) (e : Envelope) (recipients : List String) (k : ℕ)
    → validate e ≡ none
    → IsDistinct (audience h e recipients)
    → let after = (publish_to pick h e recipients).0.conns k in
      let before = h.conns k in
      let aimed = has_handle k (audience h e recipients) in
      (after.send
        ≡ (if aimed && accepts (pick k) before then before.send ++ e ∷ [] else before.send))
      × (after.done ≡ (before.done || aimed && not (accepts (pick k) before)))
unfolding publish_to publish_checked deliver
publish_to-delivers pick h e recipients k valid d =
    let l = audience h e recipients in
    let sent = send_all pick e l h.conns in
    let dropped = drop_all-conns sent.1 (record h { conns = sent.0 }) e.room k in
    let slow = send_all-slow pick e l h.conns k d in
    let one = after_send-queue (pick k) e (h.conns k) in
    rw valid (elim (Bool-cases (has_handle k l)) [
      | inl aimed ↦
          let at = send_all-target pick e l h.conns k d aimed in
          (
            dropped.0 ∙ ap (λ c. c.send) at ∙ one.0 ∙ rw aimed refl,
            dropped.1
                ∙ ap (λ c. c.done || has_handle k sent.1) at
                ∙ ap (λ b. b || has_handle k sent.1) one.1
                ∙ ap (λ b. (h.conns k).done || b) slow,
          )
      | inr out ↦
          let at = send_all-untouched pick e l h.conns k out in
          (
            dropped.0 ∙ ap (λ c. c.send) at ∙ rw out refl,
            dropped.1
                ∙ ap (λ c. c.done || has_handle k sent.1) at
                ∙ ap (λ b. (h.conns k).done || b) slow,
          )
    ])

targets-handle :
    (recipients : List String) (m : Members) (k : ℕ)
    → has_handle k (targets recipients m) ≡ true
    → (s : Sink) × (s.handle ≡ k) × (allows recipients s ≡ true) × Occurs s (map (λ x. x.1) m)
unfolding targets has_handle
targets-handle recipients [] k h = absurd cc
targets-handle recipients ((c, s) ∷ m) k h =
    elim (Bool-cases (allows recipients s && (s.handle == k))) [
      | inl own ↦ (s, ground (arith, own, ==_iff s.handle k), ground (arith, own), inl refl)
      | inr other ↦
          let (t, at, allowed, there) = targets-handle recipients m k (ground (arith, other, h)) in
          (t, at, allowed, inr there)
    ]

send_all-outsider :
    (pick : ℕ → Bool) (h : Hub) (e : Envelope) (recipients : List String) (k : ℕ)
    → has_handle k (audience h e recipients) ≡ false
    → ((deliver pick h e recipients).conns k).send ≡ (h.conns k).send
unfolding deliver
send_all-outsider pick h e recipients k out =
    let sent = send_all pick e (audience h e recipients) h.conns in
    (drop_all-conns sent.1 (record h { conns = sent.0 }) e.room k).0
    ∙ ap (λ c. c.send) (send_all-untouched pick e (audience h e recipients) h.conns k out)

publish_checked-private :
    (pick : ℕ → Bool) (h : Hub) (e : Envelope) (r : String) (others : List String) (k : ℕ)
    (o : Option Invalid)
    → (((publish_checked o pick h e (r ∷ others)).0.conns k).send ≡ (h.conns k).send)
      ⊎ ((s : Sink) × (s.handle ≡ k)
          × (contains_text s.user_id (r ∷ others) ≡ true)
          × Occurs s (map (λ x. x.1) (members_of h.rooms e.room)))
unfolding publish_checked
publish_checked-private pick h e r others k (some i) = inl refl
publish_checked-private pick h e r others k none =
    elim (Bool-cases (has_handle k (audience h e (r ∷ others)))) [
      | inl aimed ↦ inr (targets-handle (r ∷ others) (members_of h.rooms e.room) k aimed)
      | inr out ↦ inl (send_all-outsider pick h e (r ∷ others) k out)
    ]

-- An event for some recipients changes the buffer of a connection only if it is that of a sink in the
-- event's room whose user is one of them, whatever the event and the state of the hub.
pub publish_to-private :
    (pick : ℕ → Bool) (h : Hub) (e : Envelope) (r : String) (others : List String) (k : ℕ)
    → (((publish_to pick h e (r ∷ others)).0.conns k).send ≡ (h.conns k).send)
      ⊎ ((s : Sink) × (s.handle ≡ k)
          × (contains_text s.user_id (r ∷ others) ≡ true)
          × Occurs s (map (λ x. x.1) (members_of h.rooms e.room)))
unfolding publish_to
publish_to-private pick h e r others k = publish_checked-private pick h e r others k (validate e)
