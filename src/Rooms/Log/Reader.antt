-- ===== src/Rooms/Log/Reader.antt =====
-- A room's log as it is numbered, and as a connection reads it
-- (server/internal/modules/rooms/roomstest/memstore.go).
use vybe.Base.{
  leb, ◌⊎◌, ℕ, suc, ◌+◌, ◌-◌, ◌≤◌, ◌<◌, min, max, ◌≡◌, refl, sym, ap, ◌∙◌, true, false, ◌&&◌,
  Option, none, some, List, [], ◌∷◌, length, arith, Bool-cases, inl, inr,
}
use vybe.Base.Int.{ℤ, pos, ltb_ℤ, leb_ℤ, -ℤ-pos}
use vybe.Base.Word.{◌-64◌, wrap64-pos}
use vybe.Realtime.Resync.{Read}
use vybe.Base.Text.{String}
use vybe.Realtime.EventLog.{Envelope}
use vybe.Realtime.EventLog.Contiguity.{seqs, run_from}
use vybe.Realtime.Resync.Completeness.{IsReliable}
use vybe.Rooms.Succession.{Participant}
use vybe.Rooms.Log.{Room, RoomStore, since, read_since, oldest_of, membership_in, room_reader}

-- A room's log is numbered from 1 without a gap, and the room, where it exists, stands at its end.
pub record IsInStep (s : RoomStore) (room : String) : Type 0 where
  pub gap_free : seqs (s.events room) ≡ run_from 1 (length (s.events room))
  pub current : (r : Room) → s.rooms room ≡ some r → r.current_seq ≡ pos (length (s.events room))

run-eq : (a b c d : ℕ) → a ≡ b → c ≡ d → run_from a c ≡ run_from b d
run-eq a b c d e f = rw (e, f) refl

run-none : (a b n m : ℕ) → n ≡ 0 → m ≡ 0 → run_from a n ≡ run_from b m
run-none a b n m e f = rw (e, f) refl

skipped :
    (f a t n whole k : ℕ)
    → (f ≤ a) ⊎ (t < f)
    → n ≡ min (f + 1 + k) (t + 1) - max (f + 1) (a + 1)
    → whole ≡ min (f + suc k) (t + 1) - max f (a + 1)
    → run_from (max (f + 1) (a + 1)) n ≡ run_from (max f (a + 1)) whole
skipped f a t n whole k (inl out) p q =
    run-eq (max (f + 1) (a + 1)) (max f (a + 1)) n whole (omega arith) (omega arith)
skipped f a t n whole k (inr out) p q =
    run-none (max (f + 1) (a + 1)) (max f (a + 1)) n whole (omega arith) (omega arith)

within :
    (q : ℤ) (a f t : ℕ)
    → q ≡ pos f
    → (ltb_ℤ (pos a) q && leb_ℤ q (pos t)) ≡ true
    → (a < f) × (f ≤ t)
within q a f t own e = (ground (arith, e, own), ground (arith, e, own))

without :
    (q : ℤ) (a f t : ℕ)
    → q ≡ pos f
    → (ltb_ℤ (pos a) q && leb_ℤ q (pos t)) ≡ false
    → (f ≤ a) ⊎ (t < f)
without q a f t own e = elim (Bool-cases (leb f a)) [
  | inl x ↦ inl (ground (arith, x))
  | inr x ↦ inr (ground (arith, x, e, own))
]

since-run :
    (l : List Envelope) (f a t : ℕ)
    → seqs l ≡ run_from f (length l)
    → seqs (since (pos a) (pos t) l)
      ≡ run_from (max f (a + 1)) (min (f + length l) (t + 1) - max f (a + 1))
unfolding since
since-run [] f a t h =
    run-eq (max f (a + 1)) (max f (a + 1)) 0 (min (f + 0) (t + 1) - max f (a + 1)) refl
      (omega arith)
since-run (x ∷ l) f a t h =
    let own : x.seq ≡ pos f = ground (arith, h) in
    let n = min (f + 1 + length l) (t + 1) - max (f + 1) (a + 1) in
    let whole = min (f + length (x ∷ l)) (t + 1) - max f (a + 1) in
    let rest = since-run l (f + 1) a t ground (arith, h) in
    elim (Bool-cases (ltb_ℤ (pos a) x.seq && leb_ℤ x.seq (pos t))) [
      | inl e ↦
          let bounds = within x.seq a f t own e in
          rw e (
            ap (λ q. q ∷ seqs (since (pos a) (pos t) l)) own
            ∙ ap (◌∷◌ (pos f))
                (rest ∙ run-eq (max (f + 1) (a + 1)) (f + 1) n n (omega (arith, bounds.0)) refl)
            ∙ run-eq f (max f (a + 1)) (suc n) whole (omega (arith, bounds.0))
                (omega (arith, bounds.0, bounds.1)))
      | inr e ↦
          let out = without x.seq a f t own e in
          rw e (rest ∙ skipped f a t n whole (length l) out refl refl)
    ]

-- A reading of a room in step, whatever renders its snapshots.
reader-reads :
    (s : RoomStore) (room : String) (after to : ℕ)
    → IsInStep s room
    → to ≤ length (s.events room)
    → seqs (since (pos after) (pos to) (s.events room)) ≡ run_from (after + 1) (to - after)
reader-reads s room after to v h =
    since-run (s.events room) 1 after to v.gap_free
    ∙ run-eq (max 1 (after + 1)) (after + 1)
        (min (1 + length (s.events room)) (to + 1) - max 1 (after + 1)) (to - after) (omega arith)
        (omega arith)

-- A read that does not go backwards is answered.
reader-answers :
    (l : List Envelope) (after to : ℕ)
    → after ≤ to
    → to < 0x8000000000000000
    → read_since (pos after) (pos to) l ≡ Read.read (since (pos after) (pos to) l)
unfolding read_since
reader-answers l after to forward small =
    let forwards : ltb_ℤ (pos to -64 pos after) (pos 0) ≡ false =
      ground (arith, forward, -ℤ-pos to after, wrap64-pos (to - after)) in
    rw forwards refl

oldest-one : (l : List Envelope) → seqs l ≡ run_from 1 (length l) → oldest_of l ≡ pos 1
unfolding oldest_of
oldest-one [] h = refl
oldest-one (x ∷ l) h = ground (arith, h)

membership-current :
    (o : Option Room) (ps : List Participant) (user : String) (c : ℤ)
    → membership_in o ps user ≡ some c
    → (r : Room) × (o ≡ some r) × (r.current_seq ≡ c)
unfolding membership_in
membership-current none ps user c h = absurd cc
membership-current (some r) ps user c h = (r, refl, ground (arith, h))

-- A store that is in step at a room, with a log of a length within 64 bits, is what the resync of any of its
-- members relies on: a read from one number to the same or a later one, up to where the room stands, is
-- answered without a gap.
pub room_reader-IsReliable :
    (snapshot : String → Option (List ℕ)) (s : RoomStore) (room user : String) (c : ℤ)
    → IsInStep s room
    → length (s.events room) < 0x8000000000000000
    → (room_reader snapshot s).membership room user ≡ some c
    → IsReliable (room_reader snapshot s) room user (length (s.events room)) 1
unfolding room_reader
room_reader-IsReliable snapshot s room user c v small h =
    let (r, found, stands) = membership-current (s.rooms room) (s.participants room) user c h in
    record {
      member = h ∙ ap some (sym stands ∙ v.current r found);
      floor = ap some (oldest-one (s.events room) v.gap_free);
      reads = λ after to old forward new. (
        since (pos after) (pos to) (s.events room),
        reader-answers (s.events room) after to forward (omega (arith, new, small)),
        reader-reads s room after to v new,
      );
    }
