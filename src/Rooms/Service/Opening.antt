-- ===== src/Rooms/Service/Opening.antt =====
-- The opening of a room (server/internal/modules/rooms/service.go).
use vybe.Base.{
  ◌⊎◌, ◌≡◌, refl, sym, ap, ◌∙◌, true, false, Option, none, some, List, [], ◌∷◌, ◌++◌, arith,
  Bool-cases, inl, inr, ℕ, Occurs,
}
use vybe.Base.Int.{pos}
use vybe.Base.Text.{String, str_eq, eq_iff, is_empty}
use vybe.Realtime.EventLog.{Envelope, contains_text}
use vybe.Rooms.Log.{Room, RoomStore, with_entry, numbered, is_ended}
use vybe.Rooms.Log.Append.{after_append}
use vybe.Rooms.Log.Reader.{IsInStep}
use vybe.Rooms.Directory.{with_room, with_key, join_code_taken}
use vybe.Rooms.Service.Requests.{IsKept, HasUniqueCodes, HasDistinctKeys}
use vybe.Rooms.Service.Codes.{first_live-found, join_code_taken-first}

abbrev opened : RoomStore → Room → Envelope → RoomStore
opened s r e = after_append (with_room s r) r.id e

-- The room at an id once another is opened.
opened-rooms :
    (s : RoomStore) (r x : Room) (e : Envelope) (j : String)
    → (opened s r e).rooms j ≡ some x
    → ((j ≡ r.id) × (x ≡ record r { current_seq = e.seq; updated_at = e.ts }))
      ⊎ ((str_eq j r.id ≡ false) × (s.rooms j ≡ some x))
unfolding with_entry numbered
opened-rooms s r x e j h = elim (Bool-cases (str_eq j r.id)) [
  | inl same ↦
      let here : with_entry s.rooms r.id (some r) r.id ≡ some r =
        rw ((eq_iff r.id r.id).1 refl) refl in
      let k : numbered (with_entry s.rooms r.id (some r) r.id) e ≡ some x =
        sym (rw same refl) ∙ h in
      inl ((eq_iff j r.id).0 same, ap (room_or r) (sym k ∙ ap (λ o. numbered o e) here))
  | inr other ↦ inr (other, sym (rw other refl) ∙ h)
]
  where
    room_or : Room → Option Room → Room
    room_or d none = d
    room_or d (some y) = y

contains_text-Occurs : (id : String) (l : List String) → contains_text id l ≡ true → Occurs id l
unfolding contains_text
contains_text-Occurs id [] h = absurd cc
contains_text-Occurs id (k ∷ l) h = elim (Bool-cases (str_eq id k)) [
  | inl same ↦ inl ((eq_iff id k).0 same)
  | inr other ↦ inr (contains_text-Occurs id l (ground (arith, other, h)))
]

with_key-own : (id : String) (ids : List String) → Occurs id (with_key id ids)
unfolding with_key
with_key-own id ids = elim (Bool-cases (contains_text id ids)) [
  | inl known ↦ rw known (contains_text-Occurs id ids known)
  | inr new ↦ rw new (inl refl)
]

with_key-older : (id j : String) (ids : List String) → Occurs j ids → Occurs j (with_key id ids)
unfolding with_key
with_key-older id j ids h = elim (Bool-cases (contains_text id ids)) [
  | inl known ↦ rw known h
  | inr new ↦ rw new (inr h)
]

with_key-HasDistinctKeys :
    (id : String) (ids : List String) → HasDistinctKeys ids → HasDistinctKeys (with_key id ids)
unfolding with_key HasDistinctKeys
with_key-HasDistinctKeys id ids v = elim (Bool-cases (contains_text id ids)) [
  | inl known ↦ rw known v
  | inr new ↦ rw new (new, v)
]

opened-IsInStep :
    (s : RoomStore) (r : Room) (e : Envelope) (j : String)
    → IsKept s
    → s.rooms r.id ≡ none
    → e.seq ≡ pos 1
    → IsInStep (opened s r e) j
unfolding with_entry
opened-IsInStep s r e j v fresh first = elim (Bool-cases (str_eq j r.id)) [
  | inl same ↦
      let none_yet : s.events r.id ≡ [] = v.unlogged r.id fresh in
      let log : (opened s r e).events j ≡ e ∷ [] = rw same (ap (λ l. l ++ e ∷ []) none_yet) in
      record {
        gap_free = rw log (ap (λ q. q ∷ []) first);
        current = λ x h. rw log (current_of x (opened-rooms s r x e j h) same);
      }
  | inr other ↦ record {
    gap_free = rw other (v.sound j).gap_free;
    current = λ x h. rw other ((v.sound j).current x (sym (rw other refl) ∙ h));
  }
]
  where
    current_of :
        (x : Room)
        → ((j ≡ r.id) × (x ≡ record r { current_seq = e.seq; updated_at = e.ts }))
          ⊎ ((str_eq j r.id ≡ false) × (s.rooms j ≡ some x))
        → str_eq j r.id ≡ true
        → x.current_seq ≡ pos 1
    current_of x (inl (at, is)) same = ap (λ y. y.current_seq) is ∙ first
    current_of x (inr (off, is)) same = absurd (ground (arith, off, same))

-- A live room of the store has another code than one that is not taken.
code_is_new :
    (s : RoomStore) (code : List ℕ) (j : String) (x : Room)
    → IsKept s
    → join_code_taken s code ≡ false
    → s.rooms j ≡ some x
    → is_ended x.state ≡ false
    → x.join_code ≡ code
    → ⊥
code_is_new s code j x v free found live same =
    let (q, taken) =
      first_live-found s.rooms code s.room_ids j x (v.listed j x found) found same live in
    let no = join_code_taken-first s code free in absurd (ground (arith, taken, no))

opened-HasUniqueCodes :
    (s : RoomStore) (r : Room) (e : Envelope)
    → IsKept s
    → join_code_taken s r.join_code ≡ false
    → HasUniqueCodes (opened s r e)
opened-HasUniqueCodes s r e v free i j q x hi hj live_q live_x same =
    elim (opened-rooms s r q e i hi) [
      | inl (at, is) ↦ elim (opened-rooms s r x e j hj) [
        | inl (at', is') ↦ at ∙ sym at'
        | inr (off', is') ↦
            absurd (
              code_is_new s r.join_code j x v free is' live_x (sym same ∙ ap (λ y. y.join_code) is))
      ]
      | inr (off, is) ↦ elim (opened-rooms s r x e j hj) [
        | inl (at', is') ↦
            absurd
              (code_is_new s r.join_code i q v free is live_q (same ∙ ap (λ y. y.join_code) is'))
        | inr (off', is') ↦ v.unique_codes i j q x is is' live_q live_x same
      ]
    ]

opened-unlogged :
    (s : RoomStore) (r : Room) (e : Envelope) (j : String)
    → IsKept s
    → (opened s r e).rooms j ≡ none
    → (opened s r e).events j ≡ []
unfolding with_entry numbered
opened-unlogged s r e j v h = elim (Bool-cases (str_eq j r.id)) [
  | inl same ↦
      let here : with_entry s.rooms r.id (some r) r.id ≡ some r =
        rw ((eq_iff r.id r.id).1 refl) refl in
      let k : numbered (with_entry s.rooms r.id (some r) r.id) e ≡ none = sym (rw same refl) ∙ h in
      let l : numbered (some r) e ≡ none = ap (λ o. numbered o e) (sym here) ∙ k in absurd cc
  | inr other ↦ rw other (v.unlogged j (sym (rw other refl) ∙ h))
]

pub opened-IsKept :
    (s : RoomStore) (r : Room) (e : Envelope)
    → IsKept s
    → s.rooms r.id ≡ none
    → e.seq ≡ pos 1
    → is_empty r.id ≡ false
    → join_code_taken s r.join_code ≡ false
    → IsKept (after_append (with_room s r) r.id e)
opened-IsKept s r e v fresh first named free = record {
  distinct_keys = with_key-HasDistinctKeys r.id s.room_ids v.distinct_keys;
  sound = λ j. opened-IsInStep s r e j v fresh first;
  keyed = λ j x h. elim (opened-rooms s r x e j h) [
    | inl (at, is) ↦ ap (λ y. y.id) is ∙ sym at
    | inr (off, is) ↦ v.keyed j x is
  ];
  named = λ j x h. elim (opened-rooms s r x e j h) [
    | inl (at, is) ↦ ap is_empty at ∙ named
    | inr (off, is) ↦ v.named j x is
  ];
  listed = λ j x h. elim (opened-rooms s r x e j h) [
    | inl (at, is) ↦ rw at (with_key-own r.id s.room_ids)
    | inr (off, is) ↦ with_key-older r.id j s.room_ids (v.listed j x is)
  ];
  unlogged = λ j h. opened-unlogged s r e j v h;
  unique_codes = opened-HasUniqueCodes s r e v free;
}
