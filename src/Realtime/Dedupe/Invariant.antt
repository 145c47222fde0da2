-- ===== src/Realtime/Dedupe/Invariant.antt =====
-- `DedupeLRU` (server/internal/modules/realtime/eventlog.go): its map and its ring, call by call.
use vybe.Base.{
  ℕ, zero, suc, ◌+◌, ◌%◌, ◌≤◌, ◌<◌, ◌≡◌, refl, sym, ◌∙◌, true, false, some, List, [], ◌∷◌, ◌++◌,
  if◌then◌else◌, arith, length, get_elem?, set, length-append, length-set,
}
use native.Mathlib.Nat.{mod-lt}
use vybe.Base.Int.{ℤ}
use vybe.Base.Text.{String, str_eq, eq_iff}
use vybe.Realtime.EventLog.{contains_text}
use vybe.Realtime.Dedupe.{Index, DedupeLru, has_key, delete, assign, new_dedupe_lru, len}

has_key-delete :
    (j k : String) (m : Index)
    → has_key j (delete k m) ≡ (if str_eq k j then false else has_key j m)
unfolding has_key delete
has_key-delete j k [] = ground arith
has_key-delete j k ((i, v) ∷ m) =
    ground (arith, eq_iff k j, eq_iff k i, eq_iff j i, has_key-delete j k m)

has_key-assign :
    (j k : String) (v : ℕ) (m : Index)
    → has_key j (assign k v m) ≡ (if str_eq k j then true else has_key j m)
unfolding has_key assign
has_key-assign j k v m = ground (arith, eq_iff k j, eq_iff j k, has_key-delete j k m)

abbrev pub Distinct : List String → Type 0
Distinct [] = Unit {0}
Distinct (x ∷ l) = (contains_text x l ≡ false) × Distinct l

contains_text-append :
    (j k : String) (l : List String)
    → contains_text j (l ++ k ∷ []) ≡ (if str_eq k j then true else contains_text j l)
unfolding contains_text
contains_text-append j k [] = ground (arith, eq_iff k j, eq_iff j k)
contains_text-append j k (x ∷ l) =
    ground (arith, eq_iff k j, eq_iff j x, contains_text-append j k l)

Distinct-append :
    (k : String) (l : List String) → Distinct l → contains_text k l ≡ false → Distinct (l ++ k ∷ [])
unfolding contains_text
Distinct-append k [] d n = (refl, tt)
Distinct-append k (x ∷ l) d n = (
  ground (arith, contains_text-append x k l, eq_iff k x),
  Distinct-append k l d.1 (ground (arith, eq_iff k x)),
)

get_elem?-contains_text :
    (e : String) (n : ℕ) (l : List String) → get_elem? l n ≡ some e → contains_text e l ≡ true
unfolding contains_text
get_elem?-contains_text e n [] h = cc
get_elem?-contains_text e zero (x ∷ l) h = ground (arith, eq_iff e x)
get_elem?-contains_text e (suc n) (x ∷ l) h = ground (arith, get_elem?-contains_text e n l h)

contains_text-set :
    (j k e : String) (n : ℕ) (l : List String)
    → Distinct l
    → get_elem? l n ≡ some e
    → contains_text j (set l n k)
      ≡ (if str_eq k j then true else if str_eq e j then false else contains_text j l)
unfolding contains_text
contains_text-set j k e n [] d h = cc
contains_text-set j k e zero (x ∷ l) d h =
    ground (arith, eq_iff k j, eq_iff e j, eq_iff j k, eq_iff j x, eq_iff j e)
contains_text-set j k e (suc n) (x ∷ l) d h = ground (
  arith,
  contains_text-set j k e n l d.1 h,
  eq_iff k j,
  eq_iff e j,
  eq_iff j k,
  eq_iff j x,
  eq_iff j e,
  get_elem?-contains_text e n l h,
)

Distinct-set :
    (k e : String) (n : ℕ) (l : List String)
    → Distinct l
    → contains_text k l ≡ false
    → get_elem? l n ≡ some e
    → Distinct (set l n k)
unfolding contains_text
Distinct-set k e n [] d c h = cc
Distinct-set k e zero (x ∷ l) d c h = ground arith
Distinct-set k e (suc n) (x ∷ l) d c h = (
  ground (arith, contains_text-set x k e n l d.1 h, eq_iff k x, eq_iff e x),
  Distinct-set k e n l d.1 (ground arith) h,
)

-- No key of the map stands twice.
abbrev pub UniqueKeys : Index → Type 0
UniqueKeys [] = Unit {0}
UniqueKeys ((k, v) ∷ m) = (has_key k m ≡ false) × UniqueKeys m

delete-UniqueKeys : (k : String) (m : Index) → UniqueKeys m → UniqueKeys (delete k m)
unfolding delete
delete-UniqueKeys k [] u = tt
delete-UniqueKeys k ((j, v) ∷ m) u = ground (arith, delete-UniqueKeys k m u.1, has_key-delete j k m)

length-delete_missing :
    (k : String) (m : Index) → has_key k m ≡ false → length (delete k m) ≡ length m
unfolding delete has_key
length-delete_missing k [] h = refl
length-delete_missing k ((j, v) ∷ m) h = ground (arith, length-delete_missing k m)

length-delete :
    (k : String) (m : Index)
    → UniqueKeys m
    → has_key k m ≡ true
    → length (delete k m) + 1 ≡ length m
unfolding delete has_key
length-delete k [] u h = cc
length-delete k ((j, v) ∷ m) u h =
    ground (arith, eq_iff k j, length-delete k m u.1, length-delete_missing k m)

pub record IsValid (d : DedupeLru) : Type 0 where
  pub positive : 0 < d.capacity
  pub bounded : length d.order ≤ d.capacity
  pub pointed : d.next < d.capacity
  pub filling : length d.order < d.capacity → d.next ≡ 0
  pub distinct : Distinct d.order
  pub unique : UniqueKeys d.seen_index
  pub counted : len d ≡ length d.order
  pub agrees : (k : String) → has_key k d.seen_index ≡ contains_text k d.order

pub new_dedupe_lru-IsValid : (c : ℤ) → IsValid (new_dedupe_lru c)
unfolding new_dedupe_lru len has_key contains_text
new_dedupe_lru-IsValid c = record {
  positive = ground arith;
  bounded = ground arith;
  pointed = ground arith;
  filling = λ h. refl;
  distinct = tt;
  unique = tt;
  counted = refl;
  agrees = λ k. refl;
}

-- The state after an id that is new, with room for it and without.
abbrev pub added : DedupeLru → String → DedupeLru
added d id = record d {
  order = d.order ++ id ∷ [];
  seen_index = assign id (length d.order) d.seen_index;
}

abbrev pub replaced : DedupeLru → String → String → DedupeLru
replaced d id e = record d {
  seen_index = assign id d.next (delete e d.seen_index);
  order = set d.order d.next id;
  next = (d.next + 1) % d.capacity;
}

pub added-IsValid :
    (d : DedupeLru) (id : String)
    → IsValid d
    → has_key id d.seen_index ≡ false
    → length d.order < d.capacity
    → IsValid (added d id)
unfolding len assign
added-IsValid d id v new room =
    let out : contains_text id d.order ≡ false = sym (v.agrees id) ∙ new in
    let size = length-append d.order (id ∷ []) in
    record {
      positive = v.positive;
      bounded = omega (arith, size);
      pointed = v.pointed;
      filling = λ h. v.filling (omega arith);
      distinct = Distinct-append id d.order v.distinct out;
      unique = (
        ground (arith, has_key-delete id id d.seen_index, eq_iff id id),
        delete-UniqueKeys id d.seen_index v.unique,
      );
      counted = omega (arith, size, length-delete_missing id d.seen_index new, v.counted);
      agrees = λ k.
          has_key-assign k id (length d.order) d.seen_index
          ∙ ground (arith, v.agrees k, contains_text-append k id d.order);
    }

pub replaced-IsValid :
    (d : DedupeLru) (id e : String)
    → IsValid d
    → has_key id d.seen_index ≡ false
    → d.capacity ≤ length d.order
    → get_elem? d.order d.next ≡ some e
    → IsValid (replaced d id e)
unfolding len assign
replaced-IsValid d id e v new full at =
    let out : contains_text id d.order ≡ false = sym (v.agrees id) ∙ new in
    let held : has_key e d.seen_index ≡ true =
      v.agrees e ∙ get_elem?-contains_text e d.next d.order at in
    let size = length-set d.order d.next id in
    let left = delete-UniqueKeys e d.seen_index v.unique in
    let gone : has_key id (delete e d.seen_index) ≡ false =
      ground (arith, has_key-delete id e d.seen_index) in
    record {
      positive = v.positive;
      bounded = omega (arith, size, v.bounded);
      pointed = mod-lt (d.next + 1) v.positive;
      filling = λ h. absurd (omega (arith, size));
      distinct = Distinct-set id e d.next d.order v.distinct out at;
      unique = (
        ground (arith, has_key-delete id id (delete e d.seen_index), eq_iff id id),
        delete-UniqueKeys id _ left,
      );
      counted = omega (
        arith,
        size,
        length-delete_missing id (delete e d.seen_index) gone,
        length-delete e d.seen_index v.unique held,
        v.counted,
      );
      agrees = λ k.
          has_key-assign k id d.next (delete e d.seen_index)
          ∙ ground (
            arith,
            v.agrees k,
            has_key-delete k e d.seen_index,
            contains_text-set k id e d.next d.order v.distinct at,
          );
    }
