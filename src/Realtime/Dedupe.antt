-- ===== src/Realtime/Dedupe.antt =====
-- The bounded memory of envelope ids, `DedupeLRU` (server/internal/modules/realtime/eventlog.go).
-- The Go map is an association list with no key twice.
pub mod Invariant
pub mod Window
use vybe.Base.{
  ℕ, ◌+◌, ◌%◌, Bool, true, false, Option, none, some, List, [], ◌∷◌, ◌++◌, if◌then◌else◌, ltb,
  length, get_elem?, set,
}
use vybe.Base.Int.{ℤ, pos, leb_ℤ, pos_part}
use vybe.Base.Text.{String, str_eq}

abbrev pub dedupe_capacity : ℕ
dedupe_capacity = 500

-- `map[string]int`
abbrev pub Index : Type 0
Index = List (String × ℕ)

unfoldable pub has_key : String → Index → Bool
has_key k [] = false
has_key k ((j, i) ∷ m) = if str_eq k j then true else has_key k m

-- `delete(m, k)`
unfoldable pub delete : String → Index → Index
delete k [] = []
delete k ((j, i) ∷ m) = if str_eq k j then delete k m else (j, i) ∷ delete k m

-- `m[k] = i`
unfoldable pub assign : String → ℕ → Index → Index
assign k i m = (k, i) ∷ delete k m

pub record DedupeLru : Type 0 where
  pub capacity : ℕ
  pub seen_index : Index
  pub order : List String
  pub next : ℕ

unfoldable pub new_dedupe_lru : ℤ → DedupeLru
new_dedupe_lru capacity = record {
  capacity = if leb_ℤ capacity (pos 0) then dedupe_capacity else pos_part capacity;
  seen_index = [];
  order = [];
  next = 0;
}

abbrev pub without_slot : Option String → Index → Index
without_slot none m = m
without_slot (some evicted) m = delete evicted m

-- `true` for a duplicate. The slot that is read when the memory is full is in range (IsValid below).
unfoldable pub seen : DedupeLru → String → DedupeLru × Bool
seen d id =
    if has_key id d.seen_index
    then (d, true)
    else if ltb (length d.order) d.capacity
    then (
      record d { order = d.order ++ id ∷ []; seen_index = assign id (length d.order) d.seen_index },
      false,
    )
    else (
      record d {
        seen_index = assign id d.next (without_slot (get_elem? d.order d.next) d.seen_index);
        order = set d.order d.next id;
        next = (d.next + 1) % d.capacity;
      },
      false,
    )

unfoldable pub len : DedupeLru → ℕ
len d = length d.seen_index
