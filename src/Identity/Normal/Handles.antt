-- ===== src/Identity/Normal/Handles.antt =====
-- What a handle is once it is normalised (server/internal/modules/identity/service.go).
use vybe.Base.{
  ℕ, ◌≤◌, ◌≡◌, refl, sym, ap, ◌∙◌, true, false, ◌||◌, Option, none, some, List, [], ◌∷◌, map, arith,
  Bool-cases, inl, inr, ltb, length, All, get_elem?, zero, suc,
}
use vybe.Base.Json.{utf8}
use vybe.Base.Runes.{is_space, trim_space-solid}
use vybe.Identity.Normal.{
  bytes_of, to_lower, folded, handle_from, normalise_handle, is_plain, is_separator,
  min_handle_length, max_handle_length,
}

-- A byte of a handle.
abbrev pub IsHandleByte : ℕ → Type 0
IsHandleByte c = (is_plain c || is_separator c) ≡ true

-- A small letter or digit stands at a place, and right before a place.
abbrev pub IsPlainAt : List ℕ → ℕ → Type 0
IsPlainAt h i = (c : ℕ) × (get_elem? h i ≡ some c) × (is_plain c ≡ true)

abbrev pub IsPlainBefore : List ℕ → ℕ → Type 0
IsPlainBefore h zero = ⊥
IsPlainBefore h (suc i) = IsPlainAt h i

-- The bytes of a handle, its length in bounds, and every separator between two letters or digits.
pub record IsHandle (h : List ℕ) : Type 0 where
  pub bytes : All IsHandleByte h
  pub long_enough : min_handle_length ≤ length h
  pub short_enough : length h ≤ max_handle_length
  pub separated :
      (i c : ℕ)
      → get_elem? h i ≡ some c
      → is_separator c ≡ true
      → IsPlainBefore h i × IsPlainAt h (suc i)

handle_from-bytes : (prev : Option ℕ) (h : List ℕ) → handle_from prev h ≡ true → All IsHandleByte h
unfolding handle_from
handle_from-bytes prev [] e = tt
handle_from-bytes prev (c ∷ l) e = elim (Bool-cases (is_plain c)) [
  | inl plain ↦ (rw plain refl, handle_from-bytes (some c) l (ground (arith, plain, e)))
  | inr special ↦ elim (Bool-cases (is_separator c)) [
    | inl sep ↦
        (rw (special, sep) refl, handle_from-bytes (some c) l (ground (arith, special, sep, e)))
    | inr other ↦ absurd (ground (arith, special, other, e))
  ]
]

-- Before a place in a text that follows the byte `prev`.
abbrev IsPlainAfter : ℕ → Option ℕ → List ℕ → Type 0
IsPlainAfter zero none h = ⊥
IsPlainAfter zero (some p) h = is_separator p ≡ false
IsPlainAfter (suc i) prev h = IsPlainAt h i

some_byte : ℕ → Option ℕ → ℕ
some_byte d none = d
some_byte d (some x) = x

IsPlainBefore-first :
    (prev : Option ℕ) (c : ℕ) (l : List ℕ)
    → is_separator c ≡ true
    → handle_from prev (c ∷ l) ≡ true
    → IsPlainAfter zero prev (c ∷ l) × IsPlainAt l zero
unfolding handle_from
IsPlainBefore-first none c l sep good = absurd (ground (arith, sep, good))
IsPlainBefore-first (some p) c [] sep good = absurd (ground (arith, sep, good))
IsPlainBefore-first (some p) c (d ∷ l) sep good =
    (ground (arith, sep, good), (d, refl, ground (arith, sep, good)))

handle_from-rest :
    (prev : Option ℕ) (c : ℕ) (l : List ℕ)
    → handle_from prev (c ∷ l) ≡ true
    → (handle_from (some c) l ≡ true) × ((is_plain c || is_separator c) ≡ true)
unfolding handle_from
handle_from-rest prev c l good = (ground (arith, good), ground (arith, good))

-- Between two letters or digits, where the text follows the byte `prev`.
handle_from-separated :
    (prev : Option ℕ) (h : List ℕ) (i c : ℕ)
    → handle_from prev h ≡ true
    → get_elem? h i ≡ some c
    → is_separator c ≡ true
    → IsPlainAfter i prev h × IsPlainAt h (suc i)
unfolding some_byte
handle_from-separated prev [] i c good at sep = absurd cc
handle_from-separated prev (x ∷ l) zero c good at sep =
    let same : x ≡ c = ap (some_byte c) at in
    IsPlainBefore-first prev x l (ap is_separator same ∙ sep) good
handle_from-separated prev (x ∷ l) (suc zero) c good at sep =
    let rest = handle_from-rest prev x l good in
    let inner = handle_from-separated (some x) l zero c rest.0 at sep in
    ((x, refl, ground (arith, rest.1, inner.0)), inner.1)
handle_from-separated prev (x ∷ l) (suc (suc i)) c good at sep =
    let rest = handle_from-rest prev x l good in
    handle_from-separated (some x) l (suc i) c rest.0 at sep

IsPlainAfter-start : (h : List ℕ) (i : ℕ) → IsPlainAfter i none h → IsPlainBefore h i
IsPlainAfter-start h zero v = absurd v
IsPlainAfter-start h (suc i) v = v

handle_byte-fixed :
    (lower_rune : ℕ → ℕ) (c : ℕ)
    → IsHandleByte c
    → (to_lower lower_rune c ≡ c) × (utf8 c ≡ c ∷ []) × (is_space c ≡ false)
unfolding to_lower utf8 is_space
handle_byte-fixed lower_rune c h = (ground (arith, h), ground (arith, h), ground (arith, h))

bytes_of-fixed :
    (lower_rune : ℕ → ℕ) (h : List ℕ)
    → All IsHandleByte h
    → bytes_of (map (to_lower lower_rune) h) ≡ h
unfolding bytes_of
bytes_of-fixed lower_rune [] v = refl
bytes_of-fixed lower_rune (c ∷ l) v =
    let fixed = handle_byte-fixed lower_rune c v.0 in
    rw (fixed.0, fixed.1, bytes_of-fixed lower_rune l v.1) refl

solid : (lower_rune : ℕ → ℕ) (h : List ℕ) → All IsHandleByte h → All (λ r. is_space r ≡ false) h
solid lower_rune [] v = tt
solid lower_rune (c ∷ l) v = ((handle_byte-fixed lower_rune c v.0).2, solid lower_rune l v.1)

folded-fixed : (lower_rune : ℕ → ℕ) (h : List ℕ) → All IsHandleByte h → folded lower_rune h ≡ h
unfolding folded
folded-fixed lower_rune h v =
    ap (λ t. bytes_of (map (to_lower lower_rune) t)) (trim_space-solid h (solid lower_rune h v))
    ∙ bytes_of-fixed lower_rune h v

some_or : List ℕ → Option (List ℕ) → List ℕ
some_or d none = d
some_or d (some h) = h

-- A normalised handle is of 3 to 30 bytes, small letters, digits and separators, each separator stands between
-- two letters or digits, and the handle is its own normal form.
pub normalise_handle-IsHandle :
    (lower_rune : ℕ → ℕ) (raw h : List ℕ)
    → normalise_handle lower_rune raw ≡ some h
    → IsHandle h × (normalise_handle lower_rune h ≡ some h)
unfolding normalise_handle some_or
normalise_handle-IsHandle lower_rune raw h e =
    let f = folded lower_rune raw in
    elim (Bool-cases (ltb (length f) min_handle_length || ltb max_handle_length (length f))) [
      | inl bad ↦ absurd (ground (arith, bad, e))
      | inr fits ↦ elim (Bool-cases (handle_from none f)) [
        | inr wrong ↦ absurd (ground (arith, fits, wrong, e))
        | inl good ↦
            let k : some f ≡ some h = sym (rw (fits, good) refl) ∙ e in
            let is : f ≡ h = ap (some_or h) k in
            let good_h : handle_from none h ≡ true = ap (handle_from none) (sym is) ∙ good in
            let fits_h : (ltb (length h) min_handle_length || ltb max_handle_length (length h))
                ≡ false =
              ap (λ x. ltb (length x) min_handle_length || ltb max_handle_length (length x))
                (sym is)
              ∙ fits in
            let bytes = handle_from-bytes none h good_h in
            (
              record {
                bytes = bytes;
                long_enough = ground (arith, fits_h);
                short_enough = ground (arith, fits_h);
                separated = λ i c at sep.
                    let found = handle_from-separated none h i c good_h at sep in
                    (IsPlainAfter-start h i found.0, found.1);
              },
              rw (folded-fixed lower_rune h bytes, fits_h, good_h) refl,
            )
      ]
    ]
