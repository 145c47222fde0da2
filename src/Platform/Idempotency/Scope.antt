-- ===== src/Platform/Idempotency/Scope.antt =====
-- Which requests share a record and a fingerprint (`memKey`, `validIdemKey` and `fingerprint` in
-- server/internal/platform/httpx/idempotency.go).
use vybe.Base.{ℕ, ◌^◌, ◌<◌, ◌≡◌, refl, true, false, List, [], ◌∷◌, ◌++◌, length, arith, All}
use vybe.Platform.Idempotency.{mem_key, valid_idem_key, is_printable}
use vybe.Platform.Idempotency.Middleware.{len_bytes, preimage}

-- Equal lists have equal first entries and rests.
∷-parts : (x y : ℕ) (xs ys : List ℕ) → x ∷ xs ≡ y ∷ ys → (x ≡ y) × (xs ≡ ys)
∷-parts x y xs ys e = (ground (arith, e), ground (arith, e))

append-split : (a b u v : List ℕ) → length a ≡ length b → a ++ u ≡ b ++ v → (a ≡ b) × (u ≡ v)
append-split [] [] u v l e = (refl, e)
append-split [] (y ∷ b) u v l e = absurd (omega arith)
append-split (x ∷ a) [] u v l e = absurd (omega arith)
append-split (x ∷ a) (y ∷ b) u v l e =
    let p = ∷-parts x y (a ++ u) (b ++ v) e in
    let q = append-split a b u v omega arith p.1 in (ground (arith, p.0, q.0), q.1)

pub len_bytes_injective : (n m : ℕ) → n < 2 ^ 64 → m < 2 ^ 64 → len_bytes n ≡ len_bytes m → n ≡ m
unfolding len_bytes
len_bytes_injective n m a b e = ground (arith, e)

len_bytes-length : (n m : ℕ) → length (len_bytes n) ≡ length (len_bytes m)
unfolding len_bytes
len_bytes-length n m = refl

-- What is hashed determines the parts, of any one number of parts shorter than 2^64 bytes.
pub preimage_injective :
    (ps qs : List (List ℕ))
    → length ps ≡ length qs
    → All (λ p. length p < 2 ^ 64) ps
    → All (λ p. length p < 2 ^ 64) qs
    → preimage ps ≡ preimage qs
    → ps ≡ qs
unfolding preimage
preimage_injective [] [] l a b e = refl
preimage_injective [] (q ∷ qs) l a b e = absurd (omega arith)
preimage_injective (p ∷ ps) [] l a b e = absurd (omega arith)
preimage_injective (p ∷ ps) (q ∷ qs) l a b e =
    let s =
      append-split (len_bytes (length p)) (len_bytes (length q)) (p ++ preimage ps)
        (q ++ preimage qs) (len_bytes-length (length p) (length q)) e in
    let n = len_bytes_injective (length p) (length q) a.0 b.0 s.0 in
    let t = append-split p q (preimage ps) (preimage qs) n s.1 in
    let r = preimage_injective ps qs omega arith a.1 b.1 t.1 in rw (t.0, r) refl

printable-separator : (b l : List ℕ) → is_printable (b ++ 0x1f ∷ l) ≡ false
unfolding is_printable
printable-separator [] l = ground arith
printable-separator (x ∷ b) l = ground (arith, printable-separator b l)

separated :
    (a b k l : List ℕ)
    → is_printable k ≡ true
    → is_printable l ≡ true
    → a ++ 0x1f ∷ k ≡ b ++ 0x1f ∷ l
    → (a ≡ b) × (k ≡ l)
separated [] [] k l p q e = (refl, (∷-parts 0x1f 0x1f k l e).1)
separated [] (y ∷ b) k l p q e =
    let f = (∷-parts 0x1f y k (b ++ 0x1f ∷ l) e).1 in
    absurd (ground (arith, printable-separator b l, f, p))
separated (x ∷ a) [] k l p q e =
    let f = (∷-parts x 0x1f (a ++ 0x1f ∷ k) l e).1 in
    absurd (ground (arith, printable-separator a k, f, q))
separated (x ∷ a) (y ∷ b) k l p q e =
    let f = ∷-parts x y (a ++ 0x1f ∷ k) (b ++ 0x1f ∷ l) e in
    let r = separated a b k l p q f.1 in (ground (arith, f.0, r.0), r.1)

valid-printable : (k : List ℕ) → valid_idem_key k ≡ true → is_printable k ≡ true
unfolding valid_idem_key
valid-printable k h = ground (arith, h)

-- Two callers with accepted keys share a record only when they are one caller with one key.
pub mem_key_injective :
    (a b k l : List ℕ)
    → valid_idem_key k ≡ true
    → valid_idem_key l ≡ true
    → mem_key a k ≡ mem_key b l
    → (a ≡ b) × (k ≡ l)
unfolding mem_key
mem_key_injective a b k l p q e = separated a b k l (valid-printable k p) (valid-printable l q) e
