-- ===== src/Platform/Idempotency/Retry.antt =====
-- What a repeated request gets from the middleware over the in-memory store
-- (server/internal/platform/httpx/idempotency.go).
use vybe.Base.{
  ℕ, ◌≤◌, ◌<◌, ◌≡◌, refl, ap, true, false, none, some, List, leb, take, arith, inr, ◌∙◌,
}
use vybe.Base.Int.{ℤ, ◌+ℤ◌, ltb_ℤ}
use vybe.Base.Bytes.{bytes_eq_refl, lookup}
use vybe.Platform.Idempotency.{
  Records, Write, new_recorder, record_all, max_idem_body_bytes, idem_ttl, mem_key,
}
use vybe.Platform.Idempotency.Middleware.{
  is_safe_method, Request, replayed, replay_status, fingerprint, checked, answer_existing,
  answer_by, idempotency, memory_idem_store,
}
use vybe.Platform.Idempotency.Recording.{sent_by, first_status, record_all-Agrees}
use vybe.Platform.Idempotency.Holding.{left_by, completed_entry, idempotency-held, idempotency-free}

not_server_error : (n : ℕ) → n < 500 → leb 500 n ≡ false
not_server_error n h = ground arith

lt-server_error : (n : ℕ) → 500 ≤ n → leb 500 n ≡ true
lt-server_error n h = ground arith

-- The record of a response below 500.
left_by-completed :
    (expires : ℤ) (fp : List ℕ) (l : List Write)
    → first_status l < 500
    → left_by expires fp (record_all new_recorder l)
      ≡ some (completed_entry fp expires (first_status l) (take max_idem_body_bytes (sent_by l)))
unfolding left_by
left_by-completed expires fp l h =
    let a = record_all-Agrees l in rw (a.0, a.2, not_server_error (first_status l) h) refl

-- The same call again: the same caller, key, method, path and body.
abbrev pub IsSameCall : Request → Request → Type 0
IsSameCall r r' =
    r'.actor ≡ r.actor
    × r'.key ≡ r.key
    × r'.method ≡ r.method
    × r'.path ≡ r.path
    × checked r' ≡ checked r

mem_key-same : (r r' : Request) → IsSameCall r r' → mem_key r'.actor r'.key ≡ mem_key r.actor r.key
mem_key-same r r' (a, k, m, p, c) = rw (a, k) refl

fingerprint-same :
    (sha256 : List ℕ → List ℕ) (r r' : Request) (body : List ℕ)
    → IsSameCall r r'
    → fingerprint sha256 r'.method r'.path body ≡ fingerprint sha256 r.method r.path body
fingerprint-same sha256 r r' body (a, k, m, p, c) = rw (m, p) refl

answer_existing-same :
    (fp : List ℕ) (expires : ℤ) (status : ℕ) (body : List ℕ)
    → answer_existing (completed_entry fp expires status body).rec fp
      ≡ replayed (replay_status status) body
unfolding answer_existing answer_by
answer_existing-same fp expires status body = rw (bytes_eq_refl fp) refl

-- When a call that changes something, passes the checks and has a free key is answered below 500,
-- the same call made before the record expires does not run a handler: it answers with the first
-- status and the first 2^20 bytes of the body, and changes neither the store nor the state of the
-- service. Whatever the handlers and the hash are.
pub idempotency-retry {ℓ ℓ'} :
    {W : Type ℓ} {W' : Type ℓ'}
    → (sha256 : List ℕ → List ℕ) (next : Request → W → List Write × W)
      (next' : Request → W' → List Write × W') (r r' : Request) (body : List ℕ) (s : Records)
      (w : W) (w' : W') (now later now' later' : ℤ)
    → is_safe_method r.method ≡ false
    → checked r ≡ inr body
    → lookup (mem_key r.actor r.key) s ≡ none
    → first_status (next (record r { body = some body }) w).0 < 500
    → IsSameCall r r'
    → ltb_ℤ now' (later +ℤ idem_ttl) ≡ true
    → let t = (idempotency sha256 (memory_idem_store now later) next r s w).0 in
      let l = (next (record r { body = some body }) w).0 in
      idempotency sha256 (memory_idem_store now' later') next' r' t w'
      ≡ (t, w', replayed (replay_status (first_status l)) (take max_idem_body_bytes (sent_by l)))
idempotency-retry sha256 next next' r r' body s w w' now later now' later' hs hc hl h same ht =
    let t = (idempotency sha256 (memory_idem_store now later) next r s w).0 in
    let l = (next (record r { body = some body }) w).0 in
    let fp = fingerprint sha256 r.method r.path body in
    let k = mem_key r.actor r.key in
    let e =
      completed_entry fp (later +ℤ idem_ttl) (first_status l)
        (take max_idem_body_bytes (sent_by l)) in
    let kept : lookup k t ≡ some e =
      idempotency-free sha256 next r body s w now later hs hc hl k
      ∙ rw (bytes_eq_refl k) (left_by-completed (later +ℤ idem_ttl) fp l h) in
    idempotency-held sha256 next' r' body t w' now' later' e (ap is_safe_method same.2 ∙ hs)
      (same.4 ∙ hc) (ap (λ x. lookup x t) (mem_key-same r r' same) ∙ kept) ht
    ∙ ap (λ x. (t, w', answer_existing e.rec x)) (fingerprint-same sha256 r r' body same)
    ∙ ap (λ x. (t, w', x))
        (answer_existing-same fp (later +ℤ idem_ttl) (first_status l)
          (take max_idem_body_bytes (sent_by l)))

-- When a call that changes something, passes the checks and has a free key is answered with 500
-- or more, its key is free again.
pub idempotency-release {ℓ} :
    {W : Type ℓ}
    → (sha256 : List ℕ → List ℕ) (next : Request → W → List Write × W) (r : Request) (body : List ℕ)
      (s : Records) (w : W) (now later : ℤ)
    → is_safe_method r.method ≡ false
    → checked r ≡ inr body
    → lookup (mem_key r.actor r.key) s ≡ none
    → 500 ≤ first_status (next (record r { body = some body }) w).0
    → lookup (mem_key r.actor r.key) (idempotency sha256 (memory_idem_store now later) next r s w).0
      ≡ none
unfolding left_by
idempotency-release sha256 next r body s w now later hs hc hl h =
    let k = mem_key r.actor r.key in
    let l = (next (record r { body = some body }) w).0 in
    idempotency-free sha256 next r body s w now later hs hc hl k
    ∙ rw (bytes_eq_refl k, (record_all-Agrees l).2, lt-server_error (first_status l) h) refl
