-- ===== src/Platform/Idempotency/Middleware.antt =====
-- The middleware `Idempotency` over any `IdemStore` (server/internal/platform/httpx/idempotency.go).
-- A handler maps a request and the state of the service to what it writes and the next state.
use vybe.Base.{
  ◌||◌, Bool, false, ℕ, ◌+◌, ◌/◌, ◌%◌, ◌^◌, Bool, not, Option, none, some, List, [], ◌∷◌, ◌++◌,
  if◌then◌else◌, ltb, leb, ◌==◌, length, take,
}
use vybe.Base.{◌⊎◌, inl, inr}
use vybe.Base.Int.{ℤ}
use vybe.Base.Bytes.{bytes_eq}
use vybe.Platform.Idempotency.{
  IdemStatus, in_flight, completed, IdemRecord, Records, Write, Recorder, new_recorder, record_all,
  valid_idem_key, max_idem_body_bytes, idem_ttl, reserve, complete, release,
}

-- What `Reserve` returns: an error, nothing, or the record that was there.
pub data Reserved : Type 0 where
  failed reserved : Reserved
  existing : IdemRecord → Reserved

-- The interface IdemStore on a state `S`; an error of Complete or Release is logged only.
pub record IdemStore {ℓ} (S : Type ℓ) : Type ℓ where
  pub do_reserve : S → List ℕ → List ℕ → List ℕ → ℤ → S × Reserved
  pub do_complete : S → List ℕ → List ℕ → ℕ → List ℕ → S
  pub do_release : S → List ℕ → List ℕ → S

-- The empty key and actor stand for a missing header and an unauthenticated caller; `body` is none
-- when reading it fails.
pub record Request : Type 0 where
  pub method : List ℕ
  pub path : List ℕ
  pub key : List ℕ
  pub actor : List ℕ
  pub body : Option (List ℕ)

-- GET, HEAD, OPTIONS and TRACE.
abbrev pub safe_methods : List (List ℕ)
safe_methods =
    (71 ∷ 69 ∷ 84 ∷ [])
    ∷ (72 ∷ 69 ∷ 65 ∷ 68 ∷ [])
    ∷ (79 ∷ 80 ∷ 84 ∷ 73 ∷ 79 ∷ 78 ∷ 83 ∷ [])
    ∷ (84 ∷ 82 ∷ 65 ∷ 67 ∷ 69 ∷ [])
    ∷ []

unfoldable pub is_one_of : List ℕ → List (List ℕ) → Bool
is_one_of m [] = false
is_one_of m (x ∷ l) = bytes_eq m x || is_one_of m l

unfoldable pub is_safe_method : List ℕ → Bool
is_safe_method m = is_one_of m safe_methods

pub data Refusal : Type 0 where
  key_required key_invalid unauthorized unreadable too_large store_failed key_reused still_running :
      Refusal

pub data Answer : Type 0 where
  passed_on : List Write → Answer
  refused : Refusal → Answer
  replayed : ℕ → List ℕ → Answer
  executed : Recorder → Answer

unfoldable pub replay_status : ℕ → ℕ
replay_status status = if status == 0 then 200 else status

-- `byte(n >> (8 * (7 - i)))` for i = 0..7
unfoldable pub len_bytes : ℕ → List ℕ
len_bytes n =
    n / 2 ^ 56 % 256
    ∷ n / 2 ^ 48 % 256
    ∷ n / 2 ^ 40 % 256
    ∷ n / 2 ^ 32 % 256
    ∷ n / 2 ^ 24 % 256
    ∷ n / 2 ^ 16 % 256
    ∷ n / 2 ^ 8 % 256
    ∷ n % 256
    ∷ []

-- What is hashed.
unfoldable pub preimage : List (List ℕ) → List ℕ
preimage [] = []
preimage (part ∷ l) = len_bytes (length part) ++ (part ++ preimage l)

unfoldable pub fingerprint : (List ℕ → List ℕ) → List ℕ → List ℕ → List ℕ → List ℕ
fingerprint sha256 method path body = sha256 (preimage (method ∷ path ∷ body ∷ []))

-- The bytes `io.ReadAll(io.LimitReader(r.Body, maxIdemBodyBytes+1))` gives, as the handler gets them.
unfoldable pub read_body : Request → Refusal ⊎ List ℕ
read_body r = elim r.body [
  | none ↦ inl unreadable
  | some b ↦
      let read = take (max_idem_body_bytes + 1) b in
      if ltb max_idem_body_bytes (length read) then inl too_large else inr read
]

unfoldable pub answer_by : IdemStatus → IdemRecord → Answer
answer_by in_flight rec = refused still_running
answer_by completed rec = replayed (replay_status rec.response_status) rec.response_body

unfoldable pub answer_existing : IdemRecord → List ℕ → Answer
answer_existing rec fp =
    if not (bytes_eq rec.fingerprint fp) then refused key_reused else answer_by rec.status rec

-- The checks before the store is asked.
unfoldable pub checked : Request → Refusal ⊎ List ℕ
checked r =
    if bytes_eq r.key []
    then inl key_required
    else if not (valid_idem_key r.key)
    then inl key_invalid
    else if bytes_eq r.actor []
    then inl unauthorized
    else read_body r

module _ {ℓ ℓ'} {S : Type ℓ} {W : Type ℓ'} where
  -- After the reservation: run the handler, then release or complete.
  unfoldable pub execute :
      IdemStore S → (Request → W → List Write × W) → Request → S → W → S × W × Answer
  execute store next r s w =
      let out = next r w in
      let rec = record_all new_recorder out.0 in
      (
        if leb 500 rec.status
            then store.do_release s r.actor r.key
            else store.do_complete s r.actor r.key rec.status rec.body,
        out.1,
        executed rec,
      )

  unfoldable pub decided :
      IdemStore S
      → (Request → W → List Write × W)
      → Request
      → List ℕ
      → S
      → Reserved
      → W
      → S × W × Answer
  decided store next r fp s failed w = (s, w, refused store_failed)
  decided store next r fp s reserved w = execute store next r s w
  decided store next r fp s (existing rec) w = (s, w, answer_existing rec fp)

  unfoldable pub reserve_first :
      (List ℕ → List ℕ)
      → IdemStore S
      → (Request → W → List Write × W)
      → Request
      → List ℕ
      → S
      → W
      → S × W × Answer
  reserve_first sha256 store next r body s w =
      let fp = fingerprint sha256 r.method r.path body in
      let a = store.do_reserve s r.actor r.key fp idem_ttl in
      decided store next (record r { body = some body }) fp a.0 a.1 w

  -- After the checks.
  unfoldable pub checked_first :
      (List ℕ → List ℕ)
      → IdemStore S
      → (Request → W → List Write × W)
      → Request
      → Refusal ⊎ List ℕ
      → S
      → W
      → S × W × Answer
  checked_first sha256 store next r (inl e) s w = (s, w, refused e)
  checked_first sha256 store next r (inr body) s w = reserve_first sha256 store next r body s w

  unfoldable pub idempotency :
      (List ℕ → List ℕ)
      → IdemStore S
      → (Request → W → List Write × W)
      → Request
      → S
      → W
      → S × W × Answer
  idempotency sha256 store next r s w =
      if is_safe_method r.method
      then (s, (next r w).1, passed_on (next r w).0)
      else checked_first sha256 store next r (checked r) s w

unfoldable pub found : Option IdemRecord → Reserved
found none = reserved
found (some rec) = existing rec

-- MemoryIdemStore as an IdemStore, at two readings of its clock.
unfoldable pub memory_idem_store : ℤ → ℤ → IdemStore Records
memory_idem_store now later = record {
  do_reserve = λ s actor key fp ttl.
      ((reserve s actor key fp ttl now later).0, found ((reserve s actor key fp ttl now later).1));
  do_complete = complete;
  do_release = release;
}
