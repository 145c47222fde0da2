-- ===== src/Platform/Idempotency/Holding.antt =====
-- What one call of the middleware over the in-memory store does to its records
-- (server/internal/platform/httpx/idempotency.go).
use vybe.Base.{
  ℕ, ◌≡◌, refl, ap, true, false, Option, none, some, List, [], if◌then◌else◌, leb, arith,
  Bool-cases, inl, inr, ◌∙◌,
}
use vybe.Base.Int.{ℤ, ◌+ℤ◌, ltb_ℤ}
use vybe.Base.Bytes.{bytes_eq, bytes_eq_refl, lookup, assign, lookup-delete, lookup-assign}
use vybe.Platform.Idempotency.{
  in_flight, completed, IdemRecord, MemoryEntry, Records, Write, Recorder, new_recorder, record_all,
  idem_ttl, reserve, reserve_new, reserve_over, complete, complete_over, release, mem_key,
}
use vybe.Platform.Idempotency.Middleware.{
  is_safe_method, Request, Answer, fingerprint, checked, answer_existing, execute, decided,
  reserve_first, idempotency, checked_first, passed_on, memory_idem_store, found,
}

-- The record a request leaves under its key.
unfoldable pub left_by : ℤ → List ℕ → Recorder → Option MemoryEntry
left_by expires fp rec =
    if leb 500 rec.status
    then none
    else some (record {
      rec = record {
        status = completed;
        fingerprint = fp;
        response_status = rec.status;
        response_body = rec.body;
      };
      expires_at = expires;
    })

reserve-held :
    (s : Records) (actor key fp : List ℕ) (ttl now later : ℤ) (e : MemoryEntry)
    → lookup (mem_key actor key) s ≡ some e
    → ltb_ℤ now e.expires_at ≡ true
    → reserve s actor key fp ttl now later ≡ (s, some e.rec)
unfolding reserve reserve_over
reserve-held s actor key fp ttl now later e h l =
    ap (λ o. reserve_over o s (mem_key actor key) fp ttl now later) h ∙ rw l refl

reserve-free :
    (s : Records) (actor key fp : List ℕ) (ttl now later : ℤ)
    → lookup (mem_key actor key) s ≡ none
    → reserve s actor key fp ttl now later ≡ reserve_new s (mem_key actor key) fp ttl later
unfolding reserve reserve_over
reserve-free s actor key fp ttl now later h =
    ap (λ o. reserve_over o s (mem_key actor key) fp ttl now later) h

abbrev in_flight_entry : List ℕ → ℤ → MemoryEntry
in_flight_entry fp expires = record {
  rec = record { status = in_flight; fingerprint = fp; response_status = 0; response_body = [] };
  expires_at = expires;
}

abbrev pub completed_entry : List ℕ → ℤ → ℕ → List ℕ → MemoryEntry
completed_entry fp expires status body = record {
  rec = record {
    status = completed;
    fingerprint = fp;
    response_status = status;
    response_body = body;
  };
  expires_at = expires;
}

complete-held :
    (s : Records) (actor key : List ℕ) (status : ℕ) (body : List ℕ) (e : MemoryEntry)
    → lookup (mem_key actor key) s ≡ some e
    → complete s actor key status body
      ≡ assign (mem_key actor key) (completed_entry e.rec.fingerprint e.expires_at status body) s
unfolding complete complete_over
complete-held s actor key status body e h =
    ap (λ o. complete_over o s (mem_key actor key) status body) h

module _ {ℓ} {W : Type ℓ} (sha256 : List ℕ → List ℕ) (next : Request → W → List Write × W) where
  idempotency-checked :
      (r : Request) (body : List ℕ) (s : Records) (w : W) (now later : ℤ)
      → is_safe_method r.method ≡ false
      → checked r ≡ inr body
      → idempotency sha256 (memory_idem_store now later) next r s w
        ≡ reserve_first sha256 (memory_idem_store now later) next r body s w
  unfolding idempotency checked_first
  idempotency-checked r body s w now later hs hc =
      ap
        (λ b.
          if b
          then (s, (next r w).1, passed_on (next r w).0)
          else checked_first sha256 (memory_idem_store now later) next r (checked r) s w)
        hs
      ∙ ap (λ c. checked_first sha256 (memory_idem_store now later) next r c s w) hc

  -- A key held by an unexpired record: the handler does not run, and the store and the state of the
  -- service stay as they are.
  pub idempotency-held :
      (r : Request) (body : List ℕ) (s : Records) (w : W) (now later : ℤ) (e : MemoryEntry)
      → is_safe_method r.method ≡ false
      → checked r ≡ inr body
      → lookup (mem_key r.actor r.key) s ≡ some e
      → ltb_ℤ now e.expires_at ≡ true
      → idempotency sha256 (memory_idem_store now later) next r s w
        ≡ (s, w, answer_existing e.rec (fingerprint sha256 r.method r.path body))
  unfolding reserve_first memory_idem_store decided found
  idempotency-held r body s w now later e hs hc hl ht =
      let fp = fingerprint sha256 r.method r.path body in
      let r' : Request = record r { body = some body } in
      idempotency-checked r body s w now later hs hc
      ∙ ap
          (λ (x : Records × Option IdemRecord).
            decided (memory_idem_store now later) next r' fp x.0 (found x.1) w)
          (reserve-held s r.actor r.key fp idem_ttl now later e hl ht)

  -- What the run of a handler leaves in the store, under every key.
  executed-lookup :
      (r : Request) (fp : List ℕ) (s : Records) (w : W) (now later : ℤ)
      → (j : List ℕ)
      → lookup j
          (execute
            (memory_idem_store now later)
            next
            r
            (reserve_new s (mem_key r.actor r.key) fp idem_ttl later).0
            w).0
        ≡ (if bytes_eq (mem_key r.actor r.key) j
            then left_by (later +ℤ idem_ttl) fp (record_all new_recorder (next r w).0)
            else lookup j s)
  unfolding memory_idem_store execute left_by release
  executed-lookup r fp s w now later j =
      let k = mem_key r.actor r.key in
      let rec = record_all new_recorder (next r w).0 in
      let t = (reserve_new s k fp idem_ttl later).0 in
      elim (Bool-cases (leb 500 rec.status)) [
        | inl e ↦ rw e (
            lookup-delete k j t
            ∙ ground (arith, lookup-assign k j (in_flight_entry fp (later +ℤ idem_ttl)) s))
        | inr e ↦ rw e (
            ap (lookup j) (
              complete-held t r.actor r.key rec.status rec.body
                (in_flight_entry fp (later +ℤ idem_ttl))
                (lookup-assign k k (in_flight_entry fp (later +ℤ idem_ttl)) s
                  ∙ rw (bytes_eq_refl k) refl))
            ∙ ground (
              arith,
              lookup-assign k j (completed_entry fp (later +ℤ idem_ttl) rec.status rec.body) t,
              lookup-assign k j (in_flight_entry fp (later +ℤ idem_ttl)) s,
            ))
      ]

  pub idempotency-free :
      (r : Request) (body : List ℕ) (s : Records) (w : W) (now later : ℤ)
      → is_safe_method r.method ≡ false
      → checked r ≡ inr body
      → lookup (mem_key r.actor r.key) s ≡ none
      → (j : List ℕ)
      → lookup j (idempotency sha256 (memory_idem_store now later) next r s w).0 ≡ (
          if bytes_eq (mem_key r.actor r.key) j
          then left_by
              (later +ℤ idem_ttl)
              (fingerprint sha256 r.method r.path body)
              (record_all new_recorder (next (record r { body = some body }) w).0)
          else lookup j s)
  unfolding reserve_first memory_idem_store decided found
  idempotency-free r body s w now later hs hc hl j =
      let fp = fingerprint sha256 r.method r.path body in
      let r' : Request = record r { body = some body } in
      ap (λ (x : Records × W × Answer). lookup j x.0)
        (idempotency-checked r body s w now later hs hc
          ∙ ap
              (λ (x : Records × Option IdemRecord).
                decided (memory_idem_store now later) next r' fp x.0 (found x.1) w)
              (reserve-free s r.actor r.key fp idem_ttl now later hl))
      ∙ executed-lookup r' fp s w now later j
