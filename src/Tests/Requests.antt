-- ===== src/Tests/Requests.antt =====
-- A request that is retried (server/internal/platform/httpx/idempotency.go).
use vybe.Base.{ℕ, ◌+◌, ◌≡◌, inr, refl, some, List, [], ◌∷◌, arith, take}
use vybe.Base.Int.{pos, ◌+ℤ◌}
use vybe.Base.Bytes.{lookup, bytes_eq}
use vybe.Platform.Idempotency.{
  Write, write, write_header, new_recorder, record_all, valid_idem_key, is_printable,
  max_idem_body_bytes,
}
use vybe.Platform.Idempotency.Middleware.{
  is_safe_method, is_one_of, Request, replayed, idempotency, memory_idem_store, checked, read_body,
  replay_status,
}
use vybe.Platform.Idempotency.Recording.{sent_by, first_status, record_all-Agrees}
use vybe.Platform.Idempotency.Retry.{idempotency-retry}

-- POST /r by the caller "u".
abbrev request : Request
request = record {
  method = 80 ∷ 79 ∷ 83 ∷ 84 ∷ [];
  path = 47 ∷ 114 ∷ [];
  key = 97 ∷ 98 ∷ 99 ∷ 100 ∷ 101 ∷ 102 ∷ 103 ∷ 104 ∷ [];
  actor = 117 ∷ [];
  body = some (123 ∷ 125 ∷ []);
}

abbrev same_hash : List ℕ → List ℕ
same_hash l = l

-- A service that counts its requests and answers 201, and one that breaks down.
abbrev counting : Request → ℕ → List Write × ℕ
counting r n = (write_header 201 ∷ write (91 ∷ 93 ∷ []) ∷ [], n + 1)

request-checked : checked request ≡ inr (123 ∷ 125 ∷ [])
unfolding checked read_body valid_idem_key is_printable bytes_eq
request-checked = refl

idempotency-retry_example :
    let t = (idempotency same_hash (memory_idem_store (pos 1) (pos 2)) counting request [] 0).0 in
    idempotency same_hash (memory_idem_store (pos 3) (pos 4)) counting request t 1
    ≡ (t, 1, replayed (replay_status 201) (take max_idem_body_bytes (91 ∷ 93 ∷ [])))
unfolding is_safe_method is_one_of bytes_eq first_status sent_by lookup ◌+ℤ◌
idempotency-retry_example =
    idempotency-retry same_hash counting counting request request (123 ∷ 125 ∷ []) [] 0 1 (pos 1)
      (pos 2) (pos 3) (pos 4) refl request-checked refl (omega arith) (refl, refl, refl, refl, refl)
      refl

record_all-Agrees_example :
    let l = write (91 ∷ []) ∷ write_header 500 ∷ write (93 ∷ []) ∷ [] in
    ((record_all new_recorder l).body ≡ take max_idem_body_bytes (sent_by l))
    × ((record_all new_recorder l).sent ≡ sent_by l)
    × ((record_all new_recorder l).status ≡ first_status l)
record_all-Agrees_example =
    record_all-Agrees (write (91 ∷ []) ∷ write_header 500 ∷ write (93 ∷ []) ∷ [])
