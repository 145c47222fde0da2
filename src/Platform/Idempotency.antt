-- ===== src/Platform/Idempotency.antt =====
-- The Idempotency-Key middleware, its recorder and its in-memory store
-- (server/internal/platform/httpx/idempotency.go). Texts and bodies are their bytes, instants are
-- nanoseconds, SHA-256 is a parameter, a handler is what it writes and how it changes the world.
pub mod Middleware
pub mod Recording
pub mod Holding
pub mod Retry
pub mod Scope
use vybe.Base.{
  ℕ, zero, suc, ◌+◌, ◌-◌, ◌*◌, ◌/◌, ◌%◌, ◌^◌, Bool, true, false, not, ◌&&◌, ◌||◌, Option, none,
  some, List, [], ◌∷◌, ◌++◌, if◌then◌else◌, ltb, leb, ◌==◌, length, take,
}
use vybe.Base.Int.{ℤ, pos, ◌+ℤ◌, ltb_ℤ}
use vybe.Base.Bytes.{bytes_eq, lookup, delete, assign}

abbrev pub max_idem_body_bytes : ℕ
max_idem_body_bytes = 1048576

-- IdemTTL, in nanoseconds.
abbrev pub idem_ttl : ℤ
idem_ttl = pos 86_400_000_000_000

pub data IdemStatus : Type 0 where
  in_flight completed : IdemStatus

pub record IdemRecord : Type 0 where
  pub status : IdemStatus
  pub fingerprint : List ℕ
  pub response_status : ℕ
  pub response_body : List ℕ

pub record MemoryEntry : Type 0 where
  pub rec : IdemRecord
  pub expires_at : ℤ

-- `MemoryIdemStore.records`
abbrev pub Records : Type 0
Records = List (List ℕ × MemoryEntry)

unfoldable pub mem_key : List ℕ → List ℕ → List ℕ
mem_key actor key = actor ++ 0x1f ∷ key

-- `Reserve`: `now` and `later` are the two readings of the clock.
abbrev pub reserve_new : Records → List ℕ → List ℕ → ℤ → ℤ → Records × Option IdemRecord
reserve_new s k fp ttl later = (
  assign k
      (record {
        rec = record {
          status = in_flight;
          fingerprint = fp;
          response_status = 0;
          response_body = [];
        };
        expires_at = later +ℤ ttl;
      })
      s,
  none,
)

unfoldable pub reserve_over :
    Option MemoryEntry → Records → List ℕ → List ℕ → ℤ → ℤ → ℤ → Records × Option IdemRecord
reserve_over none s k fp ttl now later = reserve_new s k fp ttl later
reserve_over (some e) s k fp ttl now later =
    if ltb_ℤ now e.expires_at then (s, some e.rec) else reserve_new (delete k s) k fp ttl later

unfoldable pub reserve :
    Records → List ℕ → List ℕ → List ℕ → ℤ → ℤ → ℤ → Records × Option IdemRecord
reserve s actor key fp ttl now later =
    let k = mem_key actor key in reserve_over (lookup k s) s k fp ttl now later

unfoldable pub complete_over : Option MemoryEntry → Records → List ℕ → ℕ → List ℕ → Records
complete_over none s k status body = s
complete_over (some e) s k status body =
    assign k
      (record e {
        rec = record {
          status = completed;
          fingerprint = e.rec.fingerprint;
          response_status = status;
          response_body = body;
        };
      })
      s

unfoldable pub complete : Records → List ℕ → List ℕ → ℕ → List ℕ → Records
complete s actor key status body =
    let k = mem_key actor key in complete_over (lookup k s) s k status body

unfoldable pub release : Records → List ℕ → List ℕ → Records
release s actor key = delete (mem_key actor key) s

-- What a handler does to its ResponseWriter.
pub data Write : Type 0 where
  write_header : ℕ → Write
  write : List ℕ → Write

-- The recorder, with what it passed on to the client.
pub record Recorder : Type 0 where
  pub status : ℕ
  pub body : List ℕ
  pub wrote_header : Bool
  pub sent : List ℕ

abbrev pub new_recorder : Recorder
new_recorder = record { status = 200; body = []; wrote_header = false; sent = [] }

unfoldable pub recorder_write_header : Recorder → ℕ → Recorder
recorder_write_header r status =
    if r.wrote_header then r else record r { status = status; wrote_header = true }

unfoldable pub recorder_write : Recorder → List ℕ → Recorder
unfolding recorder_write_header
recorder_write r b =
    let h = if not r.wrote_header then recorder_write_header r 200 else r in
    let remaining = max_idem_body_bytes - length h.body in
    let kept = if leb (length b) remaining then b else take remaining b in
    record h {
      body = if ltb (length h.body) max_idem_body_bytes then h.body ++ kept else h.body;
      sent = h.sent ++ b;
    }

unfoldable pub record_all : Recorder → List Write → Recorder
record_all r [] = r
record_all r (write_header s ∷ l) = record_all (recorder_write_header r s) l
record_all r (write b ∷ l) = record_all (recorder_write r b) l

-- Every byte is printable ASCII.
unfoldable pub is_printable : List ℕ → Bool
is_printable [] = true
is_printable (c ∷ l) = if ltb c 0x21 || ltb 0x7e c then false else is_printable l

unfoldable pub valid_idem_key : List ℕ → Bool
valid_idem_key k = if ltb (length k) 8 || ltb 255 (length k) then false else is_printable k
