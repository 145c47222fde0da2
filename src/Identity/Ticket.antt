-- ===== src/Identity/Ticket.antt =====
-- Tickets for a WebSocket upgrade (server/internal/modules/identity/ticket.go) and their in-memory
-- store (identitytest/memstore.go), with no failure injected. SHA-256 is a parameter, the random
-- text an argument. A query is its parameters in order; texts are their bytes.
pub mod SingleUse
use vybe.Base.{
  ℕ, ◌+◌, ◌&&◌, ◌||◌, Bool, true, false, not, Option, none, some, List, [], ◌∷◌, if◌then◌else◌, leb,
  ◌==◌, ◌⊎◌, inl, inr,
}
use vybe.Base.Int.{ℤ, pos, ◌+ℤ◌, ltb_ℤ}
use vybe.Base.Bytes.{bytes_eq, lookup, delete, assign}
use vybe.Identity.Store.{hex_key}

-- WSTicketTTL, in nanoseconds.
abbrev pub ws_ticket_ttl : ℤ
ws_ticket_ttl = pos 60_000_000_000

pub record WsTicket : Type 0 where
  pub plaintext : List ℕ
  pub hash : List ℕ
  pub user_id : List ℕ
  pub session_id : List ℕ
  pub expires_at : ℤ

unfoldable pub new_ws_ticket :
    (List ℕ → List ℕ) → Option (List ℕ) → List ℕ → List ℕ → ℤ → Option WsTicket
new_ws_ticket sha256 none user session now = none
new_ws_ticket sha256 (some random) user session now = some (record {
  plaintext = random;
  hash = sha256 random;
  user_id = user;
  session_id = session;
  expires_at = now +ℤ ws_ticket_ttl;
})

unfoldable pub ticket_expired : Option WsTicket → ℤ → Bool
ticket_expired none now = true
ticket_expired (some t) now = ltb_ℤ t.expires_at now

-- `TicketStore.tickets`
abbrev pub Tickets : Type 0
Tickets = List (List ℕ × WsTicket)

unfoldable pub put : Tickets → WsTicket → Tickets
put s t = assign (hex_key t.hash) t s

-- `Redeem` at what the map holds; none is ErrTicketNotFound.
unfoldable pub redeem_found : Option WsTicket → Tickets → List ℕ → ℤ → Tickets × Option WsTicket
redeem_found none s k now = (s, none)
redeem_found (some t) s k now = (delete k s, if ticket_expired (some t) now then none else some t)

unfoldable pub redeem : (List ℕ → List ℕ) → Tickets → List ℕ → ℤ → Tickets × Option WsTicket
redeem sha256 s plaintext now =
    let k = hex_key (sha256 plaintext) in redeem_found (lookup k s) s k now

pub data UpgradeError : Type 0 where
  access_token_in_query ticket_not_found : UpgradeError

-- access_token, token, jwt, bearer and authorization.
abbrev pub banned_parameters : List (List ℕ)
banned_parameters =
    (97 ∷ 99 ∷ 99 ∷ 101 ∷ 115 ∷ 115 ∷ 95 ∷ 116 ∷ 111 ∷ 107 ∷ 101 ∷ 110 ∷ [])
    ∷ (116 ∷ 111 ∷ 107 ∷ 101 ∷ 110 ∷ [])
    ∷ (106 ∷ 119 ∷ 116 ∷ [])
    ∷ (98 ∷ 101 ∷ 97 ∷ 114 ∷ 101 ∷ 114 ∷ [])
    ∷ (97 ∷ 117 ∷ 116 ∷ 104 ∷ 111 ∷ 114 ∷ 105 ∷ 122 ∷ 97 ∷ 116 ∷ 105 ∷ 111 ∷ 110 ∷ [])
    ∷ []

-- `q.Has` for some name of the list.
unfoldable pub has_name : List ℕ → List (List ℕ × List ℕ) → Bool
has_name name [] = false
has_name name ((n, v) ∷ q) = if bytes_eq name n then true else has_name name q

unfoldable pub has_banned : List (List ℕ) → List (List ℕ × List ℕ) → Bool
has_banned [] q = false
has_banned (name ∷ l) q = has_name name q || has_banned l q

-- The bytes of the header in lower case begin with those of the prefix. No rune beyond ASCII has a
-- lower case in "bearer ".
abbrev pub lower : ℕ → ℕ
lower c = if leb 65 c && leb c 90 then c + 32 else c

unfoldable pub begins_with : List ℕ → List ℕ → Bool
begins_with [] l = true
begins_with (p ∷ ps) [] = false
begins_with (p ∷ ps) (c ∷ l) = p == lower c && begins_with ps l

abbrev pub bearer_prefix : List ℕ
bearer_prefix = 98 ∷ 101 ∷ 97 ∷ 114 ∷ 101 ∷ 114 ∷ 32 ∷ []

-- `q.Get("ticket")`: the first value, empty when there is none.
unfoldable pub ticket_of : List (List ℕ × List ℕ) → List ℕ
ticket_of [] = []
ticket_of ((n, v) ∷ q) =
    if bytes_eq (116 ∷ 105 ∷ 99 ∷ 107 ∷ 101 ∷ 116 ∷ []) n then v else ticket_of q

unfoldable pub non_empty : List ℕ → UpgradeError ⊎ List ℕ
non_empty [] = inl ticket_not_found
non_empty (c ∷ l) = inr (c ∷ l)

-- `ValidateWSUpgrade` of a query and the Authorization header, empty when it is missing.
unfoldable pub validate_ws_upgrade : List (List ℕ × List ℕ) → List ℕ → UpgradeError ⊎ List ℕ
validate_ws_upgrade q authorization =
    if has_banned banned_parameters q
    then inl access_token_in_query
    else if begins_with bearer_prefix authorization
    then inl access_token_in_query
    else non_empty (ticket_of q)
