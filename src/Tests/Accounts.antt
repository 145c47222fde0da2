-- ===== src/Tests/Accounts.antt =====
-- A session, its stolen refresh token and a minor's account (server/internal/modules/identity).
use vybe.Base.{◌≤◌, ◌≡◌, inl, refl, true, some, none, [], ◌∷◌}
use vybe.Base.Int.{pos, ◌+ℤ◌}
use vybe.Base.Bytes.{lookup, bytes_eq, assign}
use vybe.Identity.Refresh.{
  RefreshTokenState, evaluate_refresh, is_reached, is_expired, is_unset, is_within, rotate,
}
use vybe.Identity.Registration.{AgeBand}
use vybe.Identity.Store.{
  Repo, Session, User, Family, hex_key, hex_digit, refresh_token_by_hash, revoked, propagate,
  mark_rotated, mark_over, insert_refresh_token, insert_over, revoke_session, revoke_session_over,
  revoke_bound,
}
use vybe.Identity.Store.Revocation.{IsFamilyDead}
use vybe.Identity.Ticket.{WsTicket, put}
use vybe.Identity.Ticket.SingleUse.{uses, redeem-once}
use vybe.Identity.Service.{
  Issuer, refresh, refresh_loaded, refresh_as, refresh_marked, rejected, logout, logout_reason,
  authenticate, session_revoked,
}
use vybe.Identity.Service.Replay.{rotated_row, IsWithoutToken, refresh-reuse}
use vybe.Identity.Service.Rotation.{refresh-lost_answer, refresh_loaded-race}
use vybe.Identity.Service.Logout.{IsRefused, logout-refuses}

-- Names of one byte, and a hash that keeps its input.
abbrev issuer : Issuer
issuer = record { sha256 = λ l. l; mint = λ user session tier id. some id }

abbrev family : Family
family = record {
  id = 3 ∷ [];
  user_id = 1 ∷ [];
  session_id = 2 ∷ [];
  revoked_at = none;
  revoked_reason = [];
}

abbrev session : Session
session = record {
  id = 2 ∷ [];
  user_id = 1 ∷ [];
  device_name = [];
  platform = [];
  created_at = pos 1;
  last_seen_at = pos 1;
  revoked_at = none;
}

-- The current token, whose text is the byte 9.
abbrev row : RefreshTokenState
row = record {
  token_hash = 9 ∷ [];
  family_id = 3 ∷ [];
  session_id = 2 ∷ [];
  user_id = 1 ∷ [];
  expires_at = pos 5_184_000_000_000_001;
  rotated_at = none;
  valid_until_overlap = none;
  family_revoked_at = none;
  family_revoked_why = [];
}

abbrev member : User
member = record {
  id = 1 ∷ [];
  handle = [];
  display_name = [];
  avatar_url = [];
  locale = [];
  region = [];
  numeral_system = [];
  age_band = AgeBand.adult;
  date_of_birth = record { year = pos 1990; month = 1; day = 1 };
  entitlement_tier = [];
  is_discoverable = true;
  created_at = pos 0;
}

abbrev repo_with : RefreshTokenState → Repo
repo_with t = record {
  users = (1 ∷ [], member) ∷ [];
  sessions = (2 ∷ [], session) ∷ [];
  families = (3 ∷ [], family) ∷ [];
  tokens = (48 ∷ 57 ∷ [], t) ∷ [];
}

abbrev rotated : RefreshTokenState
rotated = record row { rotated_at = some (pos 2); valid_until_overlap = some (pos 10_000_000_002) }

refresh-reuse_example :
    ((refresh issuer none (9 ∷ []) [] (pos 20_000_000_000) (repo_with rotated)).1 ≡ inl rejected)
    × IsFamilyDead
        (pos 20_000_000_000)
        (3 ∷ [])
        (refresh issuer none (9 ∷ []) [] (pos 20_000_000_000) (repo_with rotated)).0.tokens
unfolding refresh_token_by_hash lookup bytes_eq hex_key hex_digit rotated_row ◌+ℤ◌ is_reached
    is_expired is_unset
refresh-reuse_example =
    refresh-reuse issuer none (9 ∷ []) [] (pos 2) (pos 20_000_000_000) (repo_with rotated) row
      family refl (refl, refl) refl refl refl refl

refresh-lost_answer_example :
    let first = (refresh issuer (some (8 ∷ [])) (9 ∷ []) [] (pos 2) (repo_with row)).0 in
    let retried = refresh issuer none (9 ∷ []) [] (pos 3) first in
    let reused = refresh issuer none (9 ∷ []) [] (pos 20_000_000_000) retried.0 in
    (retried.0 ≡ first)
    × IsWithoutToken retried.1
    × (reused.1 ≡ inl rejected)
    × IsFamilyDead (pos 20_000_000_000) (3 ∷ []) reused.0.tokens
unfolding refresh_token_by_hash lookup bytes_eq hex_key hex_digit rotated_row ◌+ℤ◌ is_reached
    is_expired is_unset evaluate_refresh is_within refresh refresh_loaded refresh_as refresh_marked
    mark_rotated mark_over insert_refresh_token insert_over rotate assign
refresh-lost_answer_example =
    refresh-lost_answer issuer (8 ∷ []) none none (9 ∷ []) [] [] [] (pos 2) (pos 3)
      (pos 20_000_000_000) (repo_with row) row family refl refl refl refl (refl, refl) refl
      (refl, refl) refl refl refl refl

refresh_loaded-race_example :
    let first = (refresh_loaded issuer (some (8 ∷ [])) (some row) [] (pos 2) (repo_with row)).0 in
    let second = refresh_loaded issuer (some (7 ∷ [])) (some row) [] (pos 3) first in
    (second.0 ≡ first) × IsWithoutToken second.1
unfolding refresh_token_by_hash lookup bytes_eq hex_key hex_digit is_reached is_expired is_unset
    evaluate_refresh
refresh_loaded-race_example =
    refresh_loaded-race issuer (8 ∷ []) (some (7 ∷ [])) [] [] (pos 2) (pos 3) (repo_with row) row
      refl refl refl refl

logout-refuses_example :
    let out = logout (repo_with row) (2 ∷ []) (pos 5) in
    (authenticate out (some (2 ∷ [])) ≡ inl session_revoked)
    × IsRefused (refresh issuer none (9 ∷ []) [] (pos 6) out).1
unfolding refresh_token_by_hash lookup bytes_eq hex_key hex_digit logout revoke_session
    revoke_session_over revoke_bound is_unset revoked propagate
logout-refuses_example =
    logout-refuses issuer none (9 ∷ []) [] (2 ∷ []) (pos 5) (pos 6) (repo_with row) session
      (record row { family_revoked_at = some (pos 5); family_revoked_why = logout_reason }) refl
      refl refl

abbrev ticket : WsTicket
ticket = record {
  plaintext = 9 ∷ [];
  hash = 9 ∷ [];
  user_id = 1 ∷ [];
  session_id = 2 ∷ [];
  expires_at = pos 60_000_000_000;
}

redeem-once_example :
    let s = put [] ticket in
    (uses (λ l. l) (48 ∷ 57 ∷ []) s ((9 ∷ [], pos 1) ∷ (9 ∷ [], pos 2) ∷ []) ≤ 1)
    × (lookup (48 ∷ 57 ∷ []) s ≡ none
        → uses (λ l. l) (48 ∷ 57 ∷ []) s ((9 ∷ [], pos 1) ∷ (9 ∷ [], pos 2) ∷ []) ≡ 0)
redeem-once_example =
    redeem-once issuer.sha256 (48 ∷ 57 ∷ []) ((9 ∷ [], pos 1) ∷ (9 ∷ [], pos 2) ∷ [])
      (put [] ticket)
