-- ===== src/Identity/Store.antt =====
-- The in-memory repository of sessions, refresh families and tokens
-- (server/internal/modules/identity/identitytest/memstore.go), with no failure injected.
pub mod Revocation
use vybe.Base.{
  ℕ, ◌/◌, ◌%◌, ◌+◌, Bool, true, false, not, ◌&&◌, Option, none, some, List, [], ◌∷◌, if◌then◌else◌,
  ltb,
}
use vybe.Base.Int.{ℤ}
use vybe.Base.Bytes.{bytes_eq, lookup, assign}
use vybe.Identity.Refresh.{RefreshTokenState, is_unset}
use vybe.Identity.Registration.{AgeBand, Date}

pub record Session : Type 0 where
  pub id : List ℕ
  pub user_id : List ℕ
  pub device_name : List ℕ
  pub platform : List ℕ
  pub created_at : ℤ
  pub last_seen_at : ℤ
  pub revoked_at : Option ℤ

-- `avatar_url` is empty where the source leaves it unset.
pub record User : Type 0 where
  pub id : List ℕ
  pub handle : List ℕ
  pub display_name : List ℕ
  pub avatar_url : List ℕ
  pub locale : List ℕ
  pub region : List ℕ
  pub numeral_system : List ℕ
  pub age_band : AgeBand
  pub date_of_birth : Date
  pub entitlement_tier : List ℕ
  pub is_discoverable : Bool
  pub created_at : ℤ

pub record Family : Type 0 where
  pub id : List ℕ
  pub user_id : List ℕ
  pub session_id : List ℕ
  pub revoked_at : Option ℤ
  pub revoked_reason : List ℕ

pub record Repo : Type 0 where
  pub users : List (List ℕ × User)
  pub sessions : List (List ℕ × Session)
  pub families : List (List ℕ × Family)
  pub tokens : List (List ℕ × RefreshTokenState)

unfoldable pub hex_digit : ℕ → ℕ
hex_digit d = if ltb d 10 then 48 + d else 87 + d

-- `key`: two hexadecimal digits for each byte.
unfoldable pub hex_key : List ℕ → List ℕ
hex_key [] = []
hex_key (b ∷ l) = hex_digit (b / 16) ∷ hex_digit (b % 16) ∷ hex_key l

unfoldable pub create_session : Repo → Session → Repo
create_session s sess = record s { sessions = assign sess.id sess s.sessions }

unfoldable pub session_by_id : Repo → List ℕ → Option Session
session_by_id s id = lookup id s.sessions

unfoldable pub user_by_id : Repo → List ℕ → Option User
user_by_id s id = lookup id s.users

unfoldable pub create_family : Repo → List ℕ → List ℕ → List ℕ → Repo
create_family s family_id user_id session_id = record s {
  families =
      assign family_id
        (record {
          id = family_id;
          user_id = user_id;
          session_id = session_id;
          revoked_at = none;
          revoked_reason = [];
        })
        s.families;
}

abbrev pub stamped : Family → RefreshTokenState → RefreshTokenState
stamped f t =
    if bytes_eq t.family_id f.id
    then record t { family_revoked_at = f.revoked_at; family_revoked_why = f.revoked_reason }
    else t

-- `propagateRevocationLocked` on the tokens.
unfoldable pub propagate :
    Family → List (List ℕ × RefreshTokenState) → List (List ℕ × RefreshTokenState)
propagate f [] = []
propagate f ((k, t) ∷ l) = (k, stamped f t) ∷ propagate f l

unfoldable pub revoked : Family → List ℕ → ℤ → Family
revoked f reason at =
    if is_unset f.revoked_at then record f { revoked_at = some at; revoked_reason = reason } else f

unfoldable pub revoke_family_over : Option Family → Repo → List ℕ → List ℕ → ℤ → Repo
revoke_family_over none s family_id reason at = s
revoke_family_over (some f) s family_id reason at =
    let g = revoked f reason at in
    record s { families = assign family_id g s.families; tokens = propagate g s.tokens }

unfoldable pub revoke_family : Repo → List ℕ → List ℕ → ℤ → Repo
revoke_family s family_id reason at =
    revoke_family_over (lookup family_id s.families) s family_id reason at

-- The families of a session that are not revoked yet, one after the other.
unfoldable pub revoke_bound :
    List ℕ
    → List ℕ
    → ℤ
    → List (List ℕ × Family)
    → List (List ℕ × RefreshTokenState)
    → List (List ℕ × Family) × List (List ℕ × RefreshTokenState)
revoke_bound session_id reason at [] tokens = ([], tokens)
revoke_bound session_id reason at ((k, f) ∷ l) tokens =
    let is_bound = bytes_eq f.session_id session_id && is_unset f.revoked_at in
    let g = if is_bound then revoked f reason at else f in
    let next = if is_bound then propagate g tokens else tokens in
    let rest = revoke_bound session_id reason at l next in ((k, g) ∷ rest.0, rest.1)

abbrev pub closed : Session → ℤ → Session
closed sess at = if is_unset sess.revoked_at then record sess { revoked_at = some at } else sess

unfoldable pub revoke_session_over : Option Session → Repo → List ℕ → List ℕ → ℤ → Repo
revoke_session_over none s session_id reason at = s
revoke_session_over (some sess) s session_id reason at =
    let bound = revoke_bound session_id reason at s.families s.tokens in
    record s {
      sessions = assign session_id (closed sess at) s.sessions;
      families = bound.0;
      tokens = bound.1;
    }

unfoldable pub revoke_session : Repo → List ℕ → List ℕ → ℤ → Repo
revoke_session s session_id reason at =
    revoke_session_over (lookup session_id s.sessions) s session_id reason at

unfoldable pub insert_over : Option Family → Repo → List ℕ → List ℕ → ℤ → Repo
insert_over none s family_id hash expires_at = s
insert_over (some f) s family_id hash expires_at = record s {
  tokens =
      assign (hex_key hash)
        (record {
          token_hash = hash;
          family_id = family_id;
          session_id = f.session_id;
          user_id = f.user_id;
          expires_at = expires_at;
          rotated_at = none;
          valid_until_overlap = none;
          family_revoked_at = f.revoked_at;
          family_revoked_why = f.revoked_reason;
        })
        s.tokens;
}

unfoldable pub insert_refresh_token : Repo → List ℕ → List ℕ → ℤ → Repo
insert_refresh_token s family_id hash expires_at =
    insert_over (lookup family_id s.families) s family_id hash expires_at

unfoldable pub refresh_token_by_hash : Repo → List ℕ → Option RefreshTokenState
refresh_token_by_hash s hash = lookup (hex_key hash) s.tokens

unfoldable pub mark_over : Option RefreshTokenState → Repo → List ℕ → ℤ → ℤ → Repo × Bool
mark_over none s hash rotated_at valid_until = (s, false)
mark_over (some t) s hash rotated_at valid_until =
    if is_unset t.rotated_at
    then (
      record s {
        tokens =
            assign (hex_key hash)
              (record t { rotated_at = some rotated_at; valid_until_overlap = some valid_until })
              s.tokens;
      },
      true,
    )
    else (s, false)

unfoldable pub mark_rotated : Repo → List ℕ → ℤ → ℤ → Repo × Bool
mark_rotated s hash rotated_at valid_until =
    mark_over (lookup (hex_key hash) s.tokens) s hash rotated_at valid_until
