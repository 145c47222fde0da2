-- ===== src/Identity/Refresh.antt =====
-- The decision on a presented refresh token (server/internal/modules/identity/refresh.go). Texts and
-- hashes are their bytes, instants are nanoseconds; the zero instant is that of `is_zero_time`.
use vybe.Base.{ℕ, Bool, true, false, not, ◌&&◌, Option, none, some, List, [], ◌∷◌, if◌then◌else◌}
use vybe.Base.Int.{ℤ, pos, ◌+ℤ◌, ltb_ℤ}
use vybe.Base.Word.{is_zero_time}

-- RefreshTokenTTL and OverlapWindow, in nanoseconds.
abbrev pub refresh_token_ttl : ℤ
refresh_token_ttl = pos 5_184_000_000_000_000

abbrev pub overlap_window : ℤ
overlap_window = pos 10_000_000_000

pub record RefreshTokenState : Type 0 where
  pub token_hash : List ℕ
  pub family_id : List ℕ
  pub session_id : List ℕ
  pub user_id : List ℕ
  pub expires_at : ℤ
  pub rotated_at : Option ℤ
  pub valid_until_overlap : Option ℤ
  pub family_revoked_at : Option ℤ
  pub family_revoked_why : List ℕ

pub data RefreshOutcome : Type 0 where
  unknown rotate_now overlap_replay reuse_detected expired family_revoked : RefreshOutcome

-- `!now.Before(t)`, `now.After(t)` and `!now.After(t)` at a pointer that may be nil.
unfoldable pub is_reached : ℤ → Option ℤ → Bool
is_reached now none = false
is_reached now (some t) = not (ltb_ℤ now t)

unfoldable pub is_within : ℤ → Option ℤ → Bool
is_within now none = false
is_within now (some t) = not (ltb_ℤ t now)

unfoldable pub is_unset : Option ℤ → Bool
is_unset none = true
is_unset (some t) = false

-- Past its 60 days.
unfoldable pub is_expired : RefreshTokenState → ℤ → Bool
is_expired state now = not (is_zero_time state.expires_at) && ltb_ℤ state.expires_at now

unfoldable pub evaluate_refresh : Option RefreshTokenState → ℤ → RefreshOutcome
evaluate_refresh none now = unknown
evaluate_refresh (some state) now =
    if is_reached now state.family_revoked_at
    then family_revoked
    else if is_expired state now
    then expired
    else if is_unset state.rotated_at
    then rotate_now
    else if is_within now state.valid_until_overlap
    then overlap_replay
    else reuse_detected

-- The text "reuse_detected".
abbrev pub reuse_reason : List ℕ
reuse_reason = 114 ∷ 101 ∷ 117 ∷ 115 ∷ 101 ∷ 95 ∷ 100 ∷ 101 ∷ 116 ∷ 101 ∷ 99 ∷ 116 ∷ 101 ∷ 100 ∷ []

unfoldable pub family_revocation_reason : RefreshOutcome → List ℕ
family_revocation_reason reuse_detected = reuse_reason
family_revocation_reason _ = []

pub record RotationResult : Type 0 where
  pub plaintext : List ℕ
  pub hash : List ℕ
  pub expires_at : ℤ
  pub prev_valid_until : ℤ
  pub family_id : List ℕ
  pub session_id : List ℕ

-- `Rotate`: `minted` is what NewRefreshToken's source of randomness gave, if it gave anything.
unfoldable pub rotate :
    (List ℕ → List ℕ) → Option (List ℕ) → Option RefreshTokenState → ℤ → Option RotationResult
rotate sha256 minted none now = none
rotate sha256 none (some prev) now = none
rotate sha256 (some plaintext) (some prev) now = some (record {
  plaintext = plaintext;
  hash = sha256 plaintext;
  expires_at = now +ℤ refresh_token_ttl;
  prev_valid_until = now +ℤ overlap_window;
  family_id = prev.family_id;
  session_id = prev.session_id;
})
