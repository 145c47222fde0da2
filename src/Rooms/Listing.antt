-- ===== src/Rooms/Listing.antt =====
-- The pages of a user's rooms: the query of `list` in server/internal/modules/rooms/handler.go with `NewPage`
-- and `ParsePageParams` of server/internal/platform/httpx/cursor.go, over the in-memory repository. The items
-- of a page are the rows; Rooms/Handler answers with what is shown of them. A cursor stands before it is
-- encoded; `none` is the empty token.
pub mod Order
pub mod Walk
use vybe.Base.{
  ℕ, zero, suc, ◌+◌, ◌-◌, Option, none, some, List, [], ◌∷◌, ◌++◌, if◌then◌else◌, ltb, ◌⊎◌, inl,
  inr, ◌||◌, leb, ◌==◌, length, take, get_elem?,
}
use vybe.Base.Int.{ℤ, leb_ℤ, ltb_ℤ, pos, negsuc}
use vybe.Base.Decimal.{atoi, decimal}
use vybe.Base.Json.{runes_of}
use vybe.Realtime.EventLog.{contains_text}
use vybe.Platform.Problems.{Problem, with_detail, err_offset_pagination, err_limit_invalid}
use vybe.Base.Text.{String, is_empty}
use vybe.Rooms.Log.{Room, RoomStore}
use vybe.Rooms.Directory.{rooms_for_user}

pub record Cursor : Type 0 where
  pub created_at : ℤ
  pub id : String

pub record Page {ℓ} (A : Type ℓ) : Type ℓ where
  pub items : List A
  pub next_cursor : Option Cursor

module _ {ℓ} {A : Type ℓ} where
  abbrev pub key_of : (A → Cursor) → Option A → Option Cursor
  key_of key none = none
  key_of key (some x) = some (key x)

  -- The key of the last of `n` rows.
  unfoldable pub last_key : (A → Cursor) → ℕ → List A → Option Cursor
  last_key key n rows = key_of key (get_elem? rows (n - 1))

  unfoldable pub new_page : List A → ℕ → (A → Cursor) → Page A
  new_page rows limit key =
      if limit == 0 || leb (length rows) limit
      then record { items = rows; next_cursor = none }
      else record { items = take limit rows; next_cursor = last_key key limit (take limit rows) }

abbrev pub default_page_limit : ℕ
default_page_limit = 20

abbrev pub max_page_limit : ℕ
max_page_limit = 100

abbrev pub cursor_of : Room → Cursor
cursor_of r = record { created_at = r.created_at; id = r.id }

-- The query and the page of its rows. One row more than the limit tells whether there is another page.
unfoldable pub list_after : RoomStore → String → Option ℤ → String → ℕ → Page Room
list_after s user before before_id limit =
    new_page (rooms_for_user s user before before_id (limit + 1)) limit cursor_of

unfoldable pub list : RoomStore → String → Option Cursor → ℕ → Page Room
list s user none limit = list_after s user none "" limit
list s user (some c) limit = list_after s user (some c.created_at) c.id limit

-- What a request for a page asks: the names of its parameters, `?limit=`, empty where it is missing, and
-- what `DecodeCursor` makes of `?cursor=`, none where that is empty.
pub record PageQuery : Type 0 where
  pub names : List String
  pub limit : String
  pub cursor : Option (Problem ⊎ Cursor)

pub record PageParams : Type 0 where
  pub limit : ℕ
  pub cursor : Option Cursor

abbrev pub banned_page_parameters : List String
banned_page_parameters = "offset" ∷ "page" ∷ "skip" ∷ []

unfoldable pub first_banned : List String → List String → Option String
first_banned [] names = none
first_banned (b ∷ l) names =
    let rest = first_banned l names in if contains_text b names then some b else rest

-- `quote` is `%q` of `fmt`.
abbrev pub not_positive : (String → List ℕ) → String → Problem
not_positive quote raw =
    with_detail err_limit_invalid
      (runes_of "limit " ++ quote raw ++ runes_of " is not a positive integer.")

unfoldable pub limit_read : (String → List ℕ) → String → ℕ → Option ℤ → Problem ⊎ ℕ
limit_read quote raw max_limit none = inl (not_positive quote raw)
limit_read quote raw max_limit (some (negsuc n)) = inl (not_positive quote raw)
limit_read quote raw max_limit (some (pos n)) =
    if n == 0
    then inl (not_positive quote raw)
    else if ltb max_limit n
    then inl (
        with_detail err_limit_invalid (
          runes_of "limit "
          ++ decimal n
          ++ runes_of " exceeds the maximum of "
          ++ decimal max_limit
          ++ runes_of "."))
    else inr n

unfoldable pub page_limit : (String → List ℕ) → String → ℕ → ℕ → Problem ⊎ ℕ
page_limit quote raw default_limit max_limit =
    if is_empty raw then inr default_limit else limit_read quote raw max_limit (atoi (runes_of raw))

unfoldable pub with_cursor : ℕ → Option (Problem ⊎ Cursor) → Problem ⊎ PageParams
with_cursor limit none = inr (record { limit = limit; cursor = none })
with_cursor limit (some (inl p)) = inl p
with_cursor limit (some (inr c)) = inr (record { limit = limit; cursor = some c })

unfoldable pub limited_params : Problem ⊎ ℕ → Option (Problem ⊎ Cursor) → Problem ⊎ PageParams
limited_params (inl p) cursor = inl p
limited_params (inr limit) cursor = with_cursor limit cursor

unfoldable pub allowed_params :
    Option String → (String → List ℕ) → PageQuery → ℕ → ℕ → Problem ⊎ PageParams
allowed_params (some banned) quote q default_limit max_limit = inl (
    with_detail err_offset_pagination (
      runes_of "The "
      ++ quote banned
      ++ runes_of
          " parameter is not supported. This API uses opaque cursor pagination: pass ?cursor= with the value from the previous page."))
allowed_params none quote q default_limit max_limit =
    limited_params (page_limit quote q.limit default_limit max_limit) q.cursor

unfoldable pub parse_page_params : (String → List ℕ) → PageQuery → ℕ → ℕ → Problem ⊎ PageParams
parse_page_params quote q default_limit max_limit =
    allowed_params (first_banned banned_page_parameters q.names) quote q default_limit max_limit
