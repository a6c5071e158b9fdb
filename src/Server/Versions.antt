-- ===== src/Server/Versions.antt =====
-- router/admin.go, `registerVersionAdmin`, with internal/repository/version_repository.go and the
-- definition of the table in sql/migrations/game: the table of the versions and its three handlers. A
-- text that is too long for its column is refused, as MySQL does in strict mode; that MySQL cuts off
-- blanks at the end instead is not modelled.
pub mod Rows
pub mod Columns
use future_was.Base.{
  ℕ, suc, zero, String, Bool, true, false, not, ◌&&◌, ◌||◌, Option, none, some, List, [], ◌∷◌,
  filter, take, ltb, ◌==◌, str_eq, if◌then◌else◌,
}
use future_was.Base.Int.{pos, negsuc}
use future_was.Base.Decimal.{number_of}
use future_was.Base.Trim.{is_empty}
use future_was.Api.{Json, text, number, null, Version}
use future_was.Server.Clock.{two_64, text_at}

-- What the database does with a row that is to be inserted: which texts its collation
-- `utf8mb4_unicode_ci` takes for the same, whether its answer arrives, whether a row whose answer does
-- not arrive is in the table nevertheless, and whether a row that it refuses uses a number up.
pub record Database : Type 0 where
  pub same : String → String → Bool
  pub answers : Bool
  pub lost_is_kept : Bool
  pub burns : Bool

-- The rows in the order of `idx DESC`, and the next `idx` that is given out.
pub record Table : Type 0 where
  pub rows : List Version
  pub next : ℕ

-- `FindAll`: a query with no row leaves the slice nil, which is written as the JSON value `null`.
abbrev pub slice : List Version → Option (List Version)
slice [] = none
slice (r ∷ rows) = some (r ∷ rows)

unfoldable pub find_all : Table → Option (List Version)
find_all t = slice (take 200 t.rows)

-- `FindActiveOrderedByServerVersion`; the database puts the rows in the order of their server versions.
unfoldable pub find_active : (List Version → List Version) → Table → List Version
find_active order_desc t = order_desc (filter (λ r. r.is_active == 1) t.rows)

pub data DeleteReply : Type 0 where
  deleted_row : ℕ → DeleteReply
  invalid_idx not_found delete_failed : DeleteReply

-- `strconv.ParseUint(idxStr, 10, 64)`
unfoldable pub parse_uint : String → Option ℕ
parse_uint s = elim (number_of s) [ none ↦ none | some n ↦ if ltb n two_64 then some n else none ]

abbrev pub without : ℕ → List Version → List Version
without idx rows = filter (λ r. not (r.idx == idx)) rows

abbrev pub has_idx : ℕ → List Version → Bool
has_idx idx [] = false
has_idx idx (r ∷ rows) = r.idx == idx || has_idx idx rows

abbrev pub delete_at : Bool → Option ℕ → Table → Table × DeleteReply
delete_at reachable none t = (t, invalid_idx)
delete_at reachable (some idx) t =
    if not reachable
    then (t, delete_failed)
    else if has_idx idx t.rows
    then (record t { rows = without idx t.rows }, deleted_row idx)
    else (t, not_found)

-- DELETE /version/:idx, of the text of its parameter; a database that is not `reachable`
-- carries nothing out.
unfoldable pub delete_version : Bool → String → Table → Table × DeleteReply
unfolding parse_uint
delete_version reachable idx t = delete_at reachable (parse_uint idx) t

-- A JSON value for a field of type uint8: `null` leaves it zero.
abbrev pub byte : Json → Option ℕ
byte (number (pos n)) = if ltb n 256 then some n else none
byte (number (negsuc n)) = none
byte null = some 0
byte (text s) = none

unfoldable pub byte_at : String → List (String × Json) → Option ℕ
byte_at k [] = some 0
byte_at k ((j, v) ∷ body) = if str_eq j k then byte v else byte_at k body

pub data CreateReply : Type 0 where
  created_row : Version → CreateReply
  bad_version create_failed : CreateReply

-- The row that is inserted at the time `now`, with the flags that were bound.
unfoldable pub new_row : String → List (String × Json) → ℕ → ℕ → ℕ → ℕ → Version
unfolding text_at
new_row now body idx active update inspection = record {
  idx = idx;
  client_version = text_at "client_version" body;
  server_version = text_at "server_version" body;
  app_id = text_at "app_id" body;
  is_active = active;
  update_flag = update;
  inspection_flag = inspection;
  catalog_filename = text_at "catalog_filename" body;
  comment = text_at "comment" body;
  insert_time = now;
  update_time = now;
}

-- A text of a `VARCHAR` column of that many characters.
abbrev pub has_room : ℕ → String → Bool
has_room n String.[] = true
has_room zero (String.◌∷◌ c s) = false
has_room (suc n) (String.◌∷◌ c s) = has_room n s

-- The columns of `TB_VERSION`.
abbrev pub columns_fit : Version → Bool
columns_fit r =
    has_room 10 r.client_version
    && has_room 10 r.server_version
    && has_room 100 r.app_id
    && has_room 100 r.catalog_filename
    && has_room 248 r.comment

-- The unique index over `app_id` and `client_version`.
abbrev pub has_key : Database → Version → List Version → Bool
has_key db r [] = false
has_key db r (row ∷ rows) =
    db.same row.app_id r.app_id && db.same row.client_version r.client_version || has_key db r rows

abbrev pub takes : Database → Version → List Version → Bool
takes db r rows = columns_fit r && not (has_key db r rows)

abbrev pub put_row : Version → Table → Table
put_row r t = record { rows = r ∷ t.rows; next = suc t.next }

-- What is left in the table after a row that was not inserted with an answer.
abbrev pub after_failure : Database → Version → Table → Table
after_failure db r t =
    if takes db r t.rows
    then (if db.lost_is_kept then put_row r t else t)
    else record t { next = if db.burns then suc t.next else t.next }

unfoldable pub insert : Database → Version → Table → Table × CreateReply
insert db r t =
    if is_empty r.client_version || is_empty r.server_version
    then (t, bad_version)
    else if db.answers && takes db r t.rows
    then (put_row r t, created_row r)
    else (after_failure db r t, create_failed)

unfoldable pub bind :
    Database
    → String
    → List (String × Json)
    → Option ℕ
    → Option ℕ
    → Option ℕ
    → Table
    → Table × CreateReply
unfolding new_row insert
bind db now body (some active) (some update) (some inspection) t =
    insert db (new_row now body t.next active update inspection) t
bind db now body _ _ _ t = (t, bad_version)

-- POST /version of a body that is JSON.
unfoldable pub create_version :
    Database → String → List (String × Json) → Table → Table × CreateReply
unfolding byte_at bind
create_version db now body t =
    bind db now body (byte_at "is_active" body) (byte_at "update_flag" body)
      (byte_at "inspection_flag" body) t
