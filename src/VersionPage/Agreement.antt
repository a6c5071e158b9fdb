-- ===== src/VersionPage/Agreement.antt =====
-- The creation of a version: the request of the console against the handler of the server.

use future_was.Base.{ℕ, String, Bool, true, false, ◌&&◌, Option, none, some, ltb, if◌then◌else◌}
use future_was.Base.Int.{ℤ, pos, negsuc}
use future_was.Api.{Version, VersionCreateInput}
use future_was.Server.Versions.{
  Database, Table, CreateReply, created_row, create_failed, takes, put_row, after_failure,
}

-- A flag that fits in a byte, where NaN counts as 0.
abbrev pub is_byte : Option ℤ → Bool
is_byte none = true
is_byte (some (pos n)) = ltb n 256
is_byte (some (negsuc n)) = false

abbrev pub flag : Option ℤ → ℕ
flag none = 0
flag (some (pos n)) = n
flag (some (negsuc n)) = 0

abbrev pub flags_fit : VersionCreateInput → Bool
flags_fit v = is_byte v.is_active && (is_byte v.update_flag && is_byte v.inspection_flag)

-- The row that a form stands for.
abbrev pub row_of : String → VersionCreateInput → ℕ → Version
row_of now v idx = record {
  idx = idx;
  client_version = v.client_version;
  server_version = v.server_version;
  app_id = v.app_id;
  is_active = flag v.is_active;
  update_flag = flag v.update_flag;
  inspection_flag = flag v.inspection_flag;
  catalog_filename = v.catalog_filename;
  comment = v.comment;
  insert_time = now;
  update_time = now;
}

-- What becomes of a row that the handler inserts.
abbrev outcome : Database → Version → Table → Table × CreateReply
outcome db r t =
    if db.answers && takes db r t.rows
    then (put_row r t, created_row r)
    else (after_failure db r t, create_failed)
