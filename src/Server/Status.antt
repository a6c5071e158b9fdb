-- ===== src/Server/Status.antt =====
-- router/admin.go, GET /migrations/status: the state of one database as the server counts it, and
-- the tab that the console shows for it.
use future_was.Base.{
  ℕ, ◌+◌, String, Option, none, some, List, [], ◌∷◌, length, count, ◌==◌, if◌then◌else◌, ◌≡◌, ◌≢◌,
  ◌↔◌, refl, arith, template,
}
use future_was.Base.Int.{pos, sub_ℕ}
use future_was.Base.Results.{Result, ok, err}
use future_was.Api.{game, shard, MigrationFileStatus, DbMigrationStatus}
use future_was.MigrationsPage.View.{failed, all_applied, badge, applied_count, given}

-- `if !r.Applied { ds.Pending++ }` over the rows.
pending_of : List MigrationFileStatus → ℕ
pending_of [] = 0
pending_of (r ∷ rows) = (if r.applied then 0 else 1) + pending_of rows

-- `ds.Migrations`: appending to a nil slice leaves it nil if there are no rows.
abbrev pub slice_of : List MigrationFileStatus → Option (List MigrationFileStatus)
slice_of [] = none
slice_of (r ∷ rows) = some (r ∷ rows)

-- `game_id` is `database.GameDBShardID`. An empty error is left out of the answer.
abbrev pub game_id : ℕ
game_id = 1

unfoldable pub db_status : ℕ → String → Result (List MigrationFileStatus) → DbMigrationStatus
unfolding pending_of
db_status shard_id db_name (err e) = record {
  label = template ((if shard_id == game_id then "GameDB[" else "ShardDB[") ∷ db_name ∷ "]" ∷ []);
  category = if shard_id == game_id then game else shard;
  shard_id = shard_id;
  db_name = db_name;
  total = 0;
  pending = 0;
  migrations = none;
  error = given (some e);
}
db_status shard_id db_name (ok rows) = record {
  label = template ((if shard_id == game_id then "GameDB[" else "ShardDB[") ∷ db_name ∷ "]" ∷ []);
  category = if shard_id == game_id then game else shard;
  shard_id = shard_id;
  db_name = db_name;
  total = length rows;
  pending = pending_of rows;
  migrations = slice_of rows;
  error = none;
}

pending-applied :
    (rows : List MigrationFileStatus) → pending_of rows + count (λ r. r.applied) rows ≡ length rows
unfolding pending_of
pending-applied [] = refl
pending-applied (r ∷ rows) = ground (arith, pending-applied rows)

difference : (a b c : ℕ) → a + b ≡ c → sub_ℕ c a ≡ pos b
difference a b c e = ground arith

-- The tab of a database whose state could be read: it counts the files that are applied, and its
-- mark is that all are applied exactly when no file is left.
pub tab_counts :
    (id : ℕ) (name : String) (rows : List MigrationFileStatus)
    → let db = db_status id name (ok rows) in
      (applied_count db ≡ pos (count (λ r. r.applied) rows))
      × ((badge db ≡ all_applied) ↔ (count (λ r. r.applied) rows ≡ length rows))
      × (badge db ≢ failed)
unfolding db_status badge
tab_counts id name rows =
    let counted = pending-applied rows in
    (difference _ _ _ counted, (λ all. ground arith, λ all. ground arith), λ bad. ground arith)

-- The tab of a database whose state could not be read, with an error that is not empty, is marked as
-- failed.
pub tab_fails : (id : ℕ) (name e : String) → e ≢ "" → badge (db_status id name (err e)) ≡ failed
unfolding db_status badge
tab_fails id name String.[] some_error = absurd (some_error refl)
tab_fails id name (String.◌∷◌ c e) some_error = refl
