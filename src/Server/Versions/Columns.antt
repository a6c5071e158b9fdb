-- ===== src/Server/Versions/Columns.antt =====
-- The definition of `TB_VERSION` in sql/migrations/game/20260101000000_init_initial_schema.sql: which
-- rows have a place in the table.
use future_was.Base.{
  ℕ, suc, zero, String, true, false, ◌&&◌, List, [], ◌∷◌, All, codes, length, ◌≤◌, ◌≡◌, refl, arith,
}
use future_was.Api.{Version}
use future_was.Server.Versions.{Database, has_room, has_key, takes}

-- The texts are at most as long as their columns, and no row has the same `app_id` and the same
-- `client_version`.
pub record HasPlace (db : Database) (r : Version) (rows : List Version) : Type 0 where
  pub client_version : length (codes r.client_version) ≤ 10
  pub server_version : length (codes r.server_version) ≤ 10
  pub app_id : length (codes r.app_id) ≤ 100
  pub catalog_filename : length (codes r.catalog_filename) ≤ 100
  pub comment : length (codes r.comment) ≤ 248
  pub unique :
      All
        (λ (row : Version).
          (db.same row.app_id r.app_id && db.same row.client_version r.client_version) ≡ false)
        rows

has_room-fits : (n : ℕ) (s : String) → has_room n s ≡ true → length (codes s) ≤ n
has_room-fits n String.[] h = omega arith
has_room-fits zero (String.◌∷◌ c s) h = absurd (cc)
has_room-fits (suc n) (String.◌∷◌ c s) h = omega (arith, has_room-fits n s h)

fits-has_room : (n : ℕ) (s : String) → length (codes s) ≤ n → has_room n s ≡ true
fits-has_room n String.[] h = refl
fits-has_room zero (String.◌∷◌ c s) h = absurd (omega arith)
fits-has_room (suc n) (String.◌∷◌ c s) h = fits-has_room n s (omega arith)

has_key-All :
    (db : Database) (r : Version) (rows : List Version)
    → has_key db r rows ≡ false
    → All
        (λ (row : Version).
          (db.same row.app_id r.app_id && db.same row.client_version r.client_version) ≡ false)
        rows
has_key-All db r [] h = tt
has_key-All db r (row ∷ rows) h = (ground arith, has_key-All db r rows (ground arith))

All-has_key :
    (db : Database) (r : Version) (rows : List Version)
    → All
        (λ (row : Version).
          (db.same row.app_id r.app_id && db.same row.client_version r.client_version) ≡ false)
        rows
    → has_key db r rows ≡ false
All-has_key db r [] h = refl
All-has_key db r (row ∷ rows) (h, later) = rw (h, All-has_key db r rows later) refl

pub takes-HasPlace :
    (db : Database) (r : Version) (rows : List Version)
    → takes db r rows ≡ true
    → HasPlace db r rows
takes-HasPlace db r rows h = record {
  client_version = has_room-fits 10 r.client_version (ground arith);
  server_version = has_room-fits 10 r.server_version (ground arith);
  app_id = has_room-fits 100 r.app_id (ground arith);
  catalog_filename = has_room-fits 100 r.catalog_filename (ground arith);
  comment = has_room-fits 248 r.comment (ground arith);
  unique = has_key-All db r rows (ground arith);
}

pub HasPlace-takes :
    (db : Database) (r : Version) (rows : List Version)
    → HasPlace db r rows
    → takes db r rows ≡ true
HasPlace-takes db r rows p =
    rw
      (
        fits-has_room 10 r.client_version p.client_version,
        fits-has_room 10 r.server_version p.server_version,
        fits-has_room 100 r.app_id p.app_id,
        fits-has_room 100 r.catalog_filename p.catalog_filename,
        fits-has_room 248 r.comment p.comment,
        All-has_key db r rows p.unique,
      )
      refl
