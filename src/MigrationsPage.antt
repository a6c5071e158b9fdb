-- ===== src/MigrationsPage.antt =====
-- web/admin/src/pages/MigrationsPage.tsx: the state of the page and its handlers, cut at each
-- `await` as in VersionPage. The page starts after its mount effect, which has sent two requests.
pub mod Session
pub mod LocalOnly
pub mod Tabs
pub mod Coherence
pub mod Viewer
pub mod Creation
pub mod Modals
pub mod Errors
pub mod Settle
pub mod View
mod Tests
use future_was.Base.{
  ℕ, String, Bool, true, false, Option, none, some, List, [], ◌∷◌, find, ◌==◌, if◌then◌else◌,
}
use future_was.Base.Results.{Result, ok, err}
use future_was.Api.{
  Stage, AdminInfo, Category, game, shard, MigrationFileStatus, DbMigrationStatus,
  MigrationFileContent, HttpRequest, admin_info, migrations_status, migrations_file,
}
use future_was.MigrationForm.{Form}

pub record ViewTarget : Type 0 where
  pub category : Category
  pub version : String
  pub filename : String

-- A modal that is mounted: the form, and the number of the mount, since a late answer reaches the
-- form that sent the request and no other.
pub record Modal : Type 0 where
  pub mount : ℕ
  pub form : Form

-- An `await` that has not been answered. A creation knows the mount and the author of its form.
pub data Pending : Type 0 where
  status info : Pending
  reading : ViewTarget → Pending
  creating : ℕ → String → Pending

pub record Page : Type 0 where
  pub dbs : Option (List DbMigrationStatus)
  pub error : Option String
  pub busy : Bool
  pub selected_shard_id : Option ℕ
  pub viewing : Option ViewTarget
  pub view_content : String
  pub view_loading : Bool
  pub view_error : Option String
  pub modal : Option Modal
  pub created : Option String
  pub stage : Option Stage
  pub storage : Option String  -- `localStorage` at `AUTHOR_STORAGE_KEY`
  pub mounts : ℕ
  pub pending : List Pending
  pub sent : List HttpRequest  -- the latest first

unfoldable pub initial : Option String → Page
initial storage = record {
  dbs = none;
  error = none;
  busy = true;
  selected_shard_id = none;
  viewing = none;
  view_content = "";
  view_loading = false;
  view_error = none;
  modal = none;
  created = none;
  stage = none;
  storage = storage;
  mounts = 0;
  pending = info ∷ status ∷ [];
  sent = admin_info ∷ migrations_status ∷ [];
}

-- `refresh`, up to its `await`.
unfoldable pub refresh : Page → Page
refresh s = record s {
  busy = true;
  error = none;
  pending = status ∷ s.pending;
  sent = migrations_status ∷ s.sent;
}

unfoldable pub refresh_settled : Result (List DbMigrationStatus) → Page → Page
refresh_settled (ok dbs) s = record s { dbs = some dbs; busy = false }
refresh_settled (err e) s = record s { error = some e; busy = false }

-- `adminApi.info().then(...).catch(...)`
unfoldable pub info_settled : Result AdminInfo → Page → Page
info_settled (ok i) s = record s { stage = some i.stage }
info_settled (err e) s = record s { stage = none }

abbrev pub is_game : Category → Bool
is_game game = true
is_game shard = false

abbrev pub or_else {ℓ} : {A : Type ℓ} → Option A → A → A
or_else none d = d
or_else (some a) d = a

-- `dbs.find((d) => d.category === 'game') ?? dbs[0]`, of the list `d ∷ ds`.
unfoldable pub preferred : DbMigrationStatus → List DbMigrationStatus → DbMigrationStatus
preferred d ds = or_else (find (λ db. is_game db.category) (d ∷ ds)) d

-- The effect on `[dbs, selectedShardId]`, which runs after a change of either.
abbrev pub select_from : Option ℕ → Option (List DbMigrationStatus) → Page → Page
select_from none (some (d ∷ ds)) s = record s { selected_shard_id = some (preferred d ds).shard_id }
select_from none (some []) s = s
select_from none none s = s
select_from (some id) dbs s = s

unfoldable pub select_initial : Page → Page
select_initial s = select_from s.selected_shard_id s.dbs s

-- `selectedDb`
abbrev pub db_at : Option (List DbMigrationStatus) → Option ℕ → Option DbMigrationStatus
db_at none id = none
db_at (some dbs) none = none
db_at (some dbs) (some id) = find (λ d. d.shard_id == id) dbs

unfoldable pub selected_db : Page → Option DbMigrationStatus
selected_db s = db_at s.dbs s.selected_shard_id

abbrev pub migrations_of : Option DbMigrationStatus → List MigrationFileStatus
migrations_of none = []
migrations_of (some db) = or_else db.migrations []

-- The effect on `[viewing]`, after `viewing` is set.
unfoldable pub view_effect : Page → Option ViewTarget → Page
view_effect s none = record s { viewing = none; view_content = ""; view_error = none }
view_effect s (some t) = record s {
  viewing = some t;
  view_loading = true;
  view_error = none;
  pending = reading t ∷ s.pending;
  sent = migrations_file t.category t.version t.filename ∷ s.sent;
}

-- `openFile`
abbrev pub open_from : Option DbMigrationStatus → MigrationFileStatus → Page → Page
open_from none row s = s
open_from (some db) row s =
    view_effect s
      (some (record { category = db.category; version = row.version; filename = row.filename }))

unfoldable pub open_file : MigrationFileStatus → Page → Page
unfolding view_effect selected_db
open_file row s = open_from (selected_db s) row s

-- The end of the promise chain of a file.
unfoldable pub read_settled : Result MigrationFileContent → Page → Page
read_settled (ok r) s = record s { view_content = r.content; view_loading = false }
read_settled (err e) s = record s { view_error = some e; view_loading = false }
