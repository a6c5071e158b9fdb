-- ===== src/MigrationsPage/View.antt =====
-- What MigrationsPage.tsx renders from its state, beside constant markup.
use future_was.Base.{
  ℕ, String, Bool, false, not, Option, none, some, List, [], ◌∷◌, map, length, ltb, ◌==◌,
  if◌then◌else◌, template, is_some,
}
use future_was.Base.Int.{ℤ, sub_ℕ}
use future_was.Base.Decimal.{show_nat, show_int}
use future_was.Base.Trim.{is_empty}
use future_was.Api.{
  Stage, local, dev, qa, staging, live, category_text, MigrationFileStatus, DbMigrationStatus,
}
use future_was.DataTable.{vertical, Props}
use future_was.MigrationsPage.{ViewTarget, Page, selected_db, migrations_of}
use future_was.MigrationsPage.Session.{is_local}

abbrev pub stage_text : Stage → String
stage_text local = "local"
stage_text dev = "dev"
stage_text qa = "qa"
stage_text staging = "staging"
stage_text live = "live"

-- A text that is there and not empty.
abbrev pub given : Option String → Option String
given none = none
given (some String.[]) = none
given (some (String.◌∷◌ c s)) = some (String.◌∷◌ c s)

-- The mark of a tab.
pub data Badge : Type 0 where
  failed all_applied : Badge
  waiting : ℕ → Badge

unfoldable pub badge : DbMigrationStatus → Badge
badge db =
    if is_some (given db.error)
    then failed
    else if ltb 0 db.pending
    then waiting db.pending
    else all_applied

pub record Tab : Type 0 where
  pub key : String
  pub active : Bool
  pub label : String
  pub progress : String
  pub badge : Badge

abbrev pub is_at : Option ℕ → ℕ → Bool
is_at none id = false
is_at (some n) id = id == n

-- `{db.total - db.pending}`
abbrev pub applied_count : DbMigrationStatus → ℤ
applied_count db = sub_ℕ db.total db.pending

unfoldable pub tab : Option ℕ → DbMigrationStatus → Tab
unfolding badge
tab selected db = record {
  key = template (category_text db.category ∷ "-" ∷ show_nat db.shard_id ∷ []);
  active = is_at selected db.shard_id;
  label = db.label;
  progress = template (show_int (applied_count db) ∷ "/" ∷ show_nat db.total ∷ " applied" ∷ []);
  badge = badge db;
}

-- The texts of a row, by column.
pub record Cells : Type 0 where
  pub version : String
  pub filename : String
  pub version_id : String
  pub state : String

unfoldable pub cells : MigrationFileStatus → Cells
cells row = record {
  version = if is_empty row.version then "init" else row.version;
  filename = row.filename;
  version_id = show_nat row.version_id;
  state = if row.applied then "applied" else "pending";
}

-- The list of files: the error of the database, or the table.
pub data Files : Type 0 where
  failure : String → Files
  table : Props MigrationFileStatus → Files

abbrev pub files_of : Option String → Props MigrationFileStatus → Files
files_of none props = table props
files_of (some e) props = failure (template ("✗ " ∷ e ∷ []))

abbrev pub error_of : Option DbMigrationStatus → Option String
error_of none = none
error_of (some db) = given db.error

unfoldable pub table_props : Page → Props MigrationFileStatus
unfolding selected_db
table_props s = record {
  rows = migrations_of (selected_db s);
  enable_selection = false;
  selection = none;
  controlled = false;
  get_row_id = some (λ r. show_nat r.version_id);
  resize = some vertical;
  initial_height = 420;
  min_height = 120;
  loading = not (is_some s.dbs);
  loading_text = "불러오는 중…";
  empty_text = "마이그레이션 파일이 없습니다";
}

-- What the viewer shows.
pub data ViewerBody : Type 0 where
  loading : ViewerBody
  error : String → ViewerBody
  content : String → ViewerBody

abbrev pub loaded_body : Option String → String → ViewerBody
loaded_body none text = content text
loaded_body (some e) text = error (template ("✗ " ∷ e ∷ []))

pub record Viewer : Type 0 where
  pub place : String
  pub filename : String
  pub body : ViewerBody

abbrev pub viewer_of : Option ViewTarget → Page → Option Viewer
viewer_of none s = none
viewer_of (some t) s = some (record {
  place = template (
      category_text t.category
      ∷ (if is_empty t.version then " / (root)" else template (" / " ∷ t.version ∷ []))
      ∷ []);
  filename = t.filename;
  body = if s.view_loading then loading else loaded_body (given s.view_error) s.view_content;
})

pub record View : Type 0 where
  pub stage_note : Option String
  pub new_button : Bool
  pub refresh_disabled : Bool
  pub local_only_note : Option String
  pub error : Option String
  pub tabs : List Tab
  pub heading : String
  pub files : Files
  pub modal_open : Bool
  pub toast : Option String
  pub viewer : Option Viewer

abbrev pub stage_note_of : Option Stage → Option String
stage_note_of none = none
stage_note_of (some g) = some (template ("stage=" ∷ stage_text g ∷ []))

abbrev pub elsewhere : Option Stage → Option String
elsewhere none = none
elsewhere (some g) = if is_local (some g) then none else some (stage_text g)

abbrev pub tabs_of : Option (List DbMigrationStatus) → Option ℕ → List Tab
tabs_of none id = []
tabs_of (some dbs) id = map (tab id) dbs

abbrev pub heading_of : Option DbMigrationStatus → String
heading_of none = "마이그레이션 파일"
heading_of (some db) =
    template (db.label ∷ " · 마이그레이션 파일 " ∷ show_nat (length (migrations_of (some db))) ∷ "건" ∷ [])

unfoldable pub view : Page → View
unfolding selected_db table_props tab
view s = record {
  stage_note = stage_note_of s.stage;
  new_button = is_local s.stage;
  refresh_disabled = s.busy;
  local_only_note = elsewhere s.stage;
  error = given s.error;
  tabs = tabs_of s.dbs s.selected_shard_id;
  heading = heading_of (selected_db s);
  files = files_of (error_of (selected_db s)) (table_props s);
  modal_open = is_some s.modal;
  toast = given s.created;
  viewer = viewer_of s.viewing s;
}
