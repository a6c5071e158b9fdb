-- ===== src/MigrationsPage/Tests.antt =====
-- Sessions of the migrations page at concrete inputs.
use future_was.Base.{
  ◌≡◌, refl, bit, count, ◌<◌, is_white, true, false, none, some, List, [], ◌∷◌, ◌++◌, All,
}
use future_was.Base.Results.{Result, ok}
use future_was.Base.Trim.{trim}
use future_was.Base.Regex.{matches}
use future_was.Api.{
  local, game, shard, MigrationFileStatus, DbMigrationStatus, MigrationFileContent,
}
use future_was.MigrationForm.{refusal}
use future_was.MigrationsPage.{ViewTarget, Modal, Page, initial, preferred}
use future_was.MigrationsPage.Session.{
  statuses, informed, read, created, Event, press_refresh, double_click, close_viewer, press_new,
  close_modal, press_submit, type_in, answer, run, step,
}
use future_was.MigrationsPage.Session.FormEdit.{version, name, author}
use future_was.MigrationsPage.LocalOnly.{is_post, is_status, posts_only_local}
use future_was.MigrationsPage.Creation.{Allowed, sent-Allowed}
use future_was.MigrationsPage.Coherence.{Shows}
use future_was.MigrationsPage.Viewer.{late_content_is_shown, patient_viewer}
use future_was.Base.Results.{err}
use future_was.MigrationsPage.{creating}
use future_was.MigrationsPage.Errors.{IsShown, Kept, refusal-IsShown}
use future_was.MigrationsPage.Modals.{late_success_closes}

abbrev first_file : MigrationFileStatus
first_file = record {
  version = "";
  filename = "20260101000000_kim_init.sql";
  version_id = 20260101000000;
  applied = true;
}

abbrev second_file : MigrationFileStatus
second_file = record {
  version = "2.01.02";
  filename = "20260301000000_lee_add_index.sql";
  version_id = 20260301000000;
  applied = false;
}

abbrev shard_db : DbMigrationStatus
shard_db = record {
  label = "ShardDB[was_2]";
  category = shard;
  shard_id = 2;
  db_name = "was_2";
  total = 0;
  pending = 0;
  migrations = none;
  error = none;
}

abbrev game_db : DbMigrationStatus
game_db = record {
  label = "GameDB[was_1]";
  category = game;
  shard_id = 1;
  db_name = "was_1";
  total = 2;
  pending = 1;
  migrations = some (first_file ∷ second_file ∷ []);
  error = none;
}

abbrev first_content : MigrationFileContent
first_content = record { path = "game/20260101000000_kim_init.sql"; content = "-- first" }

abbrev start : List Event
start =
    answer 0 (informed (ok (record { stage = local })))
    ∷ answer 0 (statuses (ok (shard_db ∷ game_db ∷ [])))
    ∷ []

-- The page at the local stage with both databases, at the tab of the game.
abbrev ready : Page
ready = run start (initial (some "kim"))

abbrev filled_in : List Event
filled_in =
    press_new
    ∷ type_in (version "2.01.02")
    ∷ type_in (name "add_index")
    ∷ type_in (author " lee ")
    ∷ []

abbrev filled_page : Page
filled_page = run filled_in ready

patient_viewer_example :
    let disk : ViewTarget → Result MigrationFileContent = λ _. ok first_content in
    let s =
      run
        (start ++ double_click first_file ∷ answer 0 (read (ok first_content)) ∷ [])
        (initial (some "kim")) in
    Shows disk (ok first_content) s.view_content s.view_error
unfolding initial run step preferred
patient_viewer_example =
    patient_viewer (λ _. ok first_content) (some "kim")
      (start ++ double_click first_file ∷ answer 0 (read (ok first_content)) ∷ [])
      (record { category = game; version = ""; filename = "20260101000000_kim_init.sql" })
      (tt, (tt, (refl, ((λ t rest e. refl), tt)))) refl refl

sent-Allowed_example : All Allowed (run (filled_in ++ press_submit ∷ []) ready).sent
unfolding initial run step preferred
sent-Allowed_example = sent-Allowed (some "kim") (start ++ filled_in ++ press_submit ∷ [])

posts_only_local_example :
    let s = run (start ++ filled_in ++ press_submit ∷ press_refresh ∷ []) (initial (some "kim")) in
    (count is_status s.pending ≡ bit s.busy) × (0 < count is_post s.sent → s.stage ≡ some local)
posts_only_local_example =
    posts_only_local (some "kim") (start ++ filled_in ++ press_submit ∷ press_refresh ∷ [])

late_content_is_shown_example :
    let t =
      run
        (double_click first_file
          ∷ close_viewer
          ∷ double_click second_file
          ∷ answer 1 (read (ok first_content))
          ∷ [])
        ready in
    (t.viewing
      ≡ some (record {
        category = game;
        version = "2.01.02";
        filename = "20260301000000_lee_add_index.sql";
      }))
    × (t.view_content ≡ "-- first")
    × (t.view_loading ≡ false)
    × (t.view_error ≡ none)
unfolding initial run step preferred
late_content_is_shown_example =
    late_content_is_shown ready game_db first_file second_file first_content 1 refl refl refl

abbrev filled_modal : Modal
filled_modal = record {
  mount = 0;
  form = record {
    category = game;
    version = "2.01.02";
    name = "add_index";
    author = " lee ";
    up_sql = "";
    down_sql = "";
    submitting = false;
    error = none;
  };
}

late_success_closes_example :
    let before = run (press_submit ∷ close_modal ∷ press_new ∷ []) filled_page in
    let t =
      run (type_in (name "another") ∷ answer 0 (created (ok "game/2.01.02/a.sql")) ∷ []) before in
    (t.modal ≡ none) × (t.created ≡ some "game/2.01.02/a.sql")
unfolding initial run step preferred refusal matches trim is_white
late_success_closes_example =
    late_success_closes filled_page filled_modal (name "another" ∷ []) "game/2.01.02/a.sql" refl
      refl refl refl

refusal-IsShown_example :
    let s = run (press_submit ∷ []) filled_page in
    let t = step (answer 0 (created (err "Error: 409"))) s in
    IsShown (creating 0 " lee ") "Error: 409" s t × Kept s t
unfolding initial run step preferred refusal matches trim is_white
refusal-IsShown_example =
    refusal-IsShown 0 (created (err "Error: 409")) (run (press_submit ∷ []) filled_page)
      (creating 0 " lee ") [] "Error: 409" refl refl refl
