-- ===== src/MigrationsPage/Viewer.antt =====
-- The viewer of a file: what it shows, and what a late answer does to it.
use future_was.Base.{ℕ, String, false, Option, none, some, List, [], ◌∷◌, ◌≡◌, arith}
use future_was.Base.Results.{Result, ok}
use future_was.Api.{MigrationFileContent, MigrationFileStatus, DbMigrationStatus}
use future_was.MigrationsPage.{ViewTarget, Page, initial, selected_db}
use future_was.MigrationsPage.Session.{read, Event, double_click, close_viewer, answer, step, run}
use future_was.MigrationsPage.Coherence.{
  target, Shows, ArePatient, initial-IsCoherent, run-IsCoherent,
}

-- A file is opened and closed before it arrives, and a second one is opened. When the first one
-- arrives, the viewer names the second file and shows the content of the first as loaded.
pub late_content_is_shown :
    (s : Page) (db : DbMigrationStatus) (row₁ row₂ : MigrationFileStatus) (r : MigrationFileContent)
    (id : ℕ)
    → s.selected_shard_id ≡ some id
    → selected_db s ≡ some db
    → s.viewing ≡ none
    → let t =
        run
          (double_click row₁ ∷ close_viewer ∷ double_click row₂ ∷ answer 1 (read (ok r)) ∷ [])
          s in
      (t.viewing ≡ some (target db row₂))
      × (t.view_content ≡ r.content)
      × (t.view_loading ≡ false)
      × (t.view_error ≡ none)
unfolding run step
late_content_is_shown s db row₁ row₂ r id tab shown closed = ground arith

-- If the operator opens and closes no file while one is loading, the viewer shows the file that it
-- names once it has loaded: its content, or the error of the server for it.
pub patient_viewer :
    (disk : ViewTarget → Result MigrationFileContent) (storage : Option String) (es : List Event)
    (t : ViewTarget)
    → ArePatient disk es (initial storage)
    → (run es (initial storage)).viewing ≡ some t
    → (run es (initial storage)).view_loading ≡ false
    → Shows disk
        (disk t)
        (run es (initial storage)).view_content
        (run es (initial storage)).view_error
patient_viewer disk storage es t patient open_t loaded =
    (run-IsCoherent disk es (initial storage) patient (initial-IsCoherent disk storage)).faithful t
      open_t loaded
