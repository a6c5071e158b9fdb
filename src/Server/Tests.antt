-- ===== src/Server/Tests.antt =====
-- The handlers of the server at concrete inputs.
use future_was.Base.{
  ◌⊎◌, ℕ, String, true, false, none, some, List, [], ◌∷◌, ◌++◌, codes, is_white, count, ◌≡◌, ◌≢◌,
  ◌↔◌, refl, if◌then◌else◌,
}
use future_was.Base.Int.{pos}
use future_was.Base.Regex.{all_chars, matches}
use future_was.Base.Trim.{trim}
use future_was.Base.Results.{ok}
use future_was.Api.{game, local, MigrationFileStatus}
use future_was.MigrationForm.{Form, refusal, create_input}
use future_was.MigrationsPage.View.{failed, all_applied, badge, applied_count}
use future_was.Api.{query_string}
use future_was.Server.Query.{parse_query}
use future_was.Server.FileRequest.{query_of, get_file, file_request_is_read}
use future_was.Api.{migrations_file}
use future_was.Server.Query.Roundtrip.{parse_query-query_string}
use future_was.Server.Files.{
  Disk, sanitize_author, create_migration_file, post_migrations, file_path, is_nil,
}
use future_was.Server.Agreement.{created_file_opens, checked_form_status}
use future_was.Server.Containment.{file_path-is_contained, not_separator}
use future_was.Server.Ui.{Stat, missing, file, same, index_html}
use future_was.Server.Status.{db_status, tab_counts}

abbrev form_by : String → Form
form_by by = record {
  category = game;
  version = "2.01.02";
  name = "add_index";
  author = by;
  up_sql = "";
  down_sql = "";
  submitting = false;
  error = none;
}

abbrev empty_disk : Disk
empty_disk = record { can_mkdir = true; exists = λ _. false; can_write = true }

abbrev stamp : List ℕ
stamp = codes "20260401120000"

created_file_opens_example :
    (filename below : List ℕ) × (file_path (codes "game") (codes "2.01.02") filename ≡ some below)
    × (codes "sql/migrations/game/2.01.02/20260401120000_lee_add_index.sql"
        ≡ codes "sql/migrations/" ++ below)
unfolding refusal create_migration_file create_input matches trim is_white
created_file_opens_example =
    created_file_opens empty_disk stamp
      (codes "sql/migrations/game/2.01.02/20260401120000_lee_add_index.sql") (form_by " lee ") refl
      refl refl refl

-- An author in Hangul.
checked_form_status_example :
    (post_migrations local empty_disk stamp (create_input (form_by "김")) ≡ 400)
    ↔ (sanitize_author (codes "김") ≡ [])
unfolding refusal matches trim is_white
checked_form_status_example = checked_form_status empty_disk stamp (form_by "김") refl

file_path-is_contained_example :
    ((codes "game" ≡ codes "game") ⊎ (codes "game" ≡ codes "shard"))
    × (all_chars not_separator (codes "2.01.02") ≡ true)
    × (all_chars not_separator (codes "20260401120000_lee_add_index.sql") ≡ true)
    × (codes "game/2.01.02/20260401120000_lee_add_index.sql"
        ≡ codes "game"
          ++ (47
              ∷ ((if is_nil (codes "2.01.02") then [] else codes "2.01.02" ++ (47 ∷ []))
                  ++ codes "20260401120000_lee_add_index.sql")))
unfolding file_path matches
file_path-is_contained_example =
    file_path-is_contained (codes "game") (codes "2.01.02")
      (codes "20260401120000_lee_add_index.sql")
      (codes "game/2.01.02/20260401120000_lee_add_index.sql") refl

abbrev one_pending : List MigrationFileStatus
one_pending =
    record { version = ""; filename = "a.sql"; version_id = 1; applied = true }
    ∷ record { version = ""; filename = "b.sql"; version_id = 2; applied = false }
    ∷ []

tab_counts_example :
    let db = db_status 2 "was_2" (ok one_pending) in
    (applied_count db ≡ pos 1)
    × ((badge db ≡ all_applied) ↔ (count (λ (r : MigrationFileStatus). r.applied) one_pending ≡ 2))
    × (badge db ≢ failed)
tab_counts_example = tab_counts 2 "was_2" one_pending

file_request_is_read_example :
    get_file
      (query_of (codes (migrations_file game "2.01.02" "20260401120000_lee_add_index.sql").url))
    ≡ file_path (codes "game") (codes "2.01.02") (codes "20260401120000_lee_add_index.sql")
file_request_is_read_example =
    file_request_is_read game "2.01.02" "20260401120000_lee_add_index.sql"

query_test :
    parse_query (codes (query_string (("category", "game") ∷ ("version", "a b&=+%é") ∷ [])))
    ≡ (codes "category", codes "game") ∷ (codes "version", codes "a b&=+%" ++ (195 ∷ 169 ∷ [])) ∷ []
query_test = parse_query-query_string (("category", "game") ∷ ("version", "a b&=+%é") ∷ [])

-- A build with its first page alone.
abbrev one_page : List ℕ → Stat
one_page name = if same name index_html then file else missing
