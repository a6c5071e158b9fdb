-- ===== src/Reload/Tests.antt =====
-- Reloads at concrete inputs.
use future_was.Base.{
  arith, ℕ, String, str_eq, false, true, none, some, List, [], ◌∷◌, codes, map, ◌≡◌, refl,
}
use future_was.Base.Runs.{run_by}
use future_was.Base.Int.{pos}
use future_was.Api.{Version, Json, text, number}
use future_was.Server.Versions.{Database, Table, create_version, find_active}
use future_was.Reload.Deploy.{source_of, deployed_everywhere}
use future_was.Reload.{Server, Fleet, Event, change, trigger, deliver, step}
use future_was.Reload.Design.{Store, Source, get_by_client_version, load_active}
use future_was.Reload.Design.Serving.{load_active_serves}
use future_was.Reload.Maintenance.{ServerMaintenance, maintenance_middleware}
use future_was.Reload.Maintenance.Latest.{IsRight}
use future_was.Reload.Everywhere.{every_server_serves, every_server_closes}

abbrev row : String → String → String → Version
row app cv sv = record {
  idx = 1;
  client_version = cv;
  server_version = sv;
  app_id = app;
  is_active = 1;
  update_flag = 0;
  inspection_flag = 0;
  catalog_filename = "";
  comment = "";
  insert_time = "";
  update_time = "";
}

-- Two apps of the same client version, of which one has the newer server version.
abbrev source : Source String
source = record {
  active_rows = some (
      row "ios" "2.01.02" "2.01.02.00"
      ∷ row "google" "2.01.01" "2.01.02.00"
      ∷ row "ios" "2.01.01" "2.01.01.00"
      ∷ row "ios" "2.01.00" "2.01.00.00"
      ∷ []);
  load = λ sv. some sv;
}

abbrev empty : Store String
empty cv = none

newest_test : (load_active source empty).store "2.01.02" ≡ some "2.01.02.00"
unfolding load_active future_was.Reload.Design.group_rows
newest_test = refl

-- The older server version takes the client version that both have.
shared_test : (load_active source empty).store "2.01.01" ≡ some "2.01.01.00"
unfolding load_active future_was.Reload.Design.group_rows
shared_test = refl

third_test : (load_active source empty).store "2.01.00" ≡ none
unfolding load_active future_was.Reload.Design.group_rows
third_test = refl

load_active_serves_example :
    let r = load_active source empty in
    (r.fine ≡ true) × (get_by_client_version r.store "2.01.01" ≡ some "2.01.01.00")
load_active_serves_example = load_active_serves source empty "2.01.01"

abbrev server_of : {S : Type 0} → String → S → Server S
server_of id store = record { self_id = id; store = store; inbox = [] }

abbrev servers : List (Server (Store String))
servers = server_of "a" empty ∷ server_of "b" empty ∷ server_of "c" empty ∷ []

-- The second server reloads, then the first; the messages are read.
abbrev rest : {Env : Type 0} → List (Event Env)
rest = deliver 0 ∷ trigger 0 true ∷ deliver 1 ∷ deliver 1 ∷ deliver 2 ∷ deliver 0 ∷ deliver 2 ∷ []

every_server_serves_example :
    get_by_client_version (load_active source empty).store "2.01.01" ≡ some "2.01.01.00"
unfolding run_by step load_active future_was.Reload.Design.group_rows
every_server_serves_example =
    every_server_serves source 1 true rest servers 2 "2.01.01" refl refl (refl, (refl, tt)) tt refl
      refl

inboxes_test :
    let w : Fleet (Source String) (Store String) = record { env = source; servers = servers } in
    map (λ r. r.inbox) (run_by (step load_active) (trigger 1 true ∷ rest) w).servers
    ≡ [] ∷ [] ∷ [] ∷ []
unfolding run_by step load_active future_was.Reload.Design.group_rows
inboxes_test = refl

abbrev notice : ℕ → ℕ → ℕ → String → ServerMaintenance
notice version from till message = record {
  idx = version;
  server_type = 0;
  start_time = from;
  end_time = till;
  msg = message;
  maintenance_version = version;
  use_flag = 1;
  last_modifier = "";
  description = "";
}

abbrev notices : List ServerMaintenance
notices = notice 3 5000 6000 "later" ∷ notice 2 1000 2000 "now" ∷ notice 1 0 9000 "long" ∷ []

every_server_closes_example :
    IsRight 1500 notices (maintenance_middleware notices 1500 (codes "/game"))
unfolding run_by step
every_server_closes_example =
    every_server_closes notices 1 (deliver 0 ∷ []) (server_of "a" [] ∷ server_of "b" [] ∷ []) true
      1500 (codes "/game") 0 ((omega arith, (omega arith, tt)), ((omega arith, tt), (tt, tt))) refl
      refl refl (refl, tt) tt refl refl

-- A version that is created through the console, in a table with one row.
abbrev old_table : Table
old_table = record { rows = row "ios" "2.01.02" "2.01.02.00" ∷ []; next = 2 }

abbrev new_body : List (String × Json)
new_body =
    ("client_version", text "2.01.03")
    ∷ ("server_version", text "2.01.03.00")
    ∷ ("app_id", text "ios")
    ∷ ("is_active", number (pos 1))
    ∷ []

abbrev created : Version
created = record {
  idx = 2;
  client_version = "2.01.03";
  server_version = "2.01.03.00";
  app_id = "ios";
  is_active = 1;
  update_flag = 0;
  inspection_flag = 0;
  catalog_filename = "";
  comment = "";
  insert_time = "now";
  update_time = "now";
}

abbrev new_table : Table
new_table = record { rows = created ∷ old_table.rows; next = 3 }

abbrev database : Database
database = record { same = str_eq; answers = true; lost_is_kept = false; burns = true }

deployed_everywhere_example :
    get_by_client_version
      (load_active (source_of (λ rows. rows) (λ sv. some sv) new_table) empty).store
      "2.01.03"
    ≡ some "2.01.03.00"
unfolding run_by step create_version load_active find_active future_was.Reload.Design.group_rows
deployed_everywhere_example =
    deployed_everywhere (λ rows. rows) (λ sv. some sv) database "now" new_body created old_table
      new_table 1 true rest servers 0 refl refl (λ sv cv rows. refl) refl (λ sv other. ground arith)
      refl refl (refl, (refl, tt)) tt refl refl
