-- ===== src/Reload/Maintenance.antt =====
-- internal/resource (`ActiveMaintenance`, the loader, `LoadAll`), internal/model/server_maintenance.go and
-- internal/middleware/maintenance.go: which requests are refused while a maintenance lasts. The query is a
-- parameter; paths are lists of code points.
pub mod Latest
use future_was.Base.{
  ℕ, ◌%◌, String, Bool, true, false, ◌&&◌, ◌||◌, Option, none, some, List, [], ◌∷◌, codes, find,
  leb, ltb, is_some, ◌==◌, if◌then◌else◌,
}
use future_was.Server.Ui.{after, same}
use future_was.Reload.{Loaded}

pub record ServerMaintenance : Type 0 where
  pub idx : ℕ
  pub server_type : ℕ
  pub start_time : ℕ
  pub end_time : ℕ
  pub msg : String
  pub maintenance_version : ℕ
  pub use_flag : ℕ
  pub last_modifier : String
  pub description : String

-- `m.StartTime <= now && now < m.EndTime`
abbrev pub covers : ℕ → ServerMaintenance → Bool
covers now m = leb m.start_time now && ltb now m.end_time

unfoldable pub active_maintenance : ℕ → List ServerMaintenance → Option ServerMaintenance
active_maintenance now rows = find (covers now) rows

-- `LoadAll`: what the query of the active rows answers is the new snapshot, unless it fails.
abbrev pub load_all :
    Option (List ServerMaintenance) → List ServerMaintenance → Loaded (List ServerMaintenance)
load_all none snapshot = record { store = snapshot; fine = false }
load_all (some rows) snapshot = record { store = rows; fine = true }

-- `strings.HasPrefix`
abbrev pub has_prefix : List ℕ → List ℕ → Bool
has_prefix prefix path = is_some (after prefix path)

-- The paths that a maintenance does not close.
abbrev pub is_exempt : List ℕ → Bool
is_exempt path =
    has_prefix (codes "/admin/") path
    || same (codes "/") path
    || same (codes "/health") path
    || same (codes "/favicon.ico") path

-- The next handler, or the game error `CodeMaintenance` with the message.
pub data Gate : Type 0 where
  next : Gate
  refused : ℕ → String → Gate

abbrev pub code_maintenance : ℕ
code_maintenance = 5001

abbrev pub gate_by : Option ServerMaintenance → Gate
gate_by none = next
gate_by (some m) = refused code_maintenance m.msg

-- `MaintenanceMiddleware`, at the seconds `unix` of the clock.
unfoldable pub maintenance_middleware : List ServerMaintenance → ℕ → List ℕ → Gate
unfolding active_maintenance
maintenance_middleware snapshot unix path =
    if is_exempt path then next else gate_by (active_maintenance (unix % 4294967296) snapshot)
