-- ===== src/Reload.antt =====
-- internal/design/syncer.go and internal/resource/syncer.go: the servers that hold data in memory and
-- tell one another to load it again. Both syncers have the same `Trigger` and `subscribe`; what they load is
-- a parameter.
pub mod Design
pub mod Maintenance
pub mod Converges
pub mod Everywhere
pub mod Deploy
mod Tests
use future_was.Base.{
  ℕ, zero, suc, String, str_eq, Bool, not, ◌&&◌, Option, none, some, List, [], ◌∷◌, ◌++◌, map,
  get_elem?, if◌then◌else◌,
}
use future_was.Base.Trim.{is_empty}

-- A server: its syncer's `selfID`, its store, and the payloads that its subscription has to read.
pub record Server (S : Type 0) : Type 0 where
  pub self_id : String
  pub store : S
  pub inbox : List String

-- What a load leaves of the store, and whether it has no error.
pub record Loaded (S : Type 0) : Type 0 where
  pub store : S
  pub fine : Bool

-- The servers, and the source that all of them load from.
pub record Fleet (Env S : Type 0) : Type 0 where
  pub env : Env
  pub servers : List (Server S)

pub data Event (Env : Type 0) : Type 0 where
  -- the source is changed
  change : Env → Event Env
  -- a request for a reload at the server of this place; whether the channel takes the message
  trigger : ℕ → Bool → Event Env
  -- the subscription of the server of this place reads a message
  deliver : ℕ → Event Env

module _ {S : Type 0} where
  abbrev pub enqueue : String → Server S → Server S
  enqueue payload s = record s { inbox = s.inbox ++ payload ∷ [] }

  -- `Publish`: every server gets the payload, its sender too.
  abbrev pub publish : String → List (Server S) → List (Server S)
  publish payload servers = map (enqueue payload) servers

  -- The server at a place, changed.
  abbrev pub change_at : (Server S → Server S) → ℕ → List (Server S) → List (Server S)
  change_at f i [] = []
  change_at f zero (s ∷ servers) = f s ∷ servers
  change_at f (suc i) (s ∷ servers) = s ∷ change_at f i servers

module _ {Env S : Type 0} (load : Env → S → Loaded S) where
  -- `LoadActive`, `LoadAll`
  abbrev pub reload : Env → Server S → Server S
  reload env s = record s { store = (load env s.store).store }

  -- The load of `Trigger`, and its message after a load that is fine.
  abbrev pub announce : Loaded S → Bool → Server S → List (Server S) → List (Server S)
  announce r published s servers =
      if r.fine && published then publish s.self_id servers else servers

  abbrev pub trigger_by : Env → Bool → ℕ → Option (Server S) → List (Server S) → List (Server S)
  trigger_by env published i none servers = servers
  trigger_by env published i (some s) servers =
      announce (load env s.store) published s (change_at (reload env) i servers)

  -- `Trigger`, at the server of a place.
  unfoldable pub trigger_at : Env → Bool → ℕ → List (Server S) → List (Server S)
  trigger_at env published i servers = trigger_by env published i (get_elem? servers i) servers

  -- A message that the server has sent itself is skipped.
  abbrev pub read_message : Env → String → Server S → Server S
  read_message env payload s =
      if str_eq payload s.self_id && not (is_empty s.self_id) then s else reload env s

  abbrev pub read_next : Env → List String → Server S → Server S
  read_next env [] s = s
  read_next env (payload ∷ rest) s = read_message env payload (record s { inbox = rest })

  -- One round of the loop of `subscribe`.
  abbrev pub receive : Env → Server S → Server S
  receive env s = read_next env s.inbox s

  unfoldable pub step : Event Env → Fleet Env S → Fleet Env S
  unfolding trigger_at
  step (change env) w = record w { env = env }
  step (trigger i published) w = record w { servers = trigger_at w.env published i w.servers }
  step (deliver i) w = record w { servers = change_at (receive w.env) i w.servers }

-- The handlers POST /admin/design/reload and POST /admin/resource/reload: the status, after `Trigger`.
abbrev pub reload_status : {S : Type 0} → Loaded S → Bool → ℕ
reload_status r published = if r.fine && published then 200 else 500
