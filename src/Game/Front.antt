-- ===== src/Game/Front.antt =====
-- internal/handler/dispatch.go up to the unit of work, with `VerifyAndRefresh` of internal/cache/user_session.go:
-- which requests are handled. What protobuf reads of the body, what Redis answers and whether the lock is
-- acquired are parameters.
pub mod Admits
mod Tests
use future_was.Base.{
  ℕ, String, str_eq, Bool, true, false, ◌||◌, ◌&&◌, not, Option, none, some, List, if◌then◌else◌,
  ◌==◌,
}
use future_was.Base.Trim.{is_empty}
use future_was.Game.Items.{Item, Table, Call}
use future_was.Game.Dispatch.{CommitFaults, Response, dispatch}

-- The envelope of a request.
pub record GameRequest : Type 0 where
  pub action : ℕ
  pub user_id : ℕ
  pub client_version : String
  pub session_token : String
  pub body : List ℕ

-- An entry of the registry: whether it needs no session, and what its handler does with a body.
pub record ActionDef : Type 0 where
  pub no_auth : Bool
  pub handler : List ℕ → List Call

-- The designs that the items need: the type of an item.
abbrev pub Catalog : Type 0
Catalog = ℕ → Option ℕ

-- What a request meets: its body as it could be read, the registry, the store of the designs, the token
-- that Redis has for a user, or no answer, and whether a lock is acquired.
pub record Gateway : Type 0 where
  pub read : Option (Option GameRequest)
  pub registry : ℕ → Option ActionDef
  pub catalogs : String → Option Catalog
  pub stored_token : ℕ → Option (Option String)
  pub acquires : ℕ → Bool

-- `verifyAndRefreshScript`: whether the token is the stored one.
abbrev pub script_result : String → Option String → Bool
script_result token none = false
script_result token (some stored) = str_eq stored token

abbrev pub script_answer : String → Option (Option String) → Option Bool
script_answer token none = none
script_answer token (some stored) = some (script_result token stored)

-- `VerifyAndRefresh`: none is an error of Redis.
abbrev pub verify_and_refresh : String → Option (Option String) → Option Bool
verify_and_refresh token answer = if is_empty token then some false else script_answer token answer

module _ (shard : ℕ) (f : CommitFaults) (now : ℕ) (g : Gateway) (t : Table)
    (cache : Option (List Item)) where
  -- `SendGameError` before the unit of work is there.
  abbrev pub game_error : ℕ → Response
  game_error code = record { table = t; cache = cache; code = code }

  abbrev pub locked : GameRequest → ActionDef → Catalog → Response
  unfolding dispatch
  locked req def catalog =
      if not (req.user_id == 0) && not (g.acquires req.user_id)
      then game_error 429
      else dispatch shard f catalog now req.user_id (def.handler req.body) t cache

  abbrev pub verified : Option Bool → GameRequest → ActionDef → Catalog → Response
  verified none req def catalog = game_error 500
  verified (some false) req def catalog = game_error 401
  verified (some true) req def catalog = locked req def catalog

  abbrev pub authenticated : GameRequest → ActionDef → Catalog → Response
  authenticated req def catalog =
      if def.no_auth
      then locked req def catalog
      else if req.user_id == 0 || is_empty req.session_token
      then game_error 401
      else verified (verify_and_refresh req.session_token (g.stored_token req.user_id)) req def
          catalog

  abbrev pub routed : GameRequest → ActionDef → Option Catalog → Response
  routed req def none = game_error 4001
  routed req def (some catalog) = authenticated req def catalog

  abbrev pub looked_up : GameRequest → Option ActionDef → Response
  looked_up req none = game_error 400
  looked_up req (some def) = routed req def (g.catalogs req.client_version)

  abbrev pub opened : Option (Option GameRequest) → Response
  opened none = game_error 400
  opened (some none) = game_error 400
  opened (some (some req)) = looked_up req (g.registry req.action)

  -- `dispatch`, from the body of the request on.
  unfoldable pub dispatch_body : Response
  dispatch_body = opened g.read
