-- ===== src/Api/Endpoints.antt =====
-- The endpoints: the request that each API function sends.
use future_was.Base.{ℕ, String, Option, none, some, List, [], ◌∷◌, template}
use future_was.Base.Int.{ℤ}
use future_was.Base.Decimal.{show_nat}
use future_was.Api.Types.{VersionCreateInput, Category, game, shard, CreateMigrationInput}
use future_was.Api.Query.{query_string}

pub data Method : Type 0 where
  get post delete : Method

-- A value in a JSON body. `JSON.stringify` writes a NaN as `null`.
pub data Json : Type 0 where
  text : String → Json
  number : ℤ → Json
  null : Json

pub record HttpRequest : Type 0 where
  pub method : Method
  pub url : String
  pub body : List (String × Json)

abbrev pub base : String
base = "/admin"

abbrev pub plain_get : String → HttpRequest
plain_get path = record { method = get; url = template (base ∷ path ∷ []); body = [] }

abbrev pub json_number : Option ℤ → Json
json_number none = null
json_number (some z) = number z

abbrev pub category_text : Category → String
category_text game = "game"
category_text shard = "shard"

-- `adminApi.info`
abbrev pub admin_info : HttpRequest
admin_info = plain_get "/info"

-- `clockApi.get`
abbrev pub clock_get : HttpRequest
clock_get = plain_get "/clock"

-- `clockApi.jump`
abbrev pub clock_jump : ℤ → String → HttpRequest
clock_jump add_second user = record {
  method = post;
  url = template (base ∷ "/clock/jump" ∷ []);
  body = ("add_second", number add_second) ∷ ("user", text user) ∷ [];
}

-- `versionApi.list`
abbrev pub version_list : HttpRequest
version_list = plain_get "/versions"

-- `versionApi.create`
abbrev pub version_create : VersionCreateInput → HttpRequest
version_create v = record {
  method = post;
  url = template (base ∷ "/version" ∷ []);
  body =
      ("client_version", text v.client_version)
      ∷ ("server_version", text v.server_version)
      ∷ ("app_id", text v.app_id)
      ∷ ("is_active", json_number v.is_active)
      ∷ ("update_flag", json_number v.update_flag)
      ∷ ("inspection_flag", json_number v.inspection_flag)
      ∷ ("catalog_filename", text v.catalog_filename)
      ∷ ("comment", text v.comment)
      ∷ [];
}

-- `versionApi.delete`
abbrev pub version_delete : ℕ → HttpRequest
version_delete idx = record {
  method = delete;
  url = template (base ∷ "/version/" ∷ show_nat idx ∷ []);
  body = [];
}

-- `versionApi.reload`, which spells its whole path.
abbrev pub version_reload : HttpRequest
version_reload = record { method = post; url = "/admin/design/reload"; body = [] }

-- `migrationsApi.status`
abbrev pub migrations_status : HttpRequest
migrations_status = plain_get "/migrations/status"

-- `migrationsApi.file`
abbrev pub migrations_file : Category → String → String → HttpRequest
migrations_file category version filename = plain_get (
    template (
      "/migrations/file?"
      ∷ query_string (
          ("category", category_text category) ∷ ("version", version) ∷ ("filename", filename) ∷ [])
      ∷ []))

-- `migrationsApi.create`
abbrev pub migrations_create : CreateMigrationInput → HttpRequest
migrations_create input = record {
  method = post;
  url = template (base ∷ "/migrations" ∷ []);
  body =
      ("category", text (category_text input.category))
      ∷ ("version", text input.version)
      ∷ ("name", text input.name)
      ∷ ("author", text input.author)
      ∷ ("up_sql", text input.up_sql)
      ∷ ("down_sql", text input.down_sql)
      ∷ [];
}
