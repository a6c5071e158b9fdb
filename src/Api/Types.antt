-- ===== src/Api/Types.antt =====
-- The types of client.ts. A JavaScript number that the console counts with is an ℕ or a ℤ; one that
-- a number field may leave as NaN is an `Option ℤ`.
use future_was.Base.{ℕ, String, Option, List, Bool}
use future_was.Base.Int.{ℤ}

pub data Stage : Type 0 where
  local dev qa staging live : Stage

pub record AdminInfo : Type 0 where
  pub stage : Stage

pub record ClockInfo : Type 0 where
  pub offset_sec : ℤ
  pub offset_human : String
  pub real_time : String
  pub logical_time : String

pub record ClockJumpResult : Type 0 where
  pub add_second : ℤ
  pub logical_time : String

pub record Version : Type 0 where
  pub idx : ℕ
  pub client_version : String
  pub server_version : String
  pub app_id : String
  pub is_active : ℕ
  pub update_flag : ℕ
  pub inspection_flag : ℕ
  pub catalog_filename : String
  pub comment : String
  pub insert_time : String
  pub update_time : String

pub record VersionCreateInput : Type 0 where
  pub client_version : String
  pub server_version : String
  pub app_id : String
  pub is_active : Option ℤ
  pub update_flag : Option ℤ
  pub inspection_flag : Option ℤ
  pub catalog_filename : String
  pub comment : String

pub record MigrationFileStatus : Type 0 where
  pub version : String
  pub filename : String
  pub version_id : ℕ
  pub applied : Bool

pub data Category : Type 0 where
  game shard : Category

pub record DbMigrationStatus : Type 0 where
  pub label : String
  pub category : Category
  pub shard_id : ℕ
  pub db_name : String
  pub total : ℕ
  pub pending : ℕ
  pub migrations : Option (List MigrationFileStatus)
  pub error : Option String

pub record MigrationFileContent : Type 0 where
  pub path : String
  pub content : String

pub record CreateMigrationInput : Type 0 where
  pub category : Category
  pub version : String
  pub name : String
  pub author : String
  pub up_sql : String
  pub down_sql : String
