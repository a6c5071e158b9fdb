-- ===== src/MigrationForm.antt =====
-- web/admin/src/pages/MigrationsPage.tsx, the component `CreateMigrationModal`: its state, its
-- checks and `onSubmit` up to the `await`.
pub mod Patterns
mod Tests
use future_was.Base.{
  ℕ, String, Bool, true, false, not, ◌&&◌, ◌||◌, Option, none, some, codes, leb, ◌==◌,
  if◌then◌else◌,
}
use future_was.Base.Decimal.{is_digit}
use future_was.Base.Regex.{Regex, one, seq, star, plus, matches}
use future_was.Base.Trim.{trim, is_empty}
use future_was.Api.{Category, game, shard, CreateMigrationInput}

pub record Form : Type 0 where
  pub category : Category
  pub version : String
  pub name : String
  pub author : String
  pub up_sql : String
  pub down_sql : String
  pub submitting : Bool
  pub error : Option String

-- `localStorage.getItem(AUTHOR_STORAGE_KEY) ?? ''`
abbrev pub stored_author : Option String → String
stored_author none = ""
stored_author (some author) = author

unfoldable pub new_form : Option String → Form
new_form storage = record {
  category = game;
  version = "";
  name = "";
  author = stored_author storage;
  up_sql = "";
  down_sql = "";
  submitting = false;
  error = none;
}

abbrev pub digit : Regex
digit = one is_digit

abbrev pub dot : Regex
dot = one (λ c. c == 46)

abbrev pub is_name_start : ℕ → Bool
is_name_start c = (leb 97 c && leb c 122) || is_digit c

abbrev pub is_name_char : ℕ → Bool
is_name_char c = is_name_start c || c == 95

-- `/^\d+\.\d{2}\.\d{2}$/`
abbrev pub version_re : Regex
version_re = seq (plus digit) (seq dot (seq digit (seq digit (seq dot (seq digit digit)))))

-- `/^[a-z0-9][a-z0-9_]*$/`
abbrev pub name_re : Regex
name_re = seq (one is_name_start) (star (one is_name_char))

-- The first check that fails.
unfoldable pub refusal : Form → Option String
refusal f =
    if not (matches version_re (codes f.version))
    then some "버전 형식 오류 — x.yy.zz (예: 2.01.02)"
    else if not (matches name_re (codes f.name))
    then some "이름은 snake_case 만 허용 (예: add_account_last_seen)"
    else if is_empty (trim f.author)
    then some "작업자 명시 필요"
    else none

-- What is sent.
unfoldable pub create_input : Form → CreateMigrationInput
create_input f = record {
  category = f.category;
  version = f.version;
  name = f.name;
  author = trim f.author;
  up_sql = f.up_sql;
  down_sql = f.down_sql;
}

-- `onSubmit` up to its `await`: the form, and the input to send if every check passes.
abbrev pub submitted : Option String → Form → Form × Option CreateMigrationInput
submitted (some message) f = (record f { error = some message }, none)
submitted none f = (record f { error = none; submitting = true }, some (create_input f))

unfoldable pub on_submit : Form → Form × Option CreateMigrationInput
unfolding refusal create_input
on_submit f = submitted (refusal f) f

-- The browser submits no form whose button is disabled or whose required input is empty.
abbrev pub can_submit : Form → Bool
can_submit f = not (f.submitting || is_empty f.author || is_empty f.version || is_empty f.name)
