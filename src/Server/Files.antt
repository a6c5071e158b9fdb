-- ===== src/Server/Files.antt =====
-- sql/migrations/create.go, and in router/admin.go the handlers of POST /migrations and
-- GET /migrations/file. Texts are lists of code points; the file system is a parameter.
use future_was.Base.{
  ℕ, ◌+◌, Bool, true, false, not, ◌&&◌, ◌||◌, Option, none, some, List, [], ◌∷◌, ◌++◌, codes, leb,
  ◌==◌, if◌then◌else◌,
}
use future_was.Base.Decimal.{is_digit}
use future_was.Base.Regex.{Regex, one, seq, star, plus, times, literal, nothing, matches}
use future_was.Server.Ui.{same}
use future_was.Api.{Category, category_text, Stage, local, CreateMigrationInput}

abbrev pub is_snake_start : ℕ → Bool
is_snake_start c = (leb 97 c && leb c 122) || is_digit c

abbrev pub is_snake : ℕ → Bool
is_snake c = is_snake_start c || c == 95

-- `VersionPattern`, and `versionRE` of the file handler
abbrev pub version_pattern : Regex
version_pattern = seq (plus (one is_digit)) (
    literal (46 ∷ [])
      (times 2 (one is_digit) (literal (46 ∷ []) (seq (one is_digit) (one is_digit)))))

-- `NamePattern`
abbrev pub name_pattern : Regex
name_pattern = seq (one is_snake_start) (star (one is_snake))

-- `filenameRE`: `^\d{14}_[a-z0-9_]+\.sql$`
abbrev pub filename_re : Regex
filename_re =
    times 14 (one is_digit)
      (literal (95 ∷ []) (seq (plus (one is_snake)) (literal (codes ".sql") nothing)))

-- `strings.ToLower` of a code point, as far as the result can be kept by `sanitize_author`: two
-- letters that are not ASCII have a lower case that is.
abbrev pub to_lower : ℕ → ℕ
to_lower c =
    if leb 65 c && leb c 90
    then c + 32
    else if c == 0x212a
    then 107
    else if c == 0x130
    then 105
    else c

abbrev pub is_alnum : ℕ → Bool
is_alnum c = (leb 97 c && leb c 122) || is_digit c

-- `SanitizeAuthor`
unfoldable pub sanitize_author : List ℕ → List ℕ
sanitize_author [] = []
sanitize_author (r ∷ s) =
    let rest = sanitize_author s in
    let c = to_lower r in
    if is_alnum c then c ∷ rest else if c == 95 || c == 45 then 95 ∷ rest else rest

pub data CreateError : Type 0 where
  invalid_category invalid_version invalid_name author_required file_exists : CreateError
  mkdir_failed write_failed : CreateError

pub data Created : Type 0 where
  made : List ℕ → Created
  refused : CreateError → Created

-- What the file system does: whether the directory can be made, whether a path is taken, and whether
-- the file can be written.
pub record Disk : Type 0 where
  pub can_mkdir : Bool
  pub exists : List ℕ → Bool
  pub can_write : Bool

abbrev pub filename_of : List ℕ → List ℕ → List ℕ → List ℕ
filename_of ts author name = ts ++ (95 ∷ (author ++ (95 ∷ (name ++ codes ".sql"))))

abbrev pub path_of : Category → List ℕ → List ℕ → List ℕ
path_of category version filename =
    codes "sql/migrations/"
    ++ (codes (category_text category) ++ (47 ∷ (version ++ (47 ∷ filename))))

-- What follows once the author is sanitised, with the time stamp `ts`.
abbrev pub create_as : Disk → List ℕ → CreateMigrationInput → List ℕ → Created
create_as disk ts input [] = refused author_required
create_as disk ts input (c ∷ author) =
    let path =
      path_of input.category (codes input.version)
        (filename_of ts (c ∷ author) (codes input.name)) in
    if not disk.can_mkdir
    then refused mkdir_failed
    else if disk.exists path
    then refused file_exists
    else if disk.can_write
    then made path
    else refused write_failed

-- `CreateMigrationFile`. Of a category the console sends one of the two that are accepted.
unfoldable pub create_migration_file : Disk → List ℕ → CreateMigrationInput → Created
unfolding sanitize_author
create_migration_file disk ts input =
    if not (matches version_pattern (codes input.version))
    then refused invalid_version
    else if not (matches name_pattern (codes input.name))
    then refused invalid_name
    else create_as disk ts input (sanitize_author (codes input.author))

-- The answer of POST /migrations: its status.
abbrev pub create_status : Created → ℕ
create_status (made path) = 200
create_status (refused file_exists) = 409
create_status (refused invalid_category) = 400
create_status (refused invalid_version) = 400
create_status (refused invalid_name) = 400
create_status (refused author_required) = 400
create_status (refused _) = 500

unfoldable pub post_migrations : Stage → Disk → List ℕ → CreateMigrationInput → ℕ
unfolding create_migration_file
post_migrations local disk ts input = create_status (create_migration_file disk ts input)
post_migrations _ disk ts input = 403

abbrev pub is_nil : List ℕ → Bool
is_nil [] = true
is_nil (_ ∷ _) = false

-- GET /migrations/file up to the reading of the file, of its three parameters: the path, or none for a
-- bad request.
unfoldable pub file_path : List ℕ → List ℕ → List ℕ → Option (List ℕ)
file_path category version filename =
    if not (same category (codes "game")) && not (same category (codes "shard"))
    then none
    else if not (is_nil version) && not (matches version_pattern version)
    then none
    else if not (matches filename_re filename)
    then none
    else some
        (category ++ (47 ∷ ((if is_nil version then [] else version ++ (47 ∷ [])) ++ filename)))
