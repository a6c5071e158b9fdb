-- ===== src/Server/Agreement.antt =====
-- The form of the console against the checks of the server.
use future_was.Base.{
  ℕ, true, false, none, some, List, [], ◌∷◌, ◌++◌, codes, length, ◌≡◌, ◌≢◌, ◌↔◌, refl, sym, ap, ◌∙◌,
  subst, arith,
}
use future_was.Base.Decimal.{is_digit}
use future_was.Base.Regex.{
  Regex, one, seq, star, plus, literal, nothing, matches, matches_iff, Matches, star_one_iff,
  all_chars, all_chars-append, put_one, times_complete, literal_complete,
}
use future_was.Base.Trim.{trim}
use mathlib.Core.List.{append_assoc}
use future_was.Api.{Category, game, shard, category_text, local, CreateMigrationInput}
use future_was.MigrationForm.{Form, refusal, create_input}
use future_was.MigrationForm.Patterns.{
  IsVersion, IsName, refusal_iff, IsVersion-complete, IsName-iff,
}
use future_was.Server.Files.{
  is_snake, version_pattern, name_pattern, filename_re, sanitize_author, made, Disk, filename_of,
  path_of, create_as, create_migration_file, create_status, post_migrations, is_nil, file_path,
}

-- What the form sends passes the checks of the server up to that of the author.
create_of_checked :
    (disk : Disk) (ts : List ℕ) (f : Form)
    → refusal f ≡ none
    → create_migration_file disk ts (create_input f)
      ≡ create_as disk ts (create_input f) (sanitize_author (codes (trim f.author)))
unfolding create_migration_file create_input
create_of_checked disk ts f passes =
    let (version, name, author) = (refusal_iff f).0 passes in
    let version_ok =
      (matches_iff version_pattern (codes f.version)).1 (IsVersion-complete _ version) in
    let name_ok = (matches_iff name_pattern (codes f.name)).1 ((IsName-iff _).1 name) in
    rw (version_ok, name_ok)

create_as-400 :
    (disk : Disk) (ts : List ℕ) (input : CreateMigrationInput) (author : List ℕ)
    → (create_status (create_as disk ts input author) ≡ 400) ↔ (author ≡ [])
create_as-400 disk ts input [] = (λ _. refl, λ _. refl)
create_as-400 disk ts input (c ∷ author) = ((λ bad. ground arith), (λ nil. cc))

-- Of an input that the form has checked, the server at the local stage refuses the content exactly
-- when its sanitising leaves nothing of the author; so the form accepts authors that the server
-- does not.
pub checked_form_status :
    (disk : Disk) (ts : List ℕ) (f : Form)
    → refusal f ≡ none
    → (post_migrations local disk ts (create_input f) ≡ 400)
      ↔ (sanitize_author (codes (trim f.author)) ≡ [])
unfolding post_migrations
checked_form_status disk ts f passes =
    let same = ap create_status (create_of_checked disk ts f passes) in
    let answer = create_as-400 disk ts (create_input f) (sanitize_author (codes (trim f.author))) in
    (λ bad. answer.0 (sym same ∙ bad), λ nil. same ∙ answer.1 nil)

sanitize_author-snake : (s : List ℕ) → all_chars is_snake (sanitize_author s) ≡ true
unfolding sanitize_author
sanitize_author-snake [] = refl
sanitize_author-snake (r ∷ s) = ground (arith, sanitize_author-snake s)

plus_snake : (s t : List ℕ) → s ≢ [] → all_chars is_snake s ≡ true → Matches (plus (one is_snake)) s
plus_snake [] t some_char h = absurd (some_char refl)
plus_snake (c ∷ s) t some_char h =
    put_one is_snake (star (one is_snake)) c s (ground arith)
      ((star_one_iff is_snake s).1 (ground arith))

-- The part of the file name between the time stamp and the extension.
abbrev words : List ℕ → List ℕ → List ℕ
words author name = author ++ (95 ∷ name)

words-snake :
    (author name : List ℕ)
    → all_chars is_snake author ≡ true
    → all_chars is_snake name ≡ true
    → all_chars is_snake (words author name) ≡ true
words-snake author name a n = all_chars-append is_snake author (95 ∷ name) ∙ ground arith

words-ne-nil : (author name : List ℕ) → words author name ≢ []
words-ne-nil [] name e = cc
words-ne-nil (c ∷ author) name e = cc

filename-parts :
    (ts author name : List ℕ)
    → filename_of ts author name ≡ ts ++ (95 ∷ (words author name ++ codes ".sql"))
filename-parts ts author name =
    ap (λ t. ts ++ (95 ∷ t)) (sym (append_assoc author (95 ∷ name) (codes ".sql")))

abbrev pub after_mark : Regex
after_mark = seq (plus (one is_snake)) (literal (codes ".sql") nothing)

filename_complete :
    (ts author name : List ℕ)
    → length ts ≡ 14
    → all_chars is_digit ts ≡ true
    → all_chars is_snake author ≡ true
    → all_chars is_snake name ≡ true
    → matches filename_re (filename_of ts author name) ≡ true
filename_complete ts author name size digits a n =
    let middle = words author name in
    let extension = literal_complete (codes ".sql") nothing [] refl in
    let snake = plus_snake middle [] (words-ne-nil author name) (words-snake author name a n) in
    let tail : Matches after_mark (middle ++ codes ".sql") =
      (middle, codes ".sql", refl, snake, extension) in
    let marked = literal_complete (95 ∷ []) after_mark (middle ++ codes ".sql") tail in
    let whole =
      times_complete 14 is_digit (literal (95 ∷ []) after_mark) ts (95 ∷ (middle ++ codes ".sql"))
        size digits marked in
    (matches_iff filename_re _).1
      (subst (Matches filename_re) (sym (filename-parts ts author name)) whole)

name-snake : (s : List ℕ) → IsName s → all_chars is_snake s ≡ true
name-snake s n = let first = n.first_ok in let others = n.others_ok in rw n.parts (ground arith)

made-parts :
    (disk : Disk) (ts : List ℕ) (input : CreateMigrationInput) (author path : List ℕ)
    → create_as disk ts input author ≡ made path
    → path ≡ path_of input.category (codes input.version) (filename_of ts author (codes input.name))
made-parts disk ts input [] path e = cc
made-parts disk ts input (c ∷ author) path e = ground arith

version-not-nil : (s : List ℕ) → IsVersion s → is_nil s ≡ false
version-not-nil [] v = absurd (v.some_major (nil_of v.major _ v.parts))
  where
    nil_of : (m t : List ℕ) → [] ≡ m ++ t → m ≡ []
    nil_of [] t e = refl
    nil_of (c ∷ m) t e = cc
version-not-nil (c ∷ s) v = refl

opens :
    (category : Category) (version filename : List ℕ)
    → is_nil version ≡ false
    → matches version_pattern version ≡ true
    → matches filename_re filename ≡ true
    → file_path (codes (category_text category)) version filename
      ≡ some (codes (category_text category) ++ (47 ∷ ((version ++ (47 ∷ [])) ++ filename)))
unfolding file_path
opens game version filename some_version version_ok filename_ok =
    rw (some_version, version_ok, filename_ok)
opens shard version filename some_version version_ok filename_ok =
    rw (some_version, version_ok, filename_ok)

-- A file that the server makes from an input that the form has checked, with a time stamp of 14
-- digits, has a name that the file handler accepts, and the handler reads the path that was made,
-- below the directory of the migrations.
pub created_file_opens :
    (disk : Disk) (ts path : List ℕ) (f : Form)
    → refusal f ≡ none
    → length ts ≡ 14
    → all_chars is_digit ts ≡ true
    → create_migration_file disk ts (create_input f) ≡ made path
    → (filename below : List ℕ) × (file_path
          (codes (category_text f.category))
          (codes f.version)
          filename
        ≡ some below)
      × (path ≡ codes "sql/migrations/" ++ below)
created_file_opens disk ts path f passes size digits created =
    let (version, name, _) = (refusal_iff f).0 passes in
    let author = sanitize_author (codes (trim f.author)) in
    let filename = filename_of ts author (codes f.name) in
    let version_ok =
      (matches_iff version_pattern (codes f.version)).1 (IsVersion-complete _ version) in
    let snake = sanitize_author-snake (codes (trim f.author)) in
    let filename_ok =
      filename_complete ts author (codes f.name) size digits snake (name-snake _ name) in
    let some_version = version-not-nil (codes f.version) version in
    let dir = codes f.version ++ (47 ∷ []) in
    let below = codes (category_text f.category) ++ (47 ∷ (dir ++ filename)) in
    let parts =
      made-parts disk ts (create_input f) author path
        (sym (create_of_checked disk ts f passes) ∙ created) in
    (
      filename,
      below,
      opens f.category (codes f.version) filename some_version version_ok filename_ok,
      parts
          ∙ unfold create_input in
            ap (λ t. codes "sql/migrations/" ++ (codes (category_text f.category) ++ (47 ∷ t)))
              (sym (append_assoc (codes f.version) (47 ∷ []) filename)),
    )
