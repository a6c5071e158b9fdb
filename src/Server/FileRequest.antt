-- ===== src/Server/FileRequest.antt =====
-- router/admin.go, GET /migrations/file, from the URL of the request on; with `migrationsApi.file` of
-- web/admin/src/api/client.ts, which builds it. `ec.QueryParam` is the first value of a key.
use Prim.Native.String
use text.Mathlib.TextLemmas.{append-nil}
use future_was.Base.{
  ℕ, String, Option, List, [], ◌∷◌, ◌++◌, codes, ap, ◌==◌, if◌then◌else◌, ◌≡◌, refl, ◌∙◌,
}
use future_was.Api.{Category, game, shard, base, category_text, query_string, migrations_file}
use future_was.Server.Ui.{same}
use future_was.Server.Files.{file_path}
use future_was.Server.Query.{bytes, parse_query}
use future_was.Server.Query.Roundtrip.{codes-append, parse_query-query_string}

-- What follows the first `?` of a URL.
abbrev pub query_of : List ℕ → List ℕ
query_of [] = []
query_of (c ∷ url) = let rest = query_of url in if c == 63 then url else rest

-- `ec.QueryParam`; a key that is missing has the empty text.
abbrev pub query_param : List ℕ → List (List ℕ × List ℕ) → List ℕ
query_param key [] = []
query_param key ((k, value) ∷ pairs) = if same k key then value else query_param key pairs

-- The handler up to the reading of the file, of a query.
unfoldable pub get_file : List ℕ → Option (List ℕ)
get_file query =
    let pairs = parse_query query in
    file_path (query_param (codes "category") pairs) (query_param (codes "version") pairs)
      (query_param (codes "filename") pairs)

abbrev params : Category → String → String → List (String × String)
params category version filename =
    ("category", category_text category) ∷ ("version", version) ∷ ("filename", filename) ∷ []

query_of-file :
    (category : Category) (version filename : String)
    → query_of (codes (migrations_file category version filename).url)
      ≡ codes (query_string (params category version filename))
query_of-file category version filename =
    let q = query_string (params category version filename) in
    let path : String = "/migrations/file?" in
    let tail =
      codes-append base (String.◌++◌ (String.◌++◌ path (String.◌++◌ q "")) "")
      ∙ ap (λ l. codes base ++ l)
          (ap codes (append-nil (String.◌++◌ path (String.◌++◌ q "")))
            ∙ codes-append path (String.◌++◌ q "")
            ∙ ap (λ l. codes path ++ l) (ap codes (append-nil q))) in
    ap query_of tail

-- A request of the console for a file of a category, a version and a name is handled by the server as
-- one for these three, each text by its bytes in UTF-8.
pub file_request_is_read :
    (category : Category) (version filename : String)
    → get_file (query_of (codes (migrations_file category version filename).url))
      ≡ file_path (codes (category_text category)) (bytes version) (bytes filename)
unfolding get_file
file_request_is_read game version filename =
    rw
      (query_of-file game version filename, parse_query-query_string (params game version filename))
      refl
file_request_is_read shard version filename =
    rw
      (
        query_of-file shard version filename,
        parse_query-query_string (params shard version filename),
      )
      refl
