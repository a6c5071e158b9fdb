-- ===== src/Server/Ui.antt =====
-- router/admin.go, `registerAdminUI`: the console is served below /admin/ui/. Paths are lists of code
-- points; what `fs.Stat` says of the embedded files is a parameter.
use future_was.Base.{
  ℕ, ◌+◌, Bool, true, false, ◌&&◌, ◌||◌, Option, none, some, List, [], ◌∷◌, ◌++◌, codes, ◌==◌,
  if◌then◌else◌, ◌≡◌, arith,
}

-- What `fs.Stat` answers: `missing` is an error that is `fs.ErrNotExist`, and `failed` another one.
pub data Stat : Type 0 where
  missing directory file failed : Stat

pub data UiReply : Type 0 where
  redirect : ℕ → List ℕ → UiReply
  content : List ℕ → UiReply
  listing : List ℕ → UiReply
  error : ℕ → UiReply

-- The rest of a path after a prefix.
abbrev pub after : List ℕ → List ℕ → Option (List ℕ)
after [] path = some path
after (c ∷ prefix) [] = none
after (c ∷ prefix) (d ∷ path) = let rest = after prefix path in if c == d then rest else none

abbrev pub or_whole : List ℕ → Option (List ℕ) → List ℕ
or_whole path none = path
or_whole path (some rest) = rest

-- `strings.TrimPrefix`
unfoldable pub trim_prefix : List ℕ → List ℕ → List ℕ
trim_prefix prefix path = or_whole path (after prefix path)

abbrev pub same : List ℕ → List ℕ → Bool
same [] [] = true
same [] (_ ∷ _) = false
same (_ ∷ _) [] = false
same (c ∷ s) (d ∷ t) = c == d && same s t

-- `strings.HasSuffix`
unfoldable pub has_suffix : List ℕ → List ℕ → Bool
has_suffix suffix [] = same suffix []
has_suffix suffix (c ∷ path) = same suffix (c ∷ path) || has_suffix suffix path

abbrev pub is_separator : ℕ → Bool
is_separator c = c == 47 || c == 92

-- Whether `..` is an element of a path, given how many dots the element has so far, and whether it
-- has only those.
abbrev pub dot_dot : ℕ → Bool → List ℕ → Bool
dot_dot dots only [] = only && dots == 2
dot_dot dots only (c ∷ path) =
    let ended = dot_dot 0 true path in
    let more = dot_dot (dots + 1) only path in
    let other = dot_dot dots false path in
    if is_separator c then (only && dots == 2) || ended else if c == 46 then more else other

unfoldable pub contains_dot_dot : List ℕ → Bool
contains_dot_dot path = dot_dot 0 true path

abbrev pub index_html : List ℕ
index_html = codes "index.html"

abbrev pub ui_base : List ℕ
ui_base = codes "/admin/ui/"

-- The end of `http.ServeFileFS`, by what is found at the name.
abbrev pub reply_for : List ℕ → Stat → UiReply
reply_for name missing = error 404
reply_for name failed = error 500
reply_for name directory = listing name
reply_for name file = content name

abbrev pub is_fallback : Stat → Bool
is_fallback missing = true
is_fallback directory = true
is_fallback _ = false

module _ (stat : List ℕ → Stat) where
  -- `http.ServeFileFS`, which looks at the path of the request too.
  unfoldable pub serve_file : List ℕ → List ℕ → UiReply
  unfolding has_suffix contains_dot_dot
  serve_file path name =
      if contains_dot_dot path
      then error 400
      else if has_suffix (codes "/index.html") path
      then redirect 301 (codes "./")
      else reply_for name (stat name)

  -- The name of the file that the handler asks for.
  unfoldable pub ui_file : List ℕ → List ℕ
  unfolding trim_prefix
  ui_file path =
      let p = trim_prefix ui_base path in
      let named = if same p [] then index_html else p in
      if is_fallback (stat named) then index_html else named

  -- GET /admin/ui and GET /admin/ui/*
  unfoldable pub serve_ui : List ℕ → UiReply
  unfolding serve_file ui_file
  serve_ui path =
      if same path (codes "/admin/ui") then redirect 302 ui_base else serve_file path (ui_file path)

-- What is expected at a path below the console: its file, or the first page of the console.
abbrev pub expected : List ℕ → Stat → UiReply
expected p missing = content index_html
expected p directory = content index_html
expected p file = content p
expected p failed = error 500

serve_file-found :
    (stat : List ℕ → Stat) (path name : List ℕ)
    → contains_dot_dot path ≡ false
    → has_suffix (codes "/index.html") path ≡ false
    → serve_file stat path name ≡ reply_for name (stat name)
unfolding serve_file
serve_file-found stat path name clean other = rw (clean, other)

pub ui_falls_back :
    (stat : List ℕ → Stat) (p : List ℕ)
    → stat index_html ≡ file
    → contains_dot_dot (ui_base ++ p) ≡ false
    → has_suffix (codes "/index.html") (ui_base ++ p) ≡ false
    → serve_ui stat (ui_base ++ p) ≡ (if same p [] then content index_html else expected p (stat p))
unfolding serve_ui
ui_falls_back stat [] index clean other =
    ground (arith, serve_file-found stat ui_base index_html clean other)
ui_falls_back stat (c ∷ p) index clean other = ground (
  arith,
  serve_file-found stat (ui_base ++ (c ∷ p)) index_html clean other,
  serve_file-found stat (ui_base ++ (c ∷ p)) (c ∷ p) clean other,
)
