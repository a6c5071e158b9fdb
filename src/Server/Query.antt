-- ===== src/Server/Query.antt =====
-- router/admin.go, `ec.QueryParam` of GET /migrations/file: Go's `url.ParseQuery`, on bytes.
pub mod Roundtrip
use Prim.Native.Char.{code}
use Prim.Native.String
use future_was.Base.{
  ℕ, ◌+◌, ◌-◌, ◌*◌, String, Bool, true, false, ◌&&◌, ◌||◌, Option, none, some, List, [], ◌∷◌, ◌++◌,
  leb, ◌==◌, if◌then◌else◌,
}
use future_was.Api.{utf8}

-- The bytes of a text.
abbrev pub bytes : String → List ℕ
bytes String.[] = []
bytes (String.◌∷◌ c s) = utf8 (code c) ++ bytes s

-- `unhex`, of a byte that `ishex` accepts.
abbrev pub unhex : ℕ → Option ℕ
unhex c =
    if leb 48 c && leb c 57
    then some (c - 48)
    else if leb 65 c && leb c 70
    then some (c - 55)
    else if leb 97 c && leb c 102
    then some (c - 87)
    else none

-- Where `QueryUnescape` stands: outside an escape, after its `%`, or after its first digit.
pub data Place : Type 0 where
  outside after_mark : Place
  after_digit : ℕ → Place

abbrev pub push : ℕ → Option (List ℕ) → Option (List ℕ)
push b none = none
push b (some s) = some (b ∷ s)

-- `url.QueryUnescape`
unfoldable pub unescape : Place → List ℕ → Option (List ℕ)
unescape outside [] = some []
unescape _ [] = none
unescape outside (c ∷ s) =
    let marked = unescape after_mark s in
    let rest = unescape outside s in
    if c == 37 then marked else push (if c == 43 then 32 else c) rest
unescape after_mark (c ∷ s) = elim (unhex c) [ none ↦ none | some h ↦ unescape (after_digit h) s ]
unescape (after_digit h) (c ∷ s) = elim (unhex c) [
  | none ↦ none
  | some l ↦ push (h * 16 + l) (unescape outside s)
]

abbrev pub in_head : ℕ → List (List ℕ) → List (List ℕ)
in_head c [] = (c ∷ []) ∷ []
in_head c (s ∷ more) = (c ∷ s) ∷ more

-- The parts between `&`.
unfoldable pub parts : List ℕ → List (List ℕ)
parts [] = [] ∷ []
parts (c ∷ s) = let rest = parts s in if c == 38 then [] ∷ rest else in_head c rest

-- `strings.Cut(part, "=")`
unfoldable pub cut : List ℕ → List ℕ × List ℕ
cut [] = ([], [])
cut (c ∷ s) = let (key, value) = cut s in if c == 61 then ([], s) else (c ∷ key, value)

abbrev pub has_semicolon : List ℕ → Bool
has_semicolon [] = false
has_semicolon (c ∷ s) = c == 59 || has_semicolon s

abbrev pub is_empty_part : List ℕ → Bool
is_empty_part [] = true
is_empty_part (_ ∷ _) = false

abbrev pub with_pair :
    Option (List ℕ) → Option (List ℕ) → List (List ℕ × List ℕ) → List (List ℕ × List ℕ)
with_pair (some key) (some value) pairs = (key, value) ∷ pairs
with_pair _ _ pairs = pairs

-- The pairs of the parts; a part that is empty or cannot be read is left out.
unfoldable pub pairs_of : List (List ℕ) → List (List ℕ × List ℕ)
unfolding unescape cut
pairs_of [] = []
pairs_of (part ∷ more) =
    let rest = pairs_of more in
    let (key, value) = cut part in
    if is_empty_part part || has_semicolon part
    then rest
    else with_pair (unescape outside key) (unescape outside value) rest

-- `url.ParseQuery`
unfoldable pub parse_query : List ℕ → List (List ℕ × List ℕ)
unfolding parts pairs_of
parse_query query = pairs_of (parts query)
