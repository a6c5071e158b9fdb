-- ===== src/Server/Query/Roundtrip.antt =====
-- `URLSearchParams` of the console against `url.ParseQuery` of the server.
use Prim.Native.Nat.{compare, Ordering}
use Prim.Native.Char.{Char, code, char, IsLt}
use Prim.Native.String
use text.Mathlib.TextLemmas.{cons-append, nil-append, append-nil}
use mathlib.Core.List.{append_assoc}
use future_was.Base.{
  template, ℕ, zero, suc, ◌+◌, ◌*◌, ◌/◌, ◌%◌, ◌<◌, String, Bool, true, false, not, ◌||◌, some, List,
  [], ◌∷◌, ◌++◌, map, codes, ◌==◌, ◌≡◌, refl, sym, ap, arith, Bool-cases, inl, inr,
}
use future_was.Base.Regex.{all_chars}
use future_was.Api.{utf8, hex_digit, percent_encode, is_plain, form_encode, query_string}
use future_was.Server.Query.{
  bytes, unhex, outside, unescape, parts, cut, has_semicolon, is_empty_part, pairs_of, parse_query,
}

-- `IsScalar` of the native characters, with its parts in reach.
abbrev Both : Ordering → Ordering → Type 0
Both Ordering.lt o = IsLt o
Both Ordering.eq _ = ⊥
Both Ordering.gt _ = ⊥

abbrev Scalar : Ordering → Ordering → Ordering → Type 0
Scalar Ordering.lt _ _ = Unit
Scalar Ordering.eq o p = Both o p
Scalar Ordering.gt o p = Both o p

lt_of : (a b : ℕ) → IsLt (compare a b) → a < b
lt_of a b h = let e = lt_cases (compare a b) h in ground arith
  where
    lt_cases : (o : Ordering) → IsLt o → o ≡ Ordering.lt
    lt_cases Ordering.lt h = refl
    lt_cases Ordering.eq h = absurd h
    lt_cases Ordering.gt h = absurd h

Scalar-lt :
    (n : ℕ) (o p : Ordering)
    → (o ≡ Ordering.lt → n < 55296)
    → Scalar o p (compare n 1114112)
    → n < 1114112
Scalar-lt n Ordering.lt p below h = let small = below refl in omega arith
Scalar-lt n Ordering.eq Ordering.lt below h = lt_of n 1114112 h
Scalar-lt n Ordering.gt Ordering.lt below h = lt_of n 1114112 h
Scalar-lt n _ _ below h = absurd h

code-lt : (c : Char) → code c < 1114112
code-lt (char n h) = Scalar-lt n (compare n 55296) (compare 57343 n) (λ e. ground arith) h

unhex-hex_digit : (n : ℕ) → n < 16 → unhex (code (hex_digit n)) ≡ some n
unfolding hex_digit
unhex-hex_digit zero h = refl
unhex-hex_digit (suc zero) h = refl
unhex-hex_digit (suc (suc zero)) h = refl
unhex-hex_digit (suc (suc (suc zero))) h = refl
unhex-hex_digit (suc (suc (suc (suc zero)))) h = refl
unhex-hex_digit (suc (suc (suc (suc (suc zero))))) h = refl
unhex-hex_digit (suc (suc (suc (suc (suc (suc zero)))))) h = refl
unhex-hex_digit (suc (suc (suc (suc (suc (suc (suc zero))))))) h = refl
unhex-hex_digit (suc (suc (suc (suc (suc (suc (suc (suc zero)))))))) h = refl
unhex-hex_digit (suc (suc (suc (suc (suc (suc (suc (suc (suc zero))))))))) h = refl
unhex-hex_digit (suc (suc (suc (suc (suc (suc (suc (suc (suc (suc zero)))))))))) h = refl
unhex-hex_digit (suc (suc (suc (suc (suc (suc (suc (suc (suc (suc (suc zero))))))))))) h = refl
unhex-hex_digit (suc (suc (suc (suc (suc (suc (suc (suc (suc (suc (suc (suc zero)))))))))))) h =
    refl
unhex-hex_digit (suc (suc (suc (suc (suc (suc (suc (suc (suc (suc (suc (suc (suc zero)))))))))))))
      h =
    refl
unhex-hex_digit
      (suc (suc (suc (suc (suc (suc (suc (suc (suc (suc (suc (suc (suc (suc zero)))))))))))))) h =
    refl
unhex-hex_digit
      (suc (suc (suc (suc (suc (suc (suc (suc (suc (suc (suc (suc (suc (suc (suc zero)))))))))))))))
      h =
    refl
unhex-hex_digit
      (suc
        (suc (suc (suc (suc (suc (suc (suc (suc (suc (suc (suc (suc (suc (suc (suc n))))))))))))))))
      h =
    absurd (omega arith)

-- A list of bytes.
abbrev AreBytes : List ℕ → Type 0
AreBytes [] = Unit
AreBytes (b ∷ bs) = (b < 256) × AreBytes bs

utf8-AreBytes : (c : ℕ) → c < 1114112 → AreBytes (utf8 c)
utf8-AreBytes c h = ground arith

unescape-percent :
    (bs : List ℕ) (rest : String) (t : List ℕ)
    → AreBytes bs
    → unescape outside (codes rest) ≡ some t
    → unescape outside (codes (percent_encode bs rest)) ≡ some (bs ++ t)
unfolding percent_encode unescape
unescape-percent [] rest t h e = e
unescape-percent (b ∷ bs) rest t (here, later) e =
    let high : b / 16 < 16 = omega arith in
    let low : b % 16 < 16 = omega arith in
    let whole : b / 16 * 16 + b % 16 ≡ b = omega arith in
    rw (
      unhex-hex_digit (b / 16) high,
      unhex-hex_digit (b % 16) low,
      unescape-percent bs rest t later e,
      whole,
    )

plain-itself :
    (c : ℕ) → is_plain c ≡ true → (utf8 c ≡ c ∷ []) × ((c == 37) ≡ false) × ((c == 43) ≡ false)
plain-itself c h = ground arith

unescape-form_encode : (s : String) → unescape outside (codes (form_encode s)) ≡ some (bytes s)
unfolding form_encode unescape
unescape-form_encode String.[] = refl
unescape-form_encode (String.◌∷◌ c s) =
    let rest = unescape-form_encode s in
    elim (Bool-cases (is_plain (code c))) [
      | inl plain ↦
          let (itself, no_mark, no_plus) = plain-itself (code c) plain in
          rw (plain, itself, no_mark, no_plus, rest)
      | inr other ↦ elim (Bool-cases (code c == 32)) [
        | inl space ↦ let e : code c ≡ 32 = ground arith in rw (other, space, e, rest)
        | inr more ↦
            rw (other, more)
              (unescape-percent (utf8 (code c)) (form_encode s) (bytes s)
                (utf8-AreBytes (code c) (code-lt c)) rest)
      ]
    ]

-- No `&`, `=` or `;`.
abbrev is_inner : ℕ → Bool
is_inner c = not (c == 38 || c == 61 || c == 59)

hex_digit-inner : (n : ℕ) → is_inner (code (hex_digit n)) ≡ true
unfolding hex_digit
hex_digit-inner zero = refl
hex_digit-inner (suc zero) = refl
hex_digit-inner (suc (suc zero)) = refl
hex_digit-inner (suc (suc (suc zero))) = refl
hex_digit-inner (suc (suc (suc (suc zero)))) = refl
hex_digit-inner (suc (suc (suc (suc (suc zero))))) = refl
hex_digit-inner (suc (suc (suc (suc (suc (suc zero)))))) = refl
hex_digit-inner (suc (suc (suc (suc (suc (suc (suc zero))))))) = refl
hex_digit-inner (suc (suc (suc (suc (suc (suc (suc (suc zero)))))))) = refl
hex_digit-inner (suc (suc (suc (suc (suc (suc (suc (suc (suc zero))))))))) = refl
hex_digit-inner (suc (suc (suc (suc (suc (suc (suc (suc (suc (suc zero)))))))))) = refl
hex_digit-inner (suc (suc (suc (suc (suc (suc (suc (suc (suc (suc (suc zero))))))))))) = refl
hex_digit-inner (suc (suc (suc (suc (suc (suc (suc (suc (suc (suc (suc (suc zero)))))))))))) = refl
hex_digit-inner (suc (suc (suc (suc (suc (suc (suc (suc (suc (suc (suc (suc (suc zero))))))))))))) =
    refl
hex_digit-inner
      (suc (suc (suc (suc (suc (suc (suc (suc (suc (suc (suc (suc (suc (suc zero)))))))))))))) =
    refl
hex_digit-inner
      (suc (suc (suc (suc (suc (suc (suc (suc (suc (suc (suc (suc (suc (suc (suc n))))))))))))))) =
    refl

percent-inner :
    (bs : List ℕ) (rest : String)
    → all_chars is_inner (codes rest) ≡ true
    → all_chars is_inner (codes (percent_encode bs rest)) ≡ true
unfolding percent_encode
percent-inner [] rest h = h
percent-inner (b ∷ bs) rest h =
    rw (hex_digit-inner (b / 16), hex_digit-inner (b % 16), percent-inner bs rest h)

plain-inner : (c : ℕ) → is_plain c ≡ true → is_inner c ≡ true
plain-inner c h = ground arith

form_encode-inner : (s : String) → all_chars is_inner (codes (form_encode s)) ≡ true
unfolding form_encode
form_encode-inner String.[] = refl
form_encode-inner (String.◌∷◌ c s) =
    let rest = form_encode-inner s in
    elim (Bool-cases (is_plain (code c))) [
      | inl plain ↦ rw (plain, plain-inner (code c) plain, rest)
      | inr other ↦ elim (Bool-cases (code c == 32)) [
        | inl space ↦ rw (other, space, rest)
        | inr more ↦ rw (other, more) (percent-inner (utf8 (code c)) (form_encode s) rest)
      ]
    ]

pub codes-append : (s t : String) → codes (String.◌++◌ s t) ≡ codes s ++ codes t
codes-append String.[] t = rw nil-append
codes-append (String.◌∷◌ c s) t = rw (cons-append c s t, codes-append s t)

-- A part that stands first, and the others.
parts-one : (s : List ℕ) → all_chars (λ c. not (c == 38)) s ≡ true → parts s ≡ s ∷ []
unfolding parts
parts-one [] h = refl
parts-one (c ∷ s) h = ground (arith, parts-one s)

parts-more :
    (s t : List ℕ) → all_chars (λ c. not (c == 38)) s ≡ true → parts (s ++ (38 ∷ t)) ≡ s ∷ parts t
unfolding parts
parts-more [] t h = refl
parts-more (c ∷ s) t h = ground (arith, parts-more s t)

cut-equals : (k v : List ℕ) → all_chars is_inner k ≡ true → cut (k ++ (61 ∷ v)) ≡ (k, v)
unfolding cut
cut-equals [] v h = refl
cut-equals (c ∷ k) v h =
    let apart : (c == 61) ≡ false = ground arith in rw (cut-equals k v (ground arith), apart)

abbrev pair_text : String → String → List ℕ
pair_text k v = codes (form_encode k) ++ (61 ∷ codes (form_encode v))

mark : (c : Char) (s : String) → codes (String.◌++◌ (String.◌∷◌ c "") s) ≡ code c ∷ codes s
mark c s = rw (cons-append c "" s, nil-append)

codes-last_pair : (k v : String) → codes (query_string ((k, v) ∷ [])) ≡ pair_text k v
unfolding query_string
codes-last_pair k v = rw (codes-append (form_encode k), mark "=", append-nil (form_encode v))

codes-pair_then :
    (k v q : String)
    → codes (template (form_encode k ∷ "=" ∷ form_encode v ∷ "&" ∷ q ∷ []))
      ≡ pair_text k v ++ (38 ∷ codes q)
codes-pair_then k v q =
    rw
      (codes-append (form_encode k), mark "=", codes-append (form_encode v), mark "&", append-nil q)
      (sym (append_assoc (codes (form_encode k)) (61 ∷ codes (form_encode v)) (38 ∷ codes q)))

codes-first_pair :
    (k v : String) (p : String × String) (more : List (String × String))
    → codes (query_string ((k, v) ∷ p ∷ more))
      ≡ pair_text k v ++ (38 ∷ codes (query_string (p ∷ more)))
unfolding query_string
codes-first_pair k v p more = codes-pair_then k v (query_string (p ∷ more))

pair-no_semicolon :
    (k v : List ℕ)
    → all_chars is_inner k ≡ true
    → all_chars is_inner v ≡ true
    → has_semicolon (k ++ (61 ∷ v)) ≡ false
pair-no_semicolon [] [] h i = refl
pair-no_semicolon [] (c ∷ v) h i = ground (arith, pair-no_semicolon [] v refl)
pair-no_semicolon (c ∷ k) v h i = ground (arith, pair-no_semicolon k v)

pair-no_ampersand :
    (k v : List ℕ)
    → all_chars is_inner k ≡ true
    → all_chars is_inner v ≡ true
    → all_chars (λ c. not (c == 38)) (k ++ (61 ∷ v)) ≡ true
pair-no_ampersand [] [] h i = refl
pair-no_ampersand [] (c ∷ v) h i = ground (arith, pair-no_ampersand [] v refl)
pair-no_ampersand (c ∷ k) v h i = ground (arith, pair-no_ampersand k v)

pair-not_empty : (k v : List ℕ) → is_empty_part (k ++ (61 ∷ v)) ≡ false
pair-not_empty [] v = refl
pair-not_empty (c ∷ k) v = refl

pairs_of-pair :
    (k v : String) (more : List (List ℕ))
    → pairs_of (pair_text k v ∷ more) ≡ (bytes k, bytes v) ∷ pairs_of more
unfolding pairs_of
pairs_of-pair k v more = rw (
  cut-equals (codes (form_encode k)) (codes (form_encode v)) (form_encode-inner k),
  pair-not_empty (codes (form_encode k)) (codes (form_encode v)),
  pair-no_semicolon (codes (form_encode k)) (codes (form_encode v)) (form_encode-inner k)
      (form_encode-inner v),
  unescape-form_encode k,
  unescape-form_encode v,
)

-- What the server reads of the query string of any pairs is the same pairs in the same order, each
-- text by its bytes in UTF-8.
pub parse_query-query_string :
    (pairs : List (String × String))
    → parse_query (codes (query_string pairs)) ≡ map (λ p. (bytes p.0, bytes p.1)) pairs
unfolding parse_query
parse_query-query_string [] = unfold query_string parts pairs_of in refl
parse_query-query_string ((k, v) ∷ []) =
    let key = form_encode-inner k in
    let value = form_encode-inner v in
    rw
      (
        codes-last_pair k v,
        parts-one (pair_text k v)
            (pair-no_ampersand (codes (form_encode k)) (codes (form_encode v)) key value),
        pairs_of-pair k v [],
      )
      (unfold pairs_of in refl)
parse_query-query_string ((k, v) ∷ p ∷ more) =
    let key = form_encode-inner k in
    let value = form_encode-inner v in
    let rest = parse_query-query_string (p ∷ more) in
    let query = codes (query_string (p ∷ more)) in
    rw
      (
        codes-first_pair k v p more,
        parts-more (pair_text k v) query
            (pair-no_ampersand (codes (form_encode k)) (codes (form_encode v)) key value),
        pairs_of-pair k v (parts query),
      )
      (ap (λ pairs. (bytes k, bytes v) ∷ pairs) rest)
