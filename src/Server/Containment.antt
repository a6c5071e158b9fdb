-- ===== src/Server/Containment.antt =====
-- router/admin.go, GET /migrations/file: the path that is read.
use future_was.Base.{
  ℕ, zero, suc, Bool, true, not, ◌||◌, some, List, [], ◌∷◌, ◌++◌, codes, ◌==◌, ==_iff,
  if◌then◌else◌, ◌≡◌, ◌⊎◌, refl, arith, inl, inr,
}
use future_was.Base.Decimal.{is_digit}
use future_was.Base.Regex.{
  Regex, one, seq, times, literal, nothing, matches, matches_iff, Matches-within, IsWithin,
  all_chars,
}
use future_was.Server.Ui.{same}
use future_was.Server.Agreement.{after_mark}
use future_was.Server.Files.{is_snake, version_pattern, filename_re, is_nil, file_path}

-- No separator of a path.
abbrev pub not_separator : ℕ → Bool
not_separator c = not (c == 47 || c == 92)

times-IsWithin :
    (n : ℕ) (r q : Regex)
    → IsWithin not_separator r
    → IsWithin not_separator q
    → IsWithin not_separator (times n r q)
times-IsWithin zero r q h k = k
times-IsWithin (suc n) r q h k = (h, times-IsWithin n r q h k)

digit-within : (c : ℕ) → is_digit c ≡ true → not_separator c ≡ true
digit-within c h = ground arith

snake-within : (c : ℕ) → is_snake c ≡ true → not_separator c ≡ true
snake-within c h = ground arith

literal-IsWithin :
    (s : List ℕ) (q : Regex)
    → all_chars not_separator s ≡ true
    → IsWithin not_separator q
    → IsWithin not_separator (literal s q)
literal-IsWithin [] q h k = k
literal-IsWithin (d ∷ s) q h k = (
  λ c e. let same : c ≡ d = (==_iff c d).0 e in rw same (ground arith),
  literal-IsWithin s q (ground arith) k,
)

version-IsWithin : IsWithin not_separator version_pattern
version-IsWithin =
    let dot_pair =
      literal-IsWithin (46 ∷ []) (seq (one is_digit) (one is_digit)) refl
        (digit-within, digit-within) in
    (
      (digit-within, digit-within),
      literal-IsWithin (46 ∷ [])
          (times 2 (one is_digit) (literal (46 ∷ []) (seq (one is_digit) (one is_digit)))) refl
          (digit-within, (digit-within, dot_pair)),
    )

filename-IsWithin : IsWithin not_separator filename_re
filename-IsWithin = times-IsWithin 14 (one is_digit) (literal (95 ∷ []) after_mark) digit-within (
    literal-IsWithin (95 ∷ []) after_mark refl
      ((snake-within, snake-within), literal-IsWithin (codes ".sql") nothing refl tt))

version-contained :
    (version : List ℕ)
    → (is_nil version ≡ true) ⊎ (matches version_pattern version ≡ true)
    → all_chars not_separator version ≡ true
version-contained [] h = refl
version-contained (c ∷ v) (inl h) = cc
version-contained (c ∷ v) (inr h) =
    Matches-within not_separator version_pattern (c ∷ v) version-IsWithin
      ((matches_iff version_pattern (c ∷ v)).0 h)

-- Two texts with the same code points.
same-eq : (s t : List ℕ) → same s t ≡ true → s ≡ t
same-eq [] [] h = refl
same-eq [] (_ ∷ _) h = cc
same-eq (_ ∷ _) [] h = cc
same-eq (c ∷ s) (d ∷ t) h =
    let first : c ≡ d = ground arith in let rest : s ≡ t = same-eq s t (ground arith) in cc

-- Whatever a request for a file asks for, the path that is read has one of the two categories, the
-- version if there is one, and a file name, and no separator besides those between them.
pub file_path-is_contained :
    (category version filename path : List ℕ)
    → file_path category version filename ≡ some path
    → ((category ≡ codes "game") ⊎ (category ≡ codes "shard"))
      × (all_chars not_separator version ≡ true)
      × (all_chars not_separator filename ≡ true)
      × (path
          ≡ category ++ (47 ∷ ((if is_nil version then [] else version ++ (47 ∷ [])) ++ filename)))
unfolding file_path
file_path-is_contained category version filename path e =
    let named : matches filename_re filename ≡ true = ground arith in
    let versioned : (is_nil version ≡ true) ⊎ (matches version_pattern version ≡ true) =
      ground arith in
    let known : (same category (codes "game") ≡ true) ⊎ (same category (codes "shard") ≡ true) =
      ground arith in
    (
      elim known [
        | inl first ↦ inl (same-eq category (codes "game") first)
        | inr other ↦ inr (same-eq category (codes "shard") other)
      ],
      version-contained version versioned,
      Matches-within not_separator filename_re filename filename-IsWithin
          ((matches_iff filename_re filename).0 named),
      ground arith,
    )
