-- ===== src/Base/Regex.antt =====
-- Regular expressions that are anchored at both ends, `/^…$/.test(s)`: a matcher by derivatives, and
-- what it decides.
use Prim.Native.Nat.{ℕ, zero, suc}
use mathlib.Core.Path.{◌≡◌, refl, sym, ap, ◌∙◌, subst}
use mathlib.Core.Bool.{Bool, true, false, ◌&&◌, ◌||◌}
use mathlib.Core.Logic.{◌↔◌, ◌⊎◌, inl, inr}
use mathlib.Core.List.{List, [], ◌∷◌, ◌++◌}
use native.Mathlib.Omega.{arith}
use future_was.Base.Tests.{if◌then◌else◌, Bool-cases, ◌==◌, ==_iff}
use future_was.Base.Lists.{length}

pub data Regex : Type 0 where
  never : Regex
  nothing : Regex
  one : (ℕ → Bool) → Regex
  seq : Regex → Regex → Regex
  alt : Regex → Regex → Regex
  star : Regex → Regex

nullable : Regex → Bool
nullable never = false
nullable nothing = true
nullable (one p) = false
nullable (seq r q) = nullable r && nullable q
nullable (alt r q) = nullable r || nullable q
nullable (star r) = true

deriv : ℕ → Regex → Regex
deriv c never = never
deriv c nothing = never
deriv c (one p) = if p c then nothing else never
deriv c (seq r q) =
    let first = seq (deriv c r) q in
    let second = deriv c q in if nullable r then alt first second else first
deriv c (alt r q) = alt (deriv c r) (deriv c q)
deriv c (star r) = seq (deriv c r) (star r)

unfoldable pub matches : Regex → List ℕ → Bool
unfolding nullable deriv
matches r [] = nullable r
matches r (c ∷ s) = matches (deriv c r) s

-- `r+`
abbrev pub plus : Regex → Regex
plus r = seq r (star r)

-- Any number of words of a language, none of them empty.
pub data Star (P : List ℕ → Type 0) : List ℕ → Type 0 where
  no_more : {s : List ℕ} → s ≡ [] → Star P s
  once_more :
      {s : List ℕ} (c : ℕ) (u v : List ℕ) → s ≡ c ∷ (u ++ v) → P (c ∷ u) → Star P v → Star P s

-- The words of a regular expression.
abbrev pub Matches : Regex → List ℕ → Type 0
Matches never s = ⊥
Matches nothing s = s ≡ []
Matches (one p) s = (c : ℕ) × (s ≡ c ∷ []) × (p c ≡ true)
Matches (seq r q) s = (u : List ℕ) × (v : List ℕ) × (s ≡ u ++ v) × Matches r u × Matches q v
Matches (alt r q) s = Matches r s ⊎ Matches q s
Matches (star r) s = Star (Matches r) s

nullable_sound : (r : Regex) → nullable r ≡ true → Matches r []
unfolding nullable
nullable_sound never h = cc
nullable_sound nothing h = refl
nullable_sound (one p) h = cc
nullable_sound (seq r q) h =
    ([], [], refl, nullable_sound r (ground arith), nullable_sound q (ground arith))
nullable_sound (alt r q) h = elim (Bool-cases (nullable r)) [
  | inl left ↦ inl (nullable_sound r left)
  | inr right ↦ inr (nullable_sound q (ground arith))
]
nullable_sound (star r) h = no_more refl

nil_of_append : (u v : List ℕ) → [] ≡ u ++ v → (u ≡ []) × (v ≡ [])
nil_of_append [] v e = (refl, sym e)
nil_of_append (c ∷ u) v e = cc

nullable_complete : (r : Regex) → Matches r [] → nullable r ≡ true
unfolding nullable
nullable_complete never m = absurd m
nullable_complete nothing m = refl
nullable_complete (one p) (c, e, h) = cc
nullable_complete (seq r q) (u, v, e, m, n) =
    let (u_nil, v_nil) = nil_of_append u v e in
    rw (
      nullable_complete r (subst (Matches r) u_nil m),
      nullable_complete q (subst (Matches q) v_nil n),
    )
nullable_complete (alt r q) (inl m) = rw (nullable_complete r m)
nullable_complete (alt r q) (inr m) = ground (arith, nullable_complete q m)
nullable_complete (star r) m = refl

seq_first :
    (c : ℕ) (r q : Regex) (s : List ℕ)
    → ((u : List ℕ) → Matches (deriv c r) u → Matches r (c ∷ u))
    → Matches (seq (deriv c r) q) s
    → Matches (seq r q) (c ∷ s)
seq_first c r q s on_r (u, v, e, m, n) = (c ∷ u, v, ap (λ t. c ∷ t) e, on_r u m, n)

seq_either :
    (c : ℕ) (r q : Regex) (s : List ℕ)
    → nullable r ≡ true
    → ((u : List ℕ) → Matches (deriv c r) u → Matches r (c ∷ u))
    → ((u : List ℕ) → Matches (deriv c q) u → Matches q (c ∷ u))
    → Matches (alt (seq (deriv c r) q) (deriv c q)) s
    → Matches (seq r q) (c ∷ s)
seq_either c r q s empty on_r on_q (inl first) = seq_first c r q s on_r first
seq_either c r q s empty on_r on_q (inr second) =
    ([], c ∷ s, refl, nullable_sound r empty, on_q s second)

deriv_sound : (c : ℕ) (r : Regex) (s : List ℕ) → Matches (deriv c r) s → Matches r (c ∷ s)
unfolding deriv
deriv_sound c never s m = m
deriv_sound c nothing s m = absurd m
deriv_sound c (one p) s m = elim (Bool-cases (p c)) [
  | inl yes_p ↦ (c, ap (λ t. c ∷ t) (rw yes_p at m), yes_p)
  | inr no_p ↦ absurd (rw no_p at m)
]
deriv_sound c (seq r q) s m = elim (Bool-cases (nullable r)) [
  | inl empty ↦ seq_either c r q s empty (deriv_sound c r) (deriv_sound c q) (rw empty at m)
  | inr not_empty ↦ seq_first c r q s (deriv_sound c r) (rw not_empty at m)
]
deriv_sound c (alt r q) s (inl m) = inl (deriv_sound c r s m)
deriv_sound c (alt r q) s (inr m) = inr (deriv_sound c q s m)
deriv_sound c (star r) s (u, v, e, m, n) =
    once_more c u v (ap (λ t. c ∷ t) e) (deriv_sound c r u m) n

tail_of : {c d : ℕ} {s t : List ℕ} → c ∷ s ≡ d ∷ t → (c ≡ d) × (s ≡ t)
tail_of e = (cc, cc)

deriv_complete : (c : ℕ) (r : Regex) (s : List ℕ) → Matches r (c ∷ s) → Matches (deriv c r) s
unfolding deriv
deriv_complete c never s m = m
deriv_complete c nothing s m = cc
deriv_complete c (one p) s (d, e, h) =
    let (same, nil) = tail_of e in let passes : p c ≡ true = rw same h in rw passes nil
deriv_complete c (seq r q) s ([], v, e, m, n) =
    rw (nullable_complete r m) (inr (deriv_complete c q s (subst (Matches q) (sym e) n)))
deriv_complete c (seq r q) s (d ∷ u, v, e, m, n) =
    let (same, rest) = tail_of e in
    let first = deriv_complete c r u (subst (λ x. Matches r (x ∷ u)) (sym same) m) in
    elim (Bool-cases (nullable r)) [
      | inl empty ↦ rw empty (inl (u, v, rest, first, n))
      | inr not_empty ↦ rw not_empty (u, v, rest, first, n)
    ]
deriv_complete c (alt r q) s (inl m) = inl (deriv_complete c r s m)
deriv_complete c (alt r q) s (inr m) = inr (deriv_complete c q s m)
deriv_complete c (star r) s (no_more e) = cc
deriv_complete c (star r) s (once_more d u v e m n) =
    let (same, rest) = tail_of e in
    (u, v, rest, deriv_complete c r u (subst (λ x. Matches r (x ∷ u)) (sym same) m), n)

matches_sound : (r : Regex) (s : List ℕ) → matches r s ≡ true → Matches r s
unfolding matches
matches_sound r [] h = nullable_sound r h
matches_sound r (c ∷ s) h = deriv_sound c r s (matches_sound (deriv c r) s h)

matches_complete : (r : Regex) (s : List ℕ) → Matches r s → matches r s ≡ true
unfolding matches
matches_complete r [] m = nullable_complete r m
matches_complete r (c ∷ s) m = matches_complete (deriv c r) s (deriv_complete c r s m)

-- The matcher accepts exactly the words of the expression.
pub matches_iff : (r : Regex) (s : List ℕ) → (matches r s ≡ true) ↔ Matches r s
matches_iff r s = (matches_sound r s, matches_complete r s)

-- Every character of a text satisfies a test.
abbrev pub all_chars : (ℕ → Bool) → List ℕ → Bool
all_chars p [] = true
all_chars p (c ∷ s) = p c && all_chars p s

Star-all_chars : (p : ℕ → Bool) {s : List ℕ} → Star (Matches (one p)) s → all_chars p s ≡ true
Star-all_chars p (no_more e) = rw e
Star-all_chars p (once_more c u v e (d, f, h) more) =
    let (same, nil) = tail_of f in rw (e, nil, same, h) (Star-all_chars p more)

all_chars-Star : (p : ℕ → Bool) (s : List ℕ) → all_chars p s ≡ true → Star (Matches (one p)) s
all_chars-Star p [] h = no_more refl
all_chars-Star p (c ∷ s) h =
    once_more c [] s refl (c, refl, ground arith) (all_chars-Star p s (ground arith))

-- `[p]*` has the texts all of whose characters pass.
pub star_one_iff : (p : ℕ → Bool) (s : List ℕ) → Matches (star (one p)) s ↔ (all_chars p s ≡ true)
star_one_iff p s = (Star-all_chars p, all_chars-Star p s)

-- A word of `[p]q` is a character that passes, and a word of `q`.
pub take_one :
    (p : ℕ → Bool) (q : Regex) (s : List ℕ)
    → Matches (seq (one p) q) s
    → (c : ℕ) × (t : List ℕ) × (s ≡ c ∷ t) × (p c ≡ true) × Matches q t
take_one p q s (u, t, e, (c, f, h), n) = (c, t, e ∙ ap (λ x. x ++ t) f, h, n)

pub put_one :
    (p : ℕ → Bool) (q : Regex) (c : ℕ) (t : List ℕ)
    → p c ≡ true
    → Matches q t
    → Matches (seq (one p) q) (c ∷ t)
put_one p q c t h n = (c ∷ [], t, refl, (c, refl, h), n)

-- `r{n}`, and then `q`.
abbrev pub times : ℕ → Regex → Regex → Regex
times zero r q = q
times (suc n) r q = seq r (times n r q)

-- A text that stands for itself, and then `q`.
abbrev pub literal : List ℕ → Regex → Regex
literal [] q = q
literal (c ∷ s) q = seq (one (λ d. d == c)) (literal s q)

pub literal_complete :
    (s : List ℕ) (q : Regex) (t : List ℕ) → Matches q t → Matches (literal s q) (s ++ t)
literal_complete [] q t m = m
literal_complete (c ∷ s) q t m =
    put_one (λ d. d == c) (literal s q) c (s ++ t) ((==_iff c c).1 refl) (literal_complete s q t m)

pub times_complete :
    (n : ℕ) (p : ℕ → Bool) (q : Regex) (s t : List ℕ)
    → length s ≡ n
    → all_chars p s ≡ true
    → Matches q t
    → Matches (times n (one p) q) (s ++ t)
times_complete zero p q [] t l h m = m
times_complete zero p q (c ∷ s) t l h m = absurd (omega arith)
times_complete (suc n) p q [] t l h m = absurd (omega arith)
times_complete (suc n) p q (c ∷ s) t l h m =
    put_one p (times n (one p) q) c (s ++ t) (ground arith)
      (times_complete n p q s t (omega arith) (ground arith) m)

-- Every character class of an expression lies within a test.
abbrev pub IsWithin : (ℕ → Bool) → Regex → Type 0
IsWithin p never = Unit
IsWithin p nothing = Unit
IsWithin p (one q) = (c : ℕ) → q c ≡ true → p c ≡ true
IsWithin p (seq r q) = IsWithin p r × IsWithin p q
IsWithin p (alt r q) = IsWithin p r × IsWithin p q
IsWithin p (star r) = IsWithin p r

pub all_chars-append :
    (p : ℕ → Bool) (s t : List ℕ) → all_chars p (s ++ t) ≡ all_chars p s && all_chars p t
all_chars-append p [] t = refl
all_chars-append p (c ∷ s) t = ground (arith, all_chars-append p s t)

and_true : {a b : Bool} → a ≡ true → b ≡ true → (a && b) ≡ true
and_true h k = rw (h, k)

Star-within :
    {P : List ℕ → Type 0} (p : ℕ → Bool)
    → ((u : List ℕ) → P u → all_chars p u ≡ true)
    → (s : List ℕ) → Star P s
    → all_chars p s ≡ true
Star-within p each s (no_more e) = rw e
Star-within p each s (once_more c u v e m more) =
    let first = each (c ∷ u) m in
    let later = Star-within p each v more in
    rw e (all_chars-append p (c ∷ u) v ∙ and_true first later)

-- Then so does every character of a word.
pub Matches-within :
    (p : ℕ → Bool) (r : Regex) (s : List ℕ) → IsWithin p r → Matches r s → all_chars p s ≡ true
Matches-within p never s w m = absurd m
Matches-within p nothing s w m = rw m
Matches-within p (one q) s w (c, e, h) = rw e (ground (arith, w c h))
Matches-within p (seq r q) s w (u, v, e, m, n) =
    rw e
      (all_chars-append p u v ∙ and_true (Matches-within p r u w.0 m) (Matches-within p q v w.1 n))
Matches-within p (alt r q) s w (inl m) = Matches-within p r s w.0 m
Matches-within p (alt r q) s w (inr m) = Matches-within p q s w.1 m
Matches-within p (star r) s w m = Star-within p (λ u. Matches-within p r u w) s m
