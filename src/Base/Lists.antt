-- ===== src/Base/Lists.antt =====
-- Lists measured and indexed by native numbers, and the array methods that the console calls.
use Prim.Native.Nat.{ℕ, zero, suc, ◌+◌, ◌≤◌, min}
use mathlib.Core.Path.{◌≡◌, refl, ap, subst}
use mathlib.Core.Bool.{Bool}
use mathlib.Core.List.{List, [], ◌∷◌, map}
use mathlib.Core.Option.{Option, none, some}
use native.Mathlib.Omega.{arith}
use future_was.Base.Tests.{if◌then◌else◌, bit}

module _ {ℓ} {A : Type ℓ} where
  abbrev pub length : List A → ℕ
  length [] = 0
  length (x ∷ xs) = suc (length xs)

  abbrev pub take : ℕ → List A → List A
  take zero xs = []
  take (suc n) [] = []
  take (suc n) (x ∷ xs) = x ∷ take n xs

  -- `Array.prototype.find`
  abbrev pub find : (A → Bool) → List A → Option A
  find p [] = none
  find p (x ∷ xs) = if p x then some x else find p xs

  -- `Array.prototype.filter`
  abbrev pub filter : (A → Bool) → List A → List A
  filter p [] = []
  filter p (x ∷ xs) = let rest = filter p xs in if p x then x ∷ rest else rest

  -- How many elements pass a test.
  abbrev pub count : (A → Bool) → List A → ℕ
  count p [] = 0
  count p (x ∷ xs) = bit (p x) + count p xs

  abbrev pub sum_by : (A → ℕ) → List A → ℕ
  sum_by f [] = 0
  sum_by f (x ∷ xs) = f x + sum_by f xs

  -- Every element satisfies a predicate.
  abbrev pub All {κ} : (A → Type κ) → List A → Type κ
  All P [] = Unit
  All P (x ∷ xs) = P x × All P xs

  abbrev pub get_elem? : List A → ℕ → Option A
  get_elem? [] i = none
  get_elem? (x ∷ xs) zero = some x
  get_elem? (x ∷ xs) (suc i) = get_elem? xs i

  -- A write out of bounds changes nothing.
  abbrev pub set : List A → ℕ → A → List A
  set [] i v = []
  set (x ∷ xs) zero v = v ∷ xs
  set (x ∷ xs) (suc i) v = x ∷ set xs i v

  abbrev pub put_back : A → Option (A × List A) → Option (A × List A)
  put_back x none = none
  put_back x (some (y, rest)) = some (y, x ∷ rest)

  -- The element at an index, with the list that is left when it is taken out.
  abbrev pub take_out : ℕ → List A → Option (A × List A)
  take_out i [] = none
  take_out zero (x ∷ xs) = some (x, xs)
  take_out (suc i) (x ∷ xs) = put_back x (take_out i xs)

module _ {ℓ} {A : Type ℓ} where
  pub length-take : (n : ℕ) (xs : List A) → length (take n xs) ≡ min n (length xs)
  length-take zero xs = omega arith
  length-take (suc n) [] = omega arith
  length-take (suc n) (x ∷ xs) = omega (arith, length-take n xs)

  pub length-filter : (p : A → Bool) (xs : List A) → length (filter p xs) ≡ count p xs
  length-filter p [] = refl
  length-filter p (x ∷ xs) = ground (arith, length-filter p xs)

  pub count-le : (p : A → Bool) (xs : List A) → count p xs ≤ length xs
  count-le p [] = omega arith
  count-le p (x ∷ xs) = ground (arith, count-le p xs)

  put_back-eq-some :
      (x : A) (o : Option (A × List A)) {y : A} {rest : List A}
      → put_back x o ≡ some (y, rest)
      → (r : List A) × (o ≡ some (y, r)) × (rest ≡ x ∷ r)
  put_back-eq-some x none e = cc
  put_back-eq-some x (some (z, r)) e = (r, ground arith, ground arith)

  -- Taking an element out takes its share out of every count.
  pub count-take_out :
      (p : A → Bool) (i : ℕ) (xs : List A) {y : A} {rest : List A}
      → take_out i xs ≡ some (y, rest)
      → count p xs ≡ bit (p y) + count p rest
  count-take_out p i [] e = cc
  count-take_out p zero (x ∷ xs) e = ground arith
  count-take_out p (suc i) (x ∷ xs) e =
      let (r, taken, left) = put_back-eq-some x (take_out i xs) e in
      rw left (omega (arith, count-take_out p i xs taken))

  pub sum_by-take_out :
      (f : A → ℕ) (i : ℕ) (xs : List A) {y : A} {rest : List A}
      → take_out i xs ≡ some (y, rest)
      → sum_by f xs ≡ f y + sum_by f rest
  sum_by-take_out f i [] e = cc
  sum_by-take_out f zero (x ∷ xs) e = ground arith
  sum_by-take_out f (suc i) (x ∷ xs) e =
      let (r, taken, left) = put_back-eq-some x (take_out i xs) e in
      rw left (omega (arith, sum_by-take_out f i xs taken))

  pub All-mono {κ} : (P Q : A → Type κ) (xs : List A) → ((x : A) → P x → Q x) → All P xs → All Q xs
  All-mono P Q [] f h = tt
  All-mono P Q (x ∷ xs) f h = (f x h.0, All-mono P Q xs f h.1)

  pub All-get_elem? {κ} :
      (P : A → Type κ) (xs : List A) (i : ℕ) {x : A} → get_elem? xs i ≡ some x → All P xs → P x
  All-get_elem? P [] i e h = cc
  All-get_elem? P (x ∷ xs) zero e h = subst P (ground arith) h.0
  All-get_elem? P (x ∷ xs) (suc i) e h = All-get_elem? P xs i e h.1

  pub All-take_out {κ} :
      (P : A → Type κ) (i : ℕ) (xs : List A) {y : A} {rest : List A}
      → take_out i xs ≡ some (y, rest)
      → All P xs
      → P y × All P rest
  All-take_out P i [] e h = cc
  All-take_out P zero (x ∷ xs) e h = ground arith
  All-take_out P (suc i) (x ∷ xs) e h =
      let (r, taken, left) = put_back-eq-some x (take_out i xs) e in
      let (here, later) = All-take_out P i xs taken h.1 in (here, rw left (h.0, later))

module _ {ℓ κ} {A : Type ℓ} {B : Type κ} where
  pub length-map : (xs : List A) (f : A → B) → length (map f xs) ≡ length xs
  length-map [] f = refl
  length-map (x ∷ xs) f = ap suc (length-map xs f)
