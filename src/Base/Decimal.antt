-- ===== src/Base/Decimal.antt =====
-- Numbers as text: `String(n)`, `Number(key)` and `parseInt(s, 10)`.
use Prim.Native.Nat.{ℕ, zero, suc, ◌+◌, ◌-◌, ◌*◌, ◌/◌, ◌%◌, ◌<◌}
use Prim.Native.Char.{Char, code}
use Prim.Native.String.{String}
use mathlib.Core.Path.{◌≡◌, refl, sym, ap, ◌∙◌}
use mathlib.Core.Bool.{Bool, true, false, ◌&&◌, not}
use mathlib.Core.Option.{Option, none, some}
use native.Mathlib.Omega.{arith}
use future_was.Base.Tests.{if◌then◌else◌, leb, ltb, ◌==◌}
use future_was.Base.Text.{is_white}
use future_was.Base.Trim.{is_empty, skip_white}
use future_was.Base.Int.{ℤ, pos, negsuc}

digit : ℕ → Char
digit zero = "0"
digit (suc zero) = "1"
digit (suc (suc zero)) = "2"
digit (suc (suc (suc zero))) = "3"
digit (suc (suc (suc (suc zero)))) = "4"
digit (suc (suc (suc (suc (suc zero))))) = "5"
digit (suc (suc (suc (suc (suc (suc zero)))))) = "6"
digit (suc (suc (suc (suc (suc (suc (suc zero))))))) = "7"
digit (suc (suc (suc (suc (suc (suc (suc (suc zero)))))))) = "8"
digit (suc (suc (suc (suc (suc (suc (suc (suc (suc n))))))))) = "9"

code-digit : (n : ℕ) → n < 10 → code (digit n) ≡ 48 + n
unfolding digit
code-digit zero h = refl
code-digit (suc zero) h = refl
code-digit (suc (suc zero)) h = refl
code-digit (suc (suc (suc zero))) h = refl
code-digit (suc (suc (suc (suc zero)))) h = refl
code-digit (suc (suc (suc (suc (suc zero))))) h = refl
code-digit (suc (suc (suc (suc (suc (suc zero)))))) h = refl
code-digit (suc (suc (suc (suc (suc (suc (suc zero))))))) h = refl
code-digit (suc (suc (suc (suc (suc (suc (suc (suc zero)))))))) h = refl
code-digit (suc (suc (suc (suc (suc (suc (suc (suc (suc n))))))))) h = omega arith

-- The last digit is put in front of the text made so far. The fuel is the number and one more.
show_from : ℕ → ℕ → String → String
show_from zero n rest = rest
show_from (suc f) n rest =
    let more = show_from f (n / 10) (String.◌∷◌ (digit (n % 10)) rest) in
    if ltb n 10 then String.◌∷◌ (digit (n % 10)) rest else more

-- `String(n)` of a natural number.
unfoldable pub show_nat : ℕ → String
unfolding show_from digit
show_nat n = show_from (suc n) n ""

-- `String(n)` of an integer.
unfoldable pub show_int : ℤ → String
unfolding show_nat
show_int (pos n) = show_nat n
show_int (negsuc n) = String.◌∷◌ "-" (show_nat (suc n))

abbrev pub is_digit : ℕ → Bool
is_digit c = leb 48 c && leb c 57

abbrev pub starts_with_digit : String → Bool
starts_with_digit String.[] = false
starts_with_digit (String.◌∷◌ c s) = is_digit (code c)

abbrev pub all_digits : String → Bool
all_digits String.[] = true
all_digits (String.◌∷◌ c s) = is_digit (code c) && all_digits s

-- A text of one character, and of two.
abbrev pub is_single : String → Bool
is_single (String.◌∷◌ c String.[]) = true
is_single _ = false

abbrev pub is_pair : String → Bool
is_pair (String.◌∷◌ c (String.◌∷◌ d String.[])) = true
is_pair _ = false

-- The value of the digits that a text begins with.
read_digits : ℕ → String → ℕ
read_digits n String.[] = n
read_digits n (String.◌∷◌ c s) =
    let rest = read_digits (n * 10 + (code c - 48)) s in if is_digit (code c) then rest else n

-- `Number(key)` of a key that holds digits only.
unfoldable pub number_of : String → Option ℕ
unfolding read_digits
number_of s = if all_digits s && not (is_empty s) then some (read_digits 0 s) else none

abbrev negate : ℕ → ℤ
negate zero = pos 0
negate (suc n) = negsuc n

read_signed : String → Option ℤ
unfolding read_digits
read_signed String.[] = none
read_signed (String.◌∷◌ c s) =
    if code c == 45
    then (if starts_with_digit s then some (negate (read_digits 0 s)) else none)
    else if code c == 43
    then (if starts_with_digit s then some (pos (read_digits 0 s)) else none)
    else if is_digit (code c)
    then some (pos (read_digits 0 (String.◌∷◌ c s)))
    else none

-- `parseInt(s, 10)`; `none` is NaN.
unfoldable pub parse_int : String → Option ℤ
unfolding read_signed
parse_int s = read_signed (skip_white s)

show_from-starts :
    (f n : ℕ) (rest : String)
    → starts_with_digit rest ≡ true
    → starts_with_digit (show_from f n rest) ≡ true
unfolding show_from
show_from-starts zero n rest h = h
show_from-starts (suc f) n rest h =
    let last = code-digit (n % 10) (omega arith) in
    ground (arith, last, show_from-starts f (n / 10) (String.◌∷◌ (digit (n % 10)) rest))

show_nat-starts : (n : ℕ) → starts_with_digit (show_nat n) ≡ true
unfolding show_nat
show_nat-starts n =
    let last = code-digit (n % 10) (omega arith) in
    ground (arith, last, show_from-starts n (n / 10) (String.◌∷◌ (digit (n % 10)) ""))

all_digits-show_from :
    (f n : ℕ) (rest : String) → all_digits rest ≡ true → all_digits (show_from f n rest) ≡ true
unfolding show_from
all_digits-show_from zero n rest h = h
all_digits-show_from (suc f) n rest h =
    let last = code-digit (n % 10) (omega arith) in
    ground (arith, last, all_digits-show_from f (n / 10) (String.◌∷◌ (digit (n % 10)) rest))

read_digits-show_from :
    (f n : ℕ) (rest : String) → n < f → read_digits 0 (show_from f n rest) ≡ read_digits n rest
unfolding show_from read_digits
read_digits-show_from zero n rest h = absurd (omega arith)
read_digits-show_from (suc f) n rest h =
    let last = code-digit (n % 10) (omega arith) in
    let more = String.◌∷◌ (digit (n % 10)) rest in
    ground (arith, last, read_digits-show_from f (n / 10) more)

read_digits-show_nat : (n : ℕ) → read_digits 0 (show_nat n) ≡ n
unfolding show_nat read_digits
read_digits-show_nat n = read_digits-show_from (suc n) n "" (omega arith)

starts-not-empty : (s : String) → starts_with_digit s ≡ true → is_empty s ≡ false
starts-not-empty String.[] h = cc
starts-not-empty (String.◌∷◌ c s) h = refl

pub all_digits-show_nat : (n : ℕ) → all_digits (show_nat n) ≡ true
unfolding show_nat
all_digits-show_nat n = all_digits-show_from (suc n) n "" refl

-- A zero in front of some digits changes nothing.
pub number_of-zero : (s : String) → is_empty s ≡ false → number_of (String.◌∷◌ "0" s) ≡ number_of s
unfolding number_of read_digits
number_of-zero s h = rw h

-- The key of a row is read back as the number of the row.
pub number_of-show_nat : (n : ℕ) → number_of (show_nat n) ≡ some n
unfolding number_of
number_of-show_nat n = rw (
  all_digits-show_nat n,
  starts-not-empty (show_nat n) (show_nat-starts n),
  read_digits-show_nat n,
)

read_signed_of_digit :
    (s : String) → starts_with_digit s ≡ true → read_signed s ≡ some (pos (read_digits 0 s))
unfolding read_signed
read_signed_of_digit String.[] h = cc
read_signed_of_digit (String.◌∷◌ c s) h = ground arith

skip_white_of_digit : (s : String) → starts_with_digit s ≡ true → skip_white s ≡ s
unfolding skip_white is_white
skip_white_of_digit String.[] h = cc
skip_white_of_digit (String.◌∷◌ c s) h = ground arith

parse_int-negative :
    (s : String)
    → starts_with_digit s ≡ true
    → parse_int (String.◌∷◌ "-" s) ≡ some (negate (read_digits 0 s))
unfolding parse_int skip_white is_white read_signed
parse_int-negative s h = rw h

-- `parseInt` reads back the text of every integer.
pub parse_int-show_int : (z : ℤ) → parse_int (show_int z) ≡ some z
unfolding show_int
parse_int-show_int (pos n) =
    let starts = show_nat-starts n in
    unfold parse_int in
    rw (
      skip_white_of_digit (show_nat n) starts,
      read_signed_of_digit (show_nat n) starts,
      read_digits-show_nat n,
    )
parse_int-show_int (negsuc n) =
    rw (
      parse_int-negative (show_nat (suc n)) (show_nat-starts (suc n)),
      read_digits-show_nat (suc n),
    )

show_test :
    (show_nat 1205 ≡ "1205") × (parse_int " -86400s" ≡ some (negsuc 86399)) × (parse_int "x" ≡ none)
unfolding show_nat parse_int is_white skip_white
show_test = (refl, refl, refl)

pub show_nat-not_empty : (n : ℕ) → is_empty (show_nat n) ≡ false
show_nat-not_empty n = starts-not-empty (show_nat n) (show_nat-starts n)

pub show_nat-injective : (m n : ℕ) → show_nat m ≡ show_nat n → m ≡ n
show_nat-injective m n e =
    let p = sym (number_of-show_nat m) ∙ ap number_of e ∙ number_of-show_nat n in ground arith

-- The digits of a number below 10, and of another below 100.
pub is_single-show_nat : (n : ℕ) → ltb n 10 ≡ true → is_single (show_nat n) ≡ true
unfolding show_nat show_from
is_single-show_nat n small = rw small refl

pub is_pair-show_nat : (n : ℕ) → ltb n 10 ≡ false → n < 100 → is_pair (show_nat n) ≡ true
unfolding show_nat show_from
is_pair-show_nat zero large h = ground arith
is_pair-show_nat (suc n) large h =
    let next : ltb (suc n / 10) 10 ≡ true = ground arith in rw (large, next) refl
