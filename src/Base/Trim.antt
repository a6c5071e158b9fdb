-- ===== src/Base/Trim.antt =====
-- `String.prototype.trim`.
use Prim.Native.Char.{code}
use Prim.Native.String.{String}
use mathlib.Core.Path.{◌≡◌, refl}
use mathlib.Core.Bool.{Bool, true, false, ◌&&◌}
use native.Mathlib.Omega.{arith}
use future_was.Base.Tests.{if◌then◌else◌}
use future_was.Base.Text.{is_white}

-- `s === ''`
abbrev pub is_empty : String → Bool
is_empty String.[] = true
is_empty (String.◌∷◌ c s) = false

unfoldable pub skip_white : String → String
skip_white String.[] = String.[]
skip_white (String.◌∷◌ c s) =
    let rest = skip_white s in if is_white (code c) then rest else String.◌∷◌ c s

trim_end : String → String
trim_end String.[] = String.[]
trim_end (String.◌∷◌ c s) =
    let rest = trim_end s in
    if is_white (code c) && is_empty rest then String.[] else String.◌∷◌ c rest

unfoldable pub trim : String → String
unfolding skip_white trim_end
trim s = trim_end (skip_white s)

-- Every character is white space.
abbrev pub all_white : String → Bool
all_white String.[] = true
all_white (String.◌∷◌ c s) = is_white (code c) && all_white s

trim_end-empty : (s : String) → is_empty (trim_end s) ≡ all_white s
unfolding trim_end
trim_end-empty String.[] = refl
trim_end-empty (String.◌∷◌ c s) = ground (arith, trim_end-empty s)

skip_white-all_white : (s : String) → all_white (skip_white s) ≡ all_white s
unfolding skip_white
skip_white-all_white String.[] = refl
skip_white-all_white (String.◌∷◌ c s) = ground (arith, skip_white-all_white s)

-- `!s.trim()` holds exactly when `s` has nothing but white space.
pub is_empty-trim : (s : String) → is_empty (trim s) ≡ all_white s
unfolding trim
is_empty-trim s = rw (trim_end-empty (skip_white s)) (skip_white-all_white s)

trim_end_idempotent : (s : String) → trim_end (trim_end s) ≡ trim_end s
unfolding trim_end
trim_end_idempotent String.[] = refl
trim_end_idempotent (String.◌∷◌ c s) = ground (arith, trim_end_idempotent s)

-- Does not begin with white space.
abbrev is_stripped : String → Bool
is_stripped String.[] = true
is_stripped (String.◌∷◌ c s) = if is_white (code c) then false else true

skip_white-is_stripped : (s : String) → is_stripped (skip_white s) ≡ true
unfolding skip_white
skip_white-is_stripped String.[] = refl
skip_white-is_stripped (String.◌∷◌ c s) = ground (arith, skip_white-is_stripped s)

trim_end-is_stripped : (s : String) → is_stripped s ≡ true → is_stripped (trim_end s) ≡ true
unfolding trim_end
trim_end-is_stripped String.[] h = refl
trim_end-is_stripped (String.◌∷◌ c s) h = ground arith

skip_white_of_is_stripped : (s : String) → is_stripped s ≡ true → skip_white s ≡ s
unfolding skip_white
skip_white_of_is_stripped String.[] h = refl
skip_white_of_is_stripped (String.◌∷◌ c s) h = ground arith

-- Trimming a second time changes nothing.
pub trim_idempotent : (s : String) → trim (trim s) ≡ trim s
unfolding trim
trim_idempotent s =
    let stripped = trim_end-is_stripped (skip_white s) (skip_white-is_stripped s) in
    rw (skip_white_of_is_stripped (trim_end (skip_white s)) stripped)
      (trim_end_idempotent (skip_white s))

trim_test : trim "  a b\n" ≡ "a b"
unfolding trim is_white
trim_test = refl
