-- ===== src/ClockPage/LocalText.antt =====
-- The text of a time that was chosen in the calendar, read field by field.
use Prim.Native.Char.{Char, code}
use Prim.Native.String
use text.Mathlib.TextLemmas.{cons-append, nil-append, append-nil}
use future_was.Base.{
  ℕ, suc, ◌+◌, ◌<◌, ◌≤◌, ◌⊎◌, inl, inr, ltb, Bool-cases, String, true, false, Option, none, some,
  [], ◌∷◌, ◌==◌, template, if◌then◌else◌, ◌≡◌, refl, ap, ◌∙◌, arith,
}
use future_was.Base.Decimal.{
  show_nat, number_of, is_single, is_pair, is_single-show_nat, is_pair-show_nat, is_digit,
  all_digits, all_digits-show_nat, number_of-show_nat, number_of-zero, show_nat-not_empty,
}
use future_was.Base.Trim.{is_empty}
use future_was.ClockPage.{LocalTime, pad_start, pad, local_text}

-- A text up to the first character with a code, and what follows it.
cut_at : ℕ → String → String × String
cut_at k String.[] = ("", "")
cut_at k (String.◌∷◌ c s) =
    let (before, after) = cut_at k s in
    if code c == k then ("", s) else (String.◌∷◌ c before, after)

-- The fields of `yyyy-MM-ddTHH:mm:ss`, with the month from 0.
abbrev time_from :
    Option ℕ → Option ℕ → Option ℕ → Option ℕ → Option ℕ → Option ℕ → Option LocalTime
time_from (some y) (some (suc mo)) (some d) (some h) (some mi) (some s) =
    some (record { year = y; month = mo; day = d; hours = h; minutes = mi; seconds = s })
time_from _ _ _ _ _ _ = none

-- A field that the format gives two digits.
two_digits : String → Option ℕ
two_digits s = if is_pair s then number_of s else none

pub read_local : String → Option LocalTime
unfolding cut_at two_digits
read_local text =
    let (year, t₁) = cut_at 45 text in
    let (month, t₂) = cut_at 45 t₁ in
    let (day, t₃) = cut_at 84 t₂ in
    let (hours, t₄) = cut_at 58 t₃ in
    let (minutes, seconds) = cut_at 58 t₄ in
    time_from (number_of year) (two_digits month) (two_digits day) (two_digits hours)
      (two_digits minutes) (two_digits seconds)

cut_at-digits :
    (c : Char) (s rest : String)
    → all_digits s ≡ true
    → is_digit (code c) ≡ false
    → cut_at (code c) (String.◌++◌ s (String.◌++◌ (String.◌∷◌ c "") rest)) ≡ (s, rest)
unfolding cut_at
cut_at-digits c String.[] rest h other =
    let same : (code c == code c) ≡ true = ground arith in
    rw (
      nil-append (String.◌++◌ (String.◌∷◌ c "") rest),
      cons-append c "" rest,
      nil-append rest,
      same,
    )
cut_at-digits c (String.◌∷◌ d s) rest h other =
    let apart : (code d == code c) ≡ false = ground arith in
    let later = cut_at-digits c s rest (ground arith) other in
    rw (cons-append d s (String.◌++◌ (String.◌∷◌ c "") rest), apart, later)

pad_start-one : (c : Char) → pad_start (String.◌∷◌ c "") ≡ String.◌∷◌ "0" (String.◌∷◌ c "")
pad_start-one c =
    cons-append "0" "" _ ∙ ap (λ t. String.◌∷◌ "0" t) (nil-append _ ∙ append-nil (String.◌∷◌ c ""))

all_digits-pad_start : (s : String) → all_digits s ≡ true → all_digits (pad_start s) ≡ true
all_digits-pad_start String.[] h = refl
all_digits-pad_start (String.◌∷◌ c String.[]) h = ap all_digits (pad_start-one c) ∙ h
all_digits-pad_start (String.◌∷◌ c (String.◌∷◌ d s)) h = h

number_of-pad_start : (s : String) → is_empty s ≡ false → number_of (pad_start s) ≡ number_of s
number_of-pad_start String.[] h = cc
number_of-pad_start (String.◌∷◌ c String.[]) h =
    ap number_of (pad_start-one c) ∙ number_of-zero (String.◌∷◌ c "") refl
number_of-pad_start (String.◌∷◌ c (String.◌∷◌ d s)) h = refl

all_digits-pad : (n : ℕ) → all_digits (pad n) ≡ true
all_digits-pad n = all_digits-pad_start (show_nat n) (all_digits-show_nat n)

number_of-pad : (n : ℕ) → number_of (pad n) ≡ some n
number_of-pad n = number_of-pad_start (show_nat n) (show_nat-not_empty n) ∙ number_of-show_nat n

is_pair-pad_start :
    (s : String) → (is_single s ≡ true) ⊎ (is_pair s ≡ true) → is_pair (pad_start s) ≡ true
is_pair-pad_start String.[] h = refl
is_pair-pad_start (String.◌∷◌ c String.[]) h = ap is_pair (pad_start-one c)
is_pair-pad_start (String.◌∷◌ c (String.◌∷◌ d String.[])) h = refl
is_pair-pad_start (String.◌∷◌ c (String.◌∷◌ d (String.◌∷◌ e s))) (inl h) = absurd (cc)
is_pair-pad_start (String.◌∷◌ c (String.◌∷◌ d (String.◌∷◌ e s))) (inr h) = absurd (cc)

-- A number below 100 is padded to two digits, and read back from them.
two_digits-pad : (n : ℕ) → n < 100 → two_digits (pad n) ≡ some n
unfolding two_digits
two_digits-pad n h =
    let size : (is_single (show_nat n) ≡ true) ⊎ (is_pair (show_nat n) ≡ true) =
      elim (Bool-cases (ltb n 10)) [
        | inl small ↦ inl (is_single-show_nat n small)
        | inr large ↦ inr (is_pair-show_nat n large h)
      ] in
    rw (is_pair-pad_start (show_nat n) size) (number_of-pad n)

abbrev text_of : String → String → String → String → String → String → String
text_of y mo d h mi s = template (y ∷ "-" ∷ mo ∷ "-" ∷ d ∷ "T" ∷ h ∷ ":" ∷ mi ∷ ":" ∷ s ∷ [])

local_text-text_of :
    (d : LocalTime)
    → local_text d
      ≡ text_of
          (show_nat d.year)
          (pad (d.month + 1))
          (pad d.day)
          (pad d.hours)
          (pad d.minutes)
          (pad d.seconds)
unfolding local_text
local_text-text_of d = refl

read_local-text_of :
    (y mo d h mi s : String)
    → all_digits y ≡ true
    → all_digits mo ≡ true
    → all_digits d ≡ true
    → all_digits h ≡ true
    → all_digits mi ≡ true
    → read_local (text_of y mo d h mi s)
      ≡ time_from
          (number_of y)
          (two_digits mo)
          (two_digits d)
          (two_digits h)
          (two_digits mi)
          (two_digits s)
unfolding read_local
read_local-text_of y mo d h mi s y_ok mo_ok d_ok h_ok mi_ok = rw (
  cut_at-digits "-" y _ y_ok refl,
  cut_at-digits "-" mo _ mo_ok refl,
  cut_at-digits "T" d _ d_ok refl,
  cut_at-digits ":" h _ h_ok refl,
  cut_at-digits ":" mi _ mi_ok refl,
  append-nil s,
)

-- The fields of a time of the calendar, the month from 0.
pub record IsOfCalendar (d : LocalTime) : Type 0 where
  pub month : d.month < 12
  pub day : d.day ≤ 31
  pub hours : d.hours < 24
  pub minutes : d.minutes < 60
  pub seconds : d.seconds < 60

-- The text of a time of the calendar has its fields between the separators of `yyyy-MM-ddTHH:mm:ss`,
-- those after the year with exactly two digits, and each is read back.
pub read_local-local_text : (d : LocalTime) → IsOfCalendar d → read_local (local_text d) ≡ some d
read_local-local_text d valid =
    let next : d.month + 1 ≡ suc d.month = omega arith in
    let month : two_digits (pad (d.month + 1)) ≡ some (suc d.month) =
      two_digits-pad (d.month + 1) (omega (arith, valid.month)) ∙ ap some next in
    ap read_local (local_text-text_of d)
    ∙ read_local-text_of (show_nat d.year) (pad (d.month + 1)) (pad d.day) (pad d.hours)
        (pad d.minutes) (pad d.seconds) (all_digits-show_nat d.year) (all_digits-pad (d.month + 1))
        (all_digits-pad d.day) (all_digits-pad d.hours) (all_digits-pad d.minutes)
    ∙ rw (
      number_of-show_nat d.year,
      month,
      two_digits-pad d.day (omega (arith, valid.day)),
      two_digits-pad d.hours (omega (arith, valid.hours)),
      two_digits-pad d.minutes (omega (arith, valid.minutes)),
      two_digits-pad d.seconds (omega (arith, valid.seconds)),
    )
