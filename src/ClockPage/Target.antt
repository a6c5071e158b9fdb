-- ===== src/ClockPage/Target.antt =====
-- From a chosen time to the offset that is sent.
use future_was.Base.{
  String, false, Option, none, some, sym, inl, inr, ◌⊎◌, [], ◌∷◌, ◌≡◌, refl, ap, ◌∙◌, arith,
}
use future_was.Base.Int.{ℤ, pos, negsuc, ◌+ℤ◌, ◌-ℤ◌, ◌≤ℤ◌, floor_div, scale, +ℤ_parts}
use Prim.Native.String
use text.Mathlib.TextLemmas.{cons-append}
use future_was.Base.Decimal.{show_nat, show_nat-not_empty, show_int, parse_int, parse_int-show_int}
use future_was.Base.Trim.{trim, is_empty, all_white, is_empty-trim}
use future_was.Api.{ClockInfo, clock_jump}
use future_was.ClockPage.{
  Env, Page, LocalTime, round_sec, delta_text, reference, on_target_change, on_calendar, local_text,
  apply, on_apply,
}
use future_was.ClockPage.Session.{calendar, press_apply, step, run}

floor_div_bounds :
    (z : ℤ)
    → (scale (floor_div z 1000) 1000 ≤ℤ z) × (z ≤ℤ (scale (floor_div z 1000) 1000 +ℤ pos 999))
unfolding floor_div scale ◌+ℤ◌
floor_div_bounds (pos n) = ground arith
floor_div_bounds (negsuc n) = ground arith

-- `d` seconds differ from `ms` milliseconds by at most half a second.
abbrev pub IsNearest : ℤ → ℤ → Type 0
IsNearest d ms = (scale d 1000 ≤ℤ (ms +ℤ pos 500)) × (ms ≤ℤ (scale d 1000 +ℤ pos 499))

round_sec-IsNearest : (ms : ℤ) → IsNearest (round_sec ms) ms
unfolding round_sec
round_sec-IsNearest ms =
    let (below, above) = floor_div_bounds (ms +ℤ pos 500) in
    let d = scale (floor_div (ms +ℤ pos 500) 1000) 1000 in
    (below, omega (arith, above, +ℤ_parts ms (pos 500), +ℤ_parts d (pos 999), +ℤ_parts d (pos 499)))

append-not_empty : (a b : String) → is_empty a ≡ false → is_empty (String.◌++◌ a b) ≡ false
append-not_empty String.[] b h = cc
append-not_empty (String.◌∷◌ c a) b h = rw (cons-append c a b)

local_text-not_empty : (d : LocalTime) → is_empty (local_text d) ≡ false
unfolding local_text
local_text-not_empty d = append-not_empty (show_nat d.year) _ (show_nat-not_empty d.year)

-- What the calendar fills in.
calendar-fills :
    (env : Env) (d : LocalTime) (s : Page) (target_ms ref_ms : ℤ)
    → env.time_of (local_text d) ≡ some target_ms
    → reference env s.info ≡ some ref_ms
    → on_calendar env (some d) s
      ≡ record s { target = local_text d; add_second = show_int (round_sec (target_ms -ℤ ref_ms)) }
unfolding on_target_change on_calendar delta_text
calendar-fills env d s target_ms ref_ms t r =
    rw (local_text-not_empty d, t)
      (ap (λ ref. record s { target = local_text d; add_second = delta_text target_ms ref }) r)

apply-sends :
    (s : Page) (z : ℤ)
    → s.busy ≡ false
    → all_white s.user ≡ false
    → s.add_second ≡ show_int z
    → (step press_apply s).sent ≡ clock_jump z (trim s.user) ∷ s.sent
unfolding step on_apply apply
apply-sends s z idle user text =
    let parsed : parse_int s.add_second ≡ some z = ap parse_int text ∙ parse_int-show_int z in
    ground (arith, is_empty-trim s.user)

-- The time in milliseconds that an offset is counted from: the real time of the server, if it is known
-- and its text can be read, and the browser's if the server's is not known.
abbrev pub IsReference : Env → Option ClockInfo → ℤ → Type 0
IsReference env info ms =
    ((info ≡ none) × (ms ≡ env.now))
    ⊎ ((i : ClockInfo) × (info ≡ some i)
        × (((i.real_time ≡ "") × (ms ≡ env.now))
            ⊎ ((is_empty i.real_time ≡ false) × (env.time_of i.real_time ≡ some ms))))

reference-IsReference :
    (env : Env) (info : Option ClockInfo) (ms : ℤ)
    → IsReference env info ms
    → reference env info ≡ some ms
unfolding reference
reference-IsReference env info ms (inl (unknown, same)) =
    rw (unknown, reference) (ap some (sym same))
reference-IsReference env info ms (inr (i, known, inl (blank, same))) =
    rw (known, reference) (rw (ap is_empty blank) (ap some (sym same)))
reference-IsReference env info ms (inr (i, known, inr (there, read))) =
    rw (known, reference) (rw there read)

-- A time is chosen in the calendar and applied, on an idle page with a user that is not blank: the
-- jump that is sent is of the seconds nearest to the difference from the server's real time, or from
-- the browser's if the server's is not known, and its user is trimmed.
pub calendar_applies :
    (env : Env) (d : LocalTime) (s : Page) (target_ms ref_ms : ℤ)
    → s.busy ≡ false
    → all_white s.user ≡ false
    → env.time_of (local_text d) ≡ some target_ms
    → IsReference env s.info ref_ms
    → (sec : ℤ) × ((run (calendar env (some d) ∷ press_apply ∷ []) s).sent
        ≡ clock_jump sec (trim s.user) ∷ s.sent)
      × IsNearest sec (target_ms -ℤ ref_ms)
unfolding run
calendar_applies env d s target_ms ref_ms idle user t r =
    let z = round_sec (target_ms -ℤ ref_ms) in
    let chosen = record s { target = local_text d; add_second = show_int z } in
    let filled : step (calendar env (some d)) s ≡ chosen =
      unfold step in
      calendar-fills env d s target_ms ref_ms t (reference-IsReference env s.info ref_ms r) in
    (
      z,
      ap (λ (p : Page). (step press_apply p).sent) filled ∙ apply-sends chosen z idle user refl,
      round_sec-IsNearest (target_ms -ℤ ref_ms),
    )
