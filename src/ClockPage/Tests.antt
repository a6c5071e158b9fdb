-- ===== src/ClockPage/Tests.antt =====
-- Sessions of the clock page at concrete inputs.
use future_was.Base.{
  inl, true, true, false, some, [], ◌∷◌, count, ◌≡◌, ◌↔◌, ◌≤◌, refl, is_white, arith,
}
use future_was.Base.Int.{ℤ, pos, negsuc, ◌+ℤ◌, ◌-ℤ◌}
use future_was.Base.Trim.{trim}
use future_was.Api.{clock_jump}
use future_was.Server.Clock.{offset_sec, trunc_div}
use future_was.ClockPage.{Env, Page, Preset, LocalTime, initial, reference}
use future_was.ClockPage.Session.{mount, press_refresh, press_apply, type_user, calendar, run}
use future_was.ClockPage.Busy.{is_jump, one_jump}
use future_was.ClockPage.{local_text}
use future_was.ClockPage.LocalText.{read_local, read_local-local_text}
use future_was.ClockPage.Target.{IsNearest, calendar_applies}
use future_was.ClockPage.Deployed.{System, IsSettled, press_all, presets_add_up}

abbrev kim_page : Page
kim_page = record initial { user = " kim " }

abbrev plus_day : Preset
plus_day = record { label = "+1일"; sec = pos 86400; absolute = false }

abbrev minus_day : Preset
minus_day = record { label = "-1일"; sec = negsuc 86399; absolute = false }

abbrev reset : Preset
reset = record { label = "원복(0)"; sec = pos 0; absolute = true }

-- A page and a server that were just started.
abbrev fresh : System
fresh = record { page = kim_page; server = record { offset_ns = pos 0; rows = [] } }

presets_add_up_example :
    IsSettled
      (press_all
        ((true, plus_day) ∷ (true, reset) ∷ (false, plus_day) ∷ (true, minus_day) ∷ [])
        fresh)
      (negsuc 86399)
unfolding initial offset_sec trunc_div ◌+ℤ◌ is_white
presets_add_up_example =
    presets_add_up ((true, plus_day) ∷ (true, reset) ∷ (false, plus_day) ∷ (true, minus_day) ∷ [])
      fresh (pos 0)
      ((omega arith, omega arith), ((omega arith, omega arith), ((omega arith, omega arith), tt)))
      (record { idle = refl; user = refl; quiet = refl; shown = refl; actual = refl })

one_jump_example :
    let s =
      run (mount ∷ type_user "kim" ∷ press_apply ∷ press_apply ∷ press_refresh ∷ []) initial in
    (count is_jump s.pending ≤ 1) × ((s.busy ≡ true) ↔ (count is_jump s.pending ≡ 1))
one_jump_example =
    one_jump (mount ∷ type_user "kim" ∷ press_apply ∷ press_apply ∷ press_refresh ∷ [])

-- A browser whose clock stands at 1600 milliseconds, and whose every text is of the time 4000.
abbrev fixed_env : Env
fixed_env = record { time_of = λ _. some (pos 4000); now = pos 1600 }

abbrev chosen_time : LocalTime
chosen_time = record { year = 2026; month = 0; day = 2; hours = 3; minutes = 4; seconds = 5 }

calendar_applies_example :
    (sec : ℤ) × ((run (calendar fixed_env (some chosen_time) ∷ press_apply ∷ []) kim_page).sent
      ≡ clock_jump sec "kim" ∷ [])
    × IsNearest sec (pos 2400)
unfolding initial reference is_white trim ◌-ℤ◌ ◌+ℤ◌
calendar_applies_example =
    calendar_applies fixed_env chosen_time kim_page (pos 4000) (pos 1600) refl refl refl
      (inl (refl, refl))

read_local-local_text_example : read_local (local_text chosen_time) ≡ some chosen_time
read_local-local_text_example = read_local-local_text chosen_time (record {
  month = omega arith;
  day = omega arith;
  hours = omega arith;
  minutes = omega arith;
  seconds = omega arith;
})
