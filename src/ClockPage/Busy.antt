-- ===== src/ClockPage/Busy.antt =====
-- The `busy` flag of the clock page, over whole sessions.
use future_was.Base.{
  ◌+◌, ◌≤◌, String, Bool, true, false, Option, none, some, List, take_out, count, count-take_out,
  bit, ◌≡◌, ◌↔◌, refl, arith, Option-cases, Bool-cases, if_cases, inl, inr,
}
use future_was.Base.Runs.{run_by-keeps}
use future_was.Base.Int.{ℤ, pos, ◌+ℤ◌}
use future_was.Base.Decimal.{parse_int}
use future_was.Base.Trim.{is_empty}
use future_was.Base.Results.{ok}
use future_was.ClockPage.{
  Env, nobody, Pending, getting, Page, initial, LocalTime, apply, on_apply, on_preset, on_calendar,
  on_target_change, target_set, local_text, int_or_zero, offset_of, reference,
}
use future_was.ClockPage.Session.{
  Answer, got, resume, Event, press_apply, calendar, press_preset, answer, step, run,
}

-- Whether a pending `await` belongs to a jump.
abbrev pub is_jump : Pending → Bool
is_jump (getting nobody) = false
is_jump _ = true

abbrev IsBusyExact : Page → Type 0
IsBusyExact s = count is_jump s.pending ≡ bit s.busy

resume-IsBusyExact :
    (p : Pending) (a : Answer) (before s : Page)
    → IsBusyExact before
    → before.busy ≡ s.busy
    → bit (is_jump p) + count is_jump s.pending ≡ bit s.busy
    → IsBusyExact (resume p a before s)
unfolding resume
resume-IsBusyExact (getting nobody) (got (ok r)) before s h b e = ground arith
resume-IsBusyExact p a before s h b e = ground arith

apply-IsBusyExact : (z : ℤ) (s : Page) → s.busy ≡ false → IsBusyExact s → IsBusyExact (apply z s)
unfolding apply
apply-IsBusyExact z s idle h = ground arith

target-IsBusyExact :
    (env : Env) (v : String) (s : Page) → IsBusyExact s → IsBusyExact (on_target_change env v s)
unfolding on_target_change
target-IsBusyExact env v s h = elim (Bool-cases (is_empty v)) [
  | inl empty ↦ rw empty h
  | inr filled ↦ rw filled (set (env.time_of v))
]
  where
    set :
        (o : Option ℤ) → IsBusyExact (target_set o (reference env s.info) (record s { target = v }))
    set none = h
    set (some ms) = h

calendar-IsBusyExact :
    (env : Env) (d : Option LocalTime) (s : Page)
    → IsBusyExact s
    → IsBusyExact (on_calendar env d s)
unfolding on_calendar
calendar-IsBusyExact env none s h = target-IsBusyExact env "" s h
calendar-IsBusyExact env (some d) s h = target-IsBusyExact env (local_text d) s h

step-IsBusyExact : (e : Event) (s : Page) → IsBusyExact s → IsBusyExact (step e s)
unfolding step
step-IsBusyExact (answer i a) s h = elim (Option-cases (take_out i s.pending)) [
  | inl nothing ↦ rw nothing h
  | inr ((p, rest), found) ↦ rw found (
      resume-IsBusyExact p a s (record s { pending = rest }) h refl
        (omega (arith, count-take_out is_jump i s.pending found)))
]
step-IsBusyExact (calendar env d) s h = calendar-IsBusyExact env d s h
step-IsBusyExact press_apply s h =
    if_cases IsBusyExact s.busy (λ _. h)
      (λ idle. unfold on_apply in apply-IsBusyExact (int_or_zero (parse_int s.add_second)) s idle h)
step-IsBusyExact (press_preset p) s h =
    if_cases IsBusyExact s.busy (λ _. h)
      (λ idle.
        unfold on_preset in
        if_cases IsBusyExact p.absolute (λ _. apply-IsBusyExact (pos 0) s idle h)
          (λ _. apply-IsBusyExact (offset_of s.info +ℤ p.sec) s idle h))
step-IsBusyExact e s h = omega arith

run-IsBusyExact : (es : List Event) (s : Page) → IsBusyExact s → IsBusyExact (run es s)
unfolding run
run-IsBusyExact es s h = run_by-keeps step IsBusyExact step-IsBusyExact es s h

-- In every session at most one jump is under way, from its request to the end of the refresh that
-- follows it, and `busy` is set exactly while one is.
pub one_jump :
    (es : List Event)
    → let s = run es initial in
      (count is_jump s.pending ≤ 1) × ((s.busy ≡ true) ↔ (count is_jump s.pending ≡ 1))
one_jump es = let exact = run-IsBusyExact es initial (unfold initial in refl) in ground arith
