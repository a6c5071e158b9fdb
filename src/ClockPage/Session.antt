-- ===== src/ClockPage/Session.antt =====
-- The events of ClockPage.tsx. The buttons that jump are disabled while `busy`; `새로고침` is not.
use future_was.Base.{String, Option, none, some, List, ℕ, take_out, if◌then◌else◌}
use future_was.Base.Runs.{run_by}
use future_was.Base.Results.{Result}
use future_was.Api.{ClockInfo, ClockJumpResult}
use future_was.ClockPage.{
  Env, Preset, nobody, Pending, getting, jumping, Page, LocalTime, on_calendar, refresh,
  refresh_settled, jump_settled, on_apply, on_preset,
}

pub data Answer : Type 0 where
  got : Result ClockInfo → Answer
  jumped : Result ClockJumpResult → Answer

unfoldable pub resume : Pending → Answer → Page → Page → Page
unfolding refresh_settled jump_settled
resume (getting caller) (got r) before s = refresh_settled caller r s
resume jumping (jumped r) before s = jump_settled r s
resume _ _ before s = before

abbrev pub resume_at : Option (Pending × List Pending) → Answer → Page → Page
resume_at none a s = s
resume_at (some (p, rest)) a s = resume p a s (record s { pending = rest })

pub data Event : Type 0 where
  mount press_refresh press_apply : Event
  type_user type_add_second : String → Event
  calendar : Env → Option LocalTime → Event
  press_preset : Preset → Event
  answer : ℕ → Answer → Event

unfoldable pub step : Event → Page → Page
unfolding resume refresh on_calendar on_apply on_preset
step mount s = refresh nobody s
step press_refresh s = refresh nobody s
step press_apply s = if s.busy then s else on_apply s
step (type_user v) s = record s { user = v }
step (type_add_second v) s = record s { add_second = v }
step (calendar env d) s = on_calendar env d s
step (press_preset p) s = if s.busy then s else on_preset p s
step (answer i a) s = resume_at (take_out i s.pending) a s

unfoldable pub run : List Event → Page → Page
unfolding run_by
run es s = run_by step es s
