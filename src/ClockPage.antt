-- ===== src/ClockPage.antt =====
-- web/admin/src/pages/ClockPage.tsx: the state of the page and its handlers, cut at each `await` as
-- in VersionPage. The time zone and the clock of the browser are an `Env`.
pub mod Session
pub mod Target
pub mod Busy
pub mod Settle
pub mod Deployed
pub mod LocalText
pub mod View
mod Tests
use Prim.Native.String
use future_was.Base.{
  ℕ, ◌+◌, String, Bool, true, false, Option, none, some, List, [], ◌∷◌, if◌then◌else◌, template,
}
use future_was.Base.Int.{ℤ, pos, negsuc, ◌+ℤ◌, ◌-ℤ◌, floor_div}
use future_was.Base.Decimal.{show_nat, show_int, parse_int}
use future_was.Base.Results.{Result, ok, err}
use future_was.Base.Trim.{trim, is_empty}
use future_was.Api.{ClockInfo, ClockJumpResult, HttpRequest, clock_get, clock_jump}

-- `new Date(text).getTime()`, where `none` is NaN, and `Date.now()`, both in milliseconds.
pub record Env : Type 0 where
  pub time_of : String → Option ℤ
  pub now : ℤ

pub record Preset : Type 0 where
  pub label : String
  pub sec : ℤ
  pub absolute : Bool

abbrev pub presets : List Preset
presets =
    record { label = "+1시간"; sec = pos 3600; absolute = false }
    ∷ record { label = "+1일"; sec = pos 86400; absolute = false }
    ∷ record { label = "+1주일"; sec = pos 604800; absolute = false }
    ∷ record { label = "+1개월"; sec = pos 2592000; absolute = false }
    ∷ record { label = "-1일"; sec = negsuc 86399; absolute = false }
    ∷ record { label = "원복(0)"; sec = pos 0; absolute = true }
    ∷ []

-- Who awaits a call of `refresh`.
pub data Caller : Type 0 where
  nobody on_jump : Caller

pub data Pending : Type 0 where
  getting : Caller → Pending
  jumping : Pending

pub record Page : Type 0 where
  pub info : Option ClockInfo
  pub user : String
  pub add_second : String
  pub target : String
  pub busy : Bool
  pub error : Option String
  pub last_result : Option String
  pub pending : List Pending
  pub sent : List HttpRequest  -- the latest first

unfoldable pub initial : Page
initial = record {
  info = none;
  user = "";
  add_second = "0";
  target = "";
  busy = false;
  error = none;
  last_result = none;
  pending = [];
  sent = [];
}

-- `Math.round(ms / 1000)`, which rounds a half up.
unfoldable pub round_sec : ℤ → ℤ
unfolding floor_div ◌+ℤ◌
round_sec ms = floor_div (ms +ℤ pos 500) 1000

-- `String(Math.round((targetMs - refMs) / 1000))`
unfoldable pub delta_text : ℤ → Option ℤ → String
unfolding round_sec ◌-ℤ◌ show_int
delta_text target_ms none = "NaN"
delta_text target_ms (some ref_ms) = show_int (round_sec (target_ms -ℤ ref_ms))

-- `info?.real_time ? new Date(info.real_time).getTime() : Date.now()`
unfoldable pub reference : Env → Option ClockInfo → Option ℤ
reference env none = some env.now
reference env (some i) = if is_empty i.real_time then some env.now else env.time_of i.real_time

abbrev pub target_set : Option ℤ → Option ℤ → Page → Page
target_set none ref s = s
target_set (some target_ms) ref s = record s { add_second = delta_text target_ms ref }

-- `onTargetChange`
unfoldable pub on_target_change : Env → String → Page → Page
unfolding delta_text reference
on_target_change env v s =
    let chosen = record s { target = v } in
    if is_empty v then chosen else target_set (env.time_of v) (reference env s.info) chosen

-- The local date and time that the calendar gives, with its month from 0.
pub record LocalTime : Type 0 where
  pub year : ℕ
  pub month : ℕ
  pub day : ℕ
  pub hours : ℕ
  pub minutes : ℕ
  pub seconds : ℕ

-- `text.padStart(2, '0')`
abbrev pub pad_start : String → String
pad_start String.[] = "00"
pad_start (String.◌∷◌ c String.[]) = template ("0" ∷ String.◌∷◌ c String.[] ∷ [])
pad_start (String.◌∷◌ c (String.◌∷◌ d s)) = String.◌∷◌ c (String.◌∷◌ d s)

abbrev pub pad : ℕ → String
pad n = pad_start (show_nat n)

-- The text of a chosen date.
unfoldable pub local_text : LocalTime → String
unfolding show_nat
local_text d = template (
    show_nat d.year
    ∷ "-"
    ∷ pad (d.month + 1)
    ∷ "-"
    ∷ pad d.day
    ∷ "T"
    ∷ pad d.hours
    ∷ ":"
    ∷ pad d.minutes
    ∷ ":"
    ∷ pad d.seconds
    ∷ [])

-- `onChange` of the calendar, with its first date.
unfoldable pub on_calendar : Env → Option LocalTime → Page → Page
unfolding on_target_change local_text
on_calendar env none s = on_target_change env "" s
on_calendar env (some d) s = on_target_change env (local_text d) s

-- `refresh`, up to its `await`.
unfoldable pub refresh : Caller → Page → Page
refresh caller s = record s { pending = getting caller ∷ s.pending; sent = clock_get ∷ s.sent }

abbrev pub refreshed : Caller → Page → Page
refreshed nobody s = s
refreshed on_jump s = record s { busy = false }

unfoldable pub refresh_settled : Caller → Result ClockInfo → Page → Page
refresh_settled caller (ok i) s = refreshed caller (record s { info = some i })
refresh_settled caller (err e) s = refreshed caller (record s { error = some e })

-- `apply`, up to its first `await`.
unfoldable pub apply : ℤ → Page → Page
apply total_sec s =
    if is_empty (trim s.user) then record s { error = some "user 가 필요합니다" } else record s {
      busy = true;
      error = none;
      pending = jumping ∷ s.pending;
      sent = clock_jump total_sec (trim s.user) ∷ s.sent;
    }

unfoldable pub jump_settled : Result ClockJumpResult → Page → Page
unfolding refresh show_int
jump_settled (ok r) s = refresh on_jump (record s {
  last_result =
      some (
        template ("add_second=" ∷ show_int r.add_second ∷ ", logical_time=" ∷ r.logical_time ∷ []));
})
jump_settled (err e) s = record s { error = some e; busy = false }

-- `parseInt(addSecond, 10) || 0`
abbrev pub int_or_zero : Option ℤ → ℤ
int_or_zero none = pos 0
int_or_zero (some z) = z

-- `onApply`
unfoldable pub on_apply : Page → Page
unfolding apply parse_int
on_apply s = apply (int_or_zero (parse_int s.add_second)) s

-- `info?.offset_sec ?? 0`
abbrev pub offset_of : Option ClockInfo → ℤ
offset_of none = pos 0
offset_of (some i) = i.offset_sec

-- `onClick` of a preset.
unfoldable pub on_preset : Preset → Page → Page
unfolding apply ◌+ℤ◌
on_preset p s = if p.absolute then apply (pos 0) s else apply (offset_of s.info +ℤ p.sec) s
