-- ===== src/ClockPage/View.antt =====
-- What ClockPage.tsx renders from its state, beside constant markup.

use future_was.Base.{
  String, Bool, true, false, Option, none, some, List, [], ◌∷◌, map, if◌then◌else◌, template,
}
use future_was.Base.Decimal.{show_int}
use future_was.Api.{ClockInfo}
use future_was.ClockPage.{Preset, presets, Page}

-- `Row`, with the classes of its value.
pub record Row : Type 0 where
  pub label : String
  pub value : String
  pub mono : Bool
  pub highlight : Bool

unfoldable pub value_class : Row → String
value_class row = template (
    (if row.mono then "font-mono" else "")
    ∷ " "
    ∷ (if row.highlight then "font-medium text-slate-100" else "text-slate-200")
    ∷ [])

unfoldable pub info_rows : ClockInfo → List Row
info_rows i =
    record { label = "offset_sec"; value = show_int i.offset_sec; mono = false; highlight = false }
    ∷ record { label = "offset_human"; value = i.offset_human; mono = false; highlight = false }
    ∷ record { label = "real_time"; value = i.real_time; mono = false; highlight = false }
    ∷ record { label = "logical_time"; value = i.logical_time; mono = true; highlight = true }
    ∷ []

-- `text && <p>…</p>`
abbrev pub marked : String → Option String → Option String
marked mark none = none
marked mark (some String.[]) = none
marked mark (some (String.◌∷◌ c text)) = some (template (mark ∷ String.◌∷◌ c text ∷ []))

pub record View : Type 0 where
  pub state : Option (List Row)  -- none while it is read
  pub apply_disabled : Bool
  pub presets : List (String × Bool)
  pub result : Option String
  pub error : Option String

abbrev pub state_of : Option ClockInfo → Option (List Row)
unfolding info_rows
state_of none = none
state_of (some i) = some (info_rows i)

unfoldable pub view : Page → View
unfolding state_of
view s = record {
  state = state_of s.info;
  apply_disabled = s.busy;
  presets = map (λ (p : Preset). (p.label, s.busy)) presets;
  result = marked "✓ " s.last_result;
  error = marked "✗ " s.error;
}
