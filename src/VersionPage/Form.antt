-- ===== src/VersionPage/Form.antt =====
-- The inputs of the form of VersionPage.tsx, with `Field`, `SelectField` and `NumberField`.
use future_was.Base.{
  String, Bool, false, Option, none, some, List, [], ◌∷◌, str_eq, if◌then◌else◌, All, template, ◌≡◌,
  arith,
}
use future_was.Base.Int.{ℤ}
use future_was.Api.{VersionCreateInput, Json, text, json_number, version_create}
use future_was.VersionPage.{app_ids, Page}
use future_was.VersionPage.Session.{
  TextKey, NumberKey, client_version, server_version, app_id, catalog_filename, comment, is_active,
  update_flag, inspection_flag, Edit, text_edit, number_edit, number_field_value, type_in, step,
}

-- The `value` of an input. A number field is given a number, or NaN.
pub data Shown : Type 0 where
  text_value : String → Shown
  number_value : Option ℤ → Shown

pub data Control : Type 0 where
  input_text : Option String → Control  -- its placeholder
  select : List String → Control  -- its options
  input_number : Control

pub record Field : Type 0 where
  pub key : String
  pub label : String
  pub control : Control
  pub value : VersionCreateInput → Shown
  pub on_change : String → Edit

-- `Field`
abbrev pub text_field :
    String → String → TextKey → (VersionCreateInput → String) → Option String → Field
text_field key label k value placeholder = record {
  key = key;
  label = label;
  control = input_text placeholder;
  value = λ input. text_value (value input);
  on_change = text_edit k;
}

-- `SelectField`
abbrev pub select_field :
    String → String → TextKey → (VersionCreateInput → String) → List String → Field
select_field key label k value options = record {
  key = key;
  label = label;
  control = select options;
  value = λ input. text_value (value input);
  on_change = text_edit k;
}

-- `NumberField`
abbrev pub number_field : String → NumberKey → (VersionCreateInput → Option ℤ) → Field
number_field key k value = record {
  key = key;
  label = key;
  control = input_number;
  value = λ input. number_value (value input);
  on_change = number_edit k;
}

-- The inputs in the order of the form; the keys are those that their handlers give to `update`.
abbrev pub form_fields : List Field
form_fields =
    text_field "client_version" "client_version *" client_version (λ i. i.client_version)
      (some "1.2.0")
    ∷ text_field "server_version" "server_version *" server_version (λ i. i.server_version)
        (some "2.02.01.00")
    ∷ select_field "app_id" "app_id" app_id (λ i. i.app_id) app_ids
    ∷ text_field "catalog_filename" "catalog_filename" catalog_filename (λ i. i.catalog_filename)
        (some "manifest.json")
    ∷ number_field "is_active" is_active (λ i. i.is_active)
    ∷ number_field "update_flag" update_flag (λ i. i.update_flag)
    ∷ number_field "inspection_flag" inspection_flag (λ i. i.inspection_flag)
    ∷ text_field "comment" "comment" comment (λ i. i.comment) (some "신규 카드 10종")
    ∷ []

-- What a field of its kind shows of a text that is typed or chosen.
abbrev pub shown_of : Control → String → Shown
shown_of input_number v = number_value (number_field_value v)
shown_of (input_text placeholder) v = text_value v
shown_of (select options) v = text_value v

-- `className` of `Badge`
unfoldable pub badge_class : Bool → String
badge_class on = template (
    "inline-flex rounded-full px-2 py-0.5 text-xs"
    ∷ " "
    ∷ (if on then "bg-emerald-900/40 text-emerald-300" else "bg-slate-800 text-slate-400")
    ∷ [])

-- How a value is written in JSON.
abbrev pub json_of : Shown → Json
json_of (text_value v) = text v
json_of (number_value z) = json_number z

-- A member of a JSON object.
abbrev pub member : String → List (String × Json) → Option Json
member key [] = none
member key ((k, v) ∷ more) = if str_eq k key then some v else member key more

-- The creation carries, under the key of the input, what the input shows.
abbrev pub IsSent : VersionCreateInput → Field → Type 0
IsSent input f = member f.key (version_create input).body ≡ some (json_of (f.value input))

-- After a change of one input, that input shows `v` and any other input shows what it showed.
abbrev pub IsEdited : Field → String → VersionCreateInput → VersionCreateInput → Type 0
IsEdited f v before after =
    (f.value after ≡ shown_of f.control v)
    × All (λ g. str_eq g.key f.key ≡ false → g.value after ≡ g.value before) form_fields

-- What is typed into any input of the form: that input shows it, a number field by the number that
-- it reads, the other inputs show what they did, and a creation carries what every input then
-- shows, under the key of the input.
pub typed-IsSent :
    (v : String) (s : Page)
    → All
        (λ f.
          let t = step (type_in (f.on_change v)) s in
          IsEdited f v s.input t.input × All (IsSent t.input) form_fields)
        form_fields
unfolding step
typed-IsSent v s = ground arith
