-- ===== src/DataTable.antt =====
-- web/admin/src/components/DataTable.tsx: the table that the pages share. TanStack's table is not
-- modelled: what it hands to `onRowSelectionChange` is an `Updater`.
pub mod Laws
pub mod Markup
mod Tests
use future_was.Base.{
  ℕ, ◌+◌, String, str_eq, not, Bool, true, false, ◌&&◌, Option, none, some, List, [], ◌∷◌, ◌++◌,
  template, if◌then◌else◌,
}
use future_was.Base.Decimal.{show_nat}

-- `RowSelectionState`: row ids with a truth value, in the order of insertion.
abbrev pub Selection : Type 0
Selection = List (String × Bool)

pub data Resize : Type 0 where
  vertical horizontal both : Resize

pub record Props (T : Type 0) : Type 0 where
  pub rows : List T
  pub enable_selection : Bool
  pub selection : Option Selection
  pub controlled : Bool  -- whether `onSelectionChange` is given
  pub get_row_id : Option (T → String)
  pub resize : Option Resize
  pub initial_height : ℕ
  pub min_height : ℕ
  pub loading : Bool
  pub loading_text : String
  pub empty_text : String

-- The argument of `onRowSelectionChange`: a value, or a function of the present selection.
pub data Updater : Type 0 where
  to_value : Selection → Updater
  by_function : (Selection → Selection) → Updater

abbrev pub apply_updater : Updater → Selection → Selection
apply_updater (to_value next) sel = next
apply_updater (by_function f) sel = f sel

-- Where a new selection goes: to the parent, or to the state of the table itself.
pub data Change : Type 0 where
  to_parent : Selection → Change
  to_internal : Selection → Change

-- `selection ?? internalSelection`
unfoldable pub current_selection : Option Selection → Selection → Selection
current_selection none internal = internal
current_selection (some sel) internal = sel

unfoldable pub on_row_selection_change : {T : Type 0} → Props T → Selection → Updater → Change
unfolding current_selection
on_row_selection_change props internal updater =
    let next = apply_updater updater (current_selection props.selection internal) in
    if props.controlled then to_parent next else to_internal next

-- `getRowId ?? ((_row, index) => String(index))`
unfoldable pub row_id : {T : Type 0} → Option (T → String) → T → ℕ → String
row_id none row index = show_nat index
row_id (some f) row index = f row

abbrev pub has_vertical : Option Resize → Bool
has_vertical none = false
has_vertical (some vertical) = true
has_vertical (some horizontal) = false
has_vertical (some both) = true

abbrev pub has_horizontal : Option Resize → Bool
has_horizontal none = false
has_horizontal (some vertical) = false
has_horizontal (some horizontal) = true
has_horizontal (some both) = true

unfoldable pub resize_class : Option Resize → String
resize_class none = ""
resize_class (some vertical) = "resize-y"
resize_class (some horizontal) = "resize-x"
resize_class (some both) = "resize"

unfoldable pub wrapper_class : Option Resize → String
unfolding resize_class
wrapper_class resize =
    if has_vertical resize
    then template ("overflow-auto " ∷ resize_class resize ∷ [])
    else if has_horizontal resize
    then template ("overflow-x-auto " ∷ resize_class resize ∷ [])
    else "overflow-x-auto"

abbrev pub px : ℕ → String
px n = template (show_nat n ∷ "px" ∷ [])

-- What the effect of the first render writes to the style of the wrapper, of width `offset_width`.
unfoldable pub mount_style : {T : Type 0} → Props T → ℕ → List (String × String)
mount_style props offset_width =
    (if has_vertical props.resize
      then ("height", px props.initial_height) ∷ ("minHeight", px props.min_height) ∷ []
      else [])
    ++ (if has_horizontal props.resize then ("width", px offset_width) ∷ [] else [])

-- `row.getIsSelected()`: what the selection holds at the id of the row.
unfoldable pub is_selected : Selection → String → Bool
is_selected [] id = false
is_selected ((k, v) ∷ sel) id = if str_eq k id then v else is_selected sel id

-- A row of the body: a message over all columns, or a row of the data.
pub data BodyRow (T : Type 0) : Type 0 where
  message : String → BodyRow T
  data_row : T → String → Bool → Bool → BodyRow T

-- A row of the data, with its id, whether it is selected, and whether a click toggles it.
show_rows : {T : Type 0} → Props T → Selection → ℕ → List T → List (BodyRow T)
unfolding is_selected row_id
show_rows props sel index [] = []
show_rows props sel index (row ∷ rest) =
    let id = row_id props.get_row_id row index in
    data_row row id (is_selected sel id) props.enable_selection
    ∷ show_rows props sel (index + 1) rest

abbrev pub is_nil : {T : Type 0} → List T → Bool
is_nil [] = true
is_nil (_ ∷ _) = false

unfoldable pub body : {T : Type 0} → Props T → Selection → List (BodyRow T)
unfolding show_rows current_selection
body props internal =
    (if props.loading then message props.loading_text ∷ [] else [])
    ++ (if not props.loading && is_nil props.rows then message props.empty_text ∷ [] else [])
    ++ (if not props.loading
        then show_rows props (current_selection props.selection internal) 0 props.rows
        else [])
