-- ===== src/DataTable/Markup.antt =====
-- The header, the rows and the checkbox of DataTable.tsx. What TanStack's table says of a header
-- or of a cell is data here, and so is its toggle of a row.
use future_was.Base.{
  ℕ, String, Bool, true, false, Option, none, some, List, [], ◌∷◌, map, if◌then◌else◌, template,
  str_eq, not, ◌≡◌,
}
use future_was.DataTable.{
  Selection, Props, Resize, has_vertical, BodyRow, message, data_row, is_selected, body,
}

-- What the table knows of a header.
pub record Header : Type 0 where
  pub id : String
  pub size : ℕ
  pub is_placeholder : Bool
  pub content : String
  pub can_resize : Bool
  pub is_resizing : Bool

-- A `th`: its key, its width, what it shows, and the class of its handle, if it has one.
pub record HeaderCell : Type 0 where
  pub key : String
  pub width : ℕ
  pub content : Option String
  pub handle : Option String

unfoldable pub handle_class : Bool → String
handle_class is_resizing = template (
    "absolute right-0 top-0 h-full w-1.5 cursor-col-resize touch-none select-none bg-transparent transition hover:bg-indigo-500/70 "
    ∷ (if is_resizing then "bg-indigo-500" else "")
    ∷ [])

unfoldable pub header_cell : Header → HeaderCell
unfolding handle_class
header_cell h = record {
  key = h.id;
  width = h.size;
  content = if h.is_placeholder then none else some h.content;
  handle = if h.can_resize then some (handle_class h.is_resizing) else none;
}

-- The class of the `thead`, which stays in view where the table scrolls.
unfoldable pub head_class : Option Resize → String
head_class resize = template (
    "bg-slate-950/50 text-xs uppercase tracking-wider text-slate-400 "
    ∷ (if has_vertical resize then "sticky top-0 z-10" else "")
    ∷ [])

-- The class of a row of data.
unfoldable pub row_class : Bool → Bool → String
row_class enable_selection is_selected = template (
    (if enable_selection then "cursor-pointer" else "")
    ∷ " "
    ∷ (if is_selected then "bg-indigo-900/30" else "hover:bg-slate-800/50")
    ∷ [])

-- A `tr` of the body: a message over all columns, or a row with its key, its class, whether it takes
-- clicks, and its cells with their widths.
pub data BodyLine (C : Type 0) : Type 0 where
  span : ℕ → String → BodyLine C
  line : String → String → Bool → List (ℕ × C) → BodyLine C

-- The cells of a row are those of the visible columns: a width and a content for each.
unfoldable pub body_line : {T C : Type 0} → List (ℕ × (T → C)) → ℕ → BodyRow T → BodyLine C
unfolding row_class
body_line columns col_count (message t) = span col_count t
body_line columns col_count (data_row row id selected enabled) =
    line id (row_class enabled selected) enabled (map (λ c. (c.0, c.1 row)) columns)

unfoldable pub body_lines :
    {T C : Type 0} → List (ℕ × (T → C)) → ℕ → Props T → Selection → List (BodyLine C)
unfolding body_line body
body_lines columns col_count props internal =
    map (body_line columns col_count) (body props internal)

-- `SelectCheckbox`: `!!indeterminate`
pub record Checkbox : Type 0 where
  pub checked : Bool
  pub indeterminate : Bool

unfoldable pub select_checkbox : Bool → Option Bool → Checkbox
select_checkbox checked none = record { checked = checked; indeterminate = false }
select_checkbox checked (some i) = record { checked = checked; indeterminate = i }

-- What an element does with a click, and whether it stops the click from reaching its parents.
pub record Listener (S : Type 0) : Type 0 where
  pub act : S → S
  pub stops : Bool

-- A click goes from the innermost element outwards.
abbrev pub bubble : {S : Type 0} → List (Listener S) → S → S
bubble [] s = s
bubble (l ∷ ls) s = let rest = bubble ls (l.act s) in if l.stops then l.act s else rest

module _ (toggle : String → Selection → Selection) where
  abbrev pub checkbox_listener : String → Listener Selection
  checkbox_listener id = record { act = toggle id; stops = true }

  abbrev pub row_listener : Bool → String → Listener Selection
  row_listener enable_selection id = record {
    act = λ sel. if enable_selection then toggle id sel else sel;
    stops = false;
  }

  -- A click on a cell of a row.
  unfoldable pub click_cell : Bool → String → Selection → Selection
  click_cell enable_selection id = bubble (row_listener enable_selection id ∷ [])

  -- A click on the checkbox of a row.
  unfoldable pub click_checkbox : Bool → String → Selection → Selection
  click_checkbox enable_selection id =
      bubble (checkbox_listener id ∷ row_listener enable_selection id ∷ [])

  -- Where a toggle flips the row with its id and no other, a click on a cell of a row and one on its
  -- checkbox both flip that row once, and no other.
  pub click_flips_once :
      ((id other : String) (sel : Selection)
        → is_selected (toggle id sel) other
          ≡ (if str_eq id other then not (is_selected sel other) else is_selected sel other))
      → (id other : String) (sel : Selection)
      → let flipped =
          if str_eq id other then not (is_selected sel other) else is_selected sel other in
        (is_selected (click_cell true id sel) other ≡ flipped)
        × (is_selected (click_checkbox true id sel) other ≡ flipped)
  unfolding click_cell click_checkbox
  click_flips_once flips id other sel = (flips id other sel, flips id other sel)
