-- ===== src/VersionPage/Columns.antt =====
-- The columns of the table of VersionPage.tsx.
use future_was.Base.{ℕ, String, Bool, true, false, none, some, List, [], ◌∷◌, ◌==◌, if◌then◌else◌}
use future_was.Base.Decimal.{show_nat}
use future_was.Api.{Version}
use future_was.DataTable.Markup.{Checkbox, select_checkbox}
use future_was.VersionPage.Form.{badge_class}

-- What a cell shows: a text, in a fixed width or cut with a title; a badge with its class; or the
-- checkbox of the row.
pub data Cell : Type 0 where
  plain mono truncated : String → Cell
  badge : String → String → Cell
  box : Checkbox → Cell

pub record Column : Type 0 where
  pub id : String
  pub header : String
  pub size : ℕ
  pub enable_resizing : Bool
  pub cell : Version → Bool → Cell  -- of a row, and whether it is selected

abbrev pub accessor : String → String → ℕ → (Version → Cell) → Column
accessor id header size cell = record {
  id = id;
  header = header;
  size = size;
  enable_resizing = true;
  cell = λ v selected. cell v;
}

unfoldable pub active_cell : ℕ → Cell
unfolding badge_class
active_cell v = badge (badge_class (v == 1)) (if v == 1 then "ON" else "off")

unfoldable pub columns : List Column
unfolding select_checkbox active_cell show_nat
columns =
    record {
      id = "select";
      header = "";
      size = 40;
      enable_resizing = false;
      cell = λ v selected. box (select_checkbox selected none);
    }
    ∷ accessor "idx" "idx" 80 (λ v. plain (show_nat v.idx))
    ∷ accessor "client_version" "client" 120 (λ v. plain v.client_version)
    ∷ accessor "server_version" "server" 140 (λ v. mono v.server_version)
    ∷ accessor "app_id" "app_id" 320 (λ v. plain v.app_id)
    ∷ accessor "is_active" "active" 90 (λ v. active_cell v.is_active)
    ∷ accessor "update_flag" "update" 80 (λ v. plain (show_nat v.update_flag))
    ∷ accessor "inspection_flag" "inspect" 80 (λ v. plain (show_nat v.inspection_flag))
    ∷ accessor "comment" "comment" 240 (λ v. truncated v.comment)
    ∷ accessor "insert_time" "insert_time" 180 (λ v. mono v.insert_time)
    ∷ []

-- The checkbox of the header, from what the table says of all its rows.
unfoldable pub header_checkbox : Bool → Bool → Checkbox
unfolding select_checkbox
header_checkbox all_selected some_selected = select_checkbox all_selected (some some_selected)
