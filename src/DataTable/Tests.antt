-- ===== src/DataTable/Tests.antt =====
-- The table at concrete inputs.
use future_was.Base.{String, true, false, none, some, [], ◌∷◌, ◌≡◌, refl}
use future_was.DataTable.{Props, vertical, body, data_row}

abbrev two_names : Props String
two_names = record {
  rows = "a" ∷ "b" ∷ [];
  enable_selection = true;
  selection = some [];
  controlled = true;
  get_row_id = none;
  resize = some vertical;
  initial_height = 300;
  min_height = 120;
  loading = false;
  loading_text = "Loading…";
  empty_text = "No data";
}

rows_test : body two_names [] ≡ data_row "a" "0" false true ∷ data_row "b" "1" false true ∷ []
unfolding body future_was.DataTable.show_rows future_was.Base.Decimal.show_nat
rows_test = refl
