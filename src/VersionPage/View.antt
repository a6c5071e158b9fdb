-- ===== src/VersionPage/View.antt =====
-- What VersionPage.tsx renders from its state, beside constant markup.
use future_was.Base.{
  String, Bool, true, false, ◌||◌, Option, none, some, List, [], ◌∷◌, length, ltb, ◌==◌,
  if◌then◌else◌, template,
}
use future_was.Base.Decimal.{show_nat}
use future_was.Api.{Version}
use future_was.DataTable.{vertical, Props}
use future_was.VersionPage.{Page, selected_idx_list}

abbrev pub rows_or_none : Option (List Version) → List Version
rows_or_none none = []
rows_or_none (some rows) = rows

-- The properties that the page gives to its table.
unfoldable pub table_props : Page → Props Version
table_props s = record {
  rows = rows_or_none s.rows;
  enable_selection = true;
  selection = some s.selection;
  controlled = true;
  get_row_id = some (λ r. show_nat r.idx);
  resize = some vertical;
  initial_height = 300;
  min_height = 120;
  loading = elim s.rows [ none ↦ true | some _ ↦ false ];
  loading_text = "불러오는 중…";
  empty_text = "행이 없습니다";
}

pub record View : Type 0 where
  pub reload_disabled : Bool
  pub submit_disabled : Bool
  pub refresh_disabled : Bool
  pub delete_disabled : Bool
  pub delete_label : String
  pub selected_note : Option String
  pub info : Option String
  pub error : Option String
  pub table : Props Version

-- `text && <p>…</p>`: an absent text is not shown, and neither is an empty one.
abbrev pub shown : String → Option String → Option String
shown mark none = none
shown mark (some String.[]) = none
shown mark (some (String.◌∷◌ c text)) = some (template (mark ∷ String.◌∷◌ c text ∷ []))

unfoldable pub view : Page → View
unfolding selected_idx_list table_props
view s =
    let selected = length (selected_idx_list s.selection) in
    record {
      reload_disabled = s.busy;
      submit_disabled = s.busy;
      refresh_disabled = s.busy;
      delete_disabled = s.busy || selected == 0;
      delete_label =
          if ltb 0 selected then template ("삭제 (" ∷ show_nat selected ∷ ")" ∷ []) else "삭제";
      selected_note =
          if ltb 0 selected
          then some (template ("· " ∷ show_nat selected ∷ "건 선택됨" ∷ []))
          else none;
      info = shown "" s.info;
      error = shown "✗ " s.error;
      table = table_props s;
    }
