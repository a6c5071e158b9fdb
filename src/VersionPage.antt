-- ===== src/VersionPage.antt =====
-- web/admin/src/pages/VersionPage.tsx: the state of the page and its handlers. A handler that
-- awaits is cut at each `await`: what comes before runs at once, and what comes after waits in
-- `pending` for the answer. Any answer may come first.
pub mod Session
pub mod Busy
pub mod Settle
pub mod Targets
pub mod Requests
pub mod Outcomes
pub mod View
pub mod Form
pub mod Columns
pub mod Deployed
pub mod Errors
pub mod Agreement
mod Tests
use future_was.Base.{
  ℕ, ◌-◌, String, Bool, true, false, ◌||◌, Option, none, some, List, [], ◌∷◌, map, length, filter,
  take, ltb, ◌==◌, if◌then◌else◌, template,
}
use future_was.Base.Int.{pos}
use future_was.Base.Decimal.{show_nat, number_of}
use future_was.Base.Trim.{trim, is_empty}
use future_was.Base.Results.{Result, ok, err}
use future_was.Api.{
  Version, VersionCreateInput, HttpRequest, version_list, version_create, version_delete,
  version_reload,
}
use future_was.DataTable.{Selection}

abbrev pub app_ids : List String
app_ids = "com.com2us.ent.futurenpb" ∷ "com.com2us.heatfuturenpb.android.google.jp.normal" ∷ []

abbrev pub empty_input : VersionCreateInput
empty_input = record {
  client_version = "";
  server_version = "";
  app_id = "com.com2us.ent.futurenpb";
  is_active = some (pos 1);
  update_flag = some (pos 0);
  inspection_flag = some (pos 0);
  catalog_filename = "";
  comment = "";
}

-- Who awaits a call of `refresh`: nobody, `onCreate` or `onDeleteSelected`.
pub data Caller : Type 0 where
  nobody on_create on_delete : Caller

-- An `await` that has not been answered. `deleting n left` is the `Promise.all` over `n` requests
-- of which `left` are open. `ignoring left` are the requests of a `Promise.all` that a refusal has
-- ended: they are still answered, and nobody waits for them.
pub data Pending : Type 0 where
  listing : Caller → Pending
  creating reloading : Pending
  deleting : ℕ → ℕ → Pending
  ignoring : ℕ → Pending

pub record Page : Type 0 where
  pub rows : Option (List Version)
  pub selection : Selection
  pub input : VersionCreateInput
  pub busy : Bool
  pub error : Option String
  pub info : Option String
  pub pending : List Pending
  pub sent : List HttpRequest  -- the latest first

unfoldable pub initial : Page
initial = record {
  rows = none;
  selection = [];
  input = empty_input;
  busy = false;
  error = none;
  info = none;
  pending = [];
  sent = [];
}

-- `refresh`, up to its `await`.
unfoldable pub refresh : Caller → Page → Page
refresh caller s = record s { pending = listing caller ∷ s.pending; sent = version_list ∷ s.sent }

-- The `finally` of the handler that awaits `refresh`.
abbrev pub refreshed : Caller → Page → Page
refreshed nobody s = s
refreshed on_create s = record s { busy = false }
refreshed on_delete s = record s { busy = false }

-- The rest of `refresh`, and then of its caller; the list is `none` where the server answers `null`.
unfoldable pub refresh_settled : Caller → Result (Option (List Version)) → Page → Page
refresh_settled caller (ok list) s = refreshed caller (record s { rows = list; selection = [] })
refresh_settled caller (err e) s = refreshed caller (record s { error = some e })

unfoldable pub on_create_press : Page → Page
on_create_press s =
    if is_empty (trim s.input.client_version) || is_empty (trim s.input.server_version)
    then record s { error = some "client_version, server_version 은 필수입니다" }
    else record s {
      busy = true;
      error = none;
      pending = creating ∷ s.pending;
      sent = version_create s.input ∷ s.sent;
    }

unfoldable pub create_settled : Result Version → Page → Page
unfolding refresh
create_settled (ok v) s = refresh on_create (record s {
  info = some (template ("✓ 추가 완료 (idx=" ∷ show_nat v.idx ∷ ")" ∷ []));
  input = empty_input;
})
create_settled (err e) s = record s { error = some e; busy = false }

unfoldable pub on_reload_press : Page → Page
on_reload_press s = record s {
  busy = true;
  error = none;
  pending = reloading ∷ s.pending;
  sent = version_reload ∷ s.sent;
}

unfoldable pub reload_settled : Result String → Page → Page
reload_settled (ok r) s = record s {
  info = some (template ("✓ Catalog reload: " ∷ r ∷ []));
  busy = false;
}
reload_settled (err e) s = record s { error = some e; busy = false }

-- `selectedIdxList`: the numbers of the selected keys, where `none` is a NaN.
unfoldable pub selected_idx_list : Selection → List (Option ℕ)
selected_idx_list [] = []
selected_idx_list ((k, true) ∷ sel) = number_of k ∷ selected_idx_list sel
selected_idx_list ((k, false) ∷ sel) = selected_idx_list sel

-- `list.includes(idx)`
unfoldable pub includes : List (Option ℕ) → ℕ → Bool
includes [] idx = false
includes (none ∷ list) idx = includes list idx
includes (some n ∷ list) idx = n == idx || includes list idx

-- The rows that `onDeleteSelected` deletes.
unfoldable pub targets : List Version → Selection → List Version
unfolding includes selected_idx_list
targets rows selection = filter (λ r. includes (selected_idx_list selection) r.idx) rows

-- A line of the question for each of the first ten targets, and how many more there are.
abbrev pub confirm_line : Version → String
confirm_line r =
    template
      ("  · idx=" ∷ show_nat r.idx ∷ " (" ∷ r.client_version ∷ " / " ∷ r.server_version ∷ ")" ∷ [])

unfoldable pub confirm_lines : List Version → List String
confirm_lines ts = map confirm_line (take 10 ts)

unfoldable pub confirm_more : List Version → Option ℕ
confirm_more ts = if ltb 10 (length ts) then some (length ts - 10) else none

-- `lines.join('\n')`
abbrev join_lines : List String → String
join_lines [] = ""
join_lines (l ∷ []) = l
join_lines (l ∷ m ∷ more) = template (l ∷ "\n" ∷ join_lines (m ∷ more) ∷ [])

abbrev more_text : Option ℕ → String
more_text none = ""
more_text (some n) = template ("\n  ... 외 " ∷ show_nat n ∷ "건" ∷ [])

-- The question of `window.confirm`.
unfoldable pub confirm_text : List Version → String
unfolding confirm_lines confirm_more
confirm_text ts = template (
    show_nat (length ts)
    ∷ "건을 삭제하시겠습니까?\n\n"
    ∷ join_lines (confirm_lines ts)
    ∷ more_text (confirm_more ts)
    ∷ "\n\nCatalog 반영을 위해 삭제 후 Design Reload 를 눌러야 합니다."
    ∷ [])

abbrev pub delete_requests : List Version → List HttpRequest → List HttpRequest
delete_requests [] sent = sent
delete_requests (r ∷ ts) sent = delete_requests ts (version_delete r.idx ∷ sent)

-- After the last deletion: the notice, and `refresh`.
unfoldable pub deleted_all : ℕ → Page → Page
unfolding refresh
deleted_all n s =
    refresh on_delete (record s { info = some (template ("✓ " ∷ show_nat n ∷ "건 삭제 완료" ∷ [])) })

-- `Promise.all` of no request settles at once.
abbrev pub delete_start : List Version → Page → Page
delete_start [] s = deleted_all 0 (record s { busy = true; error = none })
delete_start (r ∷ ts) s = record s {
  busy = true;
  error = none;
  pending = deleting (length (r ∷ ts)) (length (r ∷ ts)) ∷ s.pending;
  sent = delete_requests (r ∷ ts) s.sent;
}

-- `onDeleteSelected`, with the answer to `window.confirm`.
abbrev pub on_delete_rows : Option (List Version) → Bool → Page → Page
on_delete_rows none confirmed s = s
on_delete_rows (some rows) confirmed s =
    if length (selected_idx_list s.selection) == 0
    then s
    else if confirmed
    then delete_start (targets rows s.selection) s
    else s

unfoldable pub on_delete_press : Bool → Page → Page
unfolding targets deleted_all
on_delete_press confirmed s = on_delete_rows s.rows confirmed s
