-- ===== src/VersionPage/Session.antt =====
-- The events of VersionPage.tsx: what the operator does, with the buttons that are disabled, and
-- the answers of the server, in any order.
use future_was.Base.{
  ℕ, ◌-◌, suc, zero, String, Bool, false, ◌||◌, Option, none, some, List, ◌∷◌, length, take_out,
  ◌==◌, if◌then◌else◌,
}
use future_was.Base.Int.{ℤ}
use future_was.Base.Decimal.{parse_int}
use future_was.Base.Trim.{is_empty}
use future_was.Base.Runs.{run_by}
use future_was.Base.Results.{Result, ok, err}
use future_was.Api.{Version, VersionCreateInput}
use future_was.DataTable.{Updater, apply_updater}
use future_was.VersionPage.{
  nobody, Pending, listing, creating, reloading, deleting, ignoring, Page, refresh, refresh_settled,
  on_create_press, create_settled, on_reload_press, reload_settled, selected_idx_list, deleted_all,
  on_delete_press,
}

pub data TextKey : Type 0 where
  client_version server_version app_id catalog_filename comment : TextKey

pub data NumberKey : Type 0 where
  is_active update_flag inspection_flag : NumberKey

-- A change of a field of the form; a number field is given the text of its input.
pub data Edit : Type 0 where
  text_edit : TextKey → String → Edit
  number_edit : NumberKey → String → Edit

-- `onChange` of `NumberField`.
unfoldable pub number_field_value : String → Option ℤ
unfolding parse_int
number_field_value v = parse_int (if is_empty v then "0" else v)

-- `update(k, v)`
unfoldable pub update : Edit → VersionCreateInput → VersionCreateInput
unfolding number_field_value
update (text_edit client_version v) input = record input { client_version = v }
update (text_edit server_version v) input = record input { server_version = v }
update (text_edit app_id v) input = record input { app_id = v }
update (text_edit catalog_filename v) input = record input { catalog_filename = v }
update (text_edit comment v) input = record input { comment = v }
update (number_edit is_active v) input = record input { is_active = number_field_value v }
update (number_edit update_flag v) input = record input { update_flag = number_field_value v }
update (number_edit inspection_flag v) input = record input {
  inspection_flag = number_field_value v;
}

-- What the server answers to one request.
pub data Answer : Type 0 where
  listed : Result (Option (List Version)) → Answer
  created : Result Version → Answer
  reloaded : Result String → Answer
  deleted : Result ℕ → Answer

-- The requests of an ended `Promise.all` that are still open.
abbrev pub ignored : ℕ → List Pending → List Pending
ignored zero rest = rest
ignored (suc left) rest = ignoring (suc left) ∷ rest

-- An answer to a deletion: the last one ends the `Promise.all`, and so does the first refusal,
-- which leaves the other requests open.
unfoldable pub delete_settled : ℕ → ℕ → Result ℕ → Page → Page
unfolding deleted_all
delete_settled n left (err e) s = record s {
  error = some e;
  busy = false;
  pending = ignored (left - 1) s.pending;
}
delete_settled n zero (ok _) s = deleted_all n s
delete_settled n (suc zero) (ok _) s = deleted_all n s
delete_settled n (suc (suc left)) (ok _) s = record s {
  pending = deleting n (suc left) ∷ s.pending;
}

-- An answer after a refusal: nothing runs.
unfoldable pub ignored_settled : ℕ → Page → Page
ignored_settled left s = record s { pending = ignored (left - 1) s.pending }

-- What runs when a pending `await` is answered; an answer of another kind does not come, and
-- changes nothing. The first page still has the `await` among its pending ones.
unfoldable pub resume : Pending → Answer → Page → Page → Page
unfolding refresh_settled create_settled reload_settled delete_settled ignored_settled
resume (listing caller) (listed r) before s = refresh_settled caller r s
resume creating (created r) before s = create_settled r s
resume reloading (reloaded r) before s = reload_settled r s
resume (deleting n left) (deleted r) before s = delete_settled n left r s
resume (ignoring left) (deleted r) before s = ignored_settled left s
resume _ _ before s = before

abbrev pub resume_at : Option (Pending × List Pending) → Answer → Page → Page
resume_at none a s = s
resume_at (some (p, rest)) a s = resume p a s (record s { pending = rest })

pub data Event : Type 0 where
  mount press_create press_reload press_refresh : Event
  press_delete : Bool → Event
  type_in : Edit → Event
  select : Updater → Event
  answer : ℕ → Answer → Event

unfoldable pub step : Event → Page → Page
unfolding resume refresh on_create_press on_reload_press on_delete_press selected_idx_list update
step mount s = refresh nobody s
step press_create s = if s.busy then s else on_create_press s
step press_reload s = if s.busy then s else on_reload_press s
step press_refresh s = if s.busy then s else refresh nobody s
step (press_delete confirmed) s =
    if s.busy || length (selected_idx_list s.selection) == 0 then s else on_delete_press confirmed s
step (type_in edit) s = record s { input = update edit s.input }
step (select updater) s = record s { selection = apply_updater updater s.selection }
step (answer i a) s = resume_at (take_out i s.pending) a s

-- A session: events in their order.
unfoldable pub run : List Event → Page → Page
unfolding run_by
run es s = run_by step es s
