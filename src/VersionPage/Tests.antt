-- ===== src/VersionPage/Tests.antt =====
-- Sessions of the version page at concrete inputs.
use future_was.Base.{
  ◌⊎◌, if◌then◌else◌, ◌==◌, str_eq, suc, none, not, ◌&&◌, arith, ℕ, true, false, some, List, [],
  ◌∷◌, ◌++◌, length, count, is_white, ◌+◌, All, ◌≡◌, ◌↔◌, ◌≤◌, refl,
}
use future_was.Base.Decimal.{show_nat, number_of}
use future_was.Base.Trim.{trim}
use future_was.Base.Results.{ok, err}
use future_was.Api.{Version}
use future_was.DataTable.{is_selected}
use future_was.VersionPage.{
  Page, initial, empty_input, targets, includes, selected_idx_list, confirm_lines, confirm_more,
  delete_requests,
}
use future_was.VersionPage.Session.{
  created, listed, deleted, Event, text_edit, client_version, server_version, mount, press_create,
  press_reload, press_delete, press_refresh, type_in, answer, step, run,
}
use future_was.Server.Versions.{Database, takes, Table, find_all, has_idx}
use future_was.VersionPage.Deployed.{serve, Deleted, delete_leaves}
use future_was.VersionPage.Agreement.{row_of}
use future_was.VersionPage.{creating, reloading, ignoring}
use future_was.VersionPage.Errors.{is_ignored, Refused, refusal_keeps_all}
use future_was.VersionPage.Busy.{is_op, busy_exact}
use future_was.VersionPage.Settle.{work, answers_settle}
use future_was.VersionPage.Form.{form_fields, IsEdited, IsSent, typed-IsSent}
use future_was.VersionPage.Targets.{selection_of, highlighted_iff_target, length-targets}
use future_was.VersionPage.Requests.{Allowed, run-sent-Allowed}
use future_was.VersionPage.Outcomes.{
  Created, create_succeeds, partial_delete_is_stale, confirm_counts, more_count, answers_of_create,
}

abbrev version_of : ℕ → Version
version_of n = record {
  idx = n;
  client_version = if n == 7 then "1.0.0" else "1.0.1";
  server_version = "1.0.1";
  app_id = "com.com2us.ent.futurenpb";
  is_active = 1;
  update_flag = 0;
  inspection_flag = 0;
  catalog_filename = "";
  comment = "";
  insert_time = "";
  update_time = "";
}

abbrev two_rows : List Version
two_rows = version_of 7 ∷ version_of 8 ∷ []

abbrev loaded : List Event
loaded = mount ∷ answer 0 (listed (ok (some two_rows))) ∷ []

abbrev filled_in : List Event
filled_in =
    type_in (text_edit client_version "1.0.2") ∷ type_in (text_edit server_version "1.0.3") ∷ []

-- Both rows are selected.
abbrev selected : Page
selected = record initial {
  rows = some two_rows;
  selection = selection_of ((7, true) ∷ (8, true) ∷ []);
}

abbrev filled : Page
filled = record initial {
  input = record empty_input { client_version = "1.0.2"; server_version = "1.0.3" };
}

busy_exact_example :
    let s = run (loaded ++ press_reload ∷ press_refresh ∷ []) initial in
    (count is_op s.pending ≤ 1) × ((s.busy ≡ true) ↔ (count is_op s.pending ≡ 1))
busy_exact_example = busy_exact (loaded ++ press_reload ∷ press_refresh ∷ [])

run-sent-Allowed_example : All Allowed (run (loaded ++ filled_in ++ press_create ∷ []) initial).sent
run-sent-Allowed_example = run-sent-Allowed (loaded ++ filled_in ++ press_create ∷ [])

answers_settle_example :
    let s = run (filled_in ++ press_create ∷ []) initial in
    let es = answers_of_create (version_of 9) (some (version_of 9 ∷ [])) in
    (length es ≤ work s) × ((run es s).pending ≡ [] → (run es s).busy ≡ false)
unfolding initial run step trim is_white
answers_settle_example =
    answers_settle (filled_in ++ press_create ∷ [])
      (answers_of_create (version_of 9) (some (version_of 9 ∷ [])))
      ((_, [], refl, refl), ((_, [], refl, refl), tt))

highlighted_iff_target_example :
    is_selected (selection_of ((7, true) ∷ (8, false) ∷ [])) "8"
    ≡ includes (selected_idx_list (selection_of ((7, true) ∷ (8, false) ∷ []))) 8
unfolding show_nat
highlighted_iff_target_example =
    highlighted_iff_target ((7, true) ∷ (8, false) ∷ []) 8 (refl, (refl, tt))

length-targets_example :
    length (targets two_rows (selection_of ((7, true) ∷ (8, false) ∷ [])))
    ≡ length (selected_idx_list (selection_of ((7, true) ∷ (8, false) ∷ [])))
length-targets_example =
    length-targets two_rows ((7, true) ∷ (8, false) ∷ []) (refl, (refl, tt)) (refl, (refl, tt))

create_succeeds_example :
    Created filled
      (run
        (press_create
          ∷ type_in (text_edit client_version "2.0.0")
          ∷ answers_of_create (version_of 9) (some (version_of 9 ∷ [])))
        filled)
      (some (version_of 9 ∷ []))
unfolding initial is_white
create_succeeds_example =
    create_succeeds filled (text_edit client_version "2.0.0" ∷ []) (version_of 9)
      (some (version_of 9 ∷ [])) refl refl refl

-- The first of two deletions is refused, and the other stays open.
partial_delete_is_stale_example :
    run (press_delete true ∷ answer 0 (deleted (err "Error: 500")) ∷ []) selected
    ≡ record selected {
      error = some "Error: 500";
      sent = delete_requests two_rows [];
      pending = ignoring 1 ∷ [];
    }
unfolding initial selected_idx_list targets number_of show_nat
partial_delete_is_stale_example =
    partial_delete_is_stale selected two_rows (version_of 8 ∷ []) (version_of 7) [] 1 "Error: 500"
      refl refl (λ nil. cc) refl refl

-- It is answered while the page is busy with something else.
late_refusal_test :
    let s = run (press_delete true ∷ answer 0 (deleted (err "Error: 500")) ∷ []) selected in
    let t = run (press_reload ∷ answer 1 (deleted (err "Error: 404")) ∷ []) s in
    (t.error ≡ none) × ((t.busy ≡ true) × (t.pending ≡ reloading ∷ []))
unfolding initial run step selected_idx_list targets number_of show_nat
late_refusal_test = (refl, (refl, refl))

confirm_counts_example :
    (length (confirm_lines two_rows) ≤ 10)
    × (length (confirm_lines two_rows) + more_count (confirm_more two_rows) ≡ 2)
    × (((2 ≤ 10) × (confirm_more two_rows ≡ none))
        ⊎ ((k : ℕ) × (2 ≡ 10 + suc k) × (confirm_more two_rows ≡ some (suc k))))
confirm_counts_example = confirm_counts two_rows

abbrev two_table : Table
two_table = record { rows = two_rows; next = 9 }

-- The first of two rows is selected, and deleted.
delete_leaves_example :
    let s = record selected { selection = selection_of ((7, true) ∷ []) } in
    let (es, u) = serve (λ _. true) (version_of 7 ∷ []) two_table in
    Deleted
      (run (press_delete true ∷ (es ++ answer 0 (listed (ok (find_all u))) ∷ [])) s)
      (find_all u)
    × ((n : ℕ) → has_idx n u.rows ≡ (has_idx n two_rows && not (has_idx n (version_of 7 ∷ []))))
    × (u.rows ≡ [] → find_all u ≡ none)
unfolding initial selected_idx_list targets number_of show_nat find_all
delete_leaves_example =
    delete_leaves (λ _. true) (record selected { selection = selection_of ((7, true) ∷ []) })
      two_table (version_of 7) [] refl refl (λ nil. cc) refl (refl, (refl, tt))
      (omega arith, (omega arith, tt)) (refl, tt)

-- Texts are the same only if they are equal.
abbrev exact_database : Database
exact_database = record { same = str_eq; answers = true; lost_is_kept = false; burns = true }

-- The row of the form is taken, and a row with the versions of another is not.
taken_test : takes exact_database (row_of "now" filled.input 9) two_rows ≡ true
unfolding initial
taken_test = refl

not_taken_test : takes exact_database (version_of 9) two_rows ≡ false
not_taken_test = refl

-- A creation is refused while its form holds what was typed.
refusal_keeps_all_example :
    let s = record filled { busy = true; pending = creating ∷ [] } in
    let t = step (answer 0 (created (err "Error: 400 bad"))) s in
    (is_ignored creating ≡ false → Refused s t "Error: 400 bad" true)
    × (is_ignored creating ≡ true → t ≡ record s { pending = t.pending })
unfolding initial
refusal_keeps_all_example =
    refusal_keeps_all 0 (created (err "Error: 400 bad"))
      (record filled { busy = true; pending = creating ∷ [] }) creating [] "Error: 400 bad" refl
      refl refl

typed-IsSent_example :
    All
      (λ f.
        let t = step (type_in (f.on_change "7")) filled in
        IsEdited f "7" filled.input t.input × All (IsSent t.input) form_fields)
      form_fields
typed-IsSent_example = typed-IsSent "7" filled
