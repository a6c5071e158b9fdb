-- ===== src/MigrationsPage/Modals.antt =====
-- The modal and the answers that come after it was closed.
use future_was.Base.{
  ℕ, String, true, none, some, List, [], ◌∷◌, ◌++◌, map, ◌≡◌, refl, sym, ap, ◌∙◌, arith,
}
use future_was.Base.Runs.{run_by-append}
use future_was.Base.Results.{ok}
use future_was.Base.Trim.{trim, trim_idempotent}
use future_was.Api.{local}
use future_was.MigrationForm.{Form, stored_author, new_form, can_submit, refusal, create_input}
use future_was.MigrationsPage.{Modal, Pending, creating, Page, select_initial}
use future_was.MigrationsPage.Session.{
  created, FormEdit, Event, press_new, close_modal, press_submit, type_in, answer, handle, step,
  run,
}

select_initial-pending : (s : Page) → (select_initial s).pending ≡ s.pending
unfolding select_initial
select_initial-pending s = ground arith

run-append : (es fs : List Event) (s : Page) → run (es ++ fs) s ≡ run fs (run es s)
unfolding run
run-append es fs s = run_by-append step es fs s

type_in-pending :
    (edits : List FormEdit) (s : Page) → (run (map type_in edits) s).pending ≡ s.pending
unfolding run
type_in-pending [] s = refl
type_in-pending (e ∷ edits) s =
    type_in-pending edits (step (type_in e) s)
    ∙ unfold step handle in select_initial-pending (handle (type_in e) s)

-- The answer to the creation that was sent last.
created_closes :
    (s : Page) (path : String) (n : ℕ) (by : String) (ps : List Pending)
    → s.pending ≡ creating n by ∷ ps
    → let t = step (answer 0 (created (ok path))) s in
      (t.modal ≡ none)
      × (t.created ≡ some path)
      × (t.storage ≡ some (trim by))
      × (t.stage ≡ s.stage)
unfolding step
created_closes s path n by ps e = ground arith

-- What is pending after the form was sent and closed, and a new one opened.
reopened-pending :
    (s : Page) (m : Modal)
    → s.stage ≡ some local
    → s.modal ≡ some m
    → can_submit m.form ≡ true
    → refusal m.form ≡ none
    → (run (press_submit ∷ close_modal ∷ press_new ∷ []) s).pending
      ≡ creating m.mount m.form.author ∷ s.pending
unfolding run step
reopened-pending s m here opened able passes = ground arith

-- A form that was sent and closed before its answer, and a new form that the operator fills in: when
-- the creation succeeds, the new form is closed, with all that was typed into it.
pub late_success_closes :
    (s : Page) (m : Modal) (edits : List FormEdit) (path : String)
    → s.stage ≡ some local
    → s.modal ≡ some m
    → can_submit m.form ≡ true
    → refusal m.form ≡ none
    → let before = run (press_submit ∷ close_modal ∷ press_new ∷ []) s in
      let t = run (map type_in edits ++ answer 0 (created (ok path)) ∷ []) before in
      (t.modal ≡ none) × (t.created ≡ some path)
late_success_closes s m edits path here opened able passes =
    let before = run (press_submit ∷ close_modal ∷ press_new ∷ []) s in
    let typed = run (map type_in edits) before in
    let waiting = type_in-pending edits before ∙ reopened-pending s m here opened able passes in
    let (closed, shown, _, _) = created_closes typed path m.mount m.form.author s.pending waiting in
    let last = run-append (map type_in edits) (answer 0 (created (ok path)) ∷ []) before in
    (
      ap (λ (p : Page). p.modal) last ∙ unfold run in closed,
      ap (λ (p : Page). p.created) last ∙ unfold run in shown,
    )

press_new_opens :
    (s : Page)
    → s.stage ≡ some local
    → s.modal ≡ none
    → (m : Modal) × ((step press_new s).modal ≡ some m) × (m.form ≡ new_form s.storage)
unfolding step
press_new_opens s here closed =
    (record { mount = s.mounts; form = new_form s.storage }, ground arith, refl)

-- After a creation the next form begins with the author that was sent, and sends the same again.
pub author_is_remembered :
    (s : Page) (path : String) (n : ℕ) (by : String) (ps : List Pending)
    → s.stage ≡ some local
    → s.pending ≡ creating n by ∷ ps
    → (m : Modal) × ((run (answer 0 (created (ok path)) ∷ press_new ∷ []) s).modal ≡ some m)
      × (m.form.author ≡ trim by)
      × ((create_input m.form).author ≡ m.form.author)
unfolding run
author_is_remembered s path n by ps here waiting =
    let t = step (answer 0 (created (ok path))) s in
    let (closed, _, stored, stage) = created_closes s path n by ps waiting in
    let (m, opened, form) = press_new_opens t (stage ∙ here) closed in
    let author : m.form.author ≡ trim by =
      ap (λ (f : Form). f.author) form ∙ unfold new_form in ap (λ o. stored_author o) stored in
    (m, opened, author, unfold create_input in (ap trim author ∙ trim_idempotent by ∙ sym author))
