-- ===== src/MigrationsPage/Creation.antt =====
-- The creation of a file from the modal: what is sent, and what an answer does to the modal.
use future_was.Base.{
  ℕ, String, false, codes, Option, none, some, List, [], ◌∷◌, take_out, All, ◌≡◌, refl, sym, ◌∙◌,
  subst, arith, Option-cases, inl, inr, Bool-cases,
}
use future_was.Base.Runs.{run_by-keeps}
use future_was.Base.Trim.{trim, is_empty, is_empty-trim, trim_idempotent}
use future_was.Api.{
  MigrationFileStatus, DbMigrationStatus, CreateMigrationInput, HttpRequest, Category, admin_info,
  migrations_status, migrations_file, migrations_create,
}
use future_was.MigrationForm.{Form, on_submit, can_submit, refusal, create_input}
use future_was.MigrationForm.Patterns.{IsVersion, IsName, refusal_iff}
use future_was.MigrationsPage.{
  ViewTarget, Modal, Pending, status, Page, initial, select_initial, select_from, open_file,
  open_from, selected_db, view_effect,
}
use future_was.MigrationsPage.Session.{
  open_modal, is_local, send_create, submit_in, press_submit_form, close_from, Answer, statuses,
  resume, resume_at, Event, press_refresh, double_click, close_viewer, press_new, press_submit,
  answer, handle, step, run,
}

-- What the checks of the form promise of an input.
pub record IsChecked (input : CreateMigrationInput) : Type 0 where
  pub version : IsVersion (codes input.version)
  pub name : IsName (codes input.name)
  pub author : is_empty input.author ≡ false
  pub trimmed : trim input.author ≡ input.author

-- The requests that the page may send.
pub data Allowed : HttpRequest → Type 0 where
  an_info : Allowed admin_info
  a_status : Allowed migrations_status
  a_file : (c : Category) (version filename : String) → Allowed (migrations_file c version filename)
  a_create : (input : CreateMigrationInput) → IsChecked input → Allowed (migrations_create input)

-- An input that `onSubmit` sends has passed the checks.
pub on_submit-IsChecked :
    (f : Form) (input : CreateMigrationInput) → (on_submit f).1 ≡ some input → IsChecked input
unfolding on_submit
on_submit-IsChecked f input e = elim (Option-cases (refusal f)) [
  | inr (message, refused) ↦ let same : none ≡ some input = rw refused at e in cc
  | inl passes ↦
      let (version, name, author) = (refusal_iff f).0 passes in
      let same : some (create_input f) ≡ some input = rw passes at e in
      let sent : create_input f ≡ input = cc in
      subst IsChecked sent (
        unfold create_input in
        record {
          version = version;
          name = name;
          author = is_empty-trim f.author ∙ author;
          trimmed = trim_idempotent f.author;
        })
]

abbrev IsAllowed : Page → Type 0
IsAllowed s = All Allowed s.sent

send_create-IsAllowed :
    (m : Modal) (r : Form × Option CreateMigrationInput) (s : Page)
    → ((input : CreateMigrationInput) → r.1 ≡ some input → IsChecked input)
    → IsAllowed s
    → IsAllowed (send_create m r s)
send_create-IsAllowed m (f, none) s c h = h
send_create-IsAllowed m (f, some input) s c h = (a_create input (c input refl), h)

submit_in-IsAllowed : (o : Option Modal) (s : Page) → IsAllowed s → IsAllowed (submit_in o s)
submit_in-IsAllowed none s h = h
submit_in-IsAllowed (some m) s h = elim (Bool-cases (can_submit m.form)) [
  | inl able ↦ rw able (send_create-IsAllowed m (on_submit m.form) s (on_submit-IsChecked m.form) h)
  | inr unable ↦ rw unable h
]

open_from-IsAllowed :
    (o : Option DbMigrationStatus) (row : MigrationFileStatus) (s : Page)
    → IsAllowed s
    → IsAllowed (open_from o row s)
unfolding view_effect
open_from-IsAllowed none row s h = h
open_from-IsAllowed (some db) row s h = (a_file db.category row.version row.filename, h)

close_from-IsAllowed : (o : Option ViewTarget) (s : Page) → IsAllowed s → IsAllowed (close_from o s)
unfolding view_effect
close_from-IsAllowed none s h = h
close_from-IsAllowed (some t) s h = h

open_modal-IsAllowed : (o : Option Modal) (s : Page) → IsAllowed s → IsAllowed (open_modal o s)
open_modal-IsAllowed none s h = h
open_modal-IsAllowed (some m) s h = h

resume-sent :
    (p : Pending) (a : Answer) (before s : Page)
    → before.sent ≡ s.sent
    → (resume p a before s).sent ≡ s.sent
unfolding resume
resume-sent status (statuses r) before s e = ground arith
resume-sent p a before s e = ground arith

answer-sent : (i : ℕ) (a : Answer) (s : Page) → (resume_at (take_out i s.pending) a s).sent ≡ s.sent
answer-sent i a s = elim (Option-cases (take_out i s.pending)) [
  | inl nothing ↦ rw nothing
  | inr ((p, rest), found) ↦ rw found (resume-sent p a s (record s { pending = rest }) refl)
]

handle-IsAllowed : (e : Event) (s : Page) → IsAllowed s → IsAllowed (handle e s)
unfolding handle open_file press_submit_form
handle-IsAllowed (answer i a) s h = subst (All Allowed) (sym (answer-sent i a s)) h
handle-IsAllowed (double_click row) s h = open_from-IsAllowed (selected_db s) row s h
handle-IsAllowed close_viewer s h = close_from-IsAllowed s.viewing s h
handle-IsAllowed press_submit s h = submit_in-IsAllowed s.modal s h
handle-IsAllowed press_refresh s h = elim (Bool-cases s.busy) [
  | inl busy ↦ rw busy h
  | inr idle ↦ rw idle (a_status, h)
]
handle-IsAllowed press_new s h = elim (Bool-cases (is_local s.stage)) [
  | inl here ↦ rw here (open_modal-IsAllowed s.modal (record s { created = none }) h)
  | inr elsewhere ↦ rw elsewhere h
]
handle-IsAllowed e s h = h

select_from-sent :
    (id : Option ℕ) (dbs : Option (List DbMigrationStatus)) (s : Page)
    → (select_from id dbs s).sent ≡ s.sent
select_from-sent none (some (d ∷ ds)) s = refl
select_from-sent none (some []) s = refl
select_from-sent none none s = refl
select_from-sent (some id) dbs s = refl

step-IsAllowed : (e : Event) (s : Page) → IsAllowed s → IsAllowed (step e s)
unfolding step select_initial
step-IsAllowed e s h =
    let t = handle e s in
    subst (All Allowed) (sym (select_from-sent t.selected_shard_id t.dbs t))
      (handle-IsAllowed e s h)

run-IsAllowed : (es : List Event) (s : Page) → IsAllowed s → IsAllowed (run es s)
unfolding run
run-IsAllowed es s h = run_by-keeps step IsAllowed step-IsAllowed es s h

-- Whatever the operator does and the server answers, every request of the page is one of the four,
-- and a creation carries a version x.yy.zz, a name in snake case and a trimmed author, not empty.
pub sent-Allowed :
    (storage : Option String) (es : List Event) → All Allowed (run es (initial storage)).sent
sent-Allowed storage es =
    run-IsAllowed es (initial storage) (unfold initial in (an_info, (a_status, tt)))
