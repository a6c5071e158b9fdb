-- ===== src/MigrationsPage/LocalOnly.antt =====
-- The stage of the server and the `busy` flag of the migrations page, over whole sessions.
use future_was.Base.{
  ℕ, ◌+◌, ◌≤◌, ◌<◌, String, Bool, true, false, Option, none, some, List, take_out, count,
  count-take_out, bit, is_some, ◌≡◌, refl, arith, Option-cases, inl, inr,
}
use future_was.Base.Runs.{run_by-keeps}
use future_was.Api.{
  DbMigrationStatus, MigrationFileStatus, Stage, local, post, HttpRequest, CreateMigrationInput,
}
use future_was.MigrationForm.{Form, on_submit}
use future_was.MigrationsPage.{
  ViewTarget, Modal, Pending, status, info, Page, initial, select_initial, open_from, selected_db,
  view_effect,
}
use future_was.MigrationsPage.Session.{
  is_local, send_create, submit_in, press_submit_form, Answer, statuses, resume, resume_at,
  close_from, FormEdit, type_in_modal, Event, double_click, close_viewer, press_submit, type_in,
  answer, handle, step, run,
}

abbrev pub is_status : Pending → Bool
is_status status = true
is_status _ = false

abbrev is_info : Pending → Bool
is_info info = true
is_info _ = false

-- Of the requests of this page, the creation of a file is the one POST.
abbrev pub is_post : HttpRequest → Bool
is_post r = elim r.method [ post ↦ true | _ ↦ false ]

record Inv (s : Page) : Type 0 where
  busy_exact : count is_status s.pending ≡ bit s.busy
  one_info : count is_info s.pending ≤ 1
  informed_once : is_some s.stage ≡ true → count is_info s.pending ≡ 0
  modal_local : is_some s.modal ≡ true → is_local s.stage ≡ true
  posts_local : 0 < count is_post s.sent → is_local s.stage ≡ true

initial-Inv : (storage : Option String) → Inv (initial storage)
unfolding initial
initial-Inv storage = ground arith

-- The effect on the tabs keeps all that the invariant reads.
select_initial-Inv : (s : Page) → Inv s → Inv (select_initial s)
unfolding select_initial
select_initial-Inv s h = ground arith

resume-Inv :
    (p : Pending) (rest : List Pending) (a : Answer) (s : Page)
    → ((q : Pending → Bool) → count q s.pending ≡ bit (q p) + count q rest)
    → Inv s
    → Inv (resume p a s (record s { pending = rest }))
unfolding resume
resume-Inv status rest (statuses r) s taken h = ground (arith, taken is_status, taken is_info)
resume-Inv p rest a s taken h = ground (arith, taken is_status, taken is_info)

answer-Inv : (i : ℕ) (a : Answer) (s : Page) → Inv s → Inv (resume_at (take_out i s.pending) a s)
answer-Inv i a s h = elim (Option-cases (take_out i s.pending)) [
  | inl nothing ↦ rw nothing h
  | inr ((p, rest), found) ↦
      rw found (resume-Inv p rest a s (λ q. count-take_out q i s.pending found) h)
]

open_from-Inv :
    (o : Option DbMigrationStatus) (row : MigrationFileStatus) (s : Page)
    → Inv s
    → Inv (open_from o row s)
unfolding view_effect
open_from-Inv none row s h = h
open_from-Inv (some db) row s h = ground arith

close_from-Inv : (o : Option ViewTarget) (s : Page) → Inv s → Inv (close_from o s)
unfolding view_effect
close_from-Inv none s h = h
close_from-Inv (some t) s h = ground arith

send_create-Inv :
    (m : Modal) (sent : Form × Option CreateMigrationInput) (s : Page)
    → is_local s.stage ≡ true
    → Inv s
    → Inv (send_create m sent s)
send_create-Inv m (f, none) s l h = ground arith
send_create-Inv m (f, some input) s l h = ground arith

submit_in-Inv :
    (o : Option Modal) (s : Page)
    → (is_some o ≡ true → is_local s.stage ≡ true)
    → Inv s
    → Inv (submit_in o s)
submit_in-Inv none s l h = h
submit_in-Inv (some m) s l h = ground (arith, send_create-Inv m (on_submit m.form) s (l refl) h)

is_some-type_in : (e : FormEdit) (o : Option Modal) → is_some (type_in_modal e o) ≡ is_some o
is_some-type_in e none = refl
is_some-type_in e (some m) = refl

handle-Inv : (e : Event) (s : Page) → Inv s → Inv (handle e s)
unfolding handle press_submit_form
handle-Inv (answer i a) s h = answer-Inv i a s h
handle-Inv (double_click row) s h = open_from-Inv (selected_db s) row s h
handle-Inv close_viewer s h = close_from-Inv s.viewing s h
handle-Inv press_submit s h = submit_in-Inv s.modal s h.modal_local h
handle-Inv (type_in e) s h = ground (arith, is_some-type_in e s.modal)
handle-Inv e s h = ground arith

stage_of_local : (o : Option Stage) → is_local o ≡ true → o ≡ some local
stage_of_local o h = ground arith

step-Inv : (e : Event) (s : Page) → Inv s → Inv (step e s)
unfolding step
step-Inv e s h = select_initial-Inv (handle e s) (handle-Inv e s h)

run-Inv : (es : List Event) (s : Page) → Inv s → Inv (run es s)
unfolding run
run-Inv es s h = run_by-keeps step Inv step-Inv es s h

-- At the end of every session, `busy` is set exactly while the one request for the states is open,
-- and if any POST was sent, the server has said that its stage is `local`.
pub posts_only_local :
    (storage : Option String) (es : List Event)
    → let s = run es (initial storage) in
      (count is_status s.pending ≡ bit s.busy) × (0 < count is_post s.sent → s.stage ≡ some local)
posts_only_local storage es =
    let h = run-Inv es (initial storage) (initial-Inv storage) in
    (h.busy_exact, λ sent. stage_of_local _ (h.posts_local sent))
