-- ===== src/MigrationsPage/Session.antt =====
-- The events of MigrationsPage.tsx and of its modal: what the operator can do, and the answers of
-- the server in any order.
use future_was.Base.{
  ℕ, suc, String, Bool, true, false, Option, none, some, List, ◌∷◌, take_out, ◌==◌, if◌then◌else◌,
}
use future_was.Base.Runs.{run_by}
use future_was.Base.Results.{Result, ok, err}
use future_was.Base.Trim.{trim}
use future_was.Api.{
  Stage, local, AdminInfo, Category, MigrationFileStatus, DbMigrationStatus, MigrationFileContent,
  CreateMigrationInput, migrations_create,
}
use future_was.MigrationForm.{Form, new_form, on_submit, can_submit}
use future_was.MigrationsPage.{
  ViewTarget, Modal, Pending, status, info, reading, creating, Page, refresh, refresh_settled,
  info_settled, select_initial, view_effect, open_file, read_settled,
}

-- A change of a field of the form.
pub data FormEdit : Type 0 where
  category : Category → FormEdit
  version name author up_sql down_sql : String → FormEdit

unfoldable pub edit_form : FormEdit → Form → Form
edit_form (category c) f = record f { category = c }
edit_form (version v) f = record f { version = v }
edit_form (name v) f = record f { name = v }
edit_form (author v) f = record f { author = v }
edit_form (up_sql v) f = record f { up_sql = v }
edit_form (down_sql v) f = record f { down_sql = v }

abbrev pub is_local : Option Stage → Bool
is_local (some local) = true
is_local _ = false

-- `setCreating(true)`: a modal that is open stays as it is.
abbrev pub open_modal : Option Modal → Page → Page
open_modal (some m) s = s
open_modal none s = record s {
  modal = some (record { mount = s.mounts; form = new_form s.storage });
  mounts = suc s.mounts;
}

-- The button for a new migration: it is there at the local stage only.
unfoldable pub press_new_file : Page → Page
unfolding new_form
press_new_file s = if is_local s.stage then open_modal s.modal (record s { created = none }) else s

abbrev pub send_create : Modal → Form × Option CreateMigrationInput → Page → Page
send_create m (f, none) s = record s { modal = some (record m { form = f }) }
send_create m (f, some input) s = record s {
  modal = some (record m { form = f });
  pending = creating m.mount m.form.author ∷ s.pending;
  sent = migrations_create input ∷ s.sent;
}

abbrev pub submit_in : Option Modal → Page → Page
submit_in none s = s
submit_in (some m) s = if can_submit m.form then send_create m (on_submit m.form) s else s

unfoldable pub press_submit_form : Page → Page
unfolding on_submit
press_submit_form s = submit_in s.modal s

abbrev pub type_in_modal : FormEdit → Option Modal → Option Modal
type_in_modal e none = none
type_in_modal e (some m) = some (record m { form = edit_form e m.form })

-- A refusal reaches the form that sent the request, if it is still mounted.
abbrev pub refuse_in : ℕ → String → Option Modal → Option Modal
refuse_in mount e none = none
refuse_in mount e (some m) =
    if m.mount == mount
    then some (record m { form = record m.form { error = some e; submitting = false } })
    else some m

-- The rest of `onSubmit`; `onSuccess` is the page's, which closes whatever modal is open.
unfoldable pub create_settled : ℕ → String → Result String → Page → Page
create_settled mount by (ok path) s = record s {
  storage = some (trim by);
  created = some path;
  modal = none;
}
create_settled mount by (err e) s = record s { modal = refuse_in mount e s.modal }

pub data Answer : Type 0 where
  statuses : Result (List DbMigrationStatus) → Answer
  informed : Result AdminInfo → Answer
  read : Result MigrationFileContent → Answer
  created : Result String → Answer

unfoldable pub resume : Pending → Answer → Page → Page → Page
unfolding refresh_settled info_settled read_settled create_settled
resume status (statuses r) before s = refresh_settled r s
resume info (informed r) before s = info_settled r s
resume (reading t) (read r) before s = read_settled r s
resume (creating mount by) (created r) before s = create_settled mount by r s
resume _ _ before s = before

abbrev pub resume_at : Option (Pending × List Pending) → Answer → Page → Page
resume_at none a s = s
resume_at (some (p, rest)) a s = resume p a s (record s { pending = rest })

pub data Event : Type 0 where
  press_refresh : Event
  press_tab : ℕ → Event
  double_click : MigrationFileStatus → Event
  close_viewer press_new close_modal press_submit close_created : Event
  type_in : FormEdit → Event
  answer : ℕ → Answer → Event

-- `setViewing(null)`
abbrev pub close_from : Option ViewTarget → Page → Page
close_from none s = s
close_from (some t) s = view_effect s none

-- A handler. The viewer closes by Esc, by a click outside or by its button, the modal also by
-- `취소`; nothing keeps either open while a request is under way.
unfoldable pub handle : Event → Page → Page
unfolding refresh open_file view_effect press_new_file press_submit_form edit_form resume
handle press_refresh s = if s.busy then s else refresh s
handle (press_tab id) s = record s { selected_shard_id = some id }
handle (double_click row) s = open_file row s
handle close_viewer s = close_from s.viewing s
handle press_new s = press_new_file s
handle close_modal s = record s { modal = none }
handle press_submit s = press_submit_form s
handle close_created s = record s { created = none }
handle (type_in e) s = record s { modal = type_in_modal e s.modal }
handle (answer i a) s = resume_at (take_out i s.pending) a s

-- An event: its handler, and the effect that selects a tab.
unfoldable pub step : Event → Page → Page
unfolding handle select_initial
step e s = select_initial (handle e s)

unfoldable pub run : List Event → Page → Page
unfolding run_by
run es s = run_by step es s
