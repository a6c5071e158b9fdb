-- ===== src/MigrationsPage/Coherence.antt =====
-- The open file of the viewer, its pending reads and what it shows, over whole sessions.
use future_was.Base.{
  ℕ, String, Bool, true, false, Option, none, some, List, [], ◌∷◌, take_out, count, count-take_out,
  All, All-take_out, bit, ◌≡◌, refl, ap, ◌∙◌, subst, arith, Option-cases, inl, inr, Bool-cases,
}
use future_was.Base.Results.{Result, ok, err}
use future_was.Api.{
  MigrationFileContent, MigrationFileStatus, DbMigrationStatus, CreateMigrationInput,
}
use future_was.MigrationForm.{Form, on_submit, can_submit}
use future_was.MigrationsPage.{
  ViewTarget, Modal, Pending, status, info, reading, creating, Page, initial, select_initial,
  select_from, open_file, open_from, selected_db, view_effect, read_settled,
}
use future_was.MigrationsPage.Session.{
  open_modal, is_local, send_create, submit_in, press_submit_form, close_from, Answer, statuses,
  informed, read, created, resume, resume_at, Event, press_refresh, double_click, close_viewer,
  press_new, press_submit, answer, handle, step, run,
}

abbrev pub target : DbMigrationStatus → MigrationFileStatus → ViewTarget
target db row = record { category = db.category; version = row.version; filename = row.filename }

abbrev pub is_reading : Pending → Bool
is_reading (reading _) = true
is_reading _ = false

-- A read that is under way is one of the file that is open.
abbrev pub IsFor : Option ViewTarget → Pending → Type 0
IsFor viewing (reading t) = viewing ≡ some t
IsFor viewing _ = Unit

module _ (disk : ViewTarget → Result MigrationFileContent) where
  -- The viewer shows what the server has for a file: its content, or the error.
  abbrev pub Shows : Result MigrationFileContent → String → Option String → Type 0
  Shows (ok r) content error = (content ≡ r.content) × (error ≡ none)
  Shows (err e) content error = error ≡ some e

  pub record Coherent (viewing : Option ViewTarget) (content : String) (loading : Bool)
      (error : Option String) (ps : List Pending) : Type 0 where
    pub quiet : count is_reading ps ≡ bit loading
    pub current : All (IsFor viewing) ps
    pub clean : loading ≡ true → error ≡ none
    pub faithful :
        (t : ViewTarget) → viewing ≡ some t → loading ≡ false → Shows (disk t) content error

  abbrev pub IsCoherent : Page → Type 0
  IsCoherent s = Coherent s.viewing s.view_content s.view_loading s.view_error s.pending

  -- Other requests come and go.
  kept :
      {v : Option ViewTarget} {c : String} {l : Bool} {e : Option String} {ps : List Pending}
      (qs : List Pending)
      → Coherent v c l e ps
      → count is_reading qs ≡ count is_reading ps
      → All (IsFor v) qs
      → Coherent v c l e qs
  kept qs h n a = record {
    quiet = n ∙ h.quiet;
    current = a;
    clean = h.clean;
    faithful = h.faithful;
  }

  -- The operator opens and closes no file while one is loading, and the server gives the file that
  -- was asked for.
  abbrev pub IsPatient : Event → Page → Type 0
  IsPatient (double_click row) s = s.view_loading ≡ false
  IsPatient close_viewer s = s.view_loading ≡ false
  IsPatient (answer i (read r)) s =
      (t : ViewTarget) (rest : List Pending)
      → take_out i s.pending ≡ some (reading t, rest)
      → r ≡ disk t
  IsPatient _ s = Unit

  abbrev pub ArePatient : List Event → Page → Type 0
  ArePatient [] s = Unit
  ArePatient (e ∷ es) s = IsPatient e s × ArePatient es (step e s)

  -- Nothing is read: then every pending `await` is for any file whatever.
  no_reads :
      (v w : Option ViewTarget) (ps : List Pending)
      → count is_reading ps ≡ 0
      → All (IsFor v) ps
      → All (IsFor w) ps
  no_reads v w [] h k = tt
  no_reads v w (reading t ∷ ps) h k = absurd (omega arith)
  no_reads v w (status ∷ ps) h k = (tt, no_reads v w ps (omega arith) k.1)
  no_reads v w (info ∷ ps) h k = (tt, no_reads v w ps (omega arith) k.1)
  no_reads v w (creating n by ∷ ps) h k = (tt, no_reads v w ps (omega arith) k.1)

  open_from-IsCoherent :
      (o : Option DbMigrationStatus) (row : MigrationFileStatus) (s : Page)
      → s.view_loading ≡ false
      → IsCoherent s
      → IsCoherent (open_from o row s)
  unfolding view_effect
  open_from-IsCoherent none row s idle h = h
  open_from-IsCoherent (some db) row s idle h =
      let t = target db row in
      let none_open : count is_reading s.pending ≡ 0 = ground (arith, h.quiet) in
      record {
        quiet = omega (arith, none_open);
        current = (refl, no_reads s.viewing (some t) s.pending none_open h.current);
        clean = λ _. refl;
        faithful = λ u e l. cc;
      }

  close_from-IsCoherent :
      (o : Option ViewTarget) (s : Page)
      → s.view_loading ≡ false
      → IsCoherent s
      → IsCoherent (close_from o s)
  unfolding view_effect
  close_from-IsCoherent none s idle h = h
  close_from-IsCoherent (some t) s idle h =
      let none_open : count is_reading s.pending ≡ 0 = ground (arith, h.quiet) in
      record {
        quiet = h.quiet;
        current = no_reads s.viewing none s.pending none_open h.current;
        clean = λ _. refl;
        faithful = λ u e l. cc;
      }

  read_settled-IsCoherent :
      (t : ViewTarget) (r : Result MigrationFileContent) (s : Page)
      → r ≡ disk t
      → s.viewing ≡ some t
      → s.view_error ≡ none
      → count is_reading s.pending ≡ 0
      → All (IsFor s.viewing) s.pending
      → IsCoherent (read_settled r s)
  unfolding read_settled
  read_settled-IsCoherent t (ok r) s e v c n a = record {
    quiet = n;
    current = a;
    clean = λ l. cc;
    faithful = λ u w l.
        let same : ok r ≡ disk u = e ∙ ap disk (cc) in
        subst (λ x. Shows x r.content s.view_error) same (refl, c);
  }
  read_settled-IsCoherent t (err m) s e v c n a = record {
    quiet = n;
    current = a;
    clean = λ l. cc;
    faithful = λ u w l.
        let same : err m ≡ disk u = e ∙ ap disk (cc) in
        subst (λ x. Shows x s.view_content (some m)) same refl;
  }

  other :
      (p : Pending) (rest : List Pending) (i : ℕ) (s : Page)
      → take_out i s.pending ≡ some (p, rest)
      → is_reading p ≡ false
      → IsCoherent s
      → Coherent s.viewing s.view_content s.view_loading s.view_error rest
  other p rest i s taken not_read h =
      let counted = count-take_out is_reading i s.pending taken in
      let others = All-take_out (IsFor s.viewing) i s.pending taken h.current in
      kept rest h (ground arith) others.1

  pub initial-IsCoherent : (storage : Option String) → IsCoherent (initial storage)
  unfolding initial
  initial-IsCoherent storage = record {
    quiet = refl;
    current = (tt, (tt, tt));
    clean = λ l. cc;
    faithful = λ t v l. cc;
  }

  sent-IsCoherent :
      (m : Modal) (r : Form × Option CreateMigrationInput) (s : Page)
      → IsCoherent s
      → IsCoherent (send_create m r s)
  sent-IsCoherent m (f, none) s h = h
  sent-IsCoherent m (f, some input) s h =
      kept (creating m.mount m.form.author ∷ s.pending) h (omega arith) (tt, h.current)

  selected-IsCoherent :
      (id : Option ℕ) (dbs : Option (List DbMigrationStatus)) (s : Page)
      → IsCoherent s
      → IsCoherent (select_from id dbs s)
  selected-IsCoherent none (some (d ∷ ds)) s h = h
  selected-IsCoherent none (some []) s h = h
  selected-IsCoherent none none s h = h
  selected-IsCoherent (some id) dbs s h = h

  answer_of :
      (p : Pending) (rest : List Pending) (i : ℕ) (a : Answer) (s : Page)
      → take_out i s.pending ≡ some (p, rest)
      → IsPatient (answer i a) s
      → IsCoherent s
      → IsCoherent (resume p a s (record s { pending = rest }))
  unfolding resume
  answer_of (reading t) rest i (read r) s taken honest h =
      let counted = count-take_out is_reading i s.pending taken in
      let (here, others) = All-take_out (IsFor s.viewing) i s.pending taken h.current in
      let loading : s.view_loading ≡ true = ground (arith, h.quiet) in
      let none_left : count is_reading rest ≡ 0 = ground (arith, h.quiet) in
      read_settled-IsCoherent t r (record s { pending = rest }) (honest t rest taken) here
        (h.clean loading) none_left others
  answer_of status rest i (statuses (ok r)) s taken honest h = other status rest i s taken refl h
  answer_of status rest i (statuses (err e)) s taken honest h = other status rest i s taken refl h
  answer_of info rest i (informed (ok r)) s taken honest h = other info rest i s taken refl h
  answer_of info rest i (informed (err e)) s taken honest h = other info rest i s taken refl h
  answer_of (creating n by) rest i (created (ok r)) s taken honest h =
      other (creating n by) rest i s taken refl h
  answer_of (creating n by) rest i (created (err e)) s taken honest h =
      other (creating n by) rest i s taken refl h
  answer_of _ rest i _ s taken honest h = h

  answer-IsCoherent :
      (i : ℕ) (a : Answer) (s : Page)
      → IsPatient (answer i a) s
      → IsCoherent s
      → IsCoherent (resume_at (take_out i s.pending) a s)
  answer-IsCoherent i a s honest h = elim (Option-cases (take_out i s.pending)) [
    | inl nothing ↦ rw nothing h
    | inr ((p, rest), found) ↦ rw found (answer_of p rest i a s found honest h)
  ]

  submit_in-IsCoherent : (o : Option Modal) (s : Page) → IsCoherent s → IsCoherent (submit_in o s)
  submit_in-IsCoherent none s h = h
  submit_in-IsCoherent (some m) s h = elim (Bool-cases (can_submit m.form)) [
    | inl able ↦ rw able (sent-IsCoherent m (on_submit m.form) s h)
    | inr unable ↦ rw unable h
  ]

  open_modal-IsCoherent : (o : Option Modal) (s : Page) → IsCoherent s → IsCoherent (open_modal o s)
  open_modal-IsCoherent none s h = h
  open_modal-IsCoherent (some m) s h = h

  handle-IsCoherent :
      (e : Event) (s : Page) → IsPatient e s → IsCoherent s → IsCoherent (handle e s)
  unfolding handle open_file press_submit_form
  handle-IsCoherent (answer i a) s p h = answer-IsCoherent i a s p h
  handle-IsCoherent (double_click row) s p h = open_from-IsCoherent (selected_db s) row s p h
  handle-IsCoherent close_viewer s p h = close_from-IsCoherent s.viewing s p h
  handle-IsCoherent press_submit s p h = submit_in-IsCoherent s.modal s h
  handle-IsCoherent press_refresh s p h = elim (Bool-cases s.busy) [
    | inl busy ↦ rw busy h
    | inr idle ↦ rw idle (kept (status ∷ s.pending) h (omega arith) (tt, h.current))
  ]
  handle-IsCoherent press_new s p h = elim (Bool-cases (is_local s.stage)) [
    | inl here ↦ rw here (open_modal-IsCoherent s.modal (record s { created = none }) h)
    | inr elsewhere ↦ rw elsewhere h
  ]
  handle-IsCoherent e s p h = h

  select_initial-IsCoherent : (s : Page) → IsCoherent s → IsCoherent (select_initial s)
  unfolding select_initial
  select_initial-IsCoherent s h = selected-IsCoherent s.selected_shard_id s.dbs s h

  pub run-IsCoherent :
      (es : List Event) (s : Page) → ArePatient es s → IsCoherent s → IsCoherent (run es s)
  unfolding run
  run-IsCoherent [] s p h = h
  run-IsCoherent (e ∷ es) s (here, later) h =
      run-IsCoherent es (step e s) later
        (unfold step in select_initial-IsCoherent (handle e s) (handle-IsCoherent e s here h))
