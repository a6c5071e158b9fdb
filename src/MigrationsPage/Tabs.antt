-- ===== src/MigrationsPage/Tabs.antt =====
-- The tab that the page selects by itself, and how it is kept.
use future_was.Base.{
  ℕ, Bool, true, false, Option, none, some, List, [], ◌∷◌, find, take_out, ◌==◌, ==_iff,
  if◌then◌else◌, ◌≡◌, refl, sym, ap, ◌∙◌, subst, arith, Option-cases, Bool-cases, inl, inr,
}
use future_was.MigrationForm.{Form, can_submit, on_submit}
use future_was.Api.{MigrationFileStatus, CreateMigrationInput, DbMigrationStatus}
use future_was.MigrationsPage.{
  ViewTarget, open_from, Page, Modal, Pending, status, is_game, or_else, preferred, select_from,
  select_initial, selected_db, db_at, open_file, view_effect,
}
use future_was.MigrationsPage.Session.{
  Answer, statuses, submit_in, send_create, press_submit_form, close_from, Event, double_click,
  close_viewer, press_submit, answer, handle, step, run, resume, resume_at, press_tab,
}

-- No two databases have one shard id.
abbrev pub has_id : List DbMigrationStatus → ℕ → Bool
has_id [] id = false
has_id (d ∷ ds) id = if d.shard_id == id then true else has_id ds id

abbrev pub AreDistinct : List DbMigrationStatus → Type 0
AreDistinct [] = Unit
AreDistinct (d ∷ ds) = (has_id ds d.shard_id ≡ false) × AreDistinct ds

has_id_of_find :
    (p : DbMigrationStatus → Bool) (ds : List DbMigrationStatus) (d : DbMigrationStatus)
    → find p ds ≡ some d
    → has_id ds d.shard_id ≡ true
has_id_of_find p [] d e = cc
has_id_of_find p (x ∷ ds) d e = elim (Bool-cases (p x)) [
  | inl found ↦
      let same : x ≡ d = ground arith in
      let same_id : x.shard_id ≡ d.shard_id = ap (λ (y : DbMigrationStatus). y.shard_id) same in
      ground arith
  | inr other ↦ ground (arith, has_id_of_find p ds d)
]

-- The database that was chosen is the one that its shard id finds.
find-shard_id :
    (p : DbMigrationStatus → Bool) (ds : List DbMigrationStatus) (d : DbMigrationStatus)
    → AreDistinct ds
    → find p ds ≡ some d
    → find (λ x. x.shard_id == d.shard_id) ds ≡ some d
find-shard_id p [] d h e = cc
find-shard_id p (x ∷ ds) d h e = elim (Bool-cases (p x)) [
  | inl found ↦
      let same : x ≡ d = ground arith in
      let same_id : x.shard_id ≡ d.shard_id = ap (λ (y : DbMigrationStatus). y.shard_id) same in
      ground arith
  | inr other ↦
      let later : find p ds ≡ some d = ground arith in
      let there = has_id_of_find p ds d later in
      let apart : (x.shard_id == d.shard_id) ≡ false = ground arith in
      rw apart (find-shard_id p ds d h.1 later)
]

self-eq : (n : ℕ) → (n == n) ≡ true
self-eq n = (==_iff n n).1 refl

find-preferred :
    (d : DbMigrationStatus) (ds : List DbMigrationStatus)
    → AreDistinct (d ∷ ds)
    → find (λ x. x.shard_id == (preferred d ds).shard_id) (d ∷ ds) ≡ some (preferred d ds)
find-preferred d ds h = elim (Option-cases (find (λ db. is_game db.category) (d ∷ ds))) [
  | inl missing ↦
      let first : preferred d ds ≡ d = unfold preferred in ap (λ o. or_else o d) missing in
      subst (λ w. find (λ x. x.shard_id == w.shard_id) (d ∷ ds) ≡ some w) (sym first)
        (rw (self-eq d.shard_id))
  | inr (g, found) ↦
      let game : preferred d ds ≡ g = unfold preferred in ap (λ o. or_else o d) found in
      subst (λ w. find (λ x. x.shard_id == w.shard_id) (d ∷ ds) ≡ some w) (sym game)
        (find-shard_id (λ db. is_game db.category) (d ∷ ds) g h found)
]

abbrev pub has_game : List DbMigrationStatus → Bool
has_game [] = false
has_game (d ∷ ds) = if is_game d.category then true else has_game ds

find-game :
    (ds : List DbMigrationStatus)
    → has_game ds ≡ true
    → (g : DbMigrationStatus) × (find (λ db. is_game db.category) ds ≡ some g)
      × (is_game g.category ≡ true)
find-game [] h = cc
find-game (d ∷ ds) h = elim (Bool-cases (is_game d.category)) [
  | inl game ↦ (d, rw game, game)
  | inr other ↦ let (g, found, game) = find-game ds (ground arith) in (g, rw other found, game)
]

find-no_game :
    (ds : List DbMigrationStatus) → has_game ds ≡ false → find (λ db. is_game db.category) ds ≡ none
find-no_game [] h = refl
find-no_game (d ∷ ds) h = ground (arith, find-no_game ds)

preferred-game :
    (d : DbMigrationStatus) (ds : List DbMigrationStatus)
    → has_game (d ∷ ds) ≡ true
    → is_game (preferred d ds).category ≡ true
preferred-game d ds h =
    let (g, found, game) = find-game (d ∷ ds) h in
    let chosen : preferred d ds ≡ g = unfold preferred in ap (λ o. or_else o d) found in
    subst (λ w. is_game w.category ≡ true) (sym chosen) game

selected_db-select_initial :
    (s : Page) (d : DbMigrationStatus) (ds : List DbMigrationStatus)
    → s.selected_shard_id ≡ none
    → s.dbs ≡ some (d ∷ ds)
    → selected_db (select_initial s) ≡ find (λ x. x.shard_id == (preferred d ds).shard_id) (d ∷ ds)
unfolding selected_db select_initial
selected_db-select_initial s d ds unselected loaded =
    let same : s ≡ record s { dbs = some (d ∷ ds); selected_shard_id = none } =
      λ i. record s { dbs = loaded i; selected_shard_id = unselected i } in
    subst
      (λ t.
        db_at (select_from t.selected_shard_id t.dbs t).dbs
          (select_from t.selected_shard_id t.dbs t).selected_shard_id
        ≡ find (λ x. x.shard_id == (preferred d ds).shard_id) (d ∷ ds))
      (sym same) refl

-- When the first states arrive, the page shows a database, by the effect that selects its tab: one
-- of the game if there is any, and else the first. No two databases have one shard id.
pub first_tab :
    (s : Page) (d : DbMigrationStatus) (ds : List DbMigrationStatus)
    → s.selected_shard_id ≡ none
    → s.dbs ≡ some (d ∷ ds)
    → AreDistinct (d ∷ ds)
    → (shown : DbMigrationStatus) × (selected_db (select_initial s) ≡ some shown)
      × (has_game (d ∷ ds) ≡ true → is_game shown.category ≡ true)
      × (has_game (d ∷ ds) ≡ false → shown ≡ d)
first_tab s d ds unselected loaded distinct = (
  preferred d ds,
  selected_db-select_initial s d ds unselected loaded ∙ find-preferred d ds distinct,
  preferred-game d ds,
  λ no_game. unfold preferred in ap (λ o. or_else o d) (find-no_game (d ∷ ds) no_game),
)

-- The tabs pressed in a session; the last of them counts.
abbrev pub tab_after : Option ℕ → Event → Option ℕ
tab_after id (press_tab next) = some next
tab_after id _ = id

abbrev pub last_tab : Option ℕ → List Event → Option ℕ
last_tab id [] = id
last_tab id (e ∷ es) = last_tab (tab_after id e) es

tab_after-some : (e : Event) (id : ℕ) → (n : ℕ) × (tab_after (some id) e ≡ some n)
tab_after-some (press_tab next) id = (next, refl)
tab_after-some _ id = (id, refl)

resume-selected :
    (p : Pending) (a : Answer) (before s : Page)
    → before.selected_shard_id ≡ s.selected_shard_id
    → (resume p a before s).selected_shard_id ≡ s.selected_shard_id
unfolding resume
resume-selected status (statuses r) before s e = ground arith
resume-selected p a before s e = ground arith

submit_in-selected :
    (o : Option Modal) (s : Page) → (submit_in o s).selected_shard_id ≡ s.selected_shard_id
submit_in-selected none s = refl
submit_in-selected (some m) s = elim (Bool-cases (can_submit m.form)) [
  | inl able ↦ rw able (sent (on_submit m.form))
  | inr unable ↦ rw unable
]
  where
    sent :
        (r : Form × Option CreateMigrationInput)
        → (send_create m r s).selected_shard_id ≡ s.selected_shard_id
    sent (f, none) = refl
    sent (f, some input) = refl

open_from-selected :
    (o : Option DbMigrationStatus) (row : MigrationFileStatus) (s : Page)
    → (open_from o row s).selected_shard_id ≡ s.selected_shard_id
unfolding view_effect
open_from-selected none row s = refl
open_from-selected (some db) row s = refl

close_from-selected :
    (o : Option ViewTarget) (s : Page) → (close_from o s).selected_shard_id ≡ s.selected_shard_id
unfolding view_effect
close_from-selected none s = refl
close_from-selected (some t) s = refl

answer-selected :
    (i : ℕ) (a : Answer) (s : Page)
    → (resume_at (take_out i s.pending) a s).selected_shard_id ≡ s.selected_shard_id
answer-selected i a s = elim (Option-cases (take_out i s.pending)) [
  | inl nothing ↦ rw nothing
  | inr ((p, rest), found) ↦ rw found (resume-selected p a s (record s { pending = rest }) refl)
]

handle-selected :
    (e : Event) (s : Page) → (handle e s).selected_shard_id ≡ last_tab s.selected_shard_id (e ∷ [])
unfolding handle open_file press_submit_form
handle-selected (answer i a) s = answer-selected i a s
handle-selected (double_click row) s = open_from-selected (selected_db s) row s
handle-selected close_viewer s = close_from-selected s.viewing s
handle-selected press_submit s = submit_in-selected s.modal s
handle-selected e s = ground arith

select_initial-selected :
    (s : Page) (id : ℕ)
    → s.selected_shard_id ≡ some id
    → (select_initial s).selected_shard_id ≡ some id
unfolding select_initial
select_initial-selected s id h = ground arith

-- Once a tab is selected, only the operator changes it: after any events it is the tab pressed last,
-- whatever states have come since.
pub run-selected :
    (es : List Event) (s : Page) (id : ℕ)
    → s.selected_shard_id ≡ some id
    → (run es s).selected_shard_id ≡ last_tab (some id) es
unfolding run
run-selected [] s id h = h
run-selected (e ∷ es) s id h =
    let (n, after) = tab_after-some e id in
    let handled = handle-selected e s ∙ ap (λ o. tab_after o e) h ∙ after in
    run-selected es (step e s) n (unfold step in select_initial-selected (handle e s) n handled)
    ∙ ap (λ o. last_tab o es) (sym after)
