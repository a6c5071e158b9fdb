-- ===== src/MigrationsPage/Errors.antt =====
-- What a refused request does to the migrations page.
use future_was.Base.{
  ℕ, String, Bool, true, false, Option, none, some, List, [], ◌∷◌, take_out, ◌≡◌, ◌≢◌, arith,
}
use future_was.Base.Results.{refused_with, ok, err}
use future_was.Api.{DbMigrationStatus}
use future_was.MigrationsPage.{
  Modal, Pending, status, info, reading, creating, Page, select_initial, select_from,
}
use future_was.MigrationsPage.Session.{
  Answer, statuses, informed, read, created, resume, answer, step,
}

-- The answer is one to the request of the `await`.
abbrev pub fits : Pending → Answer → Bool
fits status (statuses _) = true
fits info (informed _) = true
fits (reading _) (read _) = true
fits (creating _ _) (created _) = true
fits _ _ = false

abbrev pub refusal_of : Answer → Option String
refusal_of (statuses r) = refused_with r
refusal_of (informed r) = refused_with r
refusal_of (read r) = refused_with r
refusal_of (created r) = refused_with r

-- Where the error of a request is shown, and what it ends.
abbrev pub IsShown : Pending → String → Page → Page → Type 0
IsShown status e s t = (t.error ≡ some e) × (t.busy ≡ false)
IsShown info e s t = t.stage ≡ none
IsShown (reading target) e s t = (t.view_error ≡ some e) × (t.view_loading ≡ false)
IsShown (creating mount by) e s t =
    ((m : Modal)
      → s.modal ≡ some m
      → m.mount ≡ mount
      → t.modal ≡ some (record m { form = record m.form { error = some e; submitting = false } }))
    × ((m : Modal) → s.modal ≡ some m → m.mount ≢ mount → t.modal ≡ some m)

abbrev pub Kept : Page → Page → Type 0
Kept s t =
    (t.dbs ≡ s.dbs)
    × (t.viewing ≡ s.viewing)
    × (t.view_content ≡ s.view_content)
    × (t.created ≡ s.created)
    × (t.storage ≡ s.storage)
    × (t.sent ≡ s.sent)

resume-Kept :
    (p : Pending) (a : Answer) (before s : Page) (e : String)
    → fits p a ≡ true
    → refusal_of a ≡ some e
    → IsShown p e s (resume p a before s) × Kept s (resume p a before s)
unfolding resume
resume-Kept status (statuses r) before s e f refused = ground arith
resume-Kept info (informed r) before s e f refused = ground arith
resume-Kept (reading target) (read r) before s e f refused = ground arith
resume-Kept (creating mount by) (created (ok path)) before s e f refused = cc
resume-Kept (creating mount by) (created (err message)) before s e f refused =
    ((λ m opened same. ground arith, λ m opened other. ground arith), ground arith)
resume-Kept p a before s e f refused = cc

-- The effect on the tabs changes nothing of this.
select_from-Kept :
    (p : Pending) (e : String) (id : Option ℕ) (dbs : Option (List DbMigrationStatus)) (s t : Page)
    → IsShown p e s t × Kept s t
    → IsShown p e s (select_from id dbs t) × Kept s (select_from id dbs t)
select_from-Kept p e (some id) dbs s t h = h
select_from-Kept p e none none s t h = h
select_from-Kept p e none (some []) s t h = h
select_from-Kept status e none (some (d ∷ ds)) s t (shown, kept) = (shown, kept)
select_from-Kept info e none (some (d ∷ ds)) s t (shown, kept) = (shown, kept)
select_from-Kept (reading target) e none (some (d ∷ ds)) s t (shown, kept) = (shown, kept)
select_from-Kept (creating mount by) e none (some (d ∷ ds)) s t (shown, kept) = (shown, kept)

-- The list of pending requests is no part of what is shown or kept.
carried :
    (p : Pending) (s : Page) (rest : List Pending) (e : String) (t : Page)
    → IsShown p e (record s { pending = rest }) t × Kept (record s { pending = rest }) t
    → IsShown p e s t × Kept s t
carried status s rest e t (shown, kept) = (shown, kept)
carried info s rest e t (shown, kept) = (shown, kept)
carried (reading target) s rest e t (shown, kept) = (shown, kept)
carried (creating mount by) s rest e t (shown, kept) = (shown, kept)

-- Any request of the migrations page that is refused: its error is shown where the request belongs
-- and what waited for it is over, in the page, in the viewer, or in the form that sent it and in no
-- other form; without the stage of the server the page has none. The states, the content, the author
-- and the requests are as before.
pub refusal-IsShown :
    (i : ℕ) (a : Answer) (s : Page) (p : Pending) (rest : List Pending) (e : String)
    → take_out i s.pending ≡ some (p, rest)
    → fits p a ≡ true
    → refusal_of a ≡ some e
    → IsShown p e s (step (answer i a) s) × Kept s (step (answer i a) s)
unfolding step
refusal-IsShown i a s p rest e taken f r =
    let t = resume p a s (record s { pending = rest }) in
    let h = resume-Kept p a s (record s { pending = rest }) e f r in
    rw taken (
      unfold select_initial in
      select_from-Kept p e t.selected_shard_id t.dbs s t (carried p s rest e t h))
