-- ===== src/VersionPage/Busy.antt =====
-- The `busy` flag of the version page, over whole sessions.
use future_was.Base.{
  ℕ, ◌+◌, ◌≤◌, Bool, true, false, List, take_out, count, count-take_out, bit, ◌≡◌, refl, ◌↔◌, arith,
  Option-cases, inl, inr,
}
use future_was.Base.Runs.{run_by-keeps}
use future_was.Base.Results.{ok}
use future_was.VersionPage.{nobody, Pending, listing, ignoring, Page, initial, on_delete_press}
use future_was.VersionPage.Session.{
  Answer, listed, resume, resume_at, Event, press_delete, answer, step, run,
}

-- Whether a pending `await` belongs to an operation that holds `busy`.
abbrev pub is_op : Pending → Bool
is_op (listing nobody) = false
is_op (ignoring _) = false
is_op _ = true

-- The open operations are counted by `busy`: one if it is set, and none if not.
abbrev pub IsBusyExact : Page → Type 0
IsBusyExact s = count is_op s.pending ≡ bit s.busy

resume-IsBusyExact :
    (p : Pending) (a : Answer) (before s : Page)
    → IsBusyExact before
    → before.busy ≡ s.busy
    → bit (is_op p) + count is_op s.pending ≡ bit s.busy
    → IsBusyExact (resume p a before s)
unfolding resume
resume-IsBusyExact (listing nobody) (listed (ok r)) before s h b e = ground arith
resume-IsBusyExact p a before s h b e = ground arith

answer-IsBusyExact :
    (i : ℕ) (a : Answer) (s : Page)
    → IsBusyExact s
    → IsBusyExact (resume_at (take_out i s.pending) a s)
answer-IsBusyExact i a s h = elim (Option-cases (take_out i s.pending)) [
  | inl nothing ↦ rw nothing h
  | inr ((p, rest), found) ↦ rw found (
      resume-IsBusyExact p a s (record s { pending = rest }) h refl
        (omega (arith, count-take_out is_op i s.pending found)))
]

delete-IsBusyExact :
    (c : Bool) (s : Page) → s.busy ≡ false → IsBusyExact s → IsBusyExact (on_delete_press c s)
unfolding on_delete_press
delete-IsBusyExact c s idle h = elim (Option-cases s.rows) [
  | inl unloaded ↦ rw (unloaded, on_delete_press) h
  | inr (rows, loaded) ↦ ground (arith)
]

-- Every event keeps the count.
pub step-IsBusyExact : (e : Event) (s : Page) → IsBusyExact s → IsBusyExact (step e s)
unfolding step
step-IsBusyExact (answer i a) s h = answer-IsBusyExact i a s h
step-IsBusyExact (press_delete c) s h = ground (arith, delete-IsBusyExact c s)
step-IsBusyExact e s h = ground arith

pub run-IsBusyExact : (es : List Event) (s : Page) → IsBusyExact s → IsBusyExact (run es s)
unfolding run
run-IsBusyExact es s h = run_by-keeps step IsBusyExact step-IsBusyExact es s h

-- In every session of the page at most one creation, reload or deletion is open, and `busy` is set
-- exactly while one is.
pub busy_exact :
    (es : List Event)
    → let s = run es initial in
      (count is_op s.pending ≤ 1) × ((s.busy ≡ true) ↔ (count is_op s.pending ≡ 1))
busy_exact es = let exact = run-IsBusyExact es initial (unfold initial in refl) in ground arith
