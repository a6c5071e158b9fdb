-- ===== src/VersionPage/Errors.antt =====
-- What a refused request does to the version page.
use future_was.Base.{ℕ, ◌-◌, String, Bool, true, false, Option, some, List, take_out, ◌≡◌, arith}
use future_was.Base.Results.{refused_with}
use future_was.VersionPage.{Pending, ignoring, Page}
use future_was.VersionPage.Session.{
  Answer, listed, created, reloaded, deleted, ignored, ignored_settled, resume, answer, step,
}
use future_was.VersionPage.Busy.{is_op}
use future_was.VersionPage.Settle.{fits}

abbrev pub refusal_of : Answer → Option String
refusal_of (listed r) = refused_with r
refusal_of (created r) = refused_with r
refusal_of (reloaded r) = refused_with r
refusal_of (deleted r) = refused_with r

-- The page shows the error, and has kept the list, the selection and the form.
pub record Refused (s t : Page) (e : String) (op : Bool) : Type 0 where
  pub error : t.error ≡ some e
  pub rows : t.rows ≡ s.rows
  pub selection : t.selection ≡ s.selection
  pub input : t.input ≡ s.input
  pub sent : t.sent ≡ s.sent
  pub idle : op ≡ true → t.busy ≡ false
  pub other : op ≡ false → t.busy ≡ s.busy

-- Whether the request is one of a `Promise.all` that an earlier refusal has ended.
abbrev pub is_ignored : Pending → Bool
is_ignored (ignoring _) = true
is_ignored _ = false

resume-Refused :
    (p : Pending) (a : Answer) (before s : Page) (e : String)
    → is_ignored p ≡ false
    → fits p a ≡ true
    → refusal_of a ≡ some e
    → Refused s (resume p a before s) e (is_op p)
unfolding resume
resume-Refused p a before s e awaited f r = ground arith

resume-ignored :
    (p : Pending) (a : Answer) (before s : Page)
    → is_ignored p ≡ true
    → fits p a ≡ true
    → resume p a before s ≡ record s { pending = (resume p a before s).pending }
unfolding resume ignored_settled
resume-ignored (ignoring left) (deleted r) before s over f =
    λ i. record s { pending = ignored (left - 1) s.pending }
resume-ignored p a before s over f = ground arith

-- A request of the version page is refused or cannot be answered. If it is awaited, the error is
-- shown, nothing more is sent, the list, the selection and the form are as before, and if it belonged
-- to a creation, a reload or a deletion, the page is no longer busy. If it is a deletion whose press
-- has already ended with the refusal of another, the page is as before but for what is still open.
pub refusal_keeps_all :
    (i : ℕ) (a : Answer) (s : Page) (p : Pending) (rest : List Pending) (e : String)
    → take_out i s.pending ≡ some (p, rest)
    → fits p a ≡ true
    → refusal_of a ≡ some e
    → let t = step (answer i a) s in
      (is_ignored p ≡ false → Refused s t e (is_op p))
      × (is_ignored p ≡ true → t ≡ record s { pending = t.pending })
unfolding step
refusal_keeps_all i a s p rest e taken f r = (
  λ awaited.
      let h = resume-Refused p a s (record s { pending = rest }) e awaited f r in
      rw taken (record {
        error = h.error;
        rows = h.rows;
        selection = h.selection;
        input = h.input;
        sent = h.sent;
        idle = h.idle;
        other = h.other;
      }),
  λ over. rw taken (resume-ignored p a s (record s { pending = rest }) over f),
)
