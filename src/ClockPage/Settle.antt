-- ===== src/ClockPage/Settle.antt =====
-- The answers that the open requests of the clock page can still take.
use future_was.Base.{
  ℕ, ◌+◌, ◌<◌, Bool, true, false, some, List, [], take_out, sum_by, sum_by-take_out, ◌≡◌, arith,
}
use future_was.Base.Awaits.{Awaiting, IsLawful}
use future_was.Base.Results.{ok}
use future_was.ClockPage.{nobody, Pending, getting, jumping, Page, initial}
use future_was.ClockPage.Session.{Answer, got, jumped, resume, Event, answer, step, run}
use future_was.ClockPage.Busy.{one_jump}

abbrev pub fits : Pending → Answer → Bool
fits (getting _) (got _) = true
fits jumping (jumped _) = true
fits _ _ = false

-- A jump is followed by a request for the clock.
abbrev pub weight : Pending → ℕ
weight (getting _) = 1
weight jumping = 2

resume-work :
    (p : Pending) (a : Answer) (before s : Page)
    → fits p a ≡ true
    → sum_by weight (resume p a before s).pending < weight p + sum_by weight s.pending
unfolding resume
resume-work (getting nobody) (got (ok r)) before s f = ground arith
resume-work p a before s f = ground arith

answer-work :
    (i : ℕ) (a : Answer) (s : Page) (p : Pending) (rest : List Pending)
    → take_out i s.pending ≡ some (p, rest)
    → fits p a ≡ true
    → sum_by weight (step (answer i a) s).pending < sum_by weight s.pending
unfolding step
answer-work i a s p rest taken f = rw taken (
    omega (
      arith,
      resume-work p a s (record s { pending = rest }) f,
      sum_by-take_out weight i s.pending taken,
    ))

abbrev pub awaiting : Awaiting
awaiting = record {
  State = Page;
  Event = Event;
  Open = Pending;
  Answer = Answer;
  initial = initial;
  step = step;
  answer = answer;
  pending = λ s. s.pending;
  busy = λ s. s.busy;
  fits = fits;
  weight = weight;
}

session-idle : (es : List Event) → (run es initial).pending ≡ [] → (run es initial).busy ≡ false
session-idle es empty = ground (arith, one_jump es)

pub awaiting-IsLawful : IsLawful awaiting
unfolding run
awaiting-IsLawful = record {
  decreases = λ s r (p, rest, taken, f). answer-work r.0 r.1 s p rest taken f;
  idle = session-idle;
}
