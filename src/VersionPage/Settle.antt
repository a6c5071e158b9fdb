-- ===== src/VersionPage/Settle.antt =====
-- The answers that the open operations of the version page can still take.
use future_was.Base.{
  ℕ, ◌+◌, ◌≤◌, ◌<◌, Bool, true, false, some, List, [], ◌∷◌, length, take_out, sum_by,
  sum_by-take_out, ◌≡◌, refl, arith,
}
use future_was.Base.Results.{ok}
use future_was.Base.Awaits.{Awaiting, IsLawful}
use future_was.VersionPage.{
  nobody, Pending, listing, creating, reloading, deleting, ignoring, Page, initial,
}
use future_was.VersionPage.Session.{
  Answer, listed, created, reloaded, deleted, resume, Event, answer, step, run,
}
use future_was.VersionPage.Busy.{run-IsBusyExact, busy_exact}

-- How many answers an open `await` can lead to, at most.
abbrev pub weight : Pending → ℕ
weight (listing _) = 1
weight creating = 2
weight reloading = 1
weight (deleting n left) = left + 2
weight (ignoring left) = left + 1

abbrev pub work : Page → ℕ
work s = sum_by weight s.pending

-- The answer is one to the request of the `await`.
abbrev pub fits : Pending → Answer → Bool
fits (listing _) (listed _) = true
fits creating (created _) = true
fits reloading (reloaded _) = true
fits (deleting _ _) (deleted _) = true
fits (ignoring _) (deleted _) = true
fits _ _ = false

resume-work :
    (p : Pending) (a : Answer) (before s : Page)
    → fits p a ≡ true
    → work (resume p a before s) < weight p + work s
unfolding resume
resume-work (listing nobody) (listed (ok r)) before s f = ground arith
resume-work p a before s f = ground arith

-- Answers to requests that are open when they come.
abbrev pub AreAnswers : List Event → Page → Type 0
AreAnswers [] s = Unit
AreAnswers (answer i a ∷ es) s =
    ((p : Pending) × (rest : List Pending) × (take_out i s.pending ≡ some (p, rest))
      × (fits p a ≡ true))
    × AreAnswers es (step (answer i a) s)
AreAnswers (_ ∷ es) s = ⊥

answer-work :
    (i : ℕ) (a : Answer) (s : Page) (p : Pending) (rest : List Pending)
    → take_out i s.pending ≡ some (p, rest)
    → fits p a ≡ true
    → work (step (answer i a) s) < work s
unfolding step
answer-work i a s p rest taken f = rw taken (
    omega (
      arith,
      resume-work p a s (record s { pending = rest }) f,
      sum_by-take_out weight i s.pending taken,
    ))

answers-le-work :
    (es : List Event) (s : Page) → AreAnswers es s → length es + work (run es s) ≤ work s
unfolding run
answers-le-work [] s h = omega arith
answers-le-work (answer i a ∷ es) s ((p, rest, taken, f), later) =
    omega (arith, answer-work i a s p rest taken f, answers-le-work es (step (answer i a) s) later)
answers-le-work (_ ∷ es) s h = absurd h

abbrev pub awaiting : Awaiting
awaiting = record {
  State = Page;
  Event = Event;
  Open = Pending;
  Answer = Answer;
  initial = initial;
  step = step;
  answer = answer;
  pending = λ s. s.pending;
  busy = λ s. s.busy;
  fits = fits;
  weight = weight;
}

session-idle : (es : List Event) → (run es initial).pending ≡ [] → (run es initial).busy ≡ false
session-idle es empty = ground (arith, busy_exact es)

pub awaiting-IsLawful : IsLawful awaiting
unfolding run
awaiting-IsLawful = record {
  decreases = λ s r (p, rest, taken, f). answer-work r.0 r.1 s p rest taken f;
  idle = session-idle;
}

-- After any session, the answers that can follow are at most as many as the work that is open, and
-- when no request is left open the page is not busy.
pub answers_settle :
    (session es : List Event)
    → let s = run session initial in
      AreAnswers es s → (length es ≤ work s) × ((run es s).pending ≡ [] → (run es s).busy ≡ false)
answers_settle session es h =
    let s = run session initial in
    let before = run-IsBusyExact session initial (unfold initial in refl) in
    let exact = run-IsBusyExact es s before in
    (omega (arith, answers-le-work es s h), λ empty. ground arith)
