-- ===== src/MigrationsPage/Settle.antt =====
-- The answers that the open requests of the migrations page can still take: one for each.
use future_was.Base.{
  ℕ, ◌<◌, String, true, false, Option, some, List, [], take_out, sum_by, sum_by-take_out, ◌≡◌,
  arith,
}
use future_was.Base.Awaits.{Awaiting, IsLawful}
use future_was.MigrationsPage.{Pending, Page, initial, select_initial}
use future_was.MigrationsPage.Session.{Answer, resume, Event, answer, step, run}
use future_was.MigrationsPage.Errors.{fits}
use future_was.MigrationsPage.LocalOnly.{posts_only_local}

abbrev weight : Pending → ℕ
weight _ = 1

resume-pending :
    (p : Pending) (a : Answer) (before s : Page)
    → fits p a ≡ true
    → (resume p a before s).pending ≡ s.pending
unfolding resume
resume-pending p a before s f = ground arith

select-pending : (s : Page) → (select_initial s).pending ≡ s.pending
unfolding select_initial
select-pending s = ground arith

answer-work :
    (i : ℕ) (a : Answer) (s : Page) (p : Pending) (rest : List Pending)
    → take_out i s.pending ≡ some (p, rest)
    → fits p a ≡ true
    → sum_by weight (step (answer i a) s).pending < sum_by weight s.pending
unfolding step
answer-work i a s p rest taken f =
    let after = record s { pending = rest } in
    rw taken (
      rw (select-pending (resume p a s after), resume-pending p a s after f)
        (omega (arith, sum_by-take_out weight i s.pending taken)))

abbrev pub awaiting : Option String → Awaiting
awaiting storage = record {
  State = Page;
  Event = Event;
  Open = Pending;
  Answer = Answer;
  initial = initial storage;
  step = step;
  answer = answer;
  pending = λ s. s.pending;
  busy = λ s. s.busy;
  fits = fits;
  weight = weight;
}

session-idle :
    (storage : Option String) (es : List Event)
    → (run es (initial storage)).pending ≡ []
    → (run es (initial storage)).busy ≡ false
session-idle storage es empty = ground (arith, posts_only_local storage es)

pub awaiting-IsLawful : (storage : Option String) → IsLawful (awaiting storage)
unfolding run
awaiting-IsLawful storage = record {
  decreases = λ s r (p, rest, taken, f). answer-work r.0 r.1 s p rest taken f;
  idle = session-idle storage;
}
