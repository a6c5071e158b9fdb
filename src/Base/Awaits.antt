-- ===== src/Base/Awaits.antt =====
-- Components that wait for answers: what they are waiting for, and how an answer changes them.
use Prim.Native.Nat.{ℕ, zero, suc, ◌≤◌, ◌<◌}
use mathlib.Core.Path.{◌≡◌, refl}
use mathlib.Core.Logic.{◌⊎◌, inl, inr}
use mathlib.Core.Bool.{Bool, true, false}
use mathlib.Core.Option.{some}
use mathlib.Core.List.{List, [], ◌∷◌, ◌++◌}
use native.Mathlib.Omega.{arith}
use future_was.Base.Lists.{sum_by, take_out}
use future_was.Base.Runs.{run_by, run_by-append}

pub record Awaiting : Type 1 where
  pub State : Type 0
  pub Event : Type 0
  pub Open : Type 0
  pub Answer : Type 0
  pub initial : State
  pub step : Event → State → State
  pub answer : ℕ → Answer → Event
  pub pending : State → List Open
  pub busy : State → Bool
  -- Whether an answer is one to what is open.
  pub fits : Open → Answer → Bool
  -- How many answers it can still take, with those to what is opened on the way.
  pub weight : Open → ℕ

module _ (m : Awaiting) where
  open m use {State, Event, Open, Answer, initial, step, answer, pending, busy, fits, weight}

  abbrev pub session : List Event → State
  session es = run_by step es initial

  abbrev pub work : State → ℕ
  work s = sum_by weight (pending s)

  -- The answer `a` fits what is open at the place `i`.
  abbrev pub IsAnswered : State → ℕ × Answer → Type 0
  IsAnswered s (i, a) =
      (p : Open) × (rest : List Open) × (take_out i (pending s) ≡ some (p, rest))
      × (fits p a ≡ true)

  pub record IsLawful : Type 0 where
    pub decreases :
        (s : State) (r : ℕ × Answer) → IsAnswered s r → work (step (answer r.0 r.1) s) < work s
    pub idle : (es : List Event) → pending (session es) ≡ [] → busy (session es) ≡ false

  -- Who answers: it chooses the place and the answer.
  abbrev pub Answering : Type 0
  Answering = State → ℕ × Answer

  abbrev pub IsResponsive : Answering → Type 0
  IsResponsive reply = (s : State) → (pending s ≡ []) ⊎ IsAnswered s (reply s)

  -- The answers from a state on, at most so many, until nothing is open.
  abbrev pub answers_from : ℕ → List Open → Answering → State → List Event
  answers_from zero ps reply s = []
  answers_from (suc n) [] reply s = []
  answers_from (suc n) (_ ∷ _) reply s =
      let (i, a) = reply s in
      let next = step (answer i a) s in answer i a ∷ answers_from n (pending next) reply next

  abbrev pub answers : ℕ → Answering → State → List Event
  answers n reply s = answers_from n (pending s) reply s

  module _ (law : IsLawful) (reply : Answering) (responsive : IsResponsive reply) where
    drains_from :
        (n : ℕ) (ps : List Open) (s : State)
        → pending s ≡ ps
        → work s ≤ n
        → pending (run_by step (answers_from n ps reply s) s) ≡ []
    unfolding run_by
    drains_from zero [] s e h = e
    drains_from (suc n) [] s e h = e
    drains_from zero (p ∷ ps) s e h = elim (responsive s) [
      | inl settled ↦ cc
      | inr answered ↦ absurd (omega (arith, law.decreases s (reply s) answered))
    ]
    drains_from (suc n) (p ∷ ps) s e h = elim (responsive s) [
      | inl settled ↦ cc
      | inr answered ↦
          let next = step (answer (reply s).0 (reply s).1) s in
          drains_from n (pending next) next refl (omega (arith, law.decreases s (reply s) answered))
    ]

    -- Answers that are as many as the work leave nothing open.
    pub drains : (s : State) → pending (run_by step (answers (work s) reply s) s) ≡ []
    drains s = drains_from (work s) (pending s) s refl (omega arith)

    pub settles :
        (es : List Event)
        → let s = session es in
          let t = run_by step (answers (work s) reply s) s in (pending t ≡ []) × (busy t ≡ false)
    settles es =
        let s = session es in
        let more = answers (work s) reply s in
        let empty = drains s in
        let joined = run_by-append step es more initial in
        (empty, rw (← joined) (law.idle (es ++ more) (rw joined empty)))
