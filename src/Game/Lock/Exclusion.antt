-- ===== src/Game/Lock/Exclusion.antt =====
-- internal/cache/user_lock.go: at most one request has the lock.
use future_was.Base.{
  ltb, ltb→lt, ◌≢◌, ◌⊎◌, ℕ, zero, suc, ◌+◌, ◌<◌, ◌≤◌, String, str_eq, eq_iff, ==_iff, Bool, true,
  false, Option, none, some, List, ◌==◌, ◌≡◌, refl, sym, ap, ◌∙◌, if◌then◌else◌, arith, inl, inr,
  Bool-cases, Option-cases,
}
use future_was.Base.Runs.{run_by, run_by-keeps}
use future_was.Game.Lock.{
  Redis, IsDocumented, user_lock_ttl, Phase, idle, timed_out, failed, released, waiting, holding,
  Event, start, attempt, lose_answer, give_up, release, pass, World, release_script, after_set,
  set_phase, set_key, started, attempted, answer_lost, given_up, release_by, step,
}

module _ (r : Redis) (documented : IsDocumented r) (token : ℕ → String) where
  -- The key has the token of each request that holds the lock, until the time to live is over.
  abbrev IsGuarded : World r → Type 0
  IsGuarded w =
      (i since t : ℕ)
      → w.phase i ≡ holding since
      → w.now ≤ t
      → t < since + user_lock_ttl
      → r.get t w.store ≡ some (token i)

  -- A phase that is not one of holding the lock.
  abbrev IsOff : Phase → Type 0
  IsOff p = (since : ℕ) → ¬ (p ≡ holding since)

  -- The phase of a request after one of them has changed.
  phase-same :
      (i j : ℕ) (p : Phase) (w : World r) {q : Phase}
      → (j == i) ≡ true
      → (set_phase r token i p w).phase j ≡ q
      → p ≡ q
  phase-same i j p w same at = sym (ap (λ b. if b then p else w.phase j) same) ∙ at

  phase-other :
      (i j : ℕ) (p : Phase) (w : World r) {q : Phase}
      → (j == i) ≡ false
      → (set_phase r token i p w).phase j ≡ q
      → w.phase j ≡ q
  phase-other i j p w other at = sym (ap (λ b. if b then p else w.phase j) other) ∙ at

  off-IsGuarded :
      (i : ℕ) (p : Phase) (w : World r)
      → IsOff p
      → IsGuarded w
      → IsGuarded (set_phase r token i p w)
  off-IsGuarded i p w off g j since t at later soon = elim (Bool-cases (j == i)) [
    | inl same ↦ absurd (off since (phase-same i j p w same at))
    | inr other ↦ g j since t (phase-other i j p w other at) later soon
  ]

  -- SET with NX takes the key from nobody.
  set_key-IsGuarded : (i : ℕ) (w : World r) → IsGuarded w → IsGuarded (set_key r token i w)
  set_key-IsGuarded i w g j since t at later soon = elim (Option-cases (r.get w.now w.store)) [
    | inl free ↦ let held = g j since w.now at (omega arith) (omega arith) in absurd (cc)
    | inr (u, taken) ↦
        documented.set-taken w.now t user_lock_ttl (token i) u w.store taken
        ∙ g j since t at later soon
  ]

  take-IsGuarded :
      (i : ℕ) (w : World r)
      → r.get w.now w.store ≡ none
      → IsGuarded w
      → IsGuarded (set_phase r token i (holding w.now) (set_key r token i w))
  take-IsGuarded i w e g j since t at later soon = elim (Bool-cases (j == i)) [
    | inl same ↦
        let began = phase-same i j (holding w.now) (set_key r token i w) same at in
        let now_since : w.now ≡ since = cc in
        let j_i = (==_iff j i).0 same in
        documented.set-free w.now t user_lock_ttl (token i) w.store e later (omega arith)
        ∙ ap (λ k. some (token k)) (sym j_i)
    | inr other ↦
        set_key-IsGuarded i w g j since t
          (phase-other i j (holding w.now) (set_key r token i w) other at) later soon
  ]

  attempt-IsGuarded :
      (i n : ℕ) (w : World r) (o : Option String)
      → r.get w.now w.store ≡ o
      → IsGuarded w
      → IsGuarded (set_phase r token i (after_set o w.now n) (set_key r token i w))
  attempt-IsGuarded i zero w (some v) e g =
      off-IsGuarded i timed_out (set_key r token i w) (λ since h. cc) (set_key-IsGuarded i w g)
  attempt-IsGuarded i (suc n) w (some v) e g =
      off-IsGuarded i (waiting (suc n)) (set_key r token i w) (λ since h. cc)
        (set_key-IsGuarded i w g)
  attempt-IsGuarded i n w none e g = take-IsGuarded i w e g

  module _ (apart : (i j : ℕ) → token i ≡ token j → i ≡ j) where
    -- `Release` deletes the key of no other request.
    release-keeps :
        (i j since t : ℕ) (w : World r)
        → (j == i) ≡ false
        → w.phase j ≡ holding since
        → w.now ≤ t
        → t < since + user_lock_ttl
        → IsGuarded w
        → r.get t (release_script r (token i) w.now w.store) ≡ some (token j)
    release-keeps i j since t w other at later soon g =
        let held = g j since w.now at (omega arith) (omega arith) in
        let theirs : str_eq (token j) (token i) ≡ false =
          elim (Bool-cases (str_eq (token j) (token i))) [
            | inl eq ↦
                let same = (==_iff j i).1 (apart j i ((eq_iff (token j) (token i)).0 eq)) in
                absurd (cc)
            | inr ne ↦ ne
          ] in
        rw (held, theirs) (g j since t at later soon)

    release-IsGuarded :
        (i : ℕ) (carried_out : Bool) (since : ℕ) (w : World r)
        → IsGuarded w
        → IsGuarded (release_by r token i carried_out (holding since) w)
    release-IsGuarded i true since w g = λ j taken t at later soon. elim (Bool-cases (j == i)) [
      | inl same ↦ let gone = phase-same i j released w same at in absurd (cc)
      | inr other ↦
          release-keeps i j taken t w other (phase-other i j released w other at) later soon g
    ]
    release-IsGuarded i false since w g = off-IsGuarded i released w (λ t h. cc) g

    step-IsGuarded : (e : Event) (w : World r) → IsGuarded w → IsGuarded (step r token e w)
    unfolding step
    step-IsGuarded (start i) w g = start_by (w.phase i)
      where
        start_by : (p : Phase) → IsGuarded (started r token i p w)
        start_by idle = off-IsGuarded i (waiting 60) w (λ t h. cc) g
        start_by _ = g
    step-IsGuarded (attempt i) w g = attempt_by (w.phase i)
      where
        attempt_by : (p : Phase) → IsGuarded (attempted r token i p w)
        attempt_by (waiting (suc n)) = attempt-IsGuarded i n w (r.get w.now w.store) refl g
        attempt_by _ = g
    step-IsGuarded (lose_answer i) w g = lose_by (w.phase i)
      where
        lose_by : (p : Phase) → IsGuarded (answer_lost r token i p w)
        lose_by (waiting (suc n)) =
            off-IsGuarded i failed (set_key r token i w) (λ t h. cc) (set_key-IsGuarded i w g)
        lose_by _ = g
    step-IsGuarded (give_up i) w g = give_up_by (w.phase i)
      where
        give_up_by : (p : Phase) → IsGuarded (given_up r token i p w)
        give_up_by (waiting n) = off-IsGuarded i failed w (λ t h. cc) g
        give_up_by _ = g
    step-IsGuarded (release i carried_out) w g = release_it (w.phase i)
      where
        release_it : (p : Phase) → IsGuarded (release_by r token i carried_out p w)
        release_it (holding since) = release-IsGuarded i carried_out since w g
        release_it _ = g
    step-IsGuarded (pass d) w g = λ j since t at later soon. g j since t at (omega arith) soon

    -- If two requests have the lock at once, whatever they and others have done, in any order and with
    -- answers lost, then the time to live of one of them is over. No two requests have one token.
    pub one_holder :
        (es : List Event) (now : ℕ) (store : r.State) (i j since_i since_j : ℕ)
        → let start_world : World r = record { now = now; store = store; phase = λ _. idle } in
          let w = run_by (step r token) es start_world in
          i ≢ j
          → w.phase i ≡ holding since_i
          → w.phase j ≡ holding since_j
          → (since_i + user_lock_ttl ≤ w.now) ⊎ (since_j + user_lock_ttl ≤ w.now)
    one_holder es now store i j since_i since_j other at_i at_j =
        let start_world : World r = record { now = now; store = store; phase = λ _. idle } in
        let w = run_by (step r token) es start_world in
        let g =
          run_by-keeps (step r token) IsGuarded step-IsGuarded es start_world
            (λ k since t h. absurd (cc)) in
        elim (Bool-cases (ltb w.now (since_i + user_lock_ttl))) [
          | inr over ↦ inl (ground arith)
          | inl fresh_i ↦ elim (Bool-cases (ltb w.now (since_j + user_lock_ttl))) [
            | inr over ↦ inr (ground arith)
            | inl fresh_j ↦
                let mine = g i since_i w.now at_i (omega arith) (ltb→lt _ _ fresh_i) in
                let theirs = g j since_j w.now at_j (omega arith) (ltb→lt _ _ fresh_j) in
                absurd (other (apart i j (cc)))
          ]
        ]
