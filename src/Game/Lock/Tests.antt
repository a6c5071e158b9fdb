-- ===== src/Game/Lock/Tests.antt =====
-- The lock of a user with a key of Redis that is modelled, at concrete sequences.
use future_was.Base.{
  ◌≤◌, ◌⊎◌, ℕ, ◌+◌, String, true, Option, none, some, List, [], ◌∷◌, ltb, if◌then◌else◌, ◌≡◌, refl,
  arith,
}
use future_was.Base.Decimal.{show_nat, show_nat-injective}
use future_was.Base.Runs.{run_by}
use future_was.Game.Lock.{
  user_lock_ttl, Redis, IsDocumented, idle, released, holding, Event, start, attempt, release, pass,
  World, step,
}
use future_was.Game.Lock.Exclusion.{one_holder}

-- A value with the time at which it ends.
abbrev Key : Type 0
Key = Option (String × ℕ)

abbrev get_key : ℕ → Key → Option String
get_key now none = none
get_key now (some (v, until)) = if ltb now until then some v else none

abbrev set_free : Option String → Key → Key → Key
set_free none new old = new
set_free (some v) new old = old

abbrev key : Redis
key = record {
  State = Key;
  get = get_key;
  set_nx = λ now v ttl s. set_free (get_key now s) (some (v, now + ttl)) s;
  del = λ now s. none;
}

key-IsDocumented : IsDocumented key
key-IsDocumented = record {
  set-free = λ now t ttl v s free later soon. rw free (ground arith);
  set-taken = λ now t ttl v u s taken. rw taken refl;
  del-free = λ now t s later. refl;
}

abbrev new_world : World key
new_world = record { now = 0; store = none; phase = λ _. idle }

-- Two requests, of which the second waits for the first.
abbrev two : List Event
two =
    start 1
    ∷ start 2
    ∷ attempt 1
    ∷ attempt 2
    ∷ pass 50
    ∷ attempt 2
    ∷ release 1 true
    ∷ pass 50
    ∷ attempt 2
    ∷ []

first_test : (run_by (step key show_nat) two new_world).phase 1 ≡ released
unfolding run_by step show_nat
first_test = refl

second_test : (run_by (step key show_nat) two new_world).phase 2 ≡ holding 100
unfolding run_by step show_nat
second_test = refl

-- A request that takes longer than the time to live does not keep the next one out.
abbrev long : List Event
long = start 1 ∷ start 2 ∷ attempt 1 ∷ pass 10000 ∷ attempt 2 ∷ []

overlap_test :
    let w = run_by (step key show_nat) long new_world in
    (w.phase 1 ≡ holding 0) × (w.phase 2 ≡ holding 10000)
unfolding run_by step show_nat
overlap_test = (refl, refl)

one_holder_example : (0 + user_lock_ttl ≤ 10000) ⊎ (10000 + user_lock_ttl ≤ 10000)
unfolding run_by step
one_holder_example =
    one_holder key key-IsDocumented show_nat (λ i j. show_nat-injective i j) long 0 none 1 2 0 10000
      (λ e. absurd (cc)) refl refl
