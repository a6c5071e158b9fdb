-- ===== src/Game/Lock.antt =====
-- internal/cache/user_lock.go: the lock of one user, which requests at any server take before they are
-- handled. Redis is the parameter `Redis`, of the key of this user; times are milliseconds.
pub mod Exclusion
mod Tests
use future_was.Base.{
  ℕ, zero, suc, ◌+◌, ◌<◌, ◌≤◌, String, str_eq, Bool, Option, none, some, ◌==◌, ◌≡◌, if◌then◌else◌,
}

-- The commands that the lock uses, each at a time: GET, SET with NX and a time to live, and DEL.
pub record Redis : Type 1 where
  pub State : Type 0
  pub get : ℕ → State → Option String
  pub set_nx : ℕ → String → ℕ → State → State
  pub del : ℕ → State → State

-- What is documented of them. SET with NX stores a value for its time to live where there is none, and
-- changes nothing where there is one; after DEL there is none.
pub record IsDocumented (r : Redis) : Type 0 where
  pub set-free :
      (now t ttl : ℕ) (v : String) (s : r.State)
      → r.get now s ≡ none
      → now ≤ t
      → t < now + ttl
      → r.get t (r.set_nx now v ttl s) ≡ some v
  pub set-taken :
      (now t ttl : ℕ) (v u : String) (s : r.State)
      → r.get now s ≡ some u
      → r.get t (r.set_nx now v ttl s) ≡ r.get t s
  pub del-free : (now t : ℕ) (s : r.State) → now ≤ t → r.get t (r.del now s) ≡ none

abbrev pub user_lock_ttl : ℕ
user_lock_ttl = 10000

abbrev pub user_lock_max_retries : ℕ
user_lock_max_retries = 60

-- How far a request is: `waiting n` has n rounds of the loop of `Acquire` left, and `holding t` has taken
-- the lock at the time t.
pub data Phase : Type 0 where
  idle timed_out failed released : Phase
  waiting holding : ℕ → Phase

pub data Event : Type 0 where
  -- `Acquire` is called
  start : ℕ → Event
  -- a round of its loop, answered
  attempt : ℕ → Event
  -- a round whose command is carried out, and its answer lost
  lose_answer : ℕ → Event
  -- a round whose command does not arrive, or the end of the request's context
  give_up : ℕ → Event
  -- `Release`, carried out or lost
  release : ℕ → Bool → Event
  -- time passes
  pass : ℕ → Event

-- After a round that found the key taken.
abbrev pub retry : ℕ → Phase
retry zero = timed_out
retry (suc n) = waiting (suc n)

abbrev pub after_set : Option String → ℕ → ℕ → Phase
after_set none now n = holding now
after_set (some v) now n = retry n

module _ (r : Redis) where
  pub record World : Type 0 where
    pub now : ℕ
    pub store : r.State
    pub phase : ℕ → Phase

  -- `releaseScript`
  abbrev pub del_if : Option String → String → ℕ → r.State → r.State
  del_if none token now s = s
  del_if (some v) token now s = if str_eq v token then r.del now s else s

  abbrev pub release_script : String → ℕ → r.State → r.State
  release_script token now s = del_if (r.get now s) token now s

  module _ (token : ℕ → String) where
    abbrev pub set_phase : ℕ → Phase → World → World
    set_phase i p w = record w { phase = λ j. if j == i then p else w.phase j }

    abbrev pub set_key : ℕ → World → World
    set_key i w = record w { store = r.set_nx w.now (token i) user_lock_ttl w.store }

    abbrev pub started : ℕ → Phase → World → World
    started i idle w = set_phase i (waiting user_lock_max_retries) w
    started i _ w = w

    abbrev pub attempted : ℕ → Phase → World → World
    attempted i (waiting (suc n)) w =
        set_phase i (after_set (r.get w.now w.store) w.now n) (set_key i w)
    attempted i _ w = w

    abbrev pub answer_lost : ℕ → Phase → World → World
    answer_lost i (waiting (suc n)) w = set_phase i failed (set_key i w)
    answer_lost i _ w = w

    abbrev pub given_up : ℕ → Phase → World → World
    given_up i (waiting n) w = set_phase i failed w
    given_up i _ w = w

    abbrev pub release_by : ℕ → Bool → Phase → World → World
    release_by i carried_out (holding since) w = set_phase i released (record w {
      store = if carried_out then release_script (token i) w.now w.store else w.store;
    })
    release_by i carried_out _ w = w

    unfoldable pub step : Event → World → World
    step (start i) w = started i (w.phase i) w
    step (attempt i) w = attempted i (w.phase i) w
    step (lose_answer i) w = answer_lost i (w.phase i) w
    step (give_up i) w = given_up i (w.phase i) w
    step (release i carried_out) w = release_by i carried_out (w.phase i) w
    step (pass d) w = record w { now = w.now + d }
