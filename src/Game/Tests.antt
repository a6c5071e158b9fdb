-- ===== src/Game/Tests.antt =====
-- Commits and requests at concrete inputs.
use future_was.Base.{
  ℕ, if◌then◌else◌, ◌==◌, ◌+◌, true, false, Option, none, some, List, [], ◌∷◌, ◌≡◌, refl, arith,
  inl, inr,
}
use future_was.Base.Runs.{run_by}
use future_was.Game.Commit.{done, Write, DbOp, TxFaults, commit_ops}
use future_was.Game.Items.{Item, Table, LoadFaults, Call, get_items, add_item, consume_item}
use future_was.Game.Dispatch.{CommitFaults, dispatch}
use future_was.Game.Dispatch.Coherence.{IsSound}
use future_was.Game.Dispatch.History.{Event, request, expire, others, serve, cache_keeps_up}
use future_was.Game.Ledger.{amount_of, promises}
use future_was.Game.Ledger.Refines.{IsHonoured, requests_keep_promises}

abbrev calm : TxFaults
calm = record { begin_error = λ _. none; commit_error = λ _. none; carried_out = λ _. false }

-- Three writes to two databases, of which the second cannot be committed.
abbrev add_write : ℕ → Write (List ℕ) ℕ
add_write n h d = done (n ∷ h) (d + n)

abbrev ops : List (DbOp (List ℕ) ℕ)
ops =
    record { db = 1; fn = add_write 10 }
    ∷ record { db = 2; fn = add_write 20 }
    ∷ record { db = 1; fn = add_write 30 }
    ∷ []

abbrev second_fails : TxFaults
second_fails = record {
  begin_error = λ _. none;
  commit_error = λ db. if db == 2 then some "gone" else none;
  carried_out = λ _. false;
}

first_is_kept :
    let r = commit_ops second_fails ops [] (λ _. 0) in
    (r.dbs 1 ≡ 40) × (r.dbs 2 ≡ 0) × (r.error ≡ some "uow commit: gone")
unfolding commit_ops
first_is_kept = (refl, refl, refl)

abbrev answered : LoadFaults
answered = record { get_fails = false; find_error = none; set_fails = false }

abbrev unreached : LoadFaults
unreached = record { get_fails = true; find_error = none; set_fails = true }

abbrev quiet : CommitFaults
quiet = record {
  tx = calm;
  write_error = λ _. none;
  multi_error = none;
  multi_stored = false;
  delete_fails = true;
}

-- The cache refuses the values, and is then emptied.
abbrev refusing : CommitFaults
refusing = record quiet { multi_error = some "READONLY"; delete_fails = false }

abbrev catalog : ℕ → Option ℕ
catalog item_id = if item_id == 404 then none else some 3

abbrev potion : Item
potion = record {
  idx = 8;
  user_id = 7;
  item_type = 3;
  item_id = 100;
  amount = 5;
  insert_time = 1;
  update_time = 1;
}

abbrev one_row : Table
one_row = record { rows = potion ∷ []; next = 9 }

abbrev calls : List Call
calls =
    add_item answered 100 10
    ∷ add_item unreached 200 2
    ∷ consume_item answered 200 1
    ∷ get_items answered
    ∷ []

requests_keep_promises_example :
    IsHonoured
      (promises catalog calls (amount_of (potion ∷ [])))
      one_row
      (dispatch 2 quiet catalog 50 7 calls one_row (some (potion ∷ [])))
requests_keep_promises_example =
    requests_keep_promises 2 quiet catalog 50 7 calls one_row (some (potion ∷ [])) refl
      (refl, (omega arith, (tt, tt), (omega arith, tt))) (refl, (refl, (refl, (refl, tt))))
      (record { begins = refl; ends = refl; writes = λ n. refl; caches = refl })

added : amount_of (dispatch 2 quiet catalog 50 7 calls one_row none).table.rows 200 ≡ some 1
unfolding dispatch amount_of
added = refl

too_few :
    (dispatch 2 quiet catalog 50 7 (consume_item answered 100 6 ∷ []) one_row none).code ≡ 3102
unfolding dispatch
too_few = refl

abbrev history : List Event
history =
    request quiet 50 calls
    ∷ others 4
    ∷ request refusing 60 (consume_item answered 100 15 ∷ [])
    ∷ expire
    ∷ request quiet 70 (get_items answered ∷ [])
    ∷ []

cache_keeps_up_example :
    let w = run_by (serve 2 catalog 7) history (record { table = one_row; cache = none }) in
    IsSound w.cache w.table
cache_keeps_up_example =
    cache_keeps_up 2 catalog 7 history (record { table = one_row; cache = none }) refl
      (inl (refl, refl), (inr refl, (inl (refl, refl), tt)))
      (tt, (omega arith, (tt, tt), (omega arith, tt)))
