-- ===== src/Game/Dispatch.antt =====
-- internal/handler (`CommitOrRollback`, `dispatch` from the unit of work on) and `Commit` of internal/uow,
-- for the items of one user: a request under the user's lock, with what fails on its way.
pub mod Writes
pub mod Shard
pub mod Coherence
pub mod History
use future_was.Base.{
  ℕ, suc, ◌+◌, String, Bool, true, false, ◌||◌, Option, none, some, List, [], ◌∷◌, ◌++◌, map,
  get_elem?, set, if◌then◌else◌, ◌==◌, template,
}
use future_was.Game.Commit.{Outcome, done, failed, Write, DbOp, TxFaults, Committed, commit_ops}
use future_was.Game.Items.{
  Item, Table, Queued, create, save, new_uow, Failure, coded, other, Context, Served, gives, fails,
  Call, handler,
}

-- What the end of a request meets: a transaction, its writes by their places in the queue, the cache,
-- and whether a cache that reports an error has stored the values.
pub record CommitFaults : Type 0 where
  pub tx : TxFaults
  pub write_error : ℕ → Option String
  pub multi_error : Option String
  pub multi_stored : Bool
  pub delete_fails : Bool

-- `SaveTx`, with no columns given: all columns but the key, where the key is equal.
abbrev pub save_row : Item → List Item → List Item
save_row x rows = map (λ r. if r.idx == x.idx then x else r) rows

abbrev pub create_row : ℕ → Option Item → List Item → Table → Outcome (List Item) Table
create_row i none objects t = failed objects "no object"
create_row i (some x) objects t =
    let x' = record x { idx = t.next } in
    done (set objects i x') (record { rows = t.rows ++ x' ∷ []; next = t.next + 1 })

abbrev pub update_row : Option Item → List Item → Table → Outcome (List Item) Table
update_row none objects t = failed objects "no object"
update_row (some x) objects t = done objects (record t { rows = save_row x t.rows })

-- The function that is queued: it reads the object when it runs.
unfoldable pub write_of : Option String → Queued → Write (List Item) Table
write_of (some e) q objects t = failed objects e
write_of none (create i) objects t = create_row i (get_elem? objects i) objects t
write_of none (save i) objects t = update_row (get_elem? objects i) objects t

-- The objects of a store that has no slice are none.
abbrev pub objects_of : Option (List Item) → List Item
objects_of none = []
objects_of (some list) = list

-- The table, the cache and the error after `Commit`.
pub record End : Type 0 where
  pub table : Table
  pub cache : Option (List Item)
  pub objects : Option (List Item)
  pub error : Option String

-- What a request leaves: the rows, the cache, and the code of its response.
pub record Response : Type 0 where
  pub table : Table
  pub cache : Option (List Item)
  pub code : ℕ

abbrev pub code_of : Failure → ℕ
code_of (coded n) = n
code_of (other e) = 500

abbrev pub stored : Option (List Item) → List Item → Option (List Item)
stored none objects = none
stored (some _) objects = some objects

module _ (shard : ℕ) (f : CommitFaults) where
  -- `dbOps`: every write goes to the shard of the user.
  abbrev pub queue_from : ℕ → List Queued → List (DbOp (List Item) Table)
  queue_from k [] = []
  queue_from k (q ∷ qs) =
      record { db = shard; fn = write_of (f.write_error k) q } ∷ queue_from (suc k) qs

  -- The end of `UserCache.SetMulti`.
  abbrev pub multi_end : Option String → List Item → Table → Option (List Item) → End
  multi_end none list t cache = record {
    table = t;
    cache = some list;
    objects = some list;
    error = none;
  }
  multi_end (some e) list t cache = record {
    table = t;
    cache = if f.multi_stored then some list else cache;
    objects = some list;
    error = some (template ("user cache set: " ∷ e ∷ []));
  }

  -- `SetMulti`, if the user has a number and the store is not empty.
  abbrev pub set_multi : ℕ → Option (List Item) → Table → Option (List Item) → End
  set_multi user_id none t cache = record { table = t; cache = cache; objects = none; error = none }
  set_multi user_id (some list) t cache =
      if user_id == 0
      then record { table = t; cache = cache; objects = some list; error = none }
      else multi_end f.multi_error list t cache

  abbrev pub after_ops : Context → Option String → Committed (List Item) Table → End
  after_ops c (some e) r = record {
    table = r.dbs shard;
    cache = c.cache;
    objects = stored c.uow.store r.heap;
    error = some e;
  }
  after_ops c none r = set_multi c.uow.user_id (stored c.uow.store r.heap) (r.dbs shard) c.cache

  unfoldable pub commit : Context → Table → End
  unfolding commit_ops write_of
  commit c t =
      let r = commit_ops f.tx (queue_from 0 c.uow.db_ops) (objects_of c.uow.store) (λ _. t) in
      after_ops c r.error r

  -- `CommitOrRollback`
  abbrev pub or_rollback : ℕ → Option String → End → Response
  or_rollback user_id none r = record { table = r.table; cache = r.cache; code = 200 }
  or_rollback user_id (some e) r = record {
    table = r.table;
    cache = if user_id == 0 || f.delete_fails then r.cache else none;
    code = 500;
  }

  abbrev pub respond : Served (Unit {0}) → Table → Response
  unfolding commit
  respond (fails c e) t = record { table = t; cache = c.cache; code = code_of e }
  respond (gives c _) t = let r = commit c t in or_rollback c.uow.user_id r.error r

  -- `dispatch`, from the new unit of work on.
  unfoldable pub dispatch :
      (ℕ → Option ℕ) → ℕ → ℕ → List Call → Table → Option (List Item) → Response
  unfolding handler commit
  dispatch catalog now user_id calls t cache =
      respond (handler catalog now t calls (record { uow = new_uow user_id; cache = cache })) t
