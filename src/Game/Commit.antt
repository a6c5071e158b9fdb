-- ===== src/Game/Commit.antt =====
-- internal/uow/uow.go, `Commit`: the queued writes, grouped by database, one transaction for each.
-- A write is a function of the objects in memory and of the state of its database.
pub mod Groups
pub mod Ends
pub mod Atomic
use future_was.Base.{
  ℕ, zero, suc, String, Bool, true, false, Option, none, some, List, [], ◌∷◌, ◌++◌, length,
  if◌then◌else◌, ◌==◌, template,
}

-- How a write ends: with the objects and the database, or with the objects and an error.
pub data Outcome (H D : Type 0) : Type 0 where
  done : H → D → Outcome H D
  failed : H → String → Outcome H D

abbrev pub Write : Type 0 → Type 0 → Type 0
Write H D = H → D → Outcome H D

-- `dbOp`; a database is known by its number.
pub record DbOp (H D : Type 0) : Type 0 where
  pub db : ℕ
  pub fn : Write H D

-- `group`
pub record Group (H D : Type 0) : Type 0 where
  pub db : ℕ
  pub fns : List (Write H D)

-- What `Transaction` meets outside of its writes, for each database. A commit that ends with an error may
-- have been carried out, if only its answer is lost.
pub record TxFaults : Type 0 where
  pub begin_error : ℕ → Option String
  pub commit_error : ℕ → Option String
  pub carried_out : ℕ → Bool

-- How a transaction ends: committed, rolled back, or with an error after the database has kept its writes.
pub data TxEnd (H D : Type 0) : Type 0 where
  committed : H → D → TxEnd H D
  rolled_back : H → String → TxEnd H D
  unanswered : H → D → String → TxEnd H D

-- The objects, the databases and the error after the transactions.
pub record Committed (H D : Type 0) : Type 0 where
  pub heap : H
  pub dbs : ℕ → D
  pub error : Option String

-- `idx[db]`
abbrev pub index_of : ℕ → List (ℕ × ℕ) → Option ℕ
index_of db [] = none
index_of db ((k, i) ∷ idx) = if k == db then some i else index_of db idx

abbrev pub set_db {ℓ} : {D : Type ℓ} → ℕ → D → (ℕ → D) → ℕ → D
set_db db d dbs k = if k == db then d else dbs k

module _ {H D : Type 0} where
  -- `groups[i].fns = append(groups[i].fns, fn)`
  abbrev pub append_at : ℕ → Write H D → List (Group H D) → List (Group H D)
  append_at i fn [] = []
  append_at zero fn (g ∷ gs) = record g { fns = g.fns ++ fn ∷ [] } ∷ gs
  append_at (suc i) fn (g ∷ gs) = g ∷ append_at i fn gs

  -- A round of the loop that groups, by what the index has for the database.
  abbrev pub put_op :
      DbOp H D → Option ℕ → List (Group H D) → List (ℕ × ℕ) → List (Group H D) × List (ℕ × ℕ)
  put_op op (some i) groups idx = (append_at i op.fn groups, idx)
  put_op op none groups idx =
      let i = length groups in
      (append_at i op.fn (groups ++ record { db = op.db; fns = [] } ∷ []), idx ++ (op.db, i) ∷ [])

  unfoldable pub group_from : List (DbOp H D) → List (Group H D) → List (ℕ × ℕ) → List (Group H D)
  group_from [] groups idx = groups
  group_from (op ∷ ops) groups idx =
      let next = put_op op (index_of op.db idx) groups idx in group_from ops next.0 next.1

  unfoldable pub group_ops : List (DbOp H D) → List (Group H D)
  unfolding group_from
  group_ops ops = group_from ops [] []

  -- The writes of a transaction, up to the first that fails.
  unfoldable pub run_fns : List (Write H D) → H → D → Outcome H D
  run_fns [] h d = done h d
  run_fns (fn ∷ fns) h d = elim (fn h d) [
    | done h' d' ↦ run_fns fns h' d'
    | failed h' e ↦ failed h' e
  ]

  module _ (faults : TxFaults) where
    abbrev pub answer_commit : Option String → Bool → H → D → TxEnd H D
    answer_commit none kept h d = committed h d
    answer_commit (some e) false h d = rolled_back h e
    answer_commit (some e) true h d = unanswered h d e

    -- `tx.Commit`
    abbrev pub finish : ℕ → Outcome H D → TxEnd H D
    finish db (failed h e) = rolled_back h e
    finish db (done h d) = answer_commit (faults.commit_error db) (faults.carried_out db) h d

    -- `Transaction`: a write that fails rolls the database back, and leaves the objects as they are.
    unfoldable pub transaction : ℕ → List (Write H D) → H → D → TxEnd H D
    unfolding run_fns
    transaction db fns h d = elim (faults.begin_error db) [
      | some e ↦ rolled_back h e
      | none ↦ finish db (run_fns fns h d)
    ]

    unfoldable pub run_groups : List (Group H D) → H → (ℕ → D) → Committed H D
    unfolding transaction
    run_groups [] h dbs = record { heap = h; dbs = dbs; error = none }
    run_groups (g ∷ gs) h dbs = elim (transaction g.db g.fns h (dbs g.db)) [
      | rolled_back h' e ↦ record {
        heap = h';
        dbs = dbs;
        error = some (template ("uow commit: " ∷ e ∷ []));
      }
      | unanswered h' d' e ↦ record {
        heap = h';
        dbs = set_db g.db d' dbs;
        error = some (template ("uow commit: " ∷ e ∷ []));
      }
      | committed h' d' ↦ run_groups gs h' (set_db g.db d' dbs)
    ]

    -- The first part of `Commit`.
    unfoldable pub commit_ops : List (DbOp H D) → H → (ℕ → D) → Committed H D
    unfolding group_ops run_groups
    commit_ops ops h dbs = run_groups (group_ops ops) h dbs
