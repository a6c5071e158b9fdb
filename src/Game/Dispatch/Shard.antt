-- ===== src/Game/Dispatch/Shard.antt =====
-- A commit whose writes all go to one shard.
use future_was.Base.{
  ℕ, suc, true, none, some, List, [], ◌∷◌, ◌++◌, ◌==◌, ◌≡◌, refl, sym, ap, ◌∙◌, arith, inl, inr,
  ◌⊎◌, String,
}
use mathlib.Core.List.{append_assoc, append-nil}
use future_was.Game.Commit.{
  done, committed, answer_commit, Write, Group, Committed, run_fns, finish, transaction, group_ops,
  group_from, run_groups, commit_ops,
}
use future_was.Game.Commit.Ends.{
  TxEnd-cases, transaction-eq-committed, transaction-eq-unanswered, run_groups-rolled_back,
  run_groups-unanswered, run_groups-committed,
}
use future_was.Game.Items.{Item, Table, Queued}
use future_was.Game.Dispatch.{CommitFaults, write_of, queue_from}
use future_was.Game.Dispatch.Writes.{writes_from}

==-self : (n : ℕ) → (n == n) ≡ true
==-self n = ground arith

-- The end of the writes of one shard: all of them ran, or the table is as it was, or all of them ran and
-- the answer to the commit is lost.
abbrev pub Ended :
    ℕ
    → CommitFaults
    → List (Write (List Item) Table)
    → List Item
    → Table
    → Committed (List Item) Table
    → Type 0
Ended shard f fns objects t r =
    ((r.error ≡ none) × (run_fns fns objects t ≡ done r.heap (r.dbs shard)))
    ⊎ ((e : String) × (r.error ≡ some e)
        × ((r.dbs shard ≡ t)
            ⊎ ((f.tx.carried_out shard ≡ true)
                × ((h : List Item) × (run_fns fns objects t ≡ done h (r.dbs shard))))))

module _ (shard : ℕ) (f : CommitFaults) where
  group_from-shard :
      (k : ℕ) (qs : List Queued) (fns : List (Write (List Item) Table))
      → group_from
          (queue_from shard f k qs)
          (record { db = shard; fns = fns } ∷ [])
          ((shard, 0) ∷ [])
        ≡ record { db = shard; fns = fns ++ writes_from f k qs } ∷ []
  unfolding group_from
  group_from-shard k [] fns =
      ap (λ (l : List (Write (List Item) Table)). record { db = shard; fns = l } ∷ [])
        (sym (append-nil fns))
  group_from-shard k (q ∷ qs) fns =
      rw (==-self shard, group_from)
        (group_from-shard (suc k) qs (fns ++ write_of (f.write_error k) q ∷ [])
          ∙ ap (λ (l : List (Write (List Item) Table)). record { db = shard; fns = l } ∷ [])
              (append_assoc fns (write_of (f.write_error k) q ∷ []) (writes_from f (suc k) qs)))

  one_group :
      (q : Queued) (qs : List Queued)
      → group_ops (queue_from shard f 0 (q ∷ qs))
        ≡ record { db = shard; fns = writes_from f 0 (q ∷ qs) } ∷ []
  unfolding group_ops
  one_group q qs = group_from-shard 1 qs (write_of (f.write_error 0) q ∷ [])

  run_group :
      (fns : List (Write (List Item) Table)) (objects : List Item) (t : Table)
      → Ended shard f fns objects t
          (run_groups f.tx (record { db = shard; fns = fns } ∷ []) objects (λ _. t))
  unfolding run_groups
  run_group fns objects t =
      let g : Group (List Item) Table = record { db = shard; fns = fns } in
      elim (TxEnd-cases (transaction f.tx shard fns objects t)) [
        | inl (h, d, ran) ↦ rw (run_groups-committed f.tx g [] objects h (λ _. t) d ran) (
            inl (
              refl,
              rw (==-self shard) (transaction-eq-committed f.tx shard fns objects h t d ran),
            ))
        | inr (inl (h, e, lost)) ↦
            rw (run_groups-rolled_back f.tx g [] objects h (λ _. t) e lost)
              (inr (_, refl, inl refl))
        | inr (inr (h, d, e, lost)) ↦
            let (ran, kept) = transaction-eq-unanswered f.tx shard fns objects h t d e lost in
            rw (run_groups-unanswered f.tx g [] objects h (λ _. t) d e lost)
              (inr (_, refl, inr (kept, (h, rw (==-self shard) ran))))
      ]

  pub commit_ops-Ended :
      (qs : List Queued) (objects : List Item) (t : Table)
      → Ended shard f
          (writes_from f 0 qs)
          objects
          t
          (commit_ops f.tx (queue_from shard f 0 qs) objects (λ _. t))
  unfolding commit_ops run_fns
  commit_ops-Ended [] objects t = inl (refl, refl)
  commit_ops-Ended (q ∷ qs) objects t =
      rw (one_group q qs) (run_group (writes_from f 0 (q ∷ qs)) objects t)

  transaction-done :
      (db : ℕ) (fns : List (Write (List Item) Table)) (objects h : List Item) (t t' : Table)
      → f.tx.begin_error db ≡ none
      → f.tx.commit_error db ≡ none
      → run_fns fns objects t ≡ done h t'
      → transaction f.tx db fns objects t ≡ committed h t'
  unfolding transaction
  transaction-done db fns objects h t t' begun ended ran =
      rw (begun, ran, transaction) (rw (ended, finish, answer_commit) refl)

  -- Where no transaction fails, writes that end are those of the commit.
  pub commit_ops-done :
      (qs : List Queued) (objects h : List Item) (t t' : Table)
      → f.tx.begin_error shard ≡ none
      → f.tx.commit_error shard ≡ none
      → run_fns (writes_from f 0 qs) objects t ≡ done h t'
      → let r = commit_ops f.tx (queue_from shard f 0 qs) objects (λ _. t) in
        (r.error ≡ none) × (r.heap ≡ h) × (r.dbs shard ≡ t')
  unfolding commit_ops run_fns
  commit_ops-done [] objects h t t' begun ended ran = (refl, cc, cc)
  commit_ops-done (q ∷ qs) objects h t t' begun ended ran =
      let g : Group (List Item) Table = record { db = shard; fns = writes_from f 0 (q ∷ qs) } in
      let through : transaction f.tx shard (writes_from f 0 (q ∷ qs)) objects t ≡ committed h t' =
        transaction-done shard (writes_from f 0 (q ∷ qs)) objects h t t' begun ended ran in
      rw (one_group q qs, run_groups-committed f.tx g [] objects h (λ _. t) t' through, run_groups)
        (refl, refl, rw (==-self shard) refl)
