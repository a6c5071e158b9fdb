-- ===== src/Game/Ledger/Refines.antt =====
-- A request against the ledger.
use future_was.Base.{
  ℕ, false, Option, none, some, List, [], ◌==◌, All, ◌≡◌, refl, ◌∙◌, Bool-cases, inl, inr,
}
use future_was.Game.Commit.{done, run_fns, commit_ops}
use future_was.Game.Items.{
  Item, Table, Queued, Context, Served, gives, fails, Call, new_uow, handler,
}
use future_was.Game.Items.Tracks.{IsValid}
use future_was.Game.Items.Ready.{IsReady, IsHeld}
use future_was.Game.Dispatch.{
  CommitFaults, Response, objects_of, stored, queue_from, set_multi, commit, or_rollback, respond,
  dispatch,
}
use future_was.Game.Dispatch.Writes.{writes_from, writes-settle}
use future_was.Game.Dispatch.Shard.{commit_ops-done}
use future_was.Game.Dispatch.Coherence.{IsSound}
use future_was.Game.Ledger.{Ledger, amount_of, Promise, allowed, refused, promises}
use future_was.Game.Ledger.Serves.{view, Agrees, IsKept}
use future_was.Game.Ledger.Handler.{IsAnswered, handler-IsKept, writes-end}

-- Nothing fails when the request is committed.
pub record IsQuiet (shard : ℕ) (f : CommitFaults) : Type 0 where
  pub begins : f.tx.begin_error shard ≡ none
  pub ends : f.tx.commit_error shard ≡ none
  pub writes : (n : ℕ) → f.write_error n ≡ none
  pub caches : f.multi_error ≡ none

-- The response and the table after a request, as it was promised.
abbrev pub IsHonoured : Promise → Table → Response → Type 0
IsHonoured (allowed ledger) t out =
    (out.code ≡ 200) × ((k : ℕ) → amount_of out.table.rows k ≡ ledger k)
IsHonoured (refused code) t out = (out.code ≡ code) × (out.table ≡ t)

module _ (shard : ℕ) (f : CommitFaults) (quiet : IsQuiet shard f) where
  -- The amounts in the table after the writes are those that the request saw.
  set-IsHonoured :
      (user_id : ℕ) (store : Option (List Item)) (t t' : Table) (cache : Option (List Item))
      (ledger : Ledger)
      → ((k : ℕ) → amount_of t'.rows k ≡ ledger k)
      → let r = set_multi shard f user_id store t' cache in
        IsHonoured (allowed ledger) t (or_rollback shard f user_id r.error r)
  set-IsHonoured user_id none t t' cache ledger h = (refl, h)
  set-IsHonoured user_id (some list) t t' cache ledger h = elim (Bool-cases (user_id == 0)) [
    | inl zero ↦ rw zero (refl, h)
    | inr user ↦ rw (user, quiet.caches) (refl, h)
  ]

  ended :
      (store : Option (List Item)) (qs : List Queued) (t : Table)
      → IsHeld store qs t
      → IsValid t
      → (h : List Item) × (t' : Table) × (run_fns (writes_from f 0 qs) (objects_of store) t
          ≡ done h t')
        × ((k : ℕ) → amount_of t'.rows k ≡ amount_of (view t store) k)
  unfolding run_fns
  ended none qs t held valid = ([], t, rw held refl, λ k. refl)
  ended (some objects) qs t held valid =
      let (h, t', ran, same) = writes-end f 0 qs objects t quiet.writes held.within in
      let (rows, valid') = writes-settle f 0 qs objects t h t' ran held valid in
      (h, t', ran, λ k. rw rows (same k))

  committed-IsHonoured :
      (c : Context) (t : Table) (ledger : Ledger)
      → IsReady t c
      → IsValid t
      → Agrees (view t c.uow.store) ledger
      → IsHonoured (allowed ledger) t (respond shard f (gives c tt) t)
  unfolding commit
  committed-IsHonoured c t ledger ready valid agrees =
      let (h, t', ran, amounts) = ended c.uow.store c.uow.db_ops t ready.1 valid in
      let (fine, heap, base) =
        commit_ops-done shard f c.uow.db_ops (objects_of c.uow.store) h t t' quiet.begins quiet.ends
          ran in
      let r =
        commit_ops f.tx (queue_from shard f 0 c.uow.db_ops) (objects_of c.uow.store) (λ _. t) in
      rw fine (
        set-IsHonoured c.uow.user_id (stored c.uow.store r.heap) t (r.dbs shard) c.cache ledger
          (λ k. rw base (amounts k ∙ agrees k)))

  respond-IsHonoured :
      (p : Promise) (s : Served (Unit {0})) (t : Table)
      → IsKept t p s
      → IsValid t
      → IsHonoured p t (respond shard f s t)
  unfolding commit
  respond-IsHonoured (allowed ledger) (gives c u) t (ready, agrees) valid =
      committed-IsHonoured c t ledger ready valid agrees
  respond-IsHonoured (allowed ledger) (fails c e) t h valid = absurd h
  respond-IsHonoured (refused code) (gives c u) t h valid = absurd h
  respond-IsHonoured (refused code) (fails c e) t (same, known) valid = (rw known refl, refl)

-- A request of any calls to the service for items, of a user with a number, whose cache agrees with
-- the table, when the database takes what it is asked and the cache takes the values at the
-- end: if the ledger allows the calls one after the other, the response is 200 and the amounts in the
-- table are those of the ledger; if it refuses one, the response has the code of the refusal and the
-- table is as it was.
pub requests_keep_promises :
    (shard : ℕ) (f : CommitFaults) (catalog : ℕ → Option ℕ) (now user_id : ℕ) (calls : List Call)
    (t : Table) (cache : Option (List Item))
    → (user_id == 0) ≡ false
    → IsSound cache t
    → All IsAnswered calls
    → IsQuiet shard f
    → IsHonoured
        (promises catalog calls (amount_of t.rows))
        t
        (dispatch shard f catalog now user_id calls t cache)
unfolding dispatch
requests_keep_promises shard f catalog now user_id calls t cache user (same, valid) answered quiet =
    let start : Context = record { uow = new_uow user_id; cache = cache } in
    respond-IsHonoured shard f quiet (promises catalog calls (amount_of t.rows))
      (handler catalog now t calls start) t
      (handler-IsKept catalog now t calls start (amount_of t.rows) answered (same, refl, user)
        (λ k. refl))
      valid
