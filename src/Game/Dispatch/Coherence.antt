-- ===== src/Game/Dispatch/Coherence.antt =====
-- The cache of the items against the table, over the requests of a user.
use future_was.Base.{
  ℕ, String, Bool, true, false, ◌||◌, Option, none, some, List, if◌then◌else◌, ◌==◌, ◌≡◌, refl, sym,
  inl, inr, ◌⊎◌,
}
use future_was.Game.Commit.{done, Committed, run_fns, commit_ops}
use future_was.Game.Items.{
  Item, Table, Queued, Context, Served, gives, fails, Call, new_uow, handler,
}
use future_was.Game.Items.Tracks.{IsValid}
use future_was.Game.Items.Ready.{IsCoherent, IsHeld, IsReady, Ends, handler-IsReady}
use future_was.Game.Dispatch.{
  CommitFaults, objects_of, stored, queue_from, multi_end, set_multi, after_ops, commit,
  or_rollback, respond, dispatch,
}
use future_was.Game.Dispatch.Writes.{writes_from, writes-settle}
use future_was.Game.Dispatch.Shard.{Ended, commit_ops-Ended}

-- The cache agrees with the table, and the keys of the table are in order.
abbrev pub IsSound : Option (List Item) → Table → Type 0
IsSound cache t = IsCoherent cache t × IsValid t

-- The cache can be emptied after a failure, or the two failures that need it do not occur: the cache
-- refuses the values of a commit, or the answer to a COMMIT that was carried out is lost.
abbrev pub Recovers : ℕ → CommitFaults → Type 0
Recovers shard f =
    ((f.multi_error ≡ none) × (f.tx.carried_out shard ≡ false)) ⊎ (f.delete_fails ≡ false)

module _ (shard : ℕ) (f : CommitFaults) (recovers : Recovers shard f) where
  multi-IsSound :
      (user_id : ℕ) (list : List Item) (t : Table) (cache : Option (List Item)) (o : Option String)
      → (user_id == 0) ≡ false
      → f.multi_error ≡ o
      → list ≡ t.rows
      → IsValid t
      → let r = multi_end shard f o list t cache in
        let out = or_rollback shard f user_id r.error r in IsSound out.cache out.table
  multi-IsSound user_id list t cache none user fine same valid = (same, valid)
  multi-IsSound user_id list t cache (some e) user lost same valid = elim recovers [
    | inl (fine, _) ↦ absurd (cc)
    | inr emptied ↦ rw (user, emptied) (tt, valid)
  ]

  -- The store after the writes is what the cache may be given.
  set-IsSound :
      (user_id : ℕ) (store : Option (List Item)) (t : Table) (cache : Option (List Item))
      → (user_id == 0) ≡ false
      → IsValid t
      → IsCoherent store t
      → (store ≡ none → IsCoherent cache t)
      → let r = set_multi shard f user_id store t cache in
        let out = or_rollback shard f user_id r.error r in IsSound out.cache out.table
  set-IsSound user_id none t cache user valid same idle = (idle refl, valid)
  set-IsSound user_id (some list) t cache user valid same idle =
      rw user (multi-IsSound user_id list t cache f.multi_error user refl same valid)

  -- A cache that is emptied is sound.
  failed-IsSound :
      (b : Bool) (cache : Option (List Item)) (t : Table)
      → IsSound cache t
      → IsCoherent (if b then cache else none) t
  failed-IsSound true cache t h = h.0
  failed-IsSound false cache t h = tt

  stored-IsCoherent :
      (store : Option (List Item)) (qs : List Queued) (t t' : Table) (h : List Item)
      → IsHeld store qs t
      → IsValid t
      → run_fns (writes_from f 0 qs) (objects_of store) t ≡ done h t'
      → IsCoherent (stored store h) t' × IsValid t' × (stored store h ≡ none → t' ≡ t)
  unfolding run_fns
  stored-IsCoherent none qs t t' h held valid ran =
      let unmoved : t' ≡ t = let nothing = rw held at ran in cc in
      (tt, rw unmoved valid, λ _. unmoved)
  stored-IsCoherent (some objects) qs t t' h held valid ran =
      let (same, valid') = writes-settle f 0 qs objects t h t' ran held valid in
      (sym same, valid', λ e. absurd (cc))

  after-IsSound :
      (c : Context) (t : Table) (o : Option String) (r : Committed (List Item) Table)
      → r.error ≡ o
      → IsReady t c
      → IsValid t
      → Ended shard f (writes_from f 0 c.uow.db_ops) (objects_of c.uow.store) t r
      → let e = after_ops shard f c o r in
        let out = or_rollback shard f c.uow.user_id e.error e in IsSound out.cache out.table
  after-IsSound c t none r known h valid (inl (fine, ran)) =
      let (same, valid', unmoved) =
        stored-IsCoherent c.uow.store c.uow.db_ops t (r.dbs shard) r.heap h.1 valid ran in
      set-IsSound c.uow.user_id (stored c.uow.store r.heap) (r.dbs shard) c.cache h.2 valid' same
        (λ idle. rw (unmoved idle) h.0)
  after-IsSound c t none r known h valid (inr (e, failed, _)) = absurd (cc)
  after-IsSound c t (some e) r known h valid (inl (fine, ran)) = absurd (cc)
  after-IsSound c t (some e) r known h valid (inr (e', failed, inl back)) =
      rw back (failed-IsSound (c.uow.user_id == 0 || f.delete_fails) c.cache t (h.0, valid), valid)
  after-IsSound c t (some e) r known h valid (inr (e', failed, inr (kept, (heap, ran)))) =
      let (_, valid', _) =
        stored-IsCoherent c.uow.store c.uow.db_ops t (r.dbs shard) heap h.1 valid ran in
      elim recovers [ inl (_, lost) ↦ absurd (cc) | inr emptied ↦ rw (h.2, emptied) (tt, valid') ]

  respond-IsSound :
      (s : Served (Unit {0})) (t : Table)
      → Ends (IsReady t) s
      → IsValid t
      → let out = respond shard f s t in IsSound out.cache out.table
  unfolding commit
  respond-IsSound (fails c e) t h valid = (h.0, valid)
  respond-IsSound (gives c _) t h valid =
      let r =
        commit_ops f.tx (queue_from shard f 0 c.uow.db_ops) (objects_of c.uow.store) (λ _. t) in
      after-IsSound c t r.error r refl h valid
        (commit_ops-Ended shard f c.uow.db_ops (objects_of c.uow.store) t)

  pub dispatch-IsSound :
      (catalog : ℕ → Option ℕ) (now user_id : ℕ) (calls : List Call) (t : Table)
      (cache : Option (List Item))
      → (user_id == 0) ≡ false
      → IsSound cache t
      → let out = dispatch shard f catalog now user_id calls t cache in IsSound out.cache out.table
  unfolding dispatch
  dispatch-IsSound catalog now user_id calls t cache user (same, valid) =
      let start : Context = record { uow = new_uow user_id; cache = cache } in
      respond-IsSound (handler catalog now t calls start) t
        (handler-IsReady catalog now t calls start (same, refl, user)) valid
