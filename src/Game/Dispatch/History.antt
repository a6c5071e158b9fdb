-- ===== src/Game/Dispatch/History.antt =====
-- The requests of a user one after the other, which the user's lock brings about, with what happens
-- between them.
use future_was.Base.{
  All-mono, ℕ, ◌+◌, ◌<◌, false, Option, none, some, List, [], ◌∷◌, ◌==◌, ◌≡◌, arith,
}
use future_was.Base.Runs.{run_by}
use future_was.Game.Items.{Item, Table, Call}
use future_was.Game.Items.Tracks.{idxs}
use future_was.Game.Dispatch.{CommitFaults, dispatch}
use future_was.Game.Dispatch.Coherence.{Recovers, IsSound, dispatch-IsSound}
use future_was.Game.Items.Ready.{IsCoherent}

pub record World : Type 0 where
  pub table : Table
  pub cache : Option (List Item)

pub data Event : Type 0 where
  -- a request of the user, at a time
  request : CommitFaults → ℕ → List Call → Event
  -- the cache forgets the user
  expire : Event
  -- rows of other users take numbers of the table
  others : ℕ → Event

module _ (shard : ℕ) (catalog : ℕ → Option ℕ) (user_id : ℕ) where
  unfoldable pub serve : Event → World → World
  unfolding dispatch
  serve (request f now calls) w =
      let r = dispatch shard f catalog now user_id calls w.table w.cache in
      record { table = r.table; cache = r.cache }
  serve expire w = record w { cache = none }
  serve (others n) w = record w { table = record w.table { next = w.table.next + n } }

  -- After each commit whose values the cache refuses, or whose COMMIT is carried out with its answer lost,
  -- the cache can be emptied.
  abbrev pub AllRecover : List Event → Type 0
  AllRecover [] = Unit
  AllRecover (request f now calls ∷ es) = Recovers shard f × AllRecover es
  AllRecover (_ ∷ es) = AllRecover es

  serve-others :
      (n : ℕ) (w : World) → IsSound w.cache w.table → IsSound w.cache (serve (others n) w).table
  unfolding serve
  serve-others n w (same, (started, unique, bounds)) = (
    coherent w.cache same,
    (
      omega arith,
      unique,
      All-mono (λ k. (0 < k) × (k < w.table.next)) (λ k. (0 < k) × (k < w.table.next + n))
          (idxs w.table.rows) (λ k b. omega arith) bounds,
    ),
  )
    where
      coherent :
          (cache : Option (List Item))
          → IsCoherent cache w.table
          → IsCoherent cache (record w.table { next = w.table.next + n })
      coherent none h = tt
      coherent (some list) h = h

  -- Over any requests of a user, whatever fails in their loading and in their commits, and whatever the
  -- cache forgets: if the cache can be emptied after each commit whose values it refuses or whose COMMIT is
  -- carried out with its answer lost, then at the end what the cache has of the items, if it has
  -- anything, are the rows of the table, their times to what a TIMESTAMP keeps of them.
  pub cache_keeps_up :
      (es : List Event) (w : World)
      → (user_id == 0) ≡ false
      → AllRecover es
      → IsSound w.cache w.table
      → let w' = run_by serve es w in IsSound w'.cache w'.table
  unfolding run_by serve
  cache_keeps_up [] w user recover h = h
  cache_keeps_up (request f now calls ∷ es) w user recover h =
      cache_keeps_up es (serve (request f now calls) w) user recover.1
        (dispatch-IsSound shard f recover.0 catalog now user_id calls w.table w.cache user h)
  cache_keeps_up (expire ∷ es) w user recover h =
      cache_keeps_up es (serve expire w) user recover (tt, h.1)
  cache_keeps_up (others n ∷ es) w user recover h =
      cache_keeps_up es (serve (others n) w) user recover (serve-others n w h)
