-- ===== src/Game/Commit/Atomic.antt =====
-- What the transactions do to each database.
use future_was.Base.{All, ℕ, String, Option, none, some, List, [], ◌∷◌, ◌≡◌, ◌⊎◌}
use future_was.Game.Commit.{Write, Group, TxFaults}
use future_was.Game.Commit.Ends.{Applied}

module _ {H D : Type 0} where
  -- A database is as it was or has all of the writes; it has them if there was no error.
  abbrev pub Fate : List (Write H D) → D → D → Option String → Type 0
  Fate fns before after error =
      ((after ≡ before) ⊎ Applied fns before after) × (error ≡ none → Applied fns before after)

  module _ (faults : TxFaults) where
    -- The databases after the transactions, in their order: those that were committed, and the one that
    -- failed, after which no other ran.
    abbrev pub Ran : List (Group H D) → (ℕ → D) → (ℕ → D) → Option String → Type 0
    Ran [] before after error = error ≡ none
    Ran (g ∷ gs) before after error =
        (Applied g.fns (before g.db) (after g.db) × Ran gs before after error)
        ⊎ ((e : String) × (error ≡ some e)
            × ((after g.db ≡ before g.db) ⊎ Applied g.fns (before g.db) (after g.db))
            × All (λ k. after k.db ≡ before k.db) gs)
