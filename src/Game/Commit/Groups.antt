-- ===== src/Game/Commit/Groups.antt =====
-- The grouping of the queued writes against a plain account of it: the writes of one database, in
-- the order of the queue.
use future_was.Base.{
  ℕ, suc, ◌+◌, ◌-◌, ◌≤◌, Bool, true, false, none, some, List, [], ◌∷◌, ◌++◌, length, ◌==◌,
  if◌then◌else◌, ◌≡◌, refl, ap, arith, Option-cases, Bool-cases, inl, inr, sym, ◌∙◌,
}
use mathlib.Core.List.{append_assoc, append-nil}
use future_was.Game.Commit.{Write, DbOp, Group, index_of, append_at, put_op, group_from, group_ops}

zero-add : (n : ℕ) → 0 + n ≡ n
zero-add n = omega arith

sub_zero : (n : ℕ) → n - 0 ≡ n
sub_zero n = omega arith

sub_self : (k : ℕ) → k - k ≡ 0
sub_self k = omega arith

sub-suc : (k i : ℕ) → suc k ≤ i → i - k ≡ suc (i - suc k)
sub-suc k i h = omega arith

module _ {H D : Type 0} where
  -- The writes that are queued for a database.
  abbrev pub queued_for : ℕ → List (DbOp H D) → List (Write H D)
  queued_for db [] = []
  queued_for db (op ∷ ops) =
      let rest = queued_for db ops in if op.db == db then op.fn ∷ rest else rest

  -- The writes of the first group of a database.
  abbrev pub grouped_for : ℕ → List (Group H D) → List (Write H D)
  grouped_for db [] = []
  grouped_for db (g ∷ gs) = let rest = grouped_for db gs in if g.db == db then g.fns else rest

  abbrev pub has_group : ℕ → List (Group H D) → Bool
  has_group db [] = false
  has_group db (g ∷ gs) = let rest = has_group db gs in if g.db == db then true else rest

  -- No database has two groups.
  abbrev pub AreDistinct : List (Group H D) → Type 0
  AreDistinct [] = Unit
  AreDistinct (g ∷ gs) = (has_group g.db gs ≡ false) × AreDistinct gs

  -- The grouping with no index: into the group of the database, or a new one at the end.
  abbrev insert_op : DbOp H D → List (Group H D) → List (Group H D)
  insert_op op [] = record { db = op.db; fns = op.fn ∷ [] } ∷ []
  insert_op op (g ∷ gs) =
      let rest = insert_op op gs in
      if g.db == op.db then record g { fns = g.fns ++ op.fn ∷ [] } ∷ gs else g ∷ rest

  -- The index that goes with groups from a place on.
  abbrev places : ℕ → List (Group H D) → List (ℕ × ℕ)
  places k [] = []
  places k (g ∷ gs) = (g.db, k) ∷ places (suc k) gs

  at_index :
      (op : DbOp H D) (k i : ℕ) (gs : List (Group H D))
      → index_of op.db (places k gs) ≡ some i
      → (k ≤ i)
        × (append_at (i - k) op.fn gs ≡ insert_op op gs)
        × ((j : ℕ) → places j (insert_op op gs) ≡ places j gs)
  at_index op k i [] found = cc
  at_index op k i (g ∷ gs) found = elim (Bool-cases (g.db == op.db)) [
    | inl here ↦ rw here (
        let now : k ≡ i = ground arith in
        (omega arith, rw (← now) (rw (sub_self k) refl), λ j. refl))
    | inr later ↦ rw later (
        let (le, put, same) = at_index op (suc k) i gs (ground arith) in
        (omega arith, rw (sub-suc k i le) (ap (◌∷◌ g) put), λ j. ap (◌∷◌ (g.db, j)) (same (suc j))))
  ]

  at_end :
      (op : DbOp H D) (k : ℕ) (gs : List (Group H D))
      → index_of op.db (places k gs) ≡ none
      → (append_at (length gs) op.fn (gs ++ record { db = op.db; fns = [] } ∷ []) ≡ insert_op op gs)
        × (places k (insert_op op gs) ≡ places k gs ++ (op.db, k + length gs) ∷ [])
  at_end op k [] absent = (refl, ground arith)
  at_end op k (g ∷ gs) absent = elim (Bool-cases (g.db == op.db)) [
    | inl here ↦ absurd (ground arith)
    | inr later ↦ rw later (
        let (put, placed) = at_end op (suc k) gs (ground arith) in
        (
          ap (◌∷◌ g) put,
          ap (◌∷◌ (g.db, k))
              (placed ∙ ap (λ n. places (suc k) gs ++ (op.db, n) ∷ []) (omega arith)),
        ))
  ]

  put_op_lem :
      (op : DbOp H D) (gs : List (Group H D))
      → put_op op (index_of op.db (places 0 gs)) gs (places 0 gs)
        ≡ (insert_op op gs, places 0 (insert_op op gs))
  put_op_lem op gs = elim (Option-cases (index_of op.db (places 0 gs))) [
    | inl absent ↦ rw absent (
        let (put, placed) = at_end op 0 gs absent in
        let index = placed ∙ ap (λ n. places 0 gs ++ (op.db, n) ∷ []) (zero-add (length gs)) in
        λ i. (put i, sym index i))
    | inr (i, found) ↦ rw found (
        let (le, put, same) = at_index op 0 i gs found in
        let index = sym (same 0) in
        let here = ap (λ n. append_at n op.fn gs) (sub_zero i) in
        λ t. ((sym here ∙ put) t, index t))
  ]

  has_group-insert :
      (db : ℕ) (op : DbOp H D) (gs : List (Group H D))
      → has_group db (insert_op op gs) ≡ (if op.db == db then true else has_group db gs)
  has_group-insert db op [] = refl
  has_group-insert db op (g ∷ gs) = ground (arith, has_group-insert db op gs)

  pub grouped_for-absent :
      (db : ℕ) (gs : List (Group H D)) → has_group db gs ≡ false → grouped_for db gs ≡ []
  grouped_for-absent db [] h = refl
  grouped_for-absent db (g ∷ gs) h = ground (arith, grouped_for-absent db gs)

  insert-AreDistinct :
      (op : DbOp H D) (gs : List (Group H D)) → AreDistinct gs → AreDistinct (insert_op op gs)
  insert-AreDistinct op [] h = (refl, tt)
  insert-AreDistinct op (g ∷ gs) h = elim (Bool-cases (g.db == op.db)) [
    | inl here ↦ rw here h
    | inr later ↦
        rw later (ground (arith, has_group-insert g.db op gs), insert-AreDistinct op gs h.1)
  ]

  grouped_for-insert :
      (db : ℕ) (op : DbOp H D) (gs : List (Group H D))
      → grouped_for db (insert_op op gs)
        ≡ (if op.db == db then grouped_for db gs ++ op.fn ∷ [] else grouped_for db gs)
  grouped_for-insert db op [] = refl
  grouped_for-insert db op (g ∷ gs) = ground (arith, grouped_for-insert db op gs)

  group_from-AreDistinct :
      (ops : List (DbOp H D)) (gs : List (Group H D))
      → AreDistinct gs
      → AreDistinct (group_from ops gs (places 0 gs))
  unfolding group_from
  group_from-AreDistinct [] gs h = h
  group_from-AreDistinct (op ∷ ops) gs h =
      rw (put_op_lem op gs)
        (group_from-AreDistinct ops (insert_op op gs) (insert-AreDistinct op gs h))

  grouped_for-group_from :
      (db : ℕ) (ops : List (DbOp H D)) (gs : List (Group H D))
      → grouped_for db (group_from ops gs (places 0 gs)) ≡ grouped_for db gs ++ queued_for db ops
  unfolding group_from
  grouped_for-group_from db [] gs = sym (append-nil (grouped_for db gs))
  grouped_for-group_from db (op ∷ ops) gs =
      rw
        (
          put_op_lem op gs,
          grouped_for-group_from db ops (insert_op op gs),
          grouped_for-insert db op gs,
        )
        (elim (Bool-cases (op.db == db)) [
          | inl this ↦ rw this (append_assoc (grouped_for db gs) (op.fn ∷ []) (queued_for db ops))
          | inr other ↦ rw other refl
        ])

  -- One group for a database at most, with its writes in the order of the queue.
  pub group_ops-queued :
      (ops : List (DbOp H D))
      → AreDistinct (group_ops ops)
        × ((db : ℕ) → grouped_for db (group_ops ops) ≡ queued_for db ops)
  unfolding group_ops
  group_ops-queued ops = (group_from-AreDistinct ops [] tt, λ db. grouped_for-group_from db ops [])
