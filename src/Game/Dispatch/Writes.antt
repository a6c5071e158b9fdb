-- ===== src/Game/Dispatch/Writes.antt =====
-- The queued writes when they run: they bring the rows to the objects.
use future_was.Base.{
  All-mono, ℕ, zero, suc, ◌+◌, ◌<◌, String, Bool, true, false, ◌||◌, Option, none, some, List, [],
  ◌∷◌, ◌++◌, length, get_elem?, set, ◌==◌, All, ◌≡◌, refl, sym, ap, arith, Bool-cases, Option-cases,
  inl, inr, subst,
}
use future_was.Game.Commit.{done, Write, run_fns}
use future_was.Game.Commit.Ends.{done-subst, run_fns-cons}
use future_was.Game.Items.{Item, Table, Queued, create, save}
use future_was.Game.Items.Tracks.{
  creates, is_saved, count_from, idxs, AreUnique, IsValid, Aligned, Aligned-mono, Aligned-eq, extra,
  Tracks,
}
use future_was.Game.Items.Keeps.{length-set, length-snoc, All-snoc}
use future_was.Game.Dispatch.{CommitFaults, save_row, write_of}

idxs-save_row : (x : Item) (rows : List Item) → idxs (save_row x rows) ≡ idxs rows
idxs-save_row x [] = refl
idxs-save_row x (r ∷ rows) = elim (Bool-cases (r.idx == x.idx)) [
  | inl here ↦ rw here (let e : x.idx ≡ r.idx = ground arith in λ i. e i ∷ idxs-save_row x rows i)
  | inr other ↦ rw other (ap (◌∷◌ r.idx) (idxs-save_row x rows))
]

save_row-absent :
    (x : Item) (rows : List Item)
    → All (λ n. (n == x.idx) ≡ false) (idxs rows)
    → save_row x rows ≡ rows
save_row-absent x [] h = refl
save_row-absent x (r ∷ rows) h = rw (h.0) (ap (◌∷◌ r) (save_row-absent x rows h.1))

-- The key of an object that is found among those of other rows is none of a row's before them.
idx-other :
    (s : ℕ → Bool) (v : Item) (vs os : List Item) (j : ℕ) (x : Item)
    → get_elem? os j ≡ some x
    → 0 < v.idx
    → All (λ m. (m == v.idx) ≡ false) (idxs vs)
    → Aligned s vs os
    → (v.idx == x.idx) ≡ false
idx-other s v vs [] j x found pos apart h = cc
idx-other s v [] (o ∷ os) zero x found pos apart h = ground arith
idx-other s v [] (o ∷ os) (suc j) x found pos apart h =
    idx-other (λ k. s (suc k)) v [] os j x found pos tt h.1
idx-other s v (w ∷ vs) (o ∷ os) zero x found pos apart h = ground arith
idx-other s v (w ∷ vs) (o ∷ os) (suc j) x found pos apart h =
    idx-other (λ k. s (suc k)) v vs os j x found pos apart.1 (h.2)

saved-Aligned :
    (s t : ℕ → Bool) (vs os : List Item) (j : ℕ) (x : Item)
    → get_elem? os j ≡ some x
    → AreUnique (idxs vs)
    → All (λ n. 0 < n) (idxs vs)
    → ((k : ℕ) → s k ≡ (j == k || t k))
    → Aligned s vs os
    → Aligned t (save_row x vs) os
saved-Aligned s t vs [] j x found unique pos marks h = cc
saved-Aligned s t [] (o ∷ os) j x found unique pos marks h = new s t (o ∷ os) h
  where
    new : (s t : ℕ → Bool) (os : List Item) → Aligned s [] os → Aligned t [] os
    new s t [] h = tt
    new s t (o ∷ os) h = (h.0, new (λ k. s (suc k)) (λ k. t (suc k)) os h.1)
saved-Aligned s t (v ∷ vs) (o ∷ os) zero x found unique pos marks (same, kept, rest) =
    let here : (v.idx == x.idx) ≡ true = ground arith in
    let object : x ≡ o = ground arith in
    let apart : All (λ n. (n == x.idx) ≡ false) (idxs vs) =
      All-mono (λ m. (m == v.idx) ≡ false) (λ n. (n == x.idx) ≡ false) (idxs vs)
        (λ m ne. ground arith) unique.0 in
    rw (here, save_row-absent x vs apart)
      (
        ground arith,
        λ unmarked. object,
        Aligned-mono (λ k. s (suc k)) (λ k. t (suc k)) vs os
            (λ k unmarked. ground (arith, marks (suc k))) rest,
      )
saved-Aligned s t (v ∷ vs) (o ∷ os) (suc j) x found unique pos marks (same, kept, rest) =
    rw (idx-other (λ k. s (suc k)) v vs os j x found pos.0 unique.0 rest) (
      same,
      λ unmarked. kept (ground (arith, marks 0)),
      saved-Aligned (λ k. s (suc k)) (λ k. t (suc k)) vs os j x found unique.1 pos.1
          (λ k. ground (arith, marks (suc k))) rest,
    )

-- The first object without a row is given its key, and its row.
created-Aligned :
    (s : ℕ → Bool) (vs os : List Item) (x x' : Item)
    → get_elem? os (length vs) ≡ some x
    → Aligned s vs os
    → Aligned s (vs ++ x' ∷ []) (set os (length vs) x')
      × (suc (extra (vs ++ x' ∷ []) (set os (length vs) x')) ≡ extra vs os)
created-Aligned s [] [] x x' found h = cc
created-Aligned s [] (o ∷ os) x x' found h = ((refl, λ _. refl, h.1), refl)
created-Aligned s (v ∷ vs) [] x x' found h = absurd h
created-Aligned s (v ∷ vs) (o ∷ os) x x' found (same, kept, rest) =
    let (later, fewer) = created-Aligned (λ k. s (suc k)) vs os x x' found rest in
    ((same, kept, later), fewer)

idxs-snoc : (rows : List Item) (x : Item) → idxs (rows ++ x ∷ []) ≡ idxs rows ++ x.idx ∷ []
idxs-snoc [] x = refl
idxs-snoc (r ∷ rows) x = ap (◌∷◌ r.idx) (idxs-snoc rows x)

AreUnique-snoc :
    (ns : List ℕ) (n : ℕ) → All (λ m. m < n) ns → AreUnique ns → AreUnique (ns ++ n ∷ [])
AreUnique-snoc [] n below h = (tt, tt)
AreUnique-snoc (m ∷ ns) n below h =
    (All-snoc (λ k. (k == m) ≡ false) ns n h.0 (ground arith), AreUnique-snoc ns n below.1 h.1)

extra-save_row : (x : Item) (vs os : List Item) → extra (save_row x vs) os ≡ extra vs os
extra-save_row x [] os = refl
extra-save_row x (v ∷ vs) [] = refl
extra-save_row x (v ∷ vs) (o ∷ os) = extra-save_row x vs os

length-save_row : (x : Item) (rows : List Item) → length (save_row x rows) ≡ length rows
length-save_row x [] = refl
length-save_row x (r ∷ rows) = ap suc (length-save_row x rows)

-- A `save` that runs.
pub saved-Tracks :
    (j : ℕ) (qs : List Queued) (t : Table) (objects : List Item) (x : Item)
    → get_elem? objects j ≡ some x
    → Tracks (save j ∷ qs) t.rows objects
    → IsValid t
    → let t' = record t { rows = save_row x t.rows } in Tracks qs t'.rows objects × IsValid t'
saved-Tracks j qs t objects x found h (started, unique, bounds) =
    let keys = sym (idxs-save_row x t.rows) in
    let positive : All (λ n. 0 < n) (idxs t.rows) =
      All-mono (λ n. (0 < n) × (n < t.next)) (λ n. 0 < n) (idxs t.rows) (λ n b. b.0) bounds in
    (
      record {
        aligned =
            saved-Aligned (is_saved (save j ∷ qs)) (is_saved qs) t.rows objects j x found unique
              positive (λ k. refl) h.aligned;
        to_create = rw (length-save_row x t.rows, extra-save_row x t.rows objects) h.to_create;
        within = h.within.1;
      },
      (started, subst AreUnique keys unique, subst (All (λ n. (0 < n) × (n < t.next))) keys bounds),
    )

count_from-nil : (m n : ℕ) → ◌≡◌ {A = List ℕ} [] (count_from m n) → n ≡ 0
count_from-nil m zero e = refl
count_from-nil m (suc n) e = absurd (cc)

count_from-cons :
    (j m n : ℕ) (l : List ℕ)
    → j ∷ l ≡ count_from m n
    → (j ≡ m) × (n' : ℕ) × (n ≡ suc n') × (l ≡ count_from (suc m) n')
count_from-cons j m zero l e = absurd (cc)
count_from-cons j m (suc n) l e = (ground arith, n, refl, ground arith)

-- A `create` that runs: its object is the first without a row.
pub created-Tracks :
    (j : ℕ) (qs : List Queued) (t : Table) (objects : List Item) (x : Item)
    → get_elem? objects j ≡ some x
    → Tracks (create j ∷ qs) t.rows objects
    → IsValid t
    → let x' = record x { idx = t.next } in
      let t' = record t { rows = t.rows ++ x' ∷ []; next = t.next + 1 } in
      Tracks qs t'.rows (set objects j x') × IsValid t'
created-Tracks j qs t objects x found h (started, unique, bounds) =
    let x' = record x { idx = t.next } in
    let (first, n', all, rest) =
      count_from-cons j (length t.rows) (extra t.rows objects) (creates qs) h.to_create in
    let (aligned, fewer) =
      created-Aligned (is_saved qs) t.rows objects x x' (rw (← first) found) h.aligned in
    let left : extra (t.rows ++ x' ∷ []) (set objects (length t.rows) x') ≡ n' =
      omega (arith, fewer, all) in
    let keys = sym (idxs-snoc t.rows x') in
    let below : All (λ n. n < t.next) (idxs t.rows) =
      All-mono (λ n. (0 < n) × (n < t.next)) (λ n. n < t.next) (idxs t.rows) (λ n b. b.1) bounds in
    (
      record {
        aligned = rw first aligned;
        to_create = rw (first, left, length-snoc t.rows x') rest;
        within = rw (length-set objects j x') h.within.1;
      },
      (
        omega arith,
        subst AreUnique keys (AreUnique-snoc (idxs t.rows) t.next below unique),
        subst (All (λ n. (0 < n) × (n < t.next + 1))) keys (
            All-snoc (λ n. (0 < n) × (n < t.next + 1)) (idxs t.rows) t.next
              (All-mono (λ n. (0 < n) × (n < t.next)) (λ n. (0 < n) × (n < t.next + 1))
                (idxs t.rows) (λ n b. omega arith) bounds)
              (started, omega arith)),
      ),
    )

-- A write that ends keeps rows, objects and the rest of the queue together.
write-Tracks :
    (o : Option String) (q : Queued) (qs : List Queued) (objects objects1 : List Item)
    (t t1 : Table)
    → write_of o q objects t ≡ done objects1 t1
    → Tracks (q ∷ qs) t.rows objects
    → IsValid t
    → Tracks qs t1.rows objects1 × IsValid t1
unfolding write_of
write-Tracks (some e) q qs objects objects1 t t1 ran tracks valid = absurd (cc)
write-Tracks none (create j) qs objects objects1 t t1 ran tracks valid =
    elim (Option-cases (get_elem? objects j)) [
      | inl absent ↦ absurd (let stop = rw absent at ran in cc)
      | inr (x, found) ↦
          let x' = record x { idx = t.next } in
          done-subst (λ o u. Tracks qs u.rows o × IsValid u) (set objects j x') objects1
            (record t { rows = t.rows ++ x' ∷ []; next = t.next + 1 }) t1 (rw found at ran)
            (created-Tracks j qs t objects x found tracks valid)
    ]
write-Tracks none (save j) qs objects objects1 t t1 ran tracks valid =
    elim (Option-cases (get_elem? objects j)) [
      | inl absent ↦ absurd (let stop = rw absent at ran in cc)
      | inr (x, found) ↦
          done-subst (λ o u. Tracks qs u.rows o × IsValid u) objects objects1
            (record t { rows = save_row x t.rows }) t1 (rw found at ran)
            (saved-Tracks j qs t objects x found tracks valid)
    ]

module _ (f : CommitFaults) where
  -- The functions of a queue, from a place on.
  abbrev pub writes_from : ℕ → List Queued → List (Write (List Item) Table)
  writes_from k [] = []
  writes_from k (q ∷ qs) = write_of (f.write_error k) q ∷ writes_from (suc k) qs

  -- Writes that end bring the rows to the objects.
  pub writes-settle :
      (k : ℕ) (qs : List Queued) (objects : List Item) (t : Table) (h : List Item) (t' : Table)
      → run_fns (writes_from k qs) objects t ≡ done h t'
      → Tracks qs t.rows objects
      → IsValid t
      → (t'.rows ≡ h) × IsValid t'
  unfolding run_fns
  writes-settle k [] objects t h t' e tracks valid =
      let settled =
        Aligned-eq (is_saved []) t.rows objects (λ k. refl)
          (count_from-nil (length t.rows) (extra t.rows objects) tracks.to_create) tracks.aligned in
      done-subst (λ o u. (u.rows ≡ o) × IsValid u) objects h t t' e (settled, valid)
  writes-settle k (q ∷ qs) objects t h t' e tracks valid =
      let (objects1, t1, ran, rest) =
        run_fns-cons (write_of (f.write_error k) q) (writes_from (suc k) qs) objects h t t' e in
      let (tracks1, valid1) =
        write-Tracks (f.write_error k) q qs objects objects1 t t1 ran tracks valid in
      writes-settle (suc k) qs objects1 t1 h t' rest tracks1 valid1
