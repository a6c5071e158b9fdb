-- ===== src/Game/Items/Tracks.antt =====
-- What the queue of a unit of work and its objects have to do with the rows of the table.
use future_was.Base.{
  ℕ, zero, suc, ◌+◌, ◌<◌, Bool, false, ◌||◌, List, [], ◌∷◌, length, ◌==◌, All, ◌≡◌, refl, arith,
}
use future_was.Game.Items.{Item, Table, Queued, create, save}

-- The places of the objects that are still to be inserted, in the order of the queue.
abbrev pub creates : List Queued → List ℕ
creates [] = []
creates (create i ∷ qs) = i ∷ creates qs
creates (save i ∷ qs) = creates qs

abbrev pub is_saved : List Queued → ℕ → Bool
is_saved [] k = false
is_saved (create i ∷ qs) k = is_saved qs k
is_saved (save i ∷ qs) k = i == k || is_saved qs k

abbrev pub place : Queued → ℕ
place (create i) = i
place (save i) = i

-- `n` places from one on.
abbrev pub count_from : ℕ → ℕ → List ℕ
count_from m zero = []
count_from m (suc n) = m ∷ count_from (suc m) n

abbrev pub idxs : List Item → List ℕ
idxs [] = []
idxs (r ∷ rows) = r.idx ∷ idxs rows

abbrev pub AreUnique : List ℕ → Type 0
AreUnique [] = Unit
AreUnique (n ∷ ns) = All (λ m. (m == n) ≡ false) ns × AreUnique ns

-- The keys are different, positive, and below the next one.
abbrev pub IsValid : Table → Type 0
IsValid t = (0 < t.next) × AreUnique (idxs t.rows) × All (λ n. (0 < n) × (n < t.next)) (idxs t.rows)

-- Each row has its object, which differs at most if its place is among those to be saved; the
-- objects beyond the rows have no key yet.
abbrev pub Aligned : (ℕ → Bool) → List Item → List Item → Type 0
Aligned saved [] [] = Unit
Aligned saved [] (o ∷ os) = (o.idx ≡ 0) × Aligned (λ k. saved (suc k)) [] os
Aligned saved (v ∷ vs) [] = ⊥
Aligned saved (v ∷ vs) (o ∷ os) =
    (o.idx ≡ v.idx) × (saved 0 ≡ false → v ≡ o) × Aligned (λ k. saved (suc k)) vs os

-- How many objects have no row.
abbrev pub extra : List Item → List Item → ℕ
extra [] os = length os
extra (v ∷ vs) [] = 0
extra (v ∷ vs) (o ∷ os) = extra vs os

pub record Tracks (qs : List Queued) (rows objects : List Item) : Type 0 where
  pub aligned : Aligned (is_saved qs) rows objects
  pub to_create : creates qs ≡ count_from (length rows) (extra rows objects)
  pub within : All (λ q. place q < length objects) qs

-- More may be marked.
pub Aligned-mono :
    (s t : ℕ → Bool) (vs os : List Item)
    → ((k : ℕ) → t k ≡ false → s k ≡ false)
    → Aligned s vs os
    → Aligned t vs os
Aligned-mono s t [] [] weaker h = tt
Aligned-mono s t [] (o ∷ os) weaker h =
    (h.0, Aligned-mono (λ k. s (suc k)) (λ k. t (suc k)) [] os (λ k. weaker (suc k)) h.1)
Aligned-mono s t (v ∷ vs) [] weaker h = absurd h
Aligned-mono s t (v ∷ vs) (o ∷ os) weaker (same, kept, rest) = (
  same,
  λ unmarked. kept (weaker 0 unmarked),
  Aligned-mono (λ k. s (suc k)) (λ k. t (suc k)) vs os (λ k. weaker (suc k)) rest,
)

pub Aligned-refl : (s : ℕ → Bool) (vs : List Item) → Aligned s vs vs
Aligned-refl s [] = tt
Aligned-refl s (v ∷ vs) = (refl, λ _. refl, Aligned-refl (λ k. s (suc k)) vs)

-- Where nothing is to be created or saved, the rows are the objects.
pub Aligned-eq :
    (s : ℕ → Bool) (vs os : List Item)
    → ((k : ℕ) → s k ≡ false)
    → extra vs os ≡ 0
    → Aligned s vs os
    → vs ≡ os
Aligned-eq s [] [] clean all h = refl
Aligned-eq s [] (o ∷ os) clean all h = absurd (omega arith)
Aligned-eq s (v ∷ vs) [] clean all h = absurd h
Aligned-eq s (v ∷ vs) (o ∷ os) clean all (same, kept, rest) =
    let here = kept (clean 0) in
    let later = Aligned-eq (λ k. s (suc k)) vs os (λ k. clean (suc k)) all rest in
    λ i. here i ∷ later i

pub length-Aligned :
    (s : ℕ → Bool) (vs os : List Item) → Aligned s vs os → length os ≡ length vs + extra vs os
length-Aligned s [] os h = omega arith
length-Aligned s (v ∷ vs) [] h = absurd h
length-Aligned s (v ∷ vs) (o ∷ os) (same, kept, rest) =
    omega (arith, length-Aligned (λ k. s (suc k)) vs os rest)
