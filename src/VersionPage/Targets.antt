-- ===== src/VersionPage/Targets.antt =====
-- What `onDeleteSelected` deletes, against what the table highlights and what the button counts.
use future_was.Base.{
  ℕ, ◌+◌, str_eq, eq_iff, eq_refl, Bool, true, false, ◌||◌, Option, some, List, [], ◌∷◌, length,
  count, length-filter, ◌==◌, ==_iff, ◌≡◌, refl, ◌∙◌, arith, Bool-cases, inl, inr,
}
use future_was.Base.Decimal.{show_nat, number_of-show_nat, show_nat-injective}
use future_was.Api.{Version}
use future_was.DataTable.{Selection, is_selected}
use future_was.VersionPage.{selected_idx_list, includes, targets}

-- A selection whose keys are those that `getRowId` gives, for the numbers of rows.
abbrev pub selection_of : List (ℕ × Bool) → Selection
selection_of [] = []
selection_of ((n, v) ∷ picks) = (show_nat n, v) ∷ selection_of picks

abbrev pub has_key : List (ℕ × Bool) → ℕ → Bool
has_key [] m = false
has_key ((n, _) ∷ picks) m = n == m || has_key picks m

-- A JavaScript object has no key twice.
abbrev pub IsObject : List (ℕ × Bool) → Type 0
IsObject [] = Unit
IsObject ((n, _) ∷ picks) = (has_key picks n ≡ false) × IsObject picks

str_eq-show_nat : (m n : ℕ) → str_eq (show_nat m) (show_nat n) ≡ (m == n)
str_eq-show_nat m n = elim (Bool-cases (m == n)) [
  | inl same ↦ let e : m ≡ n = (==_iff m n).0 same in rw (same, e) (eq_refl (show_nat n))
  | inr other ↦ ground (arith, eq_iff (show_nat m) (show_nat n), show_nat-injective m n)
]

includes_of_has_key :
    (picks : List (ℕ × Bool)) (m : ℕ)
    → has_key picks m ≡ false
    → includes (selected_idx_list (selection_of picks)) m ≡ false
unfolding includes selected_idx_list
includes_of_has_key [] m h = refl
includes_of_has_key ((n, true) ∷ picks) m h =
    rw (number_of-show_nat n) (ground (arith, includes_of_has_key picks m))
includes_of_has_key ((n, false) ∷ picks) m h = ground (arith, includes_of_has_key picks m)

-- A row is highlighted in the table exactly when it is one of those to delete.
pub highlighted_iff_target :
    (picks : List (ℕ × Bool)) (m : ℕ)
    → IsObject picks
    → is_selected (selection_of picks) (show_nat m)
      ≡ includes (selected_idx_list (selection_of picks)) m
unfolding is_selected includes selected_idx_list
highlighted_iff_target [] m h = refl
highlighted_iff_target ((n, true) ∷ picks) m h =
    rw (number_of-show_nat n, str_eq-show_nat n m)
      (ground (arith, highlighted_iff_target picks m h.1))
highlighted_iff_target ((n, false) ∷ picks) m h =
    rw (str_eq-show_nat n m)
      (ground (arith, highlighted_iff_target picks m h.1, includes_of_has_key picks m, ==_iff n m))

-- Every selected key is the number of exactly one row.
abbrev pub AreRows : List Version → List (ℕ × Bool) → Type 0
AreRows rows [] = Unit
AreRows rows ((n, _) ∷ picks) = (count (λ r. r.idx == n) rows ≡ 1) × AreRows rows picks

count-includes :
    (n : ℕ) (list : List (Option ℕ)) (rows : List Version)
    → includes list n ≡ false
    → count (λ r. includes (some n ∷ list) r.idx) rows
      ≡ count (λ r. r.idx == n) rows + count (λ r. includes list r.idx) rows
unfolding includes
count-includes n list [] h = refl
count-includes n list (r ∷ rows) h = elim (Bool-cases (r.idx == n)) [
  | inl same ↦
      let e : r.idx ≡ n = (==_iff r.idx n).0 same in
      let apart : includes list r.idx ≡ false = rw e h in
      ground (arith, count-includes n list rows h)
  | inr other ↦ ground (arith, count-includes n list rows h)
]

count-none : (rows : List Version) → count (λ r. includes [] r.idx) rows ≡ 0
unfolding includes
count-none [] = refl
count-none (r ∷ rows) = omega (arith, count-none rows)

count-targets :
    (rows : List Version) (picks : List (ℕ × Bool))
    → IsObject picks
    → AreRows rows picks
    → count (λ r. includes (selected_idx_list (selection_of picks)) r.idx) rows
      ≡ length (selected_idx_list (selection_of picks))
unfolding selected_idx_list
count-targets rows [] h k = count-none rows
count-targets rows ((n, false) ∷ picks) h k = count-targets rows picks h.1 k.1
count-targets rows ((n, true) ∷ picks) h k =
    let list = selected_idx_list (selection_of picks) in
    let apart : includes list n ≡ false = includes_of_has_key picks n h.0 in
    rw (number_of-show_nat n)
      (omega (arith, count-includes n list rows apart, count-targets rows picks h.1 k.1))

-- If the selected keys are numbers of rows, each of one row, then as many rows are deleted as the
-- button says.
pub length-targets :
    (rows : List Version) (picks : List (ℕ × Bool))
    → IsObject picks
    → AreRows rows picks
    → length (targets rows (selection_of picks)) ≡ length (selected_idx_list (selection_of picks))
unfolding targets
length-targets rows picks h k =
    length-filter (λ r. includes (selected_idx_list (selection_of picks)) r.idx) rows
    ∙ count-targets rows picks h k
