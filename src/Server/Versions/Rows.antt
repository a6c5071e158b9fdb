-- ===== src/Server/Versions/Rows.antt =====
-- The rows of the table of versions: their numbers, and rows that are left out.
use future_was.Base.{
  ℕ, zero, lt→ltb, suc, ◌<◌, Bool, true, false, not, ◌&&◌, some, List, [], ◌∷◌, filter, take, All,
  ◌==◌, ==_iff, ◌≡◌, refl, ◌∙◌, arith, Bool-cases, inl, inr,
}
use future_was.Base.Decimal.{show_nat, number_of-show_nat}
use future_was.Api.{Version}
use future_was.Server.Clock.{two_64}
use future_was.Server.Versions.{parse_uint, without, has_idx}

abbrev pub AreDistinct : List Version → Type 0
AreDistinct [] = Unit
AreDistinct (r ∷ rows) = (has_idx r.idx rows ≡ false) × AreDistinct rows

pub parse_uint-show_nat : (n : ℕ) → n < two_64 → parse_uint (show_nat n) ≡ some n
unfolding parse_uint
parse_uint-show_nat n h = rw (parse_uint, number_of-show_nat n, lt→ltb n two_64 h)

pub has_idx-without :
    (n m : ℕ) (rows : List Version) → (n == m) ≡ false → has_idx m (without n rows) ≡ has_idx m rows
has_idx-without n m [] h = refl
has_idx-without n m (r ∷ rows) h = elim (Bool-cases (r.idx == n)) [
  | inl same ↦
      let e : r.idx ≡ n = (==_iff r.idx n).0 same in rw (same, e, h, has_idx-without n m rows h)
  | inr other ↦ rw (other, has_idx-without n m rows h)
]

-- Rows to delete that are all in the table, each with a number of 64 bits.
abbrev pub ArePresent : List Version → List Version → Type 0
ArePresent ts rows = All (λ r. (has_idx r.idx rows ≡ true) × (r.idx < two_64)) ts

pub present-without :
    (n : ℕ) (ts rows : List Version)
    → has_idx n ts ≡ false
    → ArePresent ts rows
    → ArePresent ts (without n rows)
present-without n [] rows h p = tt
present-without n (r ∷ ts) rows h ((here, small), later) =
    let apart : (n == r.idx) ≡ false = ground arith in
    (
      (has_idx-without n r.idx rows apart ∙ here, small),
      present-without n ts rows (ground arith) later,
    )

-- The table without some rows.
abbrev pub without_all : List Version → List Version → List Version
without_all [] rows = rows
without_all (r ∷ ts) rows = without_all ts (without r.idx rows)

module _ (p : Version → Bool) where
  has_idx-filter :
      (n : ℕ) (rows : List Version) → has_idx n rows ≡ false → has_idx n (filter p rows) ≡ false
  has_idx-filter n [] h = refl
  has_idx-filter n (r ∷ rows) h = ground (arith, has_idx-filter n rows)

  pub filter-AreDistinct : (rows : List Version) → AreDistinct rows → AreDistinct (filter p rows)
  filter-AreDistinct [] d = tt
  filter-AreDistinct (r ∷ rows) (apart, d) = elim (Bool-cases (p r)) [
    | inl kept ↦ rw kept (has_idx-filter r.idx rows apart, filter-AreDistinct rows d)
    | inr dropped ↦ rw dropped (filter-AreDistinct rows d)
  ]

  pub All-filter {κ} :
      (P : Version → Type κ) (rows : List Version) → All P rows → All P (filter p rows)
  All-filter P [] h = tt
  All-filter P (r ∷ rows) (here, later) = elim (Bool-cases (p r)) [
    | inl kept ↦ rw kept (here, All-filter P rows later)
    | inr dropped ↦ rw dropped (All-filter P rows later)
  ]

has_idx-take :
    (n k : ℕ) (rows : List Version) → has_idx n rows ≡ false → has_idx n (take k rows) ≡ false
has_idx-take n zero rows h = refl
has_idx-take n (suc k) [] h = refl
has_idx-take n (suc k) (r ∷ rows) h = ground (arith, has_idx-take n k rows)

pub take-AreDistinct : (k : ℕ) (rows : List Version) → AreDistinct rows → AreDistinct (take k rows)
take-AreDistinct zero rows d = tt
take-AreDistinct (suc k) [] d = tt
take-AreDistinct (suc k) (r ∷ rows) (apart, d) =
    (has_idx-take r.idx k rows apart, take-AreDistinct k rows d)

pub All-take {κ} :
    (P : Version → Type κ) (k : ℕ) (rows : List Version) → All P rows → All P (take k rows)
All-take P zero rows h = tt
All-take P (suc k) [] h = tt
All-take P (suc k) (r ∷ rows) (here, later) = (here, All-take P k rows later)

abbrev pub AreSmall : List Version → Type 0
AreSmall rows = All (λ r. r.idx < two_64) rows

wider : (r : Version) (ts rows : List Version) → ArePresent ts rows → ArePresent ts (r ∷ rows)
wider r [] rows p = tt
wider r (t ∷ ts) rows ((here, small), later) = ((ground arith, small), wider r ts rows later)

pub self-ArePresent : (rows : List Version) → AreSmall rows → ArePresent rows rows
self-ArePresent [] h = tt
self-ArePresent (r ∷ rows) (small, later) =
    let same : (r.idx == r.idx) ≡ true = (==_iff r.idx r.idx).1 refl in
    ((ground arith, small), wider r rows rows (self-ArePresent rows later))

has_idx-without_self : (n : ℕ) (rows : List Version) → has_idx n (without n rows) ≡ false
has_idx-without_self n [] = refl
has_idx-without_self n (r ∷ rows) = elim (Bool-cases (r.idx == n)) [
  | inl same ↦ rw (same, has_idx-without_self n rows)
  | inr other ↦ ground (arith, has_idx-without_self n rows)
]

pub without_all-has_idx :
    (ts rows : List Version) (n : ℕ)
    → has_idx n (without_all ts rows) ≡ (has_idx n rows && not (has_idx n ts))
without_all-has_idx [] rows n = ground arith
without_all-has_idx (r ∷ ts) rows n = elim (Bool-cases (r.idx == n)) [
  | inl same ↦
      let e : r.idx ≡ n = (==_iff r.idx n).0 same in
      let gone : has_idx n (without r.idx rows) ≡ false = rw e (has_idx-without_self n rows) in
      ground (arith, without_all-has_idx ts (without r.idx rows) n, gone)
  | inr other ↦
      rw (without_all-has_idx ts (without r.idx rows) n, has_idx-without r.idx n rows other, other)
]
