-- ===== src/Game/Items/Keeps.antt =====
-- A change of an object with its `save`, and a new object with its `create`, keep queue, objects and
-- rows together.
use future_was.Base.{
  All-mono, ℕ, zero, suc, ◌+◌, ◌<◌, Bool, true, false, ◌||◌, some, List, [], ◌∷◌, ◌++◌, length,
  get_elem?, set, ◌==◌, All, ◌≡◌, refl, sym, ap, ◌∙◌, arith,
}
use future_was.Game.Items.{Item, Queued, create, save}
use future_was.Game.Items.Tracks.{
  creates, is_saved, place, count_from, Aligned, Aligned-mono, extra, Tracks, length-Aligned,
}

module _ {ℓ} {A : Type ℓ} where
  pub length-set : (xs : List A) (i : ℕ) (v : A) → length (set xs i v) ≡ length xs
  length-set [] i v = refl
  length-set (x ∷ xs) zero v = refl
  length-set (x ∷ xs) (suc i) v = ap suc (length-set xs i v)

  pub length-snoc : (xs : List A) (v : A) → length (xs ++ v ∷ []) ≡ suc (length xs)
  length-snoc [] v = refl
  length-snoc (x ∷ xs) v = ap suc (length-snoc xs v)

  pub lt_of-get_elem? : (xs : List A) (i : ℕ) (v : A) → get_elem? xs i ≡ some v → i < length xs
  lt_of-get_elem? [] i v e = cc
  lt_of-get_elem? (x ∷ xs) zero v e = omega arith
  lt_of-get_elem? (x ∷ xs) (suc i) v e = omega (arith, lt_of-get_elem? xs i v e)

  pub All-snoc {κ} : (P : A → Type κ) (xs : List A) (v : A) → All P xs → P v → All P (xs ++ v ∷ [])
  All-snoc P [] v h p = (p, tt)
  All-snoc P (x ∷ xs) v h p = (h.0, All-snoc P xs v h.1 p)

creates-snoc_save : (qs : List Queued) (i : ℕ) → creates (qs ++ save i ∷ []) ≡ creates qs
creates-snoc_save [] i = refl
creates-snoc_save (create j ∷ qs) i = ap (◌∷◌ j) (creates-snoc_save qs i)
creates-snoc_save (save j ∷ qs) i = creates-snoc_save qs i

creates-snoc_create :
    (qs : List Queued) (i : ℕ) → creates (qs ++ create i ∷ []) ≡ creates qs ++ i ∷ []
creates-snoc_create [] i = refl
creates-snoc_create (create j ∷ qs) i = ap (◌∷◌ j) (creates-snoc_create qs i)
creates-snoc_create (save j ∷ qs) i = creates-snoc_create qs i

is_saved-snoc_save :
    (qs : List Queued) (i k : ℕ) → is_saved (qs ++ save i ∷ []) k ≡ (is_saved qs k || i == k)
is_saved-snoc_save [] i k = ground arith
is_saved-snoc_save (create j ∷ qs) i k = is_saved-snoc_save qs i k
is_saved-snoc_save (save j ∷ qs) i k = ground (arith, is_saved-snoc_save qs i k)

is_saved-snoc_create :
    (qs : List Queued) (i k : ℕ) → is_saved (qs ++ create i ∷ []) k ≡ is_saved qs k
is_saved-snoc_create [] i k = refl
is_saved-snoc_create (create j ∷ qs) i k = is_saved-snoc_create qs i k
is_saved-snoc_create (save j ∷ qs) i k = ap (λ b. j == k || b) (is_saved-snoc_create qs i k)

count_from-snoc : (m n : ℕ) → count_from m (suc n) ≡ count_from m n ++ (m + n) ∷ []
count_from-snoc m zero = ap (λ k. k ∷ []) (add-zero m)
  where
    add-zero : (m : ℕ) → m ≡ m + 0
    add-zero m = omega arith
count_from-snoc m (suc n) =
    ap (◌∷◌ m) (count_from-snoc (suc m) n ∙ ap (λ k. count_from (suc m) n ++ k ∷ []) (omega arith))

extra-set : (vs os : List Item) (i : ℕ) (x : Item) → extra vs (set os i x) ≡ extra vs os
extra-set [] os i x = length-set os i x
extra-set (v ∷ vs) [] i x = refl
extra-set (v ∷ vs) (o ∷ os) zero x = refl
extra-set (v ∷ vs) (o ∷ os) (suc i) x = extra-set vs os i x

extra-snoc :
    (s : ℕ → Bool) (vs os : List Item) (m : Item)
    → Aligned s vs os
    → extra vs (os ++ m ∷ []) ≡ suc (extra vs os)
extra-snoc s [] os m h = length-snoc os m
extra-snoc s (v ∷ vs) [] m h = absurd h
extra-snoc s (v ∷ vs) (o ∷ os) m (same, kept, rest) = extra-snoc (λ k. s (suc k)) vs os m rest

snoc-Aligned :
    (s : ℕ → Bool) (vs os : List Item) (m : Item)
    → m.idx ≡ 0
    → Aligned s vs os
    → Aligned s vs (os ++ m ∷ [])
snoc-Aligned s [] [] m new h = (new, tt)
snoc-Aligned s [] (o ∷ os) m new h = (h.0, snoc-Aligned (λ k. s (suc k)) [] os m new h.1)
snoc-Aligned s (v ∷ vs) [] m new h = absurd h
snoc-Aligned s (v ∷ vs) (o ∷ os) m new (same, kept, rest) =
    (same, kept, snoc-Aligned (λ k. s (suc k)) vs os m new rest)

set-Aligned :
    (s t : ℕ → Bool) (vs os : List Item) (i : ℕ) (x x' : Item)
    → get_elem? os i ≡ some x
    → x'.idx ≡ x.idx
    → t i ≡ true
    → ((k : ℕ) → t k ≡ false → s k ≡ false)
    → Aligned s vs os
    → Aligned t vs (set os i x')
set-Aligned s t vs [] i x x' found same marked weaker h = cc
set-Aligned s t [] (o ∷ os) zero x x' found same marked weaker h =
    (ground arith, Aligned-mono (λ k. s (suc k)) (λ k. t (suc k)) [] os (λ k. weaker (suc k)) h.1)
set-Aligned s t [] (o ∷ os) (suc i) x x' found same marked weaker h = (
  h.0,
  set-Aligned (λ k. s (suc k)) (λ k. t (suc k)) [] os i x x' found same marked (λ k. weaker (suc k))
      h.1,
)
set-Aligned s t (v ∷ vs) (o ∷ os) zero x x' found same marked weaker (equal, kept, rest) = (
  ground arith,
  λ unmarked. cc,
  Aligned-mono (λ k. s (suc k)) (λ k. t (suc k)) vs os (λ k. weaker (suc k)) rest,
)
set-Aligned s t (v ∷ vs) (o ∷ os) (suc i) x x' found same marked weaker (equal, kept, rest) = (
  equal,
  λ unmarked. kept (weaker 0 unmarked),
  set-Aligned (λ k. s (suc k)) (λ k. t (suc k)) vs os i x x' found same marked (λ k. weaker (suc k))
      rest,
)

-- A change of an object that keeps its key, with its `save`.
pub save-Tracks :
    (qs : List Queued) (rows objects : List Item) (i : ℕ) (x x' : Item)
    → get_elem? objects i ≡ some x
    → x'.idx ≡ x.idx
    → Tracks qs rows objects
    → Tracks (qs ++ save i ∷ []) rows (set objects i x')
save-Tracks qs rows objects i x x' found same h = record {
  aligned =
      set-Aligned (is_saved qs) (is_saved (qs ++ save i ∷ [])) rows objects i x x' found same
        (ground (arith, is_saved-snoc_save qs i i))
        (λ k unmarked. ground (arith, is_saved-snoc_save qs i k)) h.aligned;
  to_create =
      creates-snoc_save qs i
      ∙ h.to_create
      ∙ ap (count_from (length rows)) (sym (extra-set rows objects i x'));
  within = rw (length-set objects i x') (
      All-snoc (λ q. place q < length objects) qs (save i) h.within
        (lt_of-get_elem? objects i x found));
}

-- A new object with its `create`.
pub create-Tracks :
    (qs : List Queued) (rows objects : List Item) (m : Item)
    → m.idx ≡ 0
    → Tracks qs rows objects
    → Tracks (qs ++ create (length objects) ∷ []) rows (objects ++ m ∷ [])
create-Tracks qs rows objects m new h =
    let total = length-Aligned (is_saved qs) rows objects h.aligned in
    record {
      aligned =
          Aligned-mono (is_saved qs) (is_saved (qs ++ create (length objects) ∷ [])) rows
            (objects ++ m ∷ [])
            (λ k unmarked. sym (is_saved-snoc_create qs (length objects) k) ∙ unmarked)
            (snoc-Aligned (is_saved qs) rows objects m new h.aligned);
      to_create =
          creates-snoc_create qs (length objects)
          ∙ (ap (λ l. l ++ length objects ∷ []) h.to_create
              ∙ (ap (λ n. count_from (length rows) (extra rows objects) ++ n ∷ []) total
                  ∙ (sym (count_from-snoc (length rows) (extra rows objects))
                      ∙ ap (count_from (length rows))
                          (sym (extra-snoc (is_saved qs) rows objects m h.aligned)))));
      within = rw (length-snoc objects m) (
          All-snoc (λ q. place q < suc (length objects)) qs (create (length objects))
            (All-mono (λ q. place q < length objects) (λ q. place q < suc (length objects)) qs
              (λ q lt. omega arith) h.within)
            (omega arith));
    }
