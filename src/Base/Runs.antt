-- ===== src/Base/Runs.antt =====
-- A session: events one after the other, by a function for one event.
use mathlib.Core.Path.{◌≡◌, refl}
use mathlib.Core.List.{List, [], ◌∷◌, ◌++◌}

module _ {E S : Type 0} (step : E → S → S) where
  unfoldable pub run_by : List E → S → S
  run_by [] s = s
  run_by (e ∷ es) s = run_by es (step e s)

  pub run_by-append : (es fs : List E) (s : S) → run_by (es ++ fs) s ≡ run_by fs (run_by es s)
  unfolding run_by
  run_by-append [] fs s = refl
  run_by-append (e ∷ es) fs s = run_by-append es fs (step e s)

  -- What each event keeps, a session keeps.
  pub run_by-keeps {ℓ} :
      (P : S → Type ℓ)
      → ((e : E) (s : S) → P s → P (step e s))
      → (es : List E) (s : S) → P s
      → P (run_by es s)
  unfolding run_by
  run_by-keeps P keeps [] s h = h
  run_by-keeps P keeps (e ∷ es) s h = run_by-keeps P keeps es (step e s) (keeps e s h)
