-- ===== src/Base/Results.antt =====
-- The outcome of an awaited call: a value, or the text `String(e)` of what was thrown.
use Prim.Native.String.{String}
use mathlib.Core.Option.{Option, none, some}

pub data Result {ℓ} (A : Type ℓ) : Type ℓ where
  ok : A → Result A
  err : String → Result A

-- The error, if there is one.
abbrev pub refused_with {ℓ} : {A : Type ℓ} → Result A → Option String
refused_with (ok a) = none
refused_with (err e) = some e
