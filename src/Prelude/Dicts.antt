-- ===== src/Prelude/Dicts.antt =====
-- Python's dicts with text keys, as association lists in the order of insertion.
use mathlib.Core.Option.{Option, none, some}
use mathlib.Core.List.{List, [], ◌∷◌}
use Prim.Native.String.{String}
use text.Mathlib.Text.{◌==◌ as str_eq}
use lula.Prelude.Tests.{if◌then◌else◌}

module _ {ℓ} {V : Type ℓ} where
  -- d.get(key)
  unfoldable pub get : String → List (String × V) → Option V
  get key [] = none
  get key ((k, v) ∷ rest) = if str_eq k key then some v else get key rest

  -- d[key] = value
  unfoldable pub put : String → V → List (String × V) → List (String × V)
  put key value [] = (key, value) ∷ []
  put key value ((k, v) ∷ rest) =
      if str_eq k key then (k, value) ∷ rest else (k, v) ∷ put key value rest
