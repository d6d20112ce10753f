-- ===== src/Prelude/Maps.antt =====
-- Python dictionaries with text keys: association lists in insertion order, where assigning to a
-- key that is there keeps its place.
use Prim.Native.String.{String}
use text.Mathlib.Text.{◌==◌ as str_eq}
use text.Mathlib.TextEquality.{eq_iff}
use mathlib.Core.Path.{◌≡◌, refl}
use mathlib.Core.Option.{Option, none, some}
use mathlib.Core.List.{List, [], ◌∷◌}
use native.Mathlib.Omega.{arith}
use triage_assistant.Prelude.Tests.{if◌then◌else◌}

module _ {ℓ} {V : Type ℓ} where
  unfoldable pub lookup : String → List (String × V) → Option V
  lookup key [] = none
  lookup key ((name, value) ∷ rest) = if str_eq name key then some value else lookup key rest

  unfoldable pub assign : String → V → List (String × V) → List (String × V)
  assign key new [] = (key, new) ∷ []
  assign key new ((name, old) ∷ rest) =
      if str_eq name key then (name, new) ∷ rest else (name, old) ∷ assign key new rest

  pub lookup-assign :
      (new : V) (dict : List (String × V)) (key other : String)
      → lookup other (assign key new dict)
        ≡ (if str_eq key other then some new else lookup other dict)
  unfolding lookup assign
  lookup-assign new [] key other = refl
  lookup-assign new ((name, old) ∷ dict) key other = ground (
    eq_iff name other,
    eq_iff name key,
    eq_iff key other,
    lookup-assign new dict key other,
    arith,
  )
