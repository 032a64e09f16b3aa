-- ===== src/Common/Maps.antt =====
-- Finite maps as association lists, for the maps of the program that are keyed by text.
use Prim.Native.String.{String}
use mathlib.Core.Path.{◌≡◌, refl}
use mathlib.Core.List.{List, [], ◌∷◌}
use mathlib.Core.Option.{Option, none, some}
use native.Mathlib.Omega.{arith}
use text.Mathlib.Text.{◌==◌ as str_eq}
use text.Mathlib.TextEquality.{eq_iff as str_eq_iff}
use ensemble_chat.Common.Tests.{if◌then◌else◌}

abbrev pub Dict {ℓ} : Type ℓ → Type ℓ
Dict V = List (String × V)

module _ {ℓ} {V : Type ℓ} where
  unfoldable pub lookup : String → Dict V → Option V
  lookup key [] = none
  lookup key (entry ∷ rest) =
      let later = lookup key rest in if str_eq entry.0 key then some entry.1 else later

  unfoldable pub insert : String → V → Dict V → Dict V
  insert key value [] = (key, value) ∷ []
  insert key value (entry ∷ rest) =
      let later = insert key value rest in
      if str_eq entry.0 key then (key, value) ∷ rest else entry ∷ later

  -- Reading at any key after a write.
  pub lookup-insert :
      (written read : String) (value : V) (d : Dict V)
      → lookup read (insert written value d)
        ≡ (if str_eq written read then some value else lookup read d)
  unfolding lookup insert
  lookup-insert written read value [] = refl
  lookup-insert written read value (entry ∷ rest) = ground (
    arith,
    lookup-insert written read value rest,
    str_eq_iff entry.0 written,
    str_eq_iff entry.0 read,
    str_eq_iff written read,
  )
