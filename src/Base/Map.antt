-- ===== src/Base/Map.antt =====
-- `HashMap<[u8; 6], V>` and `HashMap<String, V>` as association lists, in the order of insertion.
use mathlib.Core.Path.{◌≡◌, refl}
use mathlib.Core.List.{List, [], ◌∷◌}
use mathlib.Core.Option.{Option, none, some}
use native.Mathlib.Omega.{arith}
use fan_control_lian_li_wire.Base.Tests.{if◌then◌else◌}
use fan_control_lian_li_wire.Base.ByteStrings.{Bytes, bytes_eq, bytes_eq_iff}

module _ {ℓ} {V : Type ℓ} where
  abbrev pub get : List (Bytes × V) → Bytes → Option V
  get [] key = none
  get ((at, held) ∷ rest) key = if bytes_eq at key then some held else get rest key

  abbrev pub insert : List (Bytes × V) → Bytes → V → List (Bytes × V)
  insert [] key new = (key, new) ∷ []
  insert ((at, held) ∷ rest) key new =
      if bytes_eq at key then (key, new) ∷ rest else (at, held) ∷ insert rest key new

  abbrev pub remove : List (Bytes × V) → Bytes → List (Bytes × V)
  remove [] key = []
  remove ((at, held) ∷ rest) key =
      let others = remove rest key in if bytes_eq at key then others else (at, held) ∷ others

  pub get-insert :
      (entries : List (Bytes × V)) (key other : Bytes) (new : V)
      → get (insert entries key new) other
        ≡ (if bytes_eq key other then some new else get entries other)
  get-insert [] key other new = refl
  get-insert ((at, held) ∷ rest) key other new = ground (
    arith,
    bytes_eq_iff key other,
    bytes_eq_iff at other,
    bytes_eq_iff at key,
    get-insert rest key other new,
  )

  pub get-remove :
      (entries : List (Bytes × V)) (key other : Bytes)
      → get (remove entries key) other ≡ (if bytes_eq key other then none else get entries other)
  get-remove [] key other = ground arith
  get-remove ((at, held) ∷ rest) key other = ground (
    arith,
    bytes_eq_iff key other,
    bytes_eq_iff at other,
    bytes_eq_iff at key,
    get-remove rest key other,
  )
