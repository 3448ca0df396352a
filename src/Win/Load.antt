-- ===== src/Win/Load.antt =====
-- src/win.rs, `WinUsb::get`: the entry points of `winusb.dll`, resolved when first needed. The loader
-- is Windows', the record `Loader`.
use fan_control_lian_li_wire.Base.{
  ℕ, ◌≡◌, refl, Option, none, some, List, [], ◌∷◌, Bytes, bytes, Result, ok, err, and_then,
}
use fan_control_lian_li_wire.Win.{WinError}

-- A call that gives `none` has failed, and `last_error` has its code.
pub record Loader : Type 1 where
  pub World : Type 0
  pub Module : Type 0
  pub Address : Type 0
  pub load_library : World → Bytes → Option Module × World
  pub get_proc_address : World → Module → Bytes → Option Address × World
  pub last_error : World → ℕ

-- The fields of the source's struct, in the order in which they are resolved.
abbrev pub entry_points : List Bytes
entry_points =
    bytes "WinUsb_Initialize"
    ∷ bytes "WinUsb_Free"
    ∷ bytes "WinUsb_QueryInterfaceSettings"
    ∷ bytes "WinUsb_QueryPipe"
    ∷ bytes "WinUsb_SetPipePolicy"
    ∷ bytes "WinUsb_ReadPipe"
    ∷ bytes "WinUsb_WritePipe"
    ∷ bytes "WinUsb_FlushPipe"
    ∷ bytes "WinUsb_AbortPipe"
    ∷ []

module _ (loader : Loader) where
  -- `WinError::last`.
  abbrev pub last : Bytes → loader.World → WinError
  last call w = record { call = call; code = loader.last_error w }

  unfoldable pub entry :
      loader.World → loader.Module → Bytes → Result WinError loader.Address × loader.World
  entry w library name =
      let (address, w') = loader.get_proc_address w library name in
      elim address [ none ↦ (err (last (bytes "GetProcAddress") w'), w') | some a ↦ (ok a, w') ]

  unfoldable pub entries :
      loader.World
      → loader.Module
      → List Bytes
      → Result WinError (List loader.Address) × loader.World
  unfolding entry
  entries w library [] = (ok [], w)
  entries w library (name ∷ names) =
      and_then (entry w library name)
        λ a w1. and_then (entries w1 library names) λ rest w2. (ok (a ∷ rest), w2)

  unfoldable pub load : loader.World → Result WinError (List loader.Address) × loader.World
  unfolding entries
  load w =
      let (library, w') = loader.load_library w (bytes "winusb.dll") in
      elim library [
        | none ↦ (err (last (bytes "LoadLibraryW") w'), w')
        | some m ↦ entries w' m entry_points
      ]

  abbrev pub Loaded : Type 0
  Loaded = Option (Result WinError (List loader.Address))

  -- `get`, with what is loaded already, if it is; a failure is remembered as well.
  unfoldable pub get :
      Loaded → loader.World → Result WinError (List loader.Address) × (Loaded × loader.World)
  unfolding load
  get (some r) w = (r, (some r, w))
  get none w = let (r, w') = load w in (r, (some r, w'))

  -- Once loaded, the same entry points are given without a further call.
  pub get_twice :
      (loaded : Loaded) (w : loader.World)
      → let (r, (loaded', w')) = get loaded w in get loaded' w' ≡ (r, (loaded', w'))
  unfolding get
  get_twice none w = refl
  get_twice (some r) w = refl
