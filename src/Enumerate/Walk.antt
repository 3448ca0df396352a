-- ===== src/Enumerate/Walk.antt =====
-- src/enumerate.rs, `interfaces` and `find`: the paths of the devices that register the dongles'
-- interface. The list of devices is Windows', the record `SetupApi`.
use fan_control_lian_li_wire.Base.{
  ℕ, zero, suc, ◌+◌, ◌*◌, not, Option, none, some, List, [], ◌∷◌, ◌++◌, ◌==◌, if◌then◌else◌, set,
  drop, Bytes, bytes, Result, ok, err, ◌>>=◌, map_err, from_utf16_lossy,
}
use fan_control_lian_li_wire.Win.{WinError}
use fan_control_lian_li_wire.Enumerate.{Dongles, Error, windows, pair}

abbrev pub error_insufficient_buffer : ℕ
error_insufficient_buffer = 122

abbrev pub error_no_more_items : ℕ
error_no_more_items = 259

-- `DEVICE_INTERFACE_DETAIL_PATH_OFFSET`.
abbrev pub path_offset : ℕ
path_offset = 4

-- A call that gives `none` has failed, and `last_error` has its code. The first call for a detail is
-- made without a buffer; it always fails, and says how many bytes are needed. The second gives that
-- many bytes of the buffer.
pub record SetupApi : Type 1 where
  pub World : Type 0
  pub DeviceSet : Type 0
  pub Interface : Type 0
  pub get_class_devs : World → Option DeviceSet × World
  pub enum_interfaces : World → DeviceSet → ℕ → Option Interface × World
  pub detail_size : World → DeviceSet → Interface → ℕ × World
  pub detail : World → DeviceSet → Interface → ℕ → Option Bytes × World
  pub destroy : World → DeviceSet → World
  pub last_error : World → ℕ

-- `as_chunks::<2>().0` as `u16::from_le_bytes`: an odd byte at the end is left out.
unfoldable pub u16_units : Bytes → List ℕ
u16_units [] = []
u16_units (low ∷ []) = []
u16_units (low ∷ high ∷ rest) = (low + high * 256) ∷ u16_units rest

-- `take_while(|unit| *unit != 0)`.
unfoldable pub before_zero : List ℕ → List ℕ
before_zero [] = []
before_zero (u ∷ us) = if u == 0 then [] else u ∷ before_zero us

-- The path in the bytes of a detail.
unfoldable pub path_of : Bytes → Bytes
unfolding u16_units before_zero
path_of detail = from_utf16_lossy (before_zero (u16_units (drop path_offset detail)))

module _ (api : SetupApi) where
  abbrev pub last : Bytes → api.World → WinError
  last call w = record { call = call; code = api.last_error w }

  -- What one round makes of an interface that was found.
  unfoldable pub path_at :
      api.World → api.DeviceSet → api.Interface → Result WinError Bytes × api.World
  path_at w set i =
      let (required, w1) = api.detail_size w set i in
      if not (api.last_error w1 == error_insufficient_buffer)
      then (err (last (bytes "SetupDiGetDeviceInterfaceDetailW") w1), w1)
      else (let (answer, w2) = api.detail w1 set i required in
          elim answer [
            | none ↦ (err (last (bytes "SetupDiGetDeviceInterfaceDetailW") w2), w2)
            | some buffer ↦ (ok (path_of buffer), w2)
          ])

  abbrev pub walk_end : api.World → List Bytes → Result WinError (List Bytes)
  walk_end w paths =
      if api.last_error w == error_no_more_items
      then ok paths
      else err (last (bytes "SetupDiEnumDeviceInterfaces") w)

  -- The loop of `walk`, from `index` on; a `none` says that it goes on after these rounds.
  unfoldable pub walk_from :
      ℕ
      → ℕ
      → api.World
      → api.DeviceSet
      → List Bytes
      → Option (Result WinError (List Bytes)) × api.World
  unfolding path_at
  walk_from zero index w set paths = (none, w)
  walk_from (suc rounds) index w set paths =
      let (found, w1) = api.enum_interfaces w set index in
      elim found [
        | none ↦ (some (walk_end w1 paths), w1)
        | some i ↦
            let (answer, w2) = path_at w1 set i in
            elim answer [
              | err e ↦ (some (err e), w2)
              | ok path ↦ walk_from rounds (index + 1) w2 set (paths ++ (path ∷ []))
            ]
      ]

  abbrev pub destroyed :
      api.DeviceSet
      → Option (Result WinError (List Bytes)) × api.World
      → Option (Result WinError (List Bytes)) × api.World
  destroyed set (answer, w) = (answer, api.destroy w set)

  unfoldable pub interfaces : ℕ → api.World → Option (Result WinError (List Bytes)) × api.World
  unfolding walk_from
  interfaces rounds w =
      let (set, w1) = api.get_class_devs w in
      elim set [
        | none ↦ (some (err (last (bytes "SetupDiGetClassDevsW") w1)), w1)
        | some s ↦ destroyed s (walk_from rounds 0 w1 s [])
      ]

  abbrev pub paired : Option (Result WinError (List Bytes)) → Option (Result Error Dongles)
  paired none = none
  paired (some r) = some (map_err windows r >>= pair)

  unfoldable pub find : ℕ → api.World → Option (Result Error Dongles) × api.World
  unfolding interfaces pair
  find rounds w = let (answer, w1) = interfaces rounds w in (paired answer, w1)
