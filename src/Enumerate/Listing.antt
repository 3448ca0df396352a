-- ===== src/Enumerate/Listing.antt =====
-- src/enumerate.rs: what `find` makes of the devices that Windows lists.
use fan_control_lian_li_wire.Base.{
  ℕ, zero, suc, ◌+◌, ◌<◌, ◌≡◌, refl, ap, ◌∙◌, true, none, some, List, [], ◌∷◌, ◌++◌, append_assoc,
  append-nil, arith, ◌==◌, length, set, Bytes, ok,
}
use fan_control_lian_li_wire.Enumerate.{pair}
use fan_control_lian_li_wire.Enumerate.Walk.{
  error_no_more_items, SetupApi, last, path_at, walk_end, walk_from, destroyed, interfaces,
}
use fan_control_lian_li_wire.Enumerate.Walk

module _ (api : SetupApi) where
  -- From `index` on, and from a world on, the devices have these paths, and the call after the last
  -- one ends in the world `w'`.
  pub data Lists (set : api.DeviceSet) (w' : api.World) : ℕ → api.World → List Bytes → Type 0 where
    done :
        {index : ℕ} {w : api.World}
        → (api.enum_interfaces w set index).0 ≡ none
        → (api.enum_interfaces w set index).1 ≡ w'
        → Lists set w' index w []
    listed :
        {index : ℕ} {w : api.World} {i : api.Interface} {path : Bytes} {paths : List Bytes}
        → (api.enum_interfaces w set index).0 ≡ some i
        → (path_at api (api.enum_interfaces w set index).1 set i).0 ≡ ok path
        → Lists set w' (index + 1) (path_at api (api.enum_interfaces w set index).1 set i).1 paths
        → Lists set w' index w (path ∷ paths)

  walk_from-Lists :
      (rounds index : ℕ) (w w' : api.World) (set : api.DeviceSet) (found paths : List Bytes)
      → Lists set w' index w paths
      → length paths < rounds
      → walk_from api rounds index w set found ≡ (some (walk_end api w' (found ++ paths)), w')
  unfolding walk_from
  walk_from-Lists zero index w w' set found paths l h = absurd (omega arith)
  walk_from-Lists (suc rounds) index w w' set found [] (done e at) h =
      rw (e, walk_from, at, append-nil found) refl
  walk_from-Lists (suc rounds) index w w' set found (path ∷ paths) (listed {i} e p rest) h =
      rw (e, walk_from, p)
        (walk_from-Lists rounds (index + 1)
            (path_at api (api.enum_interfaces w set index).1 set i).1 w' set (found ++ (path ∷ []))
            paths rest (omega arith)
          ∙ ap (λ ps. (some (walk_end api w' ps), w')) (append_assoc found (path ∷ []) paths))

  -- Where Windows lists devices with these paths and then says that there are no more, more rounds
  -- than there are devices are enough: `find` gives the pair of dongles among the paths, or the error
  -- of there being none or several, and the list is destroyed after the last call.
  pub find-listed :
      (rounds : ℕ) (w w' : api.World) (set : api.DeviceSet) (paths : List Bytes)
      → (api.get_class_devs w).0 ≡ some set
      → Lists set w' 0 (api.get_class_devs w).1 paths
      → length paths < rounds
      → api.last_error w' ≡ error_no_more_items
      → Walk.find api rounds w ≡ (some (pair paths), api.destroy w' set)
  unfolding Walk.find interfaces
  find-listed rounds w w' set paths e l h last =
      let over : (api.last_error w' == error_no_more_items) ≡ true = ground (arith, last) in
      let walked = walk_from-Lists rounds 0 (api.get_class_devs w).1 w' set [] paths l h in
      rw (e, Walk.find, interfaces, walked, over) refl
