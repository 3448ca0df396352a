-- ===== src/Probe/Resolve.antt =====
-- src/bin/probe.rs, `resolve` and the choice of `set`: which group a prefix of an address names.
use fan_control_lian_li_wire.Base.{
  Bool, List, [], ◌∷◌, ◌++◌, map, filter, Bytes, bytes, join_with, Result, ok, err, starts_with,
}
use fan_control_lian_li_wire.Discovery.{Device}
use fan_control_lian_li_wire.Probe.Text.{mac}
use fan_control_lian_li_wire.Tracker.{Tracker, group}
use fan_control_lian_li_wire.Engine.{Snapshot}
use fan_control_lian_li_wire.Tracker

abbrev pub has_prefix : Bytes → Bytes → Bool
has_prefix prefix address = starts_with (mac address) prefix

abbrev pub addresses : Snapshot → List Bytes
addresses snapshot = map (λ g. g.mac) snapshot.groups

abbrev pub several : Bytes → List Bytes → Bytes
several prefix matching =
    bytes "'" ++ prefix ++ bytes "' matches " ++ join_with (bytes ", ") (map mac matching)

unfoldable pub resolve_in : List Bytes → Bytes → List Bytes → Result Bytes Bytes
resolve_in known prefix [] = err (
    bytes "no group starts with '"
    ++ prefix
    ++ bytes "'; groups: "
    ++ join_with (bytes ", ") (map mac known))
resolve_in known prefix (one ∷ []) = ok one
resolve_in known prefix (one ∷ two ∷ more) = err (several prefix (one ∷ two ∷ more))

unfoldable pub resolve : Snapshot → Bytes → Result Bytes Bytes
resolve snapshot prefix =
    resolve_in (addresses snapshot) prefix (filter (has_prefix prefix) (addresses snapshot))

abbrev pub devices : Tracker → List Device
devices t = map (λ g. g.device) (Tracker.fans t)

unfoldable pub choose_in : List Bytes → Bytes → List Device → Result Bytes Device
choose_in known prefix [] = err (
    bytes "no fan group starts with '"
    ++ prefix
    ++ bytes "'; groups: "
    ++ join_with (bytes ", ") (map mac known))
choose_in known prefix (one ∷ []) = ok one
choose_in known prefix (one ∷ two ∷ more) =
    err (several prefix (map (λ d. d.mac) (one ∷ two ∷ more)))

-- The match of `set`.
unfoldable pub choose : Tracker → Bytes → Result Bytes Device
choose t prefix =
    choose_in (map (λ d. d.mac) (devices t)) prefix
      (filter (λ d. has_prefix prefix d.mac) (devices t))
