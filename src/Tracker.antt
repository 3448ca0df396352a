-- ===== src/Tracker.antt =====
-- src/groups.rs, `Tracker`: every device heard since start, in slot order.
pub mod Counts
pub mod Order
pub mod Sorted
pub mod Invariant
pub mod Targets
pub mod Forget
pub mod Holding
pub mod Slots
mod Examples
use fan_control_lian_li_wire.Base.{
  ℕ, ◌+◌, ◌-◌, ◌*◌, ◌/◌, ◌%◌, ◌^◌, ◌≤◌, ◌<◌, ◌≡◌, ap, ◌∙◌, ◌≡⟨◌⟩◌, ◌∎, ◌≢◌, ◌↔◌, ◌⊎◌, Bool, true,
  false, not, ◌&&◌, ◌||◌, Option, none, some, List, [], ◌∷◌, ◌++◌, map, ltb, ◌==◌, if◌then◌else◌,
  set, take, find, filter, any, all, filter_map, Bytes, bytes_eq, bytes_lt, get, insert, bytes,
  duration_since, ok, ◌>>=◌,
}
use fan_control_lian_li_wire.Discovery.{Device, Reply}
use fan_control_lian_li_wire.Groups.{
  forget_after, Group, bound_to, has_fans, acknowledged, keep, take_sighting,
}
use fan_control_lian_li_wire.Groups
use fan_control_lian_li_wire.Speed

pub record Tracker : Type 0 where
  pub master_mac : Bytes
  pub groups : List Group
  pub order : List Bytes

unfoldable pub new : Bytes → Tracker
new master_mac = record { master_mac = master_mac; groups = []; order = [] }

abbrev pub has_mac : Bytes → Group → Bool
has_mac mac g = bytes_eq g.device.mac mac

abbrev pub macs : List Group → List Bytes
macs = map (λ g. g.device.mac)

-- `contains`.
abbrev pub contains : List Bytes → Bytes → Bool
contains order mac = any (λ m. bytes_eq m mac) order

unfoldable pub group : Tracker → Bytes → Option Group
group t mac = find (has_mac mac) t.groups

-- One round of the loop of `observe`.
unfoldable pub upsert : Device → ℕ → List Group → List Group
upsert seen now [] = Groups.new seen now ∷ []
upsert seen now (g ∷ gs) =
    if has_mac seen.mac g then take_sighting g seen now ∷ gs else g ∷ upsert seen now gs

unfoldable pub upsert_all : List Device → ℕ → List Group → List Group
unfolding upsert
upsert_all [] now gs = gs
upsert_all (seen ∷ rest) now gs = upsert_all rest now (upsert seen now gs)

-- `sort_unstable`: equal addresses are indistinguishable, so every sort gives this list.
unfoldable pub insert_sorted : Bytes → List Bytes → List Bytes
insert_sorted m [] = m ∷ []
insert_sorted m (n ∷ ns) = if bytes_lt n m then n ∷ insert_sorted m ns else m ∷ n ∷ ns

unfoldable pub sort : List Bytes → List Bytes
unfolding insert_sorted
sort [] = []
sort (m ∷ ms) = insert_sorted m (sort ms)

abbrev pub is_online : ℕ → Option Group → Bool
is_online now none = false
is_online now (some g) = Groups.online g now

-- The device with this address is known and online.
abbrev pub is_heard : List Group → ℕ → Bytes → Bool
is_heard gs now mac = is_online now (find (has_mac mac) gs)

unfoldable pub rebuild : Tracker → ℕ → Tracker
unfolding sort
rebuild t now =
    let order = filter (is_heard t.groups now) t.order in
    let joining =
      macs (filter (λ g. Groups.online g now && not (contains order g.device.mac)) t.groups) in
    record t { order = order ++ sort joining }

unfoldable pub observe : Tracker → Reply → ℕ → Tracker
unfolding upsert_all rebuild
observe t reply now = rebuild (record t { groups = upsert_all reply.devices now t.groups }) now

-- The test of `retain` in `sweep`.
unfoldable pub keeps : Bytes → ℕ → Group → Bool
keeps master now g =
    Groups.online g now || bound_to g master && ltb (duration_since now g.last_seen) forget_after

unfoldable pub sweep : Tracker → ℕ → Tracker × List (Bytes × Bool)
unfolding keeps rebuild
sweep t now =
    let master = t.master_mac in
    let forgotten =
      map (λ g. (g.device.mac, bound_to g master))
        (filter (λ g. not (keeps master now g)) t.groups) in
    (rebuild (record t { groups = filter (keeps master now) t.groups }) now, forgotten)

-- `order.iter().filter_map(|mac| self.group(mac))`.
abbrev pub lookup_all : List Group → List Bytes → List Group
lookup_all gs = filter_map (λ m. find (has_mac m) gs)

unfoldable pub online : Tracker → List Group
online t = lookup_all t.groups t.order

unfoldable pub fans : Tracker → List Group
unfolding online
fans t = filter (λ g. bound_to g t.master_mac && has_fans g) (online t)

unfoldable pub slot : Tracker → Bytes → ℕ
unfolding online
slot t mac = Speed.slot (map (λ g. g.device) (online t)) t.master_mac mac

-- A change of the first group with this address, in place.
abbrev pub update_group : Bytes → (Group → Group) → List Group → List Group
update_group mac f [] = []
update_group mac f (g ∷ gs) = if has_mac mac g then f g ∷ gs else g ∷ update_group mac f gs

-- `==` on `Option<[u8; 4]>`.
abbrev pub same_target : Option Bytes → Option Bytes → Bool
same_target none none = true
same_target none (some b) = false
same_target (some a) none = false
same_target (some a) (some b) = bytes_eq a b

unfoldable pub retarget : Bytes → Group → Group
retarget prepared g =
    if same_target g.target (some prepared)
    then g
    else record g { target = some prepared; last_sent = none; unacknowledged = 0 }

unfoldable pub set_target : Tracker → Bytes → Bytes → Tracker × Option Bytes
unfolding group retarget
set_target t mac wanted = elim (group t mac) [
  | none ↦ (t, none)
  | some g ↦
      let prepared = Speed.prepare g.device wanted in
      (record t { groups = update_group mac (retarget prepared) t.groups }, some prepared)
]

abbrev is_some {ℓ} : {A : Type ℓ} → Option A → Bool
is_some none = false
is_some (some a) = true

abbrev pub untarget : Group → Group
untarget g = record g { target = none; last_sent = none; unacknowledged = 0 }

unfoldable pub clear_target : Tracker → Bytes → Tracker × Bool
unfolding group
clear_target t mac = elim (group t mac) [
  | none ↦ (t, false)
  | some g ↦ (record t { groups = update_group mac untarget t.groups }, is_some g.target)
]

abbrev pub mark_sent : ℕ → Group → Group
mark_sent now g = record g {
  last_sent = some now;
  unacknowledged = (g.unacknowledged + 1) % 2 ^ 32;
}

unfoldable pub sent : Tracker → Bytes → ℕ → Tracker
sent t mac now = record t { groups = update_group mac (mark_sent now) t.groups }
