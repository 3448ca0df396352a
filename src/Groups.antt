-- ===== src/Groups.antt =====
-- src/groups.rs, `Group`: one device and what has been asked of it. Times are nanoseconds.
pub mod Sighting
pub mod Live
pub mod Agreement
mod Examples
use fan_control_lian_li_wire.Base.{
  ℕ, ◌+◌, ◌-◌, ◌*◌, ◌/◌, ◌%◌, ◌^◌, ◌≤◌, ◌<◌, ◌≡◌, ap, ◌∙◌, ◌≡⟨◌⟩◌, ◌∎, ◌≢◌, ◌↔◌, ◌⊎◌, Bool, true,
  false, not, ◌&&◌, ◌||◌, Option, none, some, ◌∷◌, ◌++◌, ltb, leb, ◌==◌, if◌then◌else◌, set, take,
  Bytes, bytes_eq, get, bytes, secs, duration_since, ◌>>=◌,
}
use fan_control_lian_li_wire.Discovery.{Device}
use fan_control_lian_li_wire.Speed

abbrev pub offline_after : ℕ
offline_after = secs 15

abbrev pub forget_after : ℕ
forget_after = secs 600

abbrev pub ack_window : ℕ
ack_window = secs 3

abbrev pub keepalive : ℕ
keepalive = secs 1

abbrev pub agree_count : ℕ
agree_count = 3

-- `Identity` and `Shape` are tuples in the source.
pub record Identity : Type 0 where
  pub master_mac : Bytes
  pub channel : ℕ
  pub receiver : ℕ

pub record Shape : Type 0 where
  pub device_type : ℕ
  pub fan_count : ℕ
  pub right_attach : Bool
  pub fan_types : Bytes

unfoldable pub identity : Device → Identity
identity d = record { master_mac = d.master_mac; channel = d.channel; receiver = d.receiver }

unfoldable pub shape : Device → Shape
shape d = record {
  device_type = d.device_type;
  fan_count = d.fan_count;
  right_attach = d.right_attach;
  fan_types = d.fan_types;
}

unfoldable pub identity_eq : Identity → Identity → Bool
identity_eq a b =
    bytes_eq a.master_mac b.master_mac && a.channel == b.channel && a.receiver == b.receiver

abbrev pub bool_eq : Bool → Bool → Bool
bool_eq true b = b
bool_eq false b = not b

unfoldable pub shape_eq : Shape → Shape → Bool
shape_eq a b =
    a.device_type == b.device_type
    && a.fan_count == b.fan_count
    && bool_eq a.right_attach b.right_attach
    && bytes_eq a.fan_types b.fan_types

pub record Group : Type 0 where
  pub device : Device
  pub last_seen : ℕ
  pub target : Option Bytes
  pub last_sent : Option ℕ
  pub unacknowledged : ℕ  -- u32
  pub identity : Option (Identity × ℕ)
  pub shape : Option (Shape × ℕ)

unfoldable pub new : Device → ℕ → Group
new device now = record {
  device = device;
  last_seen = now;
  target = none;
  last_sent = none;
  unacknowledged = 0;
  identity = none;
  shape = none;
}

unfoldable pub online : Group → ℕ → Bool
online g now = leb (duration_since now g.last_seen) offline_after

unfoldable pub bound_to : Group → Bytes → Bool
bound_to g master_mac = bytes_eq g.device.master_mac master_mac

unfoldable pub has_fans : Group → Bool
has_fans g = g.device.device_type == 0 && ltb 0 g.device.fan_count

unfoldable pub acknowledged : Group → ℕ → Bool
acknowledged g now = elim g.target [
  | none ↦ false
  | some target ↦
      leb (duration_since now g.last_seen) ack_window && Speed.acknowledged g.device.duty target
]

unfoldable pub due : Group → ℕ → Bool
due g now = elim g.target [
  | none ↦ false
  | some target ↦ elim g.last_sent [
    | none ↦ true
    | some sent ↦ Speed.differs g.device.duty target || leb keepalive (duration_since now sent)
  ]
]

-- `agree`, over the equality of `T`: the new candidate, and the value that is now agreed on.
module _ {T : Type 0} (eq : T → T → Bool) where
  unfoldable pub agree : Option (T × ℕ) → T → Option (T × ℕ) × Option T
  agree none seen = (some (seen, 1), none)
  agree (some (value, count)) seen =
      if eq value seen
      then (let more = (count + 1) % 2 ^ 32 in
          if leb agree_count more then (none, some seen) else (some (value, more), none))
      else (some (seen, 1), none)

-- The device as seen, with the identity and the shape that are kept.
abbrev pub keep : Device → Device → Device
keep kept seen = record seen {
  master_mac = kept.master_mac;
  channel = kept.channel;
  receiver = kept.receiver;
  device_type = kept.device_type;
  fan_count = kept.fan_count;
  right_attach = kept.right_attach;
  fan_types = kept.fan_types;
}

abbrev pub with_identity : Device → Option Identity → Device
with_identity d none = d
with_identity d (some i) = record d {
  master_mac = i.master_mac;
  channel = i.channel;
  receiver = i.receiver;
}

abbrev pub with_shape : Device → Option Shape → Device
with_shape d none = d
with_shape d (some s) = record d {
  device_type = s.device_type;
  fan_count = s.fan_count;
  right_attach = s.right_attach;
  fan_types = s.fan_types;
}

-- The two middle parts of `take_sighting`, for a group that is online.
unfoldable pub settle_identity : Device → Device → Group → Group
settle_identity kept seen g =
    if identity_eq (identity seen) (identity kept)
    then record g { identity = none }
    else (let (candidate, agreed) = agree identity_eq g.identity (identity seen) in
        record g { device = with_identity g.device agreed; identity = candidate })

unfoldable pub settle_shape : Device → Device → Group → Group
settle_shape kept seen g =
    if shape_eq (shape seen) (shape kept)
    then record g { shape = none }
    else (let (candidate, agreed) = agree shape_eq g.shape (shape seen) in
        record g { device = with_shape g.device agreed; shape = candidate })

-- The end of `take_sighting`: the group is heard now, and its sends may be acknowledged.
unfoldable pub note_heard : Group → ℕ → Group
note_heard g now =
    let heard = record g { last_seen = now } in
    if acknowledged heard now then record heard { unacknowledged = 0 } else heard

unfoldable pub take_sighting : Group → Device → ℕ → Group
take_sighting g seen now =
    note_heard
      (if not (online g now)
        then record g { device = seen; identity = none; shape = none }
        else settle_shape g.device seen
            (settle_identity g.device seen (record g { device = keep g.device seen })))
      now
