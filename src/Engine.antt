-- ===== src/Engine.antt =====
-- src/engine.rs: the state of the fan loop, and what its parts share.
pub mod Log
pub mod Poll
pub mod Sweep
pub mod Recover
pub mod Drive
pub mod Publish
pub mod Tick
pub mod Steady
pub mod Targets
pub mod Driving
pub mod Failsafe
pub mod Backoff
pub mod Outage
pub mod Repeats
pub mod Published
pub mod Requests
pub mod Host
pub mod Wire
pub mod Kept
pub mod Sound
pub mod Asked
pub mod Sending
pub mod Sent
pub mod Counting
pub mod Counted
pub mod Thread
mod Examples
use fan_control_lian_li_wire.Base.{
  ℕ, ◌+◌, ◌-◌, ◌*◌, ◌/◌, ◌%◌, ◌^◌, ◌≤◌, ◌<◌, min, max, ◌≡◌, ap, ◌∙◌, ◌≡⟨◌⟩◌, ◌∎, ◌≢◌, ◌↔◌, ◌⊎◌,
  Bool, true, false, not, ◌&&◌, ◌||◌, Option, none, some, List, [], ◌∷◌, ◌++◌, map, ltb, ◌==◌,
  if◌then◌else◌, length, take, Bytes, get, insert, remove, bytes, decimal, hex_byte, secs,
  duration_since, Result, err, ◌>>=◌,
}
use fan_control_lian_li_wire.Discovery.{Error, Reply}
use fan_control_lian_li_wire.Tracker.{Tracker, group, fans, clear_target, sent}
use fan_control_lian_li_wire.Dongle
use fan_control_lian_li_wire.Tracker

abbrev pub tick_length : ℕ
tick_length = secs 1

abbrev pub floor_percent : ℕ
floor_percent = 30

abbrev pub failsafe_percent : ℕ
failsafe_percent = 100

abbrev pub poll_failures : ℕ
poll_failures = 3

abbrev pub change_log_every : ℕ
change_log_every = secs 10

abbrev pub reconnect_first_wait : ℕ
reconnect_first_wait = secs 2

abbrev pub reconnect_max_wait : ℕ
reconnect_max_wait = secs 60

abbrev pub skip_log_every : ℕ
skip_log_every = secs 60

abbrev pub repeat_log_every : ℕ
repeat_log_every = secs 60

-- The dongle as the engine needs it.
pub record Link : Type 1 where
  pub Carrier : Type 0
  pub master_mac : Carrier → Bytes
  pub channel : Carrier → ℕ
  pub poll : Carrier → Result Dongle.Error Reply × Carrier
  pub send : Carrier → ℕ → ℕ → Bytes → Result Dongle.Error (Unit {0}) × Carrier
  pub reconnect : Carrier → Bool → Result Dongle.Error (Unit {0}) × Carrier

pub data Alarm : Type 0 where
  dongle : Alarm

-- `Alarm::fmt`.
abbrev pub alarm_text : Alarm → Bytes
alarm_text dongle = decimal poll_failures ++ bytes " polls failed in a row"

pub record GroupState : Type 0 where
  pub mac : Bytes
  pub receiver : ℕ
  pub fan_count : ℕ
  pub model : ℕ
  pub online : Bool
  pub rpm : List ℕ
  pub duty : Bytes
  pub target : Option Bytes
  pub acknowledged : Bool
  pub unacknowledged : ℕ

pub record Snapshot : Type 0 where
  pub master_mac : Bytes
  pub channel : ℕ
  pub ticks : ℕ  -- u64, as the next four
  pub polls : ℕ
  pub poll_failures : ℕ
  pub reconnects : ℕ
  pub skipped_records : ℕ
  pub alarm : Option Alarm
  pub last_error : Option Bytes
  pub groups : List GroupState

pub record ChangeLog : Type 0 where
  pub logged_at : ℕ
  pub held : ℕ  -- u32
  pub pending : Option Bytes

-- The loop's state between ticks.
pub record Core : Type 0 where
  pub tracker : Tracker
  pub channel : ℕ
  pub wanted : List (Bytes × ℕ)
  pub heartbeat_sent : Bool
  pub last_heartbeat : Option ℕ
  pub failures_in_a_row : ℕ  -- u32
  pub reconnect_at : Option ℕ
  pub reconnect_wait : ℕ
  pub last_skip_log : Option ℕ
  pub last_online : List Bytes
  pub change_log : List (Bytes × ChangeLog)
  pub fail_log : List (Bytes × (ℕ × ℕ))
  pub alarm : Option Alarm
  pub snapshot : Snapshot
  pub events : List Bytes

-- `Snapshot { master_mac, channel, ..Snapshot::default() }`.
abbrev pub first_snapshot : Bytes → ℕ → Snapshot
first_snapshot master_mac channel = record {
  master_mac = master_mac;
  channel = channel;
  ticks = 0;
  polls = 0;
  poll_failures = 0;
  reconnects = 0;
  skipped_records = 0;
  alarm = none;
  last_error = none;
  groups = [];
}

unfoldable pub new : Bytes → ℕ → Core
new master_mac channel = record {
  tracker = Tracker.new master_mac;
  channel = channel;
  wanted = [];
  heartbeat_sent = false;
  last_heartbeat = none;
  failures_in_a_row = 0;
  reconnect_at = none;
  reconnect_wait = reconnect_first_wait;
  last_skip_log = none;
  last_online = [];
  change_log = [];
  fail_log = [];
  alarm = none;
  snapshot = first_snapshot master_mac channel;
  events = [];
}

-- `self.events.push`.
unfoldable pub push_event : Bytes → Core → Core
push_event line c = record c { events = c.events ++ (line ∷ []) }

abbrev pub push_events : List Bytes → Core → Core
push_events lines c = record c { events = c.events ++ lines }

-- `clamp` of `want`.
unfoldable pub clamp_percent : ℕ → ℕ
clamp_percent percent = max floor_percent (min percent 100)

unfoldable pub want : Core → Bytes → ℕ → Core
unfolding clamp_percent
want c mac percent = record c { wanted = insert c.wanted mac (clamp_percent percent) }

join : List Bytes → Bytes
join [] = []
join (x ∷ []) = x
join (x ∷ y ∷ rest) = x ++ bytes ":" ++ join (y ∷ rest)

-- The address as six bytes of hexadecimal.
unfoldable pub text : Bytes → Bytes
unfolding join
text mac = join (map hex_byte mac)

abbrev pub is_some {ℓ} : {A : Type ℓ} → Option A → Bool
is_some none = false
is_some (some a) = true

unfoldable pub release : Core → Bytes → Core
unfolding text push_event
release c mac =
    let asked = is_some (get c.wanted mac) in
    let (tracker, driven) = clear_target c.tracker mac in
    let released = record c { wanted = remove c.wanted mac; tracker = tracker } in
    if asked || driven
    then push_event (text mac ++ bytes " released; its fans keep their last duty") released
    else released

unfoldable pub take_events : Core → List Bytes × Core
take_events c = (c.events, record c { events = [] })

-- `now.duration_since(last)` of an earlier time that may not be there.
abbrev pub within_interval : ℕ → ℕ → Option ℕ → Bool
within_interval now interval none = false
within_interval now interval (some last) = ltb (duration_since now last) interval
