-- ===== src/Engine/Steady.antt =====
-- src/engine.rs: the fields that most steps of a tick leave alone.
use fan_control_lian_li_wire.Base.{
  ℕ, ◌≡◌, refl, inl, inr, Bool, Option, some, List, ltb, leb, Bool-cases, Option-cases, Bytes, get,
  duration_since,
}
use fan_control_lian_li_wire.Groups.{Group}
use fan_control_lian_li_wire.Tracker.{same_target}
use fan_control_lian_li_wire.Engine.{
  change_log_every, repeat_log_every, Link, Alarm, Core, push_event,
}
use fan_control_lian_li_wire.Engine.Log.{fail, flush_fail_log, log_change, flush_change_log}
use fan_control_lian_li_wire.Engine.Drive.{note_change}
use fan_control_lian_li_wire.Engine.Publish.{publish}
use fan_control_lian_li_wire.Engine.Sweep

-- The fields that only `heartbeat`, `poll`, `judge`, `recover` and the host's requests change.
pub record Settings : Type 0 where
  pub channel : ℕ
  pub wanted : List (Bytes × ℕ)
  pub heartbeat_sent : Bool
  pub last_heartbeat : Option ℕ
  pub failures_in_a_row : ℕ
  pub reconnect_at : Option ℕ
  pub reconnect_wait : ℕ
  pub alarm : Option Alarm

abbrev pub settings : Core → Settings
settings c = record {
  channel = c.channel;
  wanted = c.wanted;
  heartbeat_sent = c.heartbeat_sent;
  last_heartbeat = c.last_heartbeat;
  failures_in_a_row = c.failures_in_a_row;
  reconnect_at = c.reconnect_at;
  reconnect_wait = c.reconnect_wait;
  alarm = c.alarm;
}

-- Only the log, and what the snapshot says, may have changed.
pub record Logged (c c' : Core) : Type 0 where
  pub settings_kept : settings c' ≡ settings c
  pub tracker_kept : c'.tracker ≡ c.tracker

pub fail-Logged : (c : Core) (message : Bytes) (now : ℕ) → Logged c (fail c message now)
unfolding fail push_event
fail-Logged c message now = elim (Option-cases (get c.fail_log message)) [
  | inl e ↦ rw (e, fail) (record { settings_kept = refl; tracker_kept = refl })
  | inr (entry, e) ↦ elim (Bool-cases (leb repeat_log_every (duration_since now entry.0))) [
    | inl f ↦ rw (e, fail, f) (record { settings_kept = refl; tracker_kept = refl })
    | inr f ↦ rw (e, fail, f) (record { settings_kept = refl; tracker_kept = refl })
  ]
]

pub log_change-Logged :
    (c : Core) (mac : Bytes) (percent : ℕ) (target : Bytes) (now : ℕ)
    → Logged c (log_change c mac percent target now)
unfolding log_change push_event
log_change-Logged c mac percent target now = elim (Option-cases (get c.change_log mac)) [
  | inl e ↦ rw (e, log_change) (record { settings_kept = refl; tracker_kept = refl })
  | inr (entry, e) ↦ elim (Bool-cases (ltb (duration_since now entry.logged_at) change_log_every)) [
    | inl f ↦ rw (e, log_change, f) (record { settings_kept = refl; tracker_kept = refl })
    | inr f ↦ rw (e, log_change, f) (record { settings_kept = refl; tracker_kept = refl })
  ]
]

pub note_change-Logged :
    (message : ℕ → Bytes) (link : Link) (c : Core) (g : Group) (percent : ℕ) (target : Bytes)
    (now : ℕ)
    → Logged c (note_change message link c g percent target now)
unfolding note_change
note_change-Logged message link c g percent target now =
    elim (Bool-cases (same_target g.target (some target))) [
      | inl e ↦ rw (e, note_change) (record { settings_kept = refl; tracker_kept = refl })
      | inr e ↦ rw (e, note_change) (log_change-Logged c g.device.mac percent _ now)
    ]

pub flush-Logged : (c : Core) (now : ℕ) → Logged c (flush_fail_log (flush_change_log c now) now)
unfolding flush_fail_log flush_change_log
flush-Logged c now = record { settings_kept = refl; tracker_kept = refl }

pub settings-sweep : (c : Core) (now : ℕ) → settings (Sweep.sweep c now) ≡ settings c
unfolding Sweep.sweep
settings-sweep c now = refl

pub publish-Logged : (c : Core) (now : ℕ) → Logged c (publish c now)
unfolding publish
publish-Logged c now = record { settings_kept = refl; tracker_kept = refl }
