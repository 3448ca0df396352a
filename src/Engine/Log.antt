-- ===== src/Engine/Log.antt =====
-- src/engine.rs, `fail`, `flush_fail_log`, `log_change` and `flush_change_log`: how often the log
-- says the same.
use fan_control_lian_li_wire.Base.{
  ℕ, ◌+◌, ◌-◌, ◌%◌, ◌^◌, Bool, not, Option, none, some, [], ◌++◌, map, ltb, leb, ◌==◌,
  if◌then◌else◌, filter, filter_map, Bytes, get, insert, bytes, decimal, list_text, duration_since,
}
use fan_control_lian_li_wire.Engine.{
  change_log_every, repeat_log_every, ChangeLog, Core, push_event, push_events, text,
}

unfoldable pub more : ℕ → Bytes
more count = if count == 1 then bytes "once more" else decimal count ++ bytes " more times"

unfoldable pub held_suffix : ℕ → Bytes
held_suffix held =
    if held == 0
    then []
    else (if held == 1
        then bytes " (1 earlier change not logged)"
        else bytes " (" ++ decimal held ++ bytes " earlier changes not logged)")

-- `{message} ({more})`.
abbrev pub again : Bytes → ℕ → Bytes
again message count = message ++ bytes " (" ++ more count ++ bytes ")"

unfoldable pub fail : Core → Bytes → ℕ → Core
unfolding push_event more
fail c message now =
    let said = record c { snapshot = record c.snapshot { last_error = some message } } in
    elim (get c.fail_log message) [
      | none ↦ push_event message (record said { fail_log = insert c.fail_log message (now, 0) })
      | some (logged_at, held) ↦
          let count = (held + 1) % 2 ^ 32 in
          if leb repeat_log_every (duration_since now logged_at)
          then push_event (again message count)
              (record said { fail_log = insert c.fail_log message (now, 0) })
          else record said { fail_log = insert c.fail_log message (logged_at, count) }
    ]

abbrev fresh_failure : ℕ → Bytes × (ℕ × ℕ) → Bool
fresh_failure now (message, (logged_at, held)) = ltb (duration_since now logged_at) repeat_log_every

-- What `retain` writes of an entry that it drops.
abbrev failure_line : Bytes × (ℕ × ℕ) → Option Bytes
failure_line (message, (logged_at, held)) = if ltb 0 held then some (again message held) else none

unfoldable pub flush_fail_log : Core → ℕ → Core
unfolding more
flush_fail_log c now =
    let lines = filter_map failure_line (filter (λ e. not (fresh_failure now e)) c.fail_log) in
    push_events lines (record c { fail_log = filter (fresh_failure now) c.fail_log })

unfoldable pub change_line : Bytes → ℕ → Bytes → Bytes
unfolding text list_text
change_line mac percent target =
    text mac ++ bytes " target " ++ decimal percent ++ bytes "% " ++ list_text target

unfoldable pub log_change : Core → Bytes → ℕ → Bytes → ℕ → Core
unfolding push_event change_line held_suffix
log_change c mac percent target now =
    let line = change_line mac percent target in
    let logged : ChangeLog = record { logged_at = now; held = 0; pending = none } in
    elim (get c.change_log mac) [
      | none ↦
          push_event (line ++ held_suffix 0)
            (record c { change_log = insert c.change_log mac logged })
      | some entry ↦
          if ltb (duration_since now entry.logged_at) change_log_every
          then record c {
            change_log =
                insert c.change_log mac
                  (record entry { held = (entry.held + 1) % 2 ^ 32; pending = some line });
          }
          else push_event (line ++ held_suffix entry.held)
              (record c { change_log = insert c.change_log mac logged })
    ]

-- One entry of `flush_change_log`: what becomes of it, and the line that is written.
unfoldable pub flush_change : ℕ → ChangeLog → ChangeLog × Option Bytes
unfolding held_suffix
flush_change now entry = elim entry.pending [
  | none ↦ (entry, none)
  | some line ↦
      if ltb (duration_since now entry.logged_at) change_log_every then (entry, none) else (
        record { logged_at = now; held = 0; pending = none },
        some (line ++ held_suffix (entry.held - 1)),
      )
]

unfoldable pub flush_change_log : Core → ℕ → Core
unfolding flush_change
flush_change_log c now =
    push_events (filter_map (λ e. (flush_change now e.1).1) c.change_log)
      (record c { change_log = map (λ e. (e.0, (flush_change now e.1).0)) c.change_log })
