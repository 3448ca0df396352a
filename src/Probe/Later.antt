-- ===== src/Probe/Later.antt =====
-- src/bin/probe.rs, `run`: its clock only goes on.
use fan_control_lian_li_wire.Base.{
  ℕ, ◌≤◌, inl, inr, List, [], ◌∷◌, ◌++◌, map, arith, Bool-cases, Option-cases, Bytes, bytes_eq,
  bytes, decimal, Result-cases, to_ascii_lowercase, split_once, trim,
}
use fan_control_lian_li_wire.Engine.{Snapshot}
use fan_control_lian_li_wire.Engine.Host.{set_percent}
use fan_control_lian_li_wire.Probe.Resolve.{resolve}
use fan_control_lian_li_wire.Probe.Session.{Time}
use fan_control_lian_li_wire.Probe.Run.{
  Running, group_line, status_line, is_quit, typed_percent, print_line, print_lines, print_status,
  set_initial, set_all_initial, request_line, typed, typed_all,
}
use fan_control_lian_li_wire.Probe.Waits.{IsClock}

module _ (time : Time) (clock : IsClock time) where
  -- The clock is not behind.
  unfoldable pub Later : Running time → Running time → Type 0
  Later s s' = (time.now s.clocks).0 ≤ (time.now s'.clocks).0

  pub print_line-Later : (line : Bytes) (s : Running time) → Later s (print_line time line s)
  unfolding Later print_line
  print_line-Later line s =
      let w = (time.local_time s.clocks).1 in omega (arith, clock.dates s.clocks)

  pub Later-then : (a b c : Running time) → Later a b → Later b c → Later a c
  unfolding Later
  Later-then a b c h k = omega (arith, h, k)

  Later-same : (s : Running time) → Later s s
  unfolding Later
  Later-same s = omega arith

  print_lines-Later : (lines : List Bytes) (s : Running time) → Later s (print_lines time lines s)
  print_lines-Later [] s = Later-same s
  print_lines-Later (line ∷ rest) s =
      Later-then s (print_line time line s) _ (print_line-Later line s)
        (print_lines-Later rest (print_line time line s))

  pub print_status-Later : (elapsed : ℕ) (s : Running time) → Later s (print_status time elapsed s)
  unfolding print_status
  print_status-Later elapsed s =
      let line = status_line s.shared.snapshot elapsed in
      Later-then s (print_line time line s) _ (print_line-Later line s)
        (print_lines-Later (map group_line s.shared.snapshot.groups) (print_line time line s))

  set_initial-Later :
      (first : Snapshot) (s : Running time) (a : Bytes × ℕ) → Later s (set_initial time first s a)
  unfolding set_initial Later
  set_initial-Later first s (prefix, percent) = elim (Result-cases (resolve first prefix)) [
    | inl (target, e) ↦ rw (e, set_initial) (Later-same s)
    | inr (why, e) ↦ rw (e, set_initial) (print_line-Later why s)
  ]

  pub set_all_initial-Later :
      (first : Snapshot) (s : Running time) (list : List (Bytes × ℕ))
      → Later s (set_all_initial time first s list)
  unfolding set_all_initial
  set_all_initial-Later first s [] = Later-same s
  set_all_initial-Later first s (a ∷ rest) =
      let s1 = set_initial time first s a in
      Later-then s s1 _ (set_initial-Later first s a) (set_all_initial-Later first s1 rest)

  request_line-Later :
      (s : Running time) (prefix percent : Bytes) → Later s (request_line time s prefix percent)
  unfolding request_line Later
  request_line-Later s prefix percent = elim (Result-cases (resolve s.shared.snapshot prefix)) [
    | inr (why, e) ↦ rw (e, request_line) (print_line-Later why s)
    | inl (target, e) ↦ elim (Option-cases (typed_percent percent)) [
      | inl n ↦ rw (e, request_line, n) (print_line-Later _ s)
      | inr (p, n) ↦
          rw (e, request_line, n)
            (print_line-Later
              (bytes "you asked for "
                ++ decimal p
                ++ bytes "% on "
                ++ fan_control_lian_li_wire.Probe.Text.mac target)
              (record s { shared = set_percent s.shared target p }))
    ]
  ]

  typed-Later : (s : Running time) (raw : Bytes) → Later s (typed time s raw).1
  unfolding typed
  typed-Later s raw =
      let line = to_ascii_lowercase (trim raw) in
      elim (Bool-cases (is_quit line)) [
        | inl q ↦ rw (q, typed) (Later-same s)
        | inr q ↦ elim (Option-cases (split_once b' ' line)) [
          | inr (parts, e) ↦ rw (q, typed, e) (request_line-Later s parts.0 parts.1)
          | inl e ↦ elim (Bool-cases (bytes_eq line [])) [
            | inl n ↦ rw (q, typed, e, n) (Later-same s)
            | inr n ↦ rw (q, typed, e, n) (print_line-Later _ s)
          ]
        ]
      ]

  pub typed_all-Later : (s : Running time) (lines : List Bytes) → Later s (typed_all time s lines).1
  unfolding typed_all
  typed_all-Later s [] = Later-same s
  typed_all-Later s (raw ∷ rest) =
      let s1 = (typed time s raw).1 in
      elim (Bool-cases (typed time s raw).0) [
        | inl q ↦ rw (q, typed_all) (typed-Later s raw)
        | inr q ↦
            rw (q, typed_all) (Later-then s s1 _ (typed-Later s raw) (typed_all-Later s1 rest))
      ]
