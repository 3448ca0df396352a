-- ===== src/Probe/PutBack.antt =====
-- src/bin/probe.rs, `run`: what it leaves the groups at.
use fan_control_lian_li_wire.Base.{
  ℕ, zero, suc, ◌+◌, ◌≡◌, refl, sym, ap, ap₂, subst, ◌∙◌, ◌≢◌, inl, inr, Option, none, some, List,
  [], ◌∷◌, ◌++◌, leb, Bool-cases, Option-cases, All, Bytes, duration_since, Result, ok, err,
  Result-cases,
}
use fan_control_lian_li_wire.Groups.{Group, acknowledged, due}
use fan_control_lian_li_wire.Tracker.{Tracker, group, set_target, sent}
use fan_control_lian_li_wire.Probe.Session.{
  poll_gap, ack_poll_gap, ack_limit, ack_rounds, Time, Stop, said, unfinished, overflow, Session,
  now, sleep, heartbeat, heard, poll, went, send_target, send_if_due, exchange, apply_from, applied,
  apply,
}
use fan_control_lian_li_wire.Probe.Confirm.{
  Targets, Aimed, and_then-Aimed, heartbeat-tracker, heard-Aimed, went-Aimed, apply-Confirmed,
}
use fan_control_lian_li_wire.Dongle.{Port, Dongle, send}
use fan_control_lian_li_wire.Tracker.Targets.{set_target_lem}
use fan_control_lian_li_wire.Probe.Run.{confirm_text, confirm_all, concluded, put_back}
use fan_control_lian_li_wire.Probe.Restore.{and_then-ok}
use fan_control_lian_li_wire.Dongle
use fan_control_lian_li_wire.Groups
use fan_control_lian_li_wire.Speed
use fan_control_lian_li_wire.Tracker

-- No two of the entries are for the same address.
abbrev pub IsApart : List (Bytes × Bytes) → Type 0
IsApart [] = Unit {0}
IsApart ((mac, duty) ∷ rest) = All (λ e. e.0 ≢ mac) rest × IsApart rest

abbrev failed : Result Stop (List Bytes) → List Bytes
failed (ok failures) = failures
failed (err e) = []

snoc_not_nil : (lines : List Bytes) (line : Bytes) → lines ++ (line ∷ []) ≢ []
snoc_not_nil [] line h = cc
snoc_not_nil (x ∷ rest) line h = cc

module _ (message : ℕ → Bytes) (port : Port) (time : Time) where
  -- Another group is driven: its address is `to`.
  send_if_due_other :
      (s : Session port time) (mac to target : Bytes)
      → Targets mac target s.tracker
      → Aimed mac target (send_if_due message port time s to)
  unfolding send_if_due send_target
  send_if_due_other s mac to target h = elim (Option-cases (Tracker.group s.tracker to)) [
    | inl e ↦ rw (e, send_if_due) h
    | inr (g, e) ↦ elim (Bool-cases (Groups.due g (now s).0)) [
      | inr d ↦ rw (e, send_if_due, d) h
      | inl d ↦ elim (Option-cases g.target) [
        | inl f ↦ rw (e, send_if_due, d, f) h
        | inr (sent_target, f) ↦
            rw (e, send_if_due, d, f, send_target)
              (went-Aimed message port time (now s).1 mac to target sent_target (now s).0 _ h)
      ]
    ]
  ]

  exchange_other :
      (s : Session port time) (mac to target : Bytes) (gap : ℕ)
      → Targets mac target s.tracker
      → Aimed mac target (exchange message port time s to gap)
  unfolding exchange fan_control_lian_li_wire.Probe.Session.poll
  exchange_other s mac to target gap h =
      and_then-Aimed mac target (heartbeat message port time s) _
        (subst (Targets mac target) (sym (heartbeat-tracker message port time s)) h)
        λ beat s1 h1.
          and_then-Aimed mac target (send_if_due message port time s1 to) _
            (send_if_due_other s1 mac to target h1)
            λ sent s2 h2.
              heard-Aimed message port time (sleep s2 gap) mac target (Dongle.poll port s2.dongle)
                h2

  apply_from_other :
      (rounds : ℕ) (s : Session port time) (mac to what target : Bytes) (started polls : ℕ)
      → Targets mac target s.tracker
      → Aimed mac target (apply_from message port time rounds s to what started polls)
  unfolding apply_from
  apply_from_other zero s mac to what target started polls h = h
  apply_from_other (suc rounds) s mac to what target started polls h =
      and_then-Aimed mac target (exchange message port time s to ack_poll_gap) _
        (exchange_other s mac to target ack_poll_gap h)
        λ done s1 h1. elim (Option-cases (Tracker.group s1.tracker to)) [
          | inl e ↦ rw e h1
          | inr (g, e) ↦ elim (Bool-cases (Groups.acknowledged g (now s1).0)) [
            | inl a ↦ rw (e, a) h1
            | inr a ↦
                elim (Bool-cases (leb ack_limit (duration_since (now (now s1).1).0 started))) [
                  | inl l ↦ rw (e, a, l) h1
                  | inr l ↦
                      rw (e, a, l)
                        (apply_from_other rounds (now (now s1).1).1 mac to what target started
                          (polls + 1) h1)
                ]
          ]
        ]

  set_target_other :
      (t : Tracker) (mac to wanted target : Bytes)
      → mac ≢ to
      → Targets mac target t
      → Targets mac target (Tracker.set_target t to wanted).0
  set_target_other t mac to wanted target other h = elim (Option-cases (group t to)) [
    | inl e ↦
        subst (λ (r : Tracker × Option Bytes). Targets mac target r.0)
          (sym ((set_target_lem t to wanted).0 e)) h
    | inr (g, e) ↦ record {
      held = h.held;
      found = ((set_target_lem t to wanted).1 g e).2 mac other ∙ h.found;
      so = h.so;
    }
  ]

  applied_other :
      (mac to what target : Bytes) (s : Session port time) (prepared : Option Bytes)
      → Targets mac target s.tracker
      → Aimed mac target (applied message port time to what s prepared)
  applied_other mac to what target s none h = h
  applied_other mac to what target s (some prepared) h =
      apply_from_other ack_rounds _ mac to what target (now s).0 0 h

  apply_other :
      (s : Session port time) (mac to wanted what target : Bytes)
      → mac ≢ to
      → Targets mac target s.tracker
      → Aimed mac target (apply message port time s to wanted what)
  unfolding apply
  apply_other s mac to wanted what target other h =
      applied_other mac to what target
        (record s { tracker = (Tracker.set_target s.tracker to wanted).0 })
        (Tracker.set_target s.tracker to wanted).1
        (set_target_other s.tracker mac to wanted target other h)

  confirm_all_other :
      (s : Session port time) (wanted : List (Bytes × Bytes)) (failures : List Bytes)
      (mac target : Bytes)
      → All (λ e. e.0 ≢ mac) wanted
      → Targets mac target s.tracker
      → Aimed mac target (confirm_all message port time s wanted failures)
  unfolding confirm_all
  confirm_all_other s [] failures mac target apart h = h
  confirm_all_other s ((to, duty) ∷ rest) failures mac target apart h =
      let what = confirm_text message port time to in
      let done = apply message port time s to duty what in
      let kept : Targets mac target done.1.tracker =
        apply_other s mac to duty what target (λ e. apart.0 (sym e)) h in
      elim (Result-cases done.0) [
        | inl (a, e) ↦
            rw (e, confirm_all) (confirm_all_other done.1 rest failures mac target apart.1 kept)
        | inr (said why, e) ↦
            rw (e, confirm_all)
              (confirm_all_other done.1 rest (failures ++ (why ∷ [])) mac target apart.1 kept)
        | inr (unfinished, e) ↦ rw (e, confirm_all) kept
        | inr (overflow, e) ↦ rw (e, confirm_all) kept
      ]

  -- One entry after the other, in the sessions that the calls of `apply` begin with: the group is
  -- known then, and in the last tracker its target is what was made for it of the entry's duties.
  pub ArePutBack : Session port time → List (Bytes × Bytes) → Tracker → Type 0
  ArePutBack s [] t = Unit {0}
  ArePutBack s ((to, duty) ∷ rest) t =
      let done = apply message port time s to duty (confirm_text message port time to) in
      ((g : Group) × (group s.tracker to ≡ some g) × Targets to (Speed.prepare g.device duty) t)
      × ArePutBack done.1 rest t

  -- Where no message is left, each of the calls has succeeded.
  confirm_all-ArePutBack :
      (s s' : Session port time) (wanted : List (Bytes × Bytes)) (failures : List Bytes)
      → IsApart wanted
      → confirm_all message port time s wanted failures ≡ (ok [], s')
      → (failures ≡ []) × ArePutBack s wanted s'.tracker
  unfolding confirm_all group ArePutBack
  confirm_all-ArePutBack s s' [] failures apart h =
      (ap (λ (r : Result Stop (List Bytes) × Session port time). failed r.0) h, tt)
  confirm_all-ArePutBack s s' ((to, duty) ∷ rest) failures apart h =
      let what = confirm_text message port time to in
      let done = apply message port time s to duty what in
      elim (Result-cases done.0) [
        | inl (a, e) ↦
            let next : confirm_all message port time done.1 rest failures ≡ (ok [], s') =
              rw (e, confirm_all) at h in
            let (none_failed, back) = confirm_all-ArePutBack done.1 s' rest failures apart.1 next in
            let whole : done ≡ (ok tt, done.1) = ap (λ r. (r, done.1)) e in
            let (g, known, confirmed) =
              apply-Confirmed message port time s done.1 to duty what whole in
            let target = Speed.prepare g.device duty in
            let aims : Targets to target done.1.tracker = record {
              held = confirmed.held;
              found = confirmed.found;
              so = confirmed.aims;
            } in
            let kept : Targets to target s'.tracker =
              subst
                (λ (r : Result Stop (List Bytes) × Session port time).
                  Targets to target r.1.tracker)
                next (confirm_all_other done.1 rest failures to target apart.0 aims) in
            (none_failed, ((g, known, kept), back))
        | inr (said why, e) ↦
            let next : confirm_all message port time done.1 rest (failures ++ (why ∷ []))
                ≡ (ok [], s') =
              rw (e, confirm_all) at h in
            absurd (
              snoc_not_nil failures why
                (confirm_all-ArePutBack done.1 s' rest (failures ++ (why ∷ [])) apart.1 next).0)
        | inr (unfinished, e) ↦ absurd (cc (ap (λ r. r.0) (rw (e, confirm_all) at h)))
        | inr (overflow, e) ↦ absurd (cc (ap (λ r. r.0) (rw (e, confirm_all) at h)))
      ]

  concluded_nil :
      (failures : List Bytes) → concluded message port time failures ≡ ok tt → failures ≡ []
  concluded_nil [] h = refl
  concluded_nil (why ∷ more) h = cc

  -- The session when the groups have been heard once.
  abbrev pub heard_once : Session port time → Session port time
  heard_once s =
      (fan_control_lian_li_wire.Probe.Session.poll message port time
        (heartbeat message port time s).1).1

  -- Where what follows the engine succeeds, on a list with no address twice: each entry names a group
  -- that is known when its turn comes, and at the end the group's target is what was made for it, as
  -- it was known then, of the duties that the entry lists for it.
  pub put_back-ArePutBack :
      (s s' : Session port time) (wanted : List (Bytes × Bytes))
      → IsApart wanted
      → put_back message port time s wanted ≡ (ok tt, s')
      → ArePutBack (heard_once s) wanted s'.tracker
  unfolding put_back
  put_back-ArePutBack s s' wanted apart h =
      let (beat, s1, e1, h1) = and_then-ok (heartbeat message port time s) _ tt s' h in
      let (seen, s2, e2, h2) =
        and_then-ok (fan_control_lian_li_wire.Probe.Session.poll message port time s1) _ tt s' h1 in
      let (failures, s3, e3, h3) =
        and_then-ok (confirm_all message port time s2 wanted []) _ tt s' h2 in
      let quiet : failures ≡ [] = concluded_nil failures (ap (λ r. r.0) h3) in
      let whole : confirm_all message port time s2 wanted [] ≡ (ok [], s') =
        e3
        ∙ ap₂ (λ (fs : List Bytes) (x : Session port time). (ok fs, x)) quiet (ap (λ r. r.1) h3) in
      let at : heard_once s ≡ s2 =
        ap
          (λ (r : Result Stop (Unit {0}) × Session port time).
            (fan_control_lian_li_wire.Probe.Session.poll message port time r.1).1)
          e1
        ∙ ap (λ r. r.1) e2 in
      subst (λ (x : Session port time). ArePutBack x wanted s'.tracker) (sym at)
        (confirm_all-ArePutBack s2 s' wanted [] apart whole).1
