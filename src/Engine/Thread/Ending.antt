-- ===== src/Engine/Thread/Ending.antt =====
-- src/engine.rs, `Engine::stop` and `drop`: how the thread ends.
use fan_control_lian_li_wire.Base.{
  subst, sym, append_assoc, ℕ, ◌+◌, ◌≤◌, ◌≡◌, refl, ap, ◌∙◌, inl, inr, true, List, [], ◌∷◌, ◌++◌,
  arith, leb, Bool-cases, Bytes, bytes, millis,
}
use fan_control_lian_li_wire.Heartbeat.{Clock}
use fan_control_lian_li_wire.Engine.{Link, push_event, take_events}
use fan_control_lian_li_wire.Engine.Tick.{last_sends, shutdown}
use fan_control_lian_li_wire.Engine.Publish.{publish}
use fan_control_lian_li_wire.Tracker.{macs, fans}
use fan_control_lian_li_wire.Tracker
use fan_control_lian_li_wire.Engine.Host.{Loop, round, finish}
use fan_control_lian_li_wire.Engine.Thread.{
  Phase, running, paused, waiting, stopping, over, nap, Thread, pace, wait, move, call, Step, asks,
  gives_up, stops, moves, Reach, at_start, goes_on, spawn,
}

abbrev pub last_lines : List Bytes
last_lines = bytes "stopping; the groups keep their last duty" ∷ bytes "engine stopped" ∷ []

-- The log of a thread that is over ends with these lines.
abbrev IsEnded : Phase → List Bytes → Type 0
IsEnded running log = Unit {0}
IsEnded paused log = Unit {0}
IsEnded waiting log = Unit {0}
IsEnded stopping log = Unit {0}
IsEnded over log = (lines : List Bytes) × (log ≡ lines ++ last_lines)

module _ (message : ℕ → Bytes) (link : Link) where
  -- The thread sleeps 50 ms at most, and has said so if it is over.
  record IsAwaited (now : ℕ) (t : Thread message link) : Type 0 where
    soon : t.wake ≤ now + millis 50
    ended : IsEnded t.phase t.loop.log

  finish-IsEnded : (s : Loop message link) (now : ℕ) → IsEnded over (finish message link s now).log
  unfolding finish take_events shutdown push_event publish
  finish-IsEnded s now =
      let before =
        (last_sends message link s.core s.carrier (macs (Tracker.fans s.core.tracker))
          now).0.events in
      (
        s.log ++ before,
        ap (λ (log : List Bytes). log ++ (bytes "engine stopped" ∷ []))
              (sym (
                append_assoc s.log before (bytes "stopping; the groups keep their last duty" ∷ [])))
            ∙ append_assoc (s.log ++ before)
                (bytes "stopping; the groups keep their last duty" ∷ [])
                (bytes "engine stopped" ∷ []),
      )

  move-IsAwaited :
      (now later : ℕ) (phase : Phase) (t : Thread message link) (clock : Clock)
      → t.phase ≡ phase
      → now ≤ later
      → t.wake ≤ later
      → IsAwaited now t
      → IsAwaited later (move message link phase t later clock)
  unfolding move pace wait nap
  move-IsAwaited now later running t clock same le wake h = record {
    soon = omega (arith, wake);
    ended = tt;
  }
  move-IsAwaited now later paused t clock same le wake h = elim (Bool-cases t.loop.shared.stop) [
    | inl e ↦ rw e (record { soon = omega (arith, wake); ended = tt })
    | inr e ↦ rw e (record { soon = omega (arith, wake); ended = tt })
  ]
  move-IsAwaited now later waiting t clock same le wake h = elim (Bool-cases t.loop.shared.stop) [
    | inl e ↦ rw e (record { soon = omega (arith, wake); ended = tt })
    | inr e ↦ elim (Bool-cases (leb t.next later)) [
      | inl f ↦ rw (e, f) (record { soon = omega (arith, wake); ended = tt })
      | inr f ↦ rw (e, f) (record { soon = omega arith; ended = rw same tt })
    ]
  ]
  move-IsAwaited now later stopping t clock same le wake h = record {
    soon = omega (arith, wake);
    ended = finish-IsEnded t.loop later;
  }
  move-IsAwaited now later over t clock same le wake h = record {
    soon = omega (arith, wake);
    ended = h.ended;
  }

  Step-IsAwaited :
      {now later : ℕ} {t t' : Thread message link}
      → Step message link now t later t'
      → IsAwaited now t
      → IsAwaited later t'
  unfolding call
  Step-IsAwaited {t} (asks mac percent) h = record { soon = h.soon; ended = h.ended }
  Step-IsAwaited {t} (gives_up mac) h = record { soon = h.soon; ended = h.ended }
  Step-IsAwaited {t} stops h = record { soon = h.soon; ended = h.ended }
  Step-IsAwaited {now} {t} (moves later clock le wake) h =
      move-IsAwaited now later t.phase t clock refl le wake h

  -- The thread's next three moves, at these times.
  abbrev pub next_three : Thread message link → ℕ → ℕ → ℕ → Clock → Thread message link
  next_three t one two three clock =
      let t1 = move message link t.phase t one clock in
      let t2 = move message link t1.phase t1 two clock in move message link t2.phase t2 three clock

  three_moves :
      (phase : Phase) (t : Thread message link) (one two three : ℕ) (clock : Clock)
      → t.phase ≡ phase
      → t.loop.shared.stop ≡ true
      → IsEnded t.phase t.loop.log
      → let t' = next_three t one two three clock in (t'.phase ≡ over) × IsEnded over t'.loop.log
  unfolding move pace wait round finish
  three_moves running t one two three clock same told h =
      rw (same, told) (refl, finish-IsEnded (round message link t.loop one clock) three)
  three_moves paused t one two three clock same told h =
      rw (same, told) (refl, finish-IsEnded t.loop two)
  three_moves waiting t one two three clock same told h =
      rw (same, told) (refl, finish-IsEnded t.loop two)
  three_moves stopping t one two three clock same told h = rw same (refl, finish-IsEnded t.loop one)
  three_moves over t one two three clock same told h =
      rw same (refl, subst (λ p. IsEnded p t.loop.log) same h)

  Reach-IsAwaited :
      {l : link.Carrier} {spawned rounds now : ℕ} {t : Thread message link}
      → Reach message link l spawned rounds now t
      → IsAwaited now t
  unfolding spawn
  Reach-IsAwaited at_start = record { soon = omega arith; ended = tt }
  Reach-IsAwaited (goes_on r s) = Step-IsAwaited s (Reach-IsAwaited r)

-- Once a host has told the thread to stop, whatever came before: the thread sleeps 50 ms more at
-- most, its next three moves at any times leave it over, and the log then ends with the two lines
-- on stopping.
pub Reach-ends :
    {message : ℕ → Bytes} {link : Link} {l : link.Carrier} {spawned rounds now : ℕ}
    {t : Thread message link}
    → Reach message link l spawned rounds now t
    → t.loop.shared.stop ≡ true
    → (one two three : ℕ) (clock : Clock)
    → let t' = next_three message link t one two three clock in
      (t.wake ≤ now + millis 50)
      × (t'.phase ≡ over)
      × ((lines : List Bytes) × (t'.loop.log ≡ lines ++ last_lines))
Reach-ends {message} {link} {t} r told one two three clock =
    let h = Reach-IsAwaited message link r in
    let (ends, lines) = three_moves message link t.phase t one two three clock refl told h.ended in
    (h.soon, ends, lines)
