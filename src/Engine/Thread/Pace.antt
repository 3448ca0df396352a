-- ===== src/Engine/Thread/Pace.antt =====
-- src/engine.rs, `Engine`: how often the thread ticks.
use fan_control_lian_li_wire.Base.{
  inr, inl, leb, refl, Bool-cases, subst, arith, ℕ, ◌+◌, ◌-◌, ◌*◌, ◌/◌, ◌≤◌, ◌≡◌, Bytes, secs,
}
use fan_control_lian_li_wire.Engine.{Link}
use fan_control_lian_li_wire.Heartbeat.{Clock}
use fan_control_lian_li_wire.Engine.Thread.{
  Phase, running, paused, waiting, stopping, over, Thread, spawn, paced, pace, wait, move,
  move_begins, call, Step, asks, gives_up, stops, moves, begins, Reach, at_start, goes_on,
}

-- With this many rounds begun since the thread was spawned: when the next may begin.
abbrev IsPaced : ℕ → ℕ → ℕ → ℕ → Phase → Type 0
IsPaced spawned rounds now next running = (spawned + rounds * secs 1 ≤ next) × (next ≤ now)
IsPaced spawned rounds now next paused = (spawned + rounds * secs 1 ≤ next + secs 1) × (next ≤ now)
IsPaced spawned rounds now next waiting =
    (spawned + rounds * secs 1 ≤ next) × (spawned + rounds * secs 1 ≤ now + secs 1)
IsPaced spawned rounds now next stopping = spawned + rounds * secs 1 ≤ now + secs 1
IsPaced spawned rounds now next over = spawned + rounds * secs 1 ≤ now + secs 1

module _ (message : ℕ → Bytes) (link : Link) where
  move-IsPaced :
      (spawned rounds now later : ℕ) (phase : Phase) (t : Thread message link) (clock : Clock)
      → now ≤ later
      → t.phase ≡ phase
      → IsPaced spawned rounds now t.next phase
      → let t' = move message link phase t later clock in
        IsPaced spawned (rounds + move_begins phase) later t'.next t'.phase
  unfolding move pace wait paced
  move-IsPaced spawned rounds now later running t clock le same h =
      (omega (arith, h.0), omega (arith, h.1, le))
  move-IsPaced spawned rounds now later paused t clock le same h =
      elim (Bool-cases t.loop.shared.stop) [
        | inl e ↦ rw e (omega (arith, h.0, h.1, le))
        | inr e ↦ rw e (ground (arith, h.0), omega (arith, h.0, h.1, le))
      ]
  move-IsPaced spawned rounds now later waiting t clock le same h =
      elim (Bool-cases t.loop.shared.stop) [
        | inl e ↦ rw e (omega (arith, h.1, le))
        | inr e ↦ elim (Bool-cases (leb t.next later)) [
          | inl f ↦ rw (e, f) (omega (arith, h.0), ground (arith, f))
          | inr f ↦ rw (e, f, same) (omega (arith, h.0), omega (arith, h.1, le))
        ]
      ]
  move-IsPaced spawned rounds now later stopping t clock le same h = omega (arith, h, le)
  move-IsPaced spawned rounds now later over t clock le same h = rw same (omega (arith, h, le))

  no_round_IsPaced :
      (spawned rounds now : ℕ) (t : Thread message link)
      → IsPaced spawned rounds now t.next t.phase
      → IsPaced spawned (rounds + 0) now t.next t.phase
  no_round_IsPaced spawned rounds now t h =
      let same : rounds ≡ rounds + 0 = omega arith in
      subst (λ n. IsPaced spawned n now t.next t.phase) same h

  Step-IsPaced :
      (spawned rounds : ℕ) {now later : ℕ} {t t' : Thread message link}
      → (s : Step message link now t later t') → IsPaced spawned rounds now t.next t.phase
      → IsPaced spawned (rounds + begins message link s) later t'.next t'.phase
  unfolding call
  Step-IsPaced spawned rounds {now} {t} (asks mac percent) h =
      no_round_IsPaced spawned rounds now t h
  Step-IsPaced spawned rounds {now} {t} (gives_up mac) h = no_round_IsPaced spawned rounds now t h
  Step-IsPaced spawned rounds {now} {t} stops h = no_round_IsPaced spawned rounds now t h
  Step-IsPaced spawned rounds {now} {t} (moves later clock le wake) h =
      move-IsPaced spawned rounds now later t.phase t clock le refl h

  paced_bound :
      (spawned rounds now next : ℕ) (phase : Phase)
      → IsPaced spawned rounds now next phase
      → spawned + rounds * secs 1 ≤ now + secs 1
  paced_bound spawned rounds now next running h = omega (arith, h.0, h.1)
  paced_bound spawned rounds now next paused h = omega (arith, h.0, h.1)
  paced_bound spawned rounds now next waiting h = h.1
  paced_bound spawned rounds now next stopping h = h
  paced_bound spawned rounds now next over h = h

Reach-IsPaced :
    {message : ℕ → Bytes} {link : Link} {l : link.Carrier} {spawned rounds now : ℕ}
    {t : Thread message link}
    → Reach message link l spawned rounds now t
    → IsPaced spawned rounds now t.next t.phase
unfolding spawn
Reach-IsPaced at_start = (omega arith, omega arith)
Reach-IsPaced {message} {link} {spawned} (goes_on {rounds} r s) =
    Step-IsPaced message link spawned rounds s (Reach-IsPaced r)

-- However late the thread is woken, and whatever hosts call, it has begun at most one round for
-- each whole second since it was spawned, and one more.
pub Reach-rounds :
    {message : ℕ → Bytes} {link : Link} {l : link.Carrier} {spawned rounds now : ℕ}
    {t : Thread message link}
    → Reach message link l spawned rounds now t
    → rounds ≤ (now - spawned) / secs 1 + 1
Reach-rounds {message} {link} {spawned} {rounds} {now} {t} r =
    omega (arith, paced_bound message link spawned rounds now t.next t.phase (Reach-IsPaced r))
