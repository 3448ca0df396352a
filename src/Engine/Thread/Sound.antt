-- ===== src/Engine/Thread/Sound.antt =====
-- src/engine.rs, `Engine`: what holds of the loop whenever a host looks.
use fan_control_lian_li_wire.Base.{
  append_assoc, bytes, append-nil, ℕ, ◌%◌, ◌^◌, ◌||◌, List, [], ◌∷◌, ◌++◌, get, ◌≡◌, refl, sym, ap,
  ◌∙◌, subst, inl, inr, leb, Bool-cases, Bytes,
}
use fan_control_lian_li_wire.Heartbeat.{Clock}
use fan_control_lian_li_wire.Tracker.{clear_target}
use fan_control_lian_li_wire.Tracker.Invariant.{clears, step}
use fan_control_lian_li_wire.Engine.{
  Link, Core, new, push_event, want, is_some, release, take_events,
}
use fan_control_lian_li_wire.Engine.Tick.{
  tick, shutdown, Request, want_percent, release_group, serve, serve_all,
}
use fan_control_lian_li_wire.Engine.Host.{Shared, set_percent, clear, start, round, finish}
use fan_control_lian_li_wire.Engine.Kept.{step-master}
use fan_control_lian_li_wire.Engine.Counting.{Answers, in_a_row, Counts}
use fan_control_lian_li_wire.Engine.Counted.{Counts-round, Counts-finish}
use fan_control_lian_li_wire.Engine.Sound.{
  IsSound, start-IsSound, round-IsSound, finish-IsSound, tick-Kept, shutdown_lem,
}
use fan_control_lian_li_wire.Engine.Thread.{
  Phase, running, paused, waiting, stopping, over, stop, Thread, spawn, pace, wait, move, call,
  Step, asks, gives_up, stops, moves, Reach, at_start, goes_on,
}
use fan_control_lian_li_wire.Engine.Thread.Said.{lines_of, lines, said}
use fan_control_lian_li_wire.Tracker

module _ (message : ℕ → Bytes) (link : Link) where
  call-IsSound :
      (f : Shared → Shared) (t : Thread message link)
      → ((s : Shared) → (f s).snapshot ≡ s.snapshot)
      → IsSound t.loop.core t.loop.shared.snapshot
      → let t' = call message link f t in IsSound t'.loop.core t'.loop.shared.snapshot
  unfolding call
  call-IsSound f t kept h = subst (IsSound t.loop.core) (sym (kept t.loop.shared)) h

  move-IsSound :
      (phase : Phase) (t : Thread message link) (now : ℕ) (clock : Clock)
      → IsSound t.loop.core t.loop.shared.snapshot
      → let t' = move message link phase t now clock in IsSound t'.loop.core t'.loop.shared.snapshot
  unfolding move pace wait
  move-IsSound running t now clock h = round-IsSound message link t.loop now clock h
  move-IsSound paused t now clock h = elim (Bool-cases t.loop.shared.stop) [
    | inl e ↦ rw e h
    | inr e ↦ rw e h
  ]
  move-IsSound waiting t now clock h = elim (Bool-cases t.loop.shared.stop) [
    | inl e ↦ rw e h
    | inr e ↦ elim (Bool-cases (leb t.next now)) [ inl f ↦ rw (e, f) h | inr f ↦ rw (e, f) h ]
  ]
  move-IsSound stopping t now clock h = finish-IsSound message link t.loop now h
  move-IsSound over t now clock h = h

  Step-IsSound :
      {now later : ℕ} {t t' : Thread message link}
      → Step message link now t later t'
      → IsSound t.loop.core t.loop.shared.snapshot
      → IsSound t'.loop.core t'.loop.shared.snapshot
  unfolding set_percent clear stop
  Step-IsSound {t} (asks mac percent) h = call-IsSound _ t (λ s. refl) h
  Step-IsSound {t} (gives_up mac) h = call-IsSound _ t (λ s. refl) h
  Step-IsSound {t} stops h = call-IsSound _ t (λ s. refl) h
  Step-IsSound {t} (moves later clock le wake) h = move-IsSound t.phase t later clock h

sound :
    {message : ℕ → Bytes} {link : Link} {l : link.Carrier} {spawned rounds now : ℕ}
    {t : Thread message link}
    → Reach message link l spawned rounds now t
    → IsSound t.loop.core t.loop.shared.snapshot
unfolding spawn
sound {message} {link} {l} at_start = start-IsSound message link l
sound {message} {link} (goes_on r s) = Step-IsSound message link s (sound r)

serve-master : (c : Core) (r : Request) → (serve c r).tracker.master_mac ≡ c.tracker.master_mac
unfolding serve want release push_event Tracker.Invariant.step
serve-master c (want_percent mac percent) = refl
serve-master c (release_group mac) =
    let kept = step-master c.tracker (clears mac) in
    elim (Bool-cases (is_some (get c.wanted mac) || (clear_target c.tracker mac).1)) [
      | inl e ↦ rw (e, release) kept
      | inr e ↦ rw (e, release) kept
    ]

serve_all-master :
    (c : Core) (rs : List Request) → (serve_all c rs).tracker.master_mac ≡ c.tracker.master_mac
unfolding serve_all
serve_all-master c [] = refl
serve_all-master c (r ∷ rs) = serve_all-master (serve c r) rs ∙ serve-master c r

module _ (message : ℕ → Bytes) (link : Link) (answers : Answers link) where
  pace_core :
      (t : Thread message link) (now : ℕ)
      → let t' = pace message link t now in
        (t'.loop.core ≡ t.loop.core)
        × (t'.loop.carrier ≡ t.loop.carrier)
        × (t'.loop.log ≡ t.loop.log)
  unfolding pace
  pace_core t now = elim (Bool-cases t.loop.shared.stop) [
    | inl e ↦ rw e (refl, refl, refl)
    | inr e ↦ rw e (refl, refl, refl)
  ]

  wait_core :
      (t : Thread message link) (now : ℕ)
      → let t' = wait message link t now in
        (t'.loop.core ≡ t.loop.core)
        × (t'.loop.carrier ≡ t.loop.carrier)
        × (t'.loop.log ≡ t.loop.log)
  unfolding wait
  wait_core t now = elim (Bool-cases t.loop.shared.stop) [
    | inl e ↦ rw e (refl, refl, refl)
    | inr e ↦ elim (Bool-cases (leb t.next now)) [
      | inl f ↦ rw (e, f) (refl, refl, refl)
      | inr f ↦ rw (e, f) (refl, refl, refl)
    ]
  ]

  -- What the thread has kept of its history, beside what a host sees.
  record IsFaithful (l : link.Carrier) (log : List Bytes) (t : Thread message link) : Type 0 where
    counted : Counts message link answers t.loop.core t.loop.carrier
    logged : t.loop.log ≡ log
    bound : t.loop.core.tracker.master_mac ≡ link.master_mac l

  silent :
      (l : link.Carrier) (log : List Bytes) (t t' : Thread message link)
      → t'.loop.core ≡ t.loop.core
      → t'.loop.carrier ≡ t.loop.carrier
      → t'.loop.log ≡ t.loop.log
      → IsFaithful l log t
      → IsFaithful l (log ++ []) t'
  silent l log t t' core carrier same h = record {
    counted =
        ap (λ (c : Core). c.failures_in_a_row) core
        ∙ h.counted
        ∙ ap (λ x. in_a_row (answers.given x) % 2 ^ 32) (sym carrier);
    logged = same ∙ h.logged ∙ sym (append-nil log);
    bound = ap (λ (c : Core). c.tracker.master_mac) core ∙ h.bound;
  }

  move-IsFaithful :
      (l : link.Carrier) (log : List Bytes) (phase : Phase) (t : Thread message link) (now : ℕ)
      (clock : Clock)
      → IsFaithful l log t
      → IsFaithful l (log ++ lines_of phase t now clock) (move message link phase t now clock)
  unfolding move round finish take_events
  move-IsFaithful l log running t now clock h =
      let served = serve_all t.loop.core t.loop.shared.requests in
      record {
        counted = Counts-round message link answers t.loop now clock h.counted;
        logged =
            ap (λ x. x ++ (tick message link served t.loop.carrier now clock).0.events) h.logged;
        bound =
            (tick-Kept message link served t.loop.carrier now clock).master
            ∙ serve_all-master t.loop.core t.loop.shared.requests
            ∙ h.bound;
      }
  move-IsFaithful l log paused t now clock h =
      silent l log t (pace message link t now) (pace_core t now).0 (pace_core t now).1
        (pace_core t now).2 h
  move-IsFaithful l log waiting t now clock h =
      silent l log t (wait message link t now) (wait_core t now).0 (wait_core t now).1
        (wait_core t now).2 h
  move-IsFaithful l log stopping t now clock h = record {
    counted = Counts-finish message link answers t.loop now h.counted;
    logged =
        append_assoc t.loop.log (shutdown message link t.loop.core t.loop.carrier now).0.events
          (bytes "engine stopped" ∷ [])
        ∙ ap (λ x. x ++ lines_of stopping t now clock) h.logged;
    bound = (shutdown_lem message link t.loop.core t.loop.carrier now).1.master ∙ h.bound;
  }
  move-IsFaithful l log over t now clock h = silent l log t t refl refl refl h

  Step-IsFaithful :
      {l : link.Carrier} {now later : ℕ} {t t' : Thread message link}
      → (log : List Bytes) → (s : Step message link now t later t') → IsFaithful l log t
      → IsFaithful l (log ++ lines s) t'
  unfolding call
  Step-IsFaithful {l} {t} log (asks mac percent) h =
      silent l log t (call message link (λ s. set_percent s mac percent) t) refl refl refl h
  Step-IsFaithful {l} {t} log (gives_up mac) h =
      silent l log t (call message link (λ s. clear s mac) t) refl refl refl h
  Step-IsFaithful {l} {t} log stops h = silent l log t (call message link stop t) refl refl refl h
  Step-IsFaithful {l} {t} log (moves later clock le wake) h =
      move-IsFaithful l log t.phase t later clock h

  faithful :
      {l : link.Carrier} {spawned rounds now : ℕ} {t : Thread message link}
      → answers.given l ≡ []
      → (r : Reach message link l spawned rounds now t) → IsFaithful l (said r) t
  unfolding spawn start new Tracker.new in_a_row
  faithful {l} none_yet at_start = record {
    counted = ap (λ xs. in_a_row xs % 2 ^ 32) (sym none_yet);
    logged = refl;
    bound = refl;
  }
  faithful {l} none_yet (goes_on r s) = Step-IsFaithful (said r) s (faithful none_yet r)

-- Whenever a host looks, after any calls and moves of the thread in any order from the start of the
-- engine: every percentage wanted is between 30 and 100, no group of the tracker stands twice, the
-- snapshot that the host reads is the core's, with its alarm, and the core holds no event. The alarm
-- stands exactly while the count of failures is three or more, and the count is the number of polls,
-- modulo 2^32, that the dongle has failed since its last successful poll or reconnect. The log is
-- the opening line, then the events of each tick and of the shutdown, in order, and the last line.
-- The dongle that the groups must be bound to is still the one of the start.
pub Reach-IsSound :
    {message : ℕ → Bytes} {link : Link} {l : link.Carrier} {spawned rounds now : ℕ}
    {t : Thread message link}
    → (answers : Answers link) → answers.given l ≡ []
    → (r : Reach message link l spawned rounds now t)
    → IsSound t.loop.core t.loop.shared.snapshot
      × (t.loop.core.failures_in_a_row ≡ in_a_row (answers.given t.loop.carrier) % 2 ^ 32)
      × (t.loop.log ≡ said r)
      × (t.loop.core.tracker.master_mac ≡ link.master_mac l)
Reach-IsSound {message} {link} answers none_yet r =
    let h = faithful message link answers none_yet r in (sound r, h.counted, h.logged, h.bound)
