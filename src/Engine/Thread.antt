-- ===== src/Engine/Thread.antt =====
-- src/engine.rs, `Engine`: the loop on its own thread, beside the hosts that call it. A host's call
-- falls between two moves of the thread; one that comes while a tick runs is seen by the thread only
-- after it, as one that comes right after. Times are those of one monotonic clock.
pub mod Said
pub mod Sound
pub mod Pace
pub mod Ending
mod Examples
use fan_control_lian_li_wire.Base.{
  ℕ, ◌+◌, ◌-◌, ◌*◌, ◌/◌, ◌%◌, ◌^◌, ◌≤◌, ◌<◌, min, ◌≡◌, ap, ◌∙◌, ◌≡⟨◌⟩◌, ◌∎, ◌≢◌, ◌↔◌, ◌⊎◌, true,
  not, ◌&&◌, ◌||◌, ◌∷◌, ◌++◌, ltb, leb, ◌==◌, if◌then◌else◌, length, set, drop, all, Bytes, millis,
  duration_since, ◌>>=◌,
}
use fan_control_lian_li_wire.Heartbeat.{Clock}
use fan_control_lian_li_wire.Engine.{tick_length, Link}
use fan_control_lian_li_wire.Engine.Tick.{tick, shutdown}
use fan_control_lian_li_wire.Engine.Host.{Shared, set_percent, clear, Loop, start, round, finish}

-- What the thread does next: a round, the choice of the next round's time, the wait for it, the
-- shutdown, or nothing more.
pub data Phase : Type 0 where
  running : Phase
  paused : Phase
  waiting : Phase
  stopping : Phase
  over : Phase

-- `next += TICK`, and not before now.
unfoldable pub paced : ℕ → ℕ → ℕ
paced next now = let due = next + tick_length in if ltb due now then now else due

-- How long one sleep of the wait is.
unfoldable pub nap : ℕ → ℕ → ℕ
nap next now = min (duration_since next now) (millis 50)

-- `Engine::stop`, before it waits for the thread to end; `drop` does the same.
unfoldable pub stop : Shared → Shared
stop s = record s { stop = true }

-- The rounds that a move begins.
abbrev pub move_begins : Phase → ℕ
move_begins running = 1
move_begins paused = 0
move_begins waiting = 0
move_begins stopping = 0
move_begins over = 0

module _ (message : ℕ → Bytes) (link : Link) where
  -- `next` is when the next round is due, and the thread sleeps until `wake`.
  pub record Thread : Type 0 where
    pub loop : Loop message link
    pub next : ℕ
    pub wake : ℕ
    pub phase : Phase

  unfoldable pub spawn : link.Carrier → ℕ → Thread
  unfolding start
  spawn l now = record { loop = start message link l; next = now; wake = now; phase = running }

  -- After a round.
  unfoldable pub pace : Thread → ℕ → Thread
  unfolding paced
  pace t now =
      if t.loop.shared.stop
      then record t { phase = stopping }
      else record t { next = paced t.next now; phase = waiting }

  -- One turn of the inner loop, and what follows it when it breaks.
  unfoldable pub wait : Thread → ℕ → Thread
  unfolding nap
  wait t now =
      if t.loop.shared.stop
      then record t { phase = stopping }
      else (if leb t.next now
          then record t { phase = running }
          else record t { wake = now + nap t.next now })

  -- What the thread does when it is awake, at this time.
  unfoldable pub move : Phase → Thread → ℕ → Clock → Thread
  unfolding round finish pace wait
  move running t now clock = record t { loop = round message link t.loop now clock; phase = paused }
  move paused t now clock = pace t now
  move waiting t now clock = wait t now
  move stopping t now clock = record t { loop = finish message link t.loop now; phase = over }
  move over t now clock = t

  unfoldable pub call : (Shared → Shared) → Thread → Thread
  call f t = record t { loop = record t.loop { shared = f t.loop.shared } }

  -- From one time to a later one: a host's call, or a move of the thread.
  pub data Step (now : ℕ) (t : Thread) : ℕ → Thread → Type 0 where
    asks : (mac : Bytes) (percent : ℕ) → Step now t now (call (λ s. set_percent s mac percent) t)
    gives_up : (mac : Bytes) → Step now t now (call (λ s. clear s mac) t)
    stops : Step now t now (call stop t)
    moves :
        (later : ℕ) (clock : Clock)
        → now ≤ later
        → t.wake ≤ later
        → Step now t later (move t.phase t later clock)

  -- The rounds that a step begins.
  abbrev pub begins : {now later : ℕ} {t t' : Thread} → Step now t later t' → ℕ
  begins (asks mac percent) = 0
  begins (gives_up mac) = 0
  begins stops = 0
  begins {t} (moves later clock le wake) = move_begins t.phase

  -- The thread at a time, and the rounds that it has begun since it was spawned.
  pub data Reach (l : link.Carrier) (spawned : ℕ) : ℕ → ℕ → Thread → Type 0 where
    at_start : Reach l spawned 0 spawned (spawn l spawned)
    goes_on :
        {rounds now later : ℕ} {t t' : Thread}
        → Reach l spawned rounds now t
        → (s : Step now t later t') → Reach l spawned (rounds + begins s) later t'
