-- ===== src/Engine/Repeats.antt =====
-- src/engine.rs, `fail`: one failure over and over.
use fan_control_lian_li_wire.Base.{
  ℕ, ◌+◌, ◌%◌, ◌^◌, ◌<◌, ◌≡◌, refl, ap, ◌∙◌, false, none, some, List, [], ◌∷◌, ◌++◌, arith, leb,
  length, All, Bytes, bytes_eq_refl, get, get-insert, secs, duration_since,
}
use fan_control_lian_li_wire.Engine.{repeat_log_every, Core, push_event}
use fan_control_lian_li_wire.Engine.Log.{fail}

-- The same failure at each of these times.
pub burst : Core → Bytes → List ℕ → Core
burst c message [] = c
burst c message (now ∷ rest) = burst (fail c message now) message rest

burst_held :
    (c : Core) (message : Bytes) (times : List ℕ) (since held : ℕ)
    → get c.fail_log message ≡ some (since, held)
    → All (λ now. duration_since now since < secs 60) times
    → held + length times < 2 ^ 32
    → let c' = burst c message times in
      (c'.events ≡ c.events) × (get c'.fail_log message ≡ some (since, held + length times))
unfolding burst fail
burst_held c message [] since held e h n = (refl, e ∙ ap (λ k. some (since, k)) (omega arith))
burst_held c message (now ∷ rest) since held e h n =
    let recent : leb repeat_log_every (duration_since now since) ≡ false = ground (arith, h.0) in
    let counted : (held + 1) % 2 ^ 32 ≡ held + 1 = omega (arith, n) in
    let c1 = fail c message now in
    let noted : get c1.fail_log message ≡ some (since, held + 1) =
      rw (e, fail, recent, counted)
        (get-insert c.fail_log message message (since, held + 1)
          ∙ rw (bytes_eq_refl message) refl) in
    let kept : c1.events ≡ c.events = rw (e, fail, recent) refl in
    let rest_held = burst_held c1 message rest since (held + 1) noted h.1 (omega (arith, n)) in
    (rest_held.0 ∙ kept, rest_held.1 ∙ ap (λ k. some (since, k)) (omega arith))

-- A failure not seen before is logged at once. The same text again, any number of times within a
-- minute of it, adds no line; it is counted. Fewer than 2^32 times, where the count would wrap.
pub fail-burst :
    (c : Core) (message : Bytes) (since : ℕ) (times : List ℕ)
    → get c.fail_log message ≡ none
    → All (λ now. duration_since now since < secs 60) times
    → length times < 2 ^ 32
    → let c' = burst (fail c message since) message times in
      (c'.events ≡ c.events ++ (message ∷ []))
      × (get c'.fail_log message ≡ some (since, length times))
unfolding fail push_event
fail-burst c message since times e h n =
    let c1 = fail c message since in
    let noted : get c1.fail_log message ≡ some (since, 0) =
      rw (e, fail)
        (get-insert c.fail_log message message (since, 0) ∙ rw (bytes_eq_refl message) refl) in
    let said : c1.events ≡ c.events ++ (message ∷ []) = rw (e, fail) refl in
    let held = burst_held c1 message times since 0 noted h (omega (arith, n)) in
    (held.0 ∙ said, held.1 ∙ ap (λ k. some (since, k)) (omega arith))
