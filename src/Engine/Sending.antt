-- ===== src/Engine/Sending.antt =====
-- src/engine.rs, `send_if_due`: what goes out over the link.
use fan_control_lian_li_wire.Base.{
  ℕ, ◌≡◌, refl, sym, ap, subst, ◌∙◌, inl, inr, true, false, some, List, [], ◌∷◌, ◌++◌, Bool-cases,
  Option-cases, Bytes, bytes_eq, ok,
}
use fan_control_lian_li_wire.Groups.{Group, due}
use fan_control_lian_li_wire.Tracker.{Tracker, group, slot, sent}
use fan_control_lian_li_wire.Tracker.Counts.{find-mac}
use fan_control_lian_li_wire.Tracker.Slots.{slot-sent, group-sent}
use fan_control_lian_li_wire.Engine.{Link, Core}
use fan_control_lian_li_wire.Engine.Drive.{send_target, send_if_due}
use fan_control_lian_li_wire.Groups
use fan_control_lian_li_wire.Speed
use fan_control_lian_li_wire.Tracker

-- It is one of the list.
abbrev pub IsOneOf : ℕ × ℕ × Bytes → List (ℕ × ℕ × Bytes) → Type 0
IsOneOf x xs =
    (before : List (ℕ × ℕ × Bytes)) × (after : List (ℕ × ℕ × Bytes)) × (xs ≡ before ++ (x ∷ after))

IsOneOf-more : (x y : ℕ × ℕ × Bytes) (xs : List (ℕ × ℕ × Bytes)) → IsOneOf x xs → IsOneOf x (y ∷ xs)
IsOneOf-more x y xs (before, after, e) = (y ∷ before, after, ap (◌∷◌ y) e)

-- A link that takes every payload, with the payloads that it has taken, the latest first.
pub record Taking (link : Link) : Type 0 where
  pub taken : link.Carrier → List (ℕ × ℕ × Bytes)
  pub succeeds :
      (l : link.Carrier) (channel to : ℕ) (payload : Bytes)
      → (link.send l channel to payload).0 ≡ ok tt
  pub takes :
      (l : link.Carrier) (channel to : ℕ) (payload : Bytes)
      → taken (link.send l channel to payload).1 ≡ (channel, to, payload) ∷ taken l
  pub same_master :
      (l : link.Carrier) (channel to : ℕ) (payload : Bytes)
      → link.master_mac (link.send l channel to payload).1 ≡ link.master_mac l

-- What carries these duties to a group.
abbrev pub frame_of : Bytes → Core → Group → Bytes → ℕ × ℕ × Bytes
frame_of master c g target = (
  g.device.channel,
  g.device.receiver,
  Speed.payload g.device master c.channel (Tracker.slot c.tracker g.device.mac) target,
)

pub find_mac_of :
    (t : Tracker) (mac : Bytes) (g : Group) → group t mac ≡ some g → g.device.mac ≡ mac
unfolding group
find_mac_of t mac g e = find-mac mac t.groups e

module _ (message : ℕ → Bytes) (link : Link) (taking : Taking link) where
  -- What is taken before is still taken after.
  abbrev pub Grows : link.Carrier → link.Carrier → Type 0
  Grows l l' = (x : ℕ × ℕ × Bytes) → IsOneOf x (taking.taken l) → IsOneOf x (taking.taken l')

  -- Of a step that does not drive the group at `m`.
  pub record Aside (m : Bytes) (c : Core) (l : link.Carrier) (c' : Core) (l' : link.Carrier)
      : Type 0 where
    pub group_kept : group c'.tracker m ≡ group c.tracker m
    pub slot_kept : Tracker.slot c'.tracker m ≡ Tracker.slot c.tracker m
    pub master_kept : link.master_mac l' ≡ link.master_mac l

  send_target-sent :
      (c : Core) (l : link.Carrier) (g : Group) (target : Bytes) (now : ℕ)
      → let (c', l') = send_target message link c l g target now in
        (c'.tracker ≡ Tracker.sent c.tracker g.device.mac now)
        × (taking.taken l' ≡ frame_of (link.master_mac l) c g target ∷ taking.taken l)
        × (link.master_mac l' ≡ link.master_mac l)
  unfolding send_target
  send_target-sent c l g target now =
      let (to, from, payload) = frame_of (link.master_mac l) c g target in
      rw (taking.succeeds l to from payload, send_target)
        (refl, taking.takes l to from payload, taking.same_master l to from payload)

  pub send_if_due-Grows :
      (c : Core) (l : link.Carrier) (mac : Bytes) (now : ℕ)
      → Grows l (send_if_due message link c l mac now).1
  unfolding send_if_due
  send_if_due-Grows c l mac now x h = elim (Option-cases (group c.tracker mac)) [
    | inl e ↦ rw (e, send_if_due) h
    | inr (g, e) ↦ elim (Bool-cases (Groups.due g now)) [
      | inr d ↦ rw (e, send_if_due, d) h
      | inl d ↦ elim (Option-cases g.target) [
        | inl f ↦ rw (e, send_if_due, d, f) h
        | inr (target, f) ↦
            rw (e, send_if_due, d, f)
              (subst (IsOneOf x) (sym (send_target-sent c l g target now).1)
                (IsOneOf-more x (frame_of (link.master_mac l) c g target) (taking.taken l) h))
      ]
    ]
  ]

  pub send_if_due-Aside :
      (c : Core) (l : link.Carrier) (mac m : Bytes) (now : ℕ)
      → bytes_eq mac m ≡ false
      → let (c', l') = send_if_due message link c l mac now in Aside m c l c' l'
  unfolding send_if_due group
  send_if_due-Aside c l mac m now other = elim (Option-cases (group c.tracker mac)) [
    | inl e ↦
        rw (e, send_if_due) (record { group_kept = refl; slot_kept = refl; master_kept = refl })
    | inr (g, e) ↦ elim (Bool-cases (Groups.due g now)) [
      | inr d ↦
          rw (e, send_if_due, d)
            (record { group_kept = refl; slot_kept = refl; master_kept = refl })
      | inl d ↦ elim (Option-cases g.target) [
        | inl f ↦
            rw (e, send_if_due, d, f)
              (record { group_kept = refl; slot_kept = refl; master_kept = refl })
        | inr (target, f) ↦
            let (went, took, master) = send_target-sent c l g target now in
            let at : g.device.mac ≡ mac = find-mac mac c.tracker.groups e in
            let apart : bytes_eq g.device.mac m ≡ false = rw at other in
            rw (e, send_if_due, d, f)
              (record {
                group_kept =
                    ap (λ t. group t m) went ∙ group-sent c.tracker g.device.mac m now apart;
                slot_kept =
                    ap (λ t. Tracker.slot t m) went ∙ slot-sent c.tracker g.device.mac m now;
                master_kept = master;
              })
      ]
    ]
  ]

  -- A group that is due and has a target gets it.
  pub send_if_due-IsOneOf :
      (c : Core) (l : link.Carrier) (mac : Bytes) (now : ℕ) (g : Group) (target : Bytes)
      → group c.tracker mac ≡ some g
      → Groups.due g now ≡ true
      → g.target ≡ some target
      → IsOneOf
          (frame_of (link.master_mac l) c g target)
          (taking.taken (send_if_due message link c l mac now).1)
  unfolding send_if_due
  send_if_due-IsOneOf c l mac now g target e d f =
      rw (e, send_if_due, d, f) ([], taking.taken l, (send_target-sent c l g target now).1)
