-- ===== src/Tracker/Invariant.antt =====
-- src/groups.rs, `Tracker`: its invariant over any history of calls.
use fan_control_lian_li_wire.Base.{
  ℕ, ◌≤◌, max, ◌≡◌, refl, ap, inl, inr, some, List, [], ◌∷◌, arith, if◌then◌else◌, Bool-cases,
  Option-cases, filter, Bytes, bytes_eq, bytes_eq_sound, bytes_eq_iff,
}
use fan_control_lian_li_wire.Discovery.{Device, Reply}
use fan_control_lian_li_wire.Groups.{Group, new, online, keep, take_sighting}
use fan_control_lian_li_wire.Groups.Live.{take_sighting-Live}
use fan_control_lian_li_wire.Tracker.{
  Tracker, has_mac, macs, group, upsert, upsert_all, is_heard, rebuild, observe, keeps, sweep,
  update_group, same_target, retarget, set_target, untarget, clear_target, mark_sent, sent,
}
use fan_control_lian_li_wire.Tracker.Counts.{count, count-macs-filter-le}
use fan_control_lian_li_wire.Tracker.Order.{IsTracker, count-rebuild, rebuild-IsTracker}
use fan_control_lian_li_wire.Groups
use fan_control_lian_li_wire.Tracker
use fan_control_lian_li_wire.Speed

count-upsert :
    (seen : Device) (now : ℕ) (m : Bytes) (gs : List Group)
    → count m (macs (upsert seen now gs))
      ≡ (if bytes_eq seen.mac m then max 1 (count m (macs gs)) else count m (macs gs))
unfolding upsert Groups.new
count-upsert seen now m [] = ground arith
count-upsert seen now m (g ∷ gs) =
    let mac = (take_sighting-Live g seen now).0.mac in
    elim (Bool-cases (has_mac seen.mac g)) [
      | inl e ↦ rw e (rw (mac, bytes_eq_sound g.device.mac seen.mac e) (ground arith))
      | inr e ↦ rw e (
          ground (
            arith,
            count-upsert seen now m gs,
            bytes_eq_iff g.device.mac m,
            bytes_eq_iff seen.mac m,
            bytes_eq_iff g.device.mac seen.mac,
          ))
    ]

upsert_all-distinct :
    (seen : List Device) (now : ℕ) (gs : List Group)
    → ((m : Bytes) → count m (macs gs) ≤ 1)
    → (m : Bytes) → count m (macs (upsert_all seen now gs)) ≤ 1
unfolding upsert_all
upsert_all-distinct [] now gs h = h
upsert_all-distinct (d ∷ rest) now gs h =
    upsert_all-distinct rest now (upsert d now gs) λ m. ground (arith, count-upsert d now m gs, h m)

pub macs-update_group :
    (mac : Bytes) (f : Group → Group) (gs : List Group)
    → ((g : Group) → (f g).device.mac ≡ g.device.mac)
    → macs (update_group mac f gs) ≡ macs gs
macs-update_group mac f [] h = refl
macs-update_group mac f (g ∷ gs) h = elim (Bool-cases (has_mac mac g)) [
  | inl e ↦ rw e (rw (h g))
  | inr e ↦ rw e (ap (◌∷◌ g.device.mac) (macs-update_group mac f gs h))
]

-- A call of the tracker, with its time.
pub data Call : Type 0 where
  observes : Reply → ℕ → Call
  sweeps : ℕ → Call
  targets : Bytes → Bytes → Call
  clears : Bytes → Call
  sends : Bytes → ℕ → Call

unfoldable pub step : Tracker → Call → Tracker
step t (observes reply now) = observe t reply now
step t (sweeps now) = (sweep t now).0
step t (targets mac wanted) = (set_target t mac wanted).0
step t (clears mac) = (clear_target t mac).0
step t (sends mac now) = sent t mac now

pub run : Tracker → List Call → Tracker
run t [] = t
run t (c ∷ cs) = run (step t c) cs

update-IsTracker :
    (t : Tracker) (mac : Bytes) (f : Group → Group)
    → ((g : Group) → (f g).device.mac ≡ g.device.mac)
    → IsTracker t
    → IsTracker (record t { groups = update_group mac f t.groups })
update-IsTracker t mac f keeps h = record {
  distinct = λ m. rw (macs-update_group mac f t.groups keeps) (h.distinct m);
  once = h.once;
}

retarget-mac : (p : Bytes) (g : Group) → (retarget p g).device.mac ≡ g.device.mac
unfolding retarget
retarget-mac p g = elim (Bool-cases (same_target g.target (some p))) [
  | inl e ↦ rw (e, retarget)
  | inr e ↦ rw (e, retarget)
]

targets-IsTracker :
    (t : Tracker) (mac wanted : Bytes) → IsTracker t → IsTracker (set_target t mac wanted).0
unfolding set_target
targets-IsTracker t mac wanted h = elim (Option-cases (group t mac)) [
  | inl e ↦ rw (e, set_target) h
  | inr (g, e) ↦
      let p = Speed.prepare g.device wanted in
      rw (e, set_target) (update-IsTracker t mac (retarget p) (retarget-mac p) h)
]

clears-IsTracker : (t : Tracker) (mac : Bytes) → IsTracker t → IsTracker (clear_target t mac).0
unfolding clear_target
clears-IsTracker t mac h = elim (Option-cases (group t mac)) [
  | inl e ↦ rw (e, clear_target) h
  | inr (g, e) ↦ rw (e, clear_target) (update-IsTracker t mac untarget (λ g. refl) h)
]

-- With the groups of a poll, or of a sweep, before the order is rebuilt.
polled-IsTracker :
    (t : Tracker) (reply : Reply) (now : ℕ)
    → IsTracker t
    → IsTracker (record t { groups = upsert_all reply.devices now t.groups })
polled-IsTracker t reply now h = record {
  distinct = upsert_all-distinct reply.devices now t.groups h.distinct;
  once = h.once;
}

swept-IsTracker :
    (t : Tracker) (now : ℕ)
    → IsTracker t
    → IsTracker (record t { groups = filter (keeps t.master_mac now) t.groups })
swept-IsTracker t now h = record {
  distinct =
      λ m. omega (arith, h.distinct m, count-macs-filter-le (keeps t.master_mac now) m t.groups);
  once = h.once;
}

pub step-IsTracker : (t : Tracker) (c : Call) → IsTracker t → IsTracker (step t c)
unfolding step observe sweep sent
step-IsTracker t (observes reply now) h = rebuild-IsTracker _ now (polled-IsTracker t reply now h)
step-IsTracker t (sweeps now) h = rebuild-IsTracker _ now (swept-IsTracker t now h)
step-IsTracker t (targets mac wanted) h = targets-IsTracker t mac wanted h
step-IsTracker t (clears mac) h = clears-IsTracker t mac h
step-IsTracker t (sends mac now) h = update-IsTracker t mac (mark_sent now) (λ g. refl) h

run-IsTracker : (t : Tracker) (cs : List Call) → IsTracker t → IsTracker (run t cs)
unfolding run
run-IsTracker t [] h = h
run-IsTracker t (c ∷ cs) h = run-IsTracker (step t c) cs (step-IsTracker t c h)

-- Whatever calls are made of a new tracker, no two of its groups share an address, and no address
-- stands in its order twice.
pub run-new-IsTracker : (master : Bytes) (cs : List Call) → IsTracker (run (Tracker.new master) cs)
unfolding Tracker.new
run-new-IsTracker master cs =
    run-IsTracker (Tracker.new master) cs
      (record { distinct = λ m. omega arith; once = λ m. omega arith })

-- After a poll is taken in, or a sweep, the order holds each group that is online once and no
-- other address, after any history of calls.
pub count-order :
    (master : Bytes) (cs : List Call) (reply : Reply) (now : ℕ) (m : Bytes)
    → let t = run (Tracker.new master) cs in
      let polled = observe t reply now in
      let swept = (sweep t now).0 in
      (count m polled.order ≡ (if is_heard polled.groups now m then 1 else 0))
      × (count m swept.order ≡ (if is_heard swept.groups now m then 1 else 0))
unfolding observe sweep rebuild
count-order master cs reply now m =
    let h = run-new-IsTracker master cs in
    (
      count-rebuild _ now m (polled-IsTracker _ reply now h),
      count-rebuild _ now m (swept-IsTracker _ now h),
    )
