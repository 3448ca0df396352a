-- ===== src/Ffi/Reported.antt =====
-- src/ffi.rs, `State::from`: the state against the snapshot it was made from.
use fan_control_lian_li_wire.Base.{
  ℕ, zero, suc, ◌≤◌, ◌<◌, ◌≡◌, refl, ap, ◌↔◌, Bool, true, false, Option, none, some, List, [], ◌∷◌,
  arith, length, get_elem?, replicate, length-replicate, Bytes,
}
use fan_control_lian_li_wire.Engine.{GroupState, Snapshot, is_some}
use fan_control_lian_li_wire.Ffi.{
  max_groups, flag, Group, default_group, target_or_zero, group_of, fill_groups, state_of,
}

-- A group of the state says what the snapshot says of it.
pub record Says (out : Group) (g : GroupState) : Type 0 where
  pub mac : out.mac ≡ g.mac
  pub receiver : out.receiver ≡ g.receiver
  pub fan_count : out.fan_count ≡ g.fan_count
  pub model : out.model ≡ g.model
  pub online : (out.online ≡ 1) ↔ (g.online ≡ true)
  pub acknowledged : (out.acknowledged ≡ 1) ↔ (g.acknowledged ≡ true)
  pub targeted : (t : Bytes) → (g.target ≡ some t) ↔ ((out.has_target ≡ 1) × (out.target ≡ t))
  pub unacknowledged : out.unacknowledged ≡ g.unacknowledged
  pub rpm : out.rpm ≡ g.rpm
  pub duty : out.duty ≡ g.duty

flag_iff : (b : Bool) → (flag b ≡ 1) ↔ (b ≡ true)
flag_iff true = (λ h. refl, λ h. refl)
flag_iff false = (λ h. absurd (omega arith), λ h. absurd (cc h))

target_iff :
    (target : Option Bytes) (t : Bytes)
    → (target ≡ some t) ↔ ((flag (is_some target) ≡ 1) × (target_or_zero target ≡ t))
target_iff none t = (λ h. absurd (cc h), λ h. absurd (omega (arith, h.0)))
target_iff (some u) t = (λ h. (refl, cc h), λ h. ap some h.1)

group_of-Says : (g : GroupState) → Says (group_of g) g
unfolding group_of
group_of-Says g = record {
  mac = refl;
  receiver = refl;
  fan_count = refl;
  model = refl;
  online = flag_iff g.online;
  acknowledged = flag_iff g.acknowledged;
  targeted = target_iff g.target;
  unacknowledged = refl;
  rpm = refl;
  duty = refl;
}

fill_groups_at :
    (outs : List Group) (gs : List GroupState) (i : ℕ) (g : GroupState)
    → i < length outs
    → get_elem? gs i ≡ some g
    → get_elem? (fill_groups outs gs) i ≡ some (group_of g)
unfolding fill_groups
fill_groups_at [] gs i g h e = absurd (omega arith)
fill_groups_at (out ∷ outs) [] i g h e = absurd (cc e)
fill_groups_at (out ∷ outs) (x ∷ gs) zero g h e = ap (λ (o : GroupState). some (group_of o)) (cc e)
fill_groups_at (out ∷ outs) (x ∷ gs) (suc i) g h e = fill_groups_at outs gs i g (omega arith) e

fill_groups_rest :
    (outs : List Group) (gs : List GroupState) (i : ℕ)
    → length gs ≤ i
    → get_elem? (fill_groups outs gs) i ≡ get_elem? outs i
unfolding fill_groups
fill_groups_rest [] gs i h = refl
fill_groups_rest (out ∷ outs) [] i h = refl
fill_groups_rest (out ∷ outs) (x ∷ gs) zero h = absurd (omega arith)
fill_groups_rest (out ∷ outs) (x ∷ gs) (suc i) h = fill_groups_rest outs gs i (omega arith)

length-fill_groups :
    (outs : List Group) (gs : List GroupState) → length (fill_groups outs gs) ≡ length outs
unfolding fill_groups
length-fill_groups [] gs = refl
length-fill_groups (out ∷ outs) [] = refl
length-fill_groups (out ∷ outs) (x ∷ gs) = ap suc (length-fill_groups outs gs)

length_gt :
    (gs : List GroupState) (i : ℕ) (g : GroupState) → get_elem? gs i ≡ some g → i < length gs
length_gt [] i g e = absurd (cc e)
length_gt (x ∷ gs) zero g e = omega arith
length_gt (x ∷ gs) (suc i) g e = omega (arith, length_gt gs i g e)

-- Each of the first sixteen groups of a snapshot stands at its place in the state, which says the
-- same of it; the state counts it among its groups, of which there are sixteen, and the alarm flag
-- is up exactly if the snapshot has an alarm.
pub state_of-Says :
    (s : Snapshot) (i : ℕ) (g : GroupState)
    → i < 16
    → get_elem? s.groups i ≡ some g
    → ((out : Group) × (get_elem? (state_of s).groups i ≡ some out) × Says out g)
      × (i < (state_of s).group_count)
      × (length (state_of s).groups ≡ 16)
      × (((state_of s).alarm ≡ 1) ↔ (is_some s.alarm ≡ true))
unfolding state_of
state_of-Says s i g h e = (
  (
    group_of g,
    fill_groups_at (replicate max_groups default_group) s.groups i g
        (omega (arith, length-replicate 16 default_group)) e,
    group_of-Says g,
  ),
  omega (arith, length_gt s.groups i g e),
  length-fill_groups (replicate max_groups default_group) s.groups,
  flag_iff (is_some s.alarm),
)
