-- ===== src/Engine/Published.antt =====
-- src/engine.rs, `publish`: which groups the snapshot names.
use mathlib.Core.List.{map-append}
use fan_control_lian_li_wire.Tracker.{
  Tracker, has_mac, macs, group, is_online, is_heard, sweep, lookup_all, online, fans,
}
use fan_control_lian_li_wire.Base.{
  ℕ, suc, ◌+◌, ◌≡◌, refl, ap, subst, ◌∙◌, inl, inr, Bool, not, ◌&&◌, Option, none, some, List, [],
  ◌∷◌, map, arith, if◌then◌else◌, Bool-cases, Option-cases, find, filter, Bytes, bytes_eq,
  bytes_eq_sound,
}
use fan_control_lian_li_wire.Groups.{Group}
use fan_control_lian_li_wire.Tracker.Counts.{
  count, count-append, test_at, count-macs-filter, find-mac,
}
use fan_control_lian_li_wire.Engine.{GroupState, Core}
use fan_control_lian_li_wire.Engine.Publish.{online_state, offline_state, bound_fans, publish}
use fan_control_lian_li_wire.Tracker.Order.{IsTracker}
use fan_control_lian_li_wire.Groups
use fan_control_lian_li_wire.Tracker

count-lookup_all :
    (gs : List Group) (q : Group → Bool) (m : Bytes) (order : List Bytes)
    → count m (macs (filter q (lookup_all gs order)))
      ≡ (if test_at q (find (has_mac m) gs) then count m order else 0)
count-lookup_all gs q m [] = ground arith
count-lookup_all gs q m (x ∷ rest) =
    let ih = count-lookup_all gs q m rest in
    elim (Option-cases (find (has_mac x) gs)) [
      | inl f ↦ elim (Bool-cases (bytes_eq x m)) [
        | inl e ↦
            let gone = subst (λ y. find (has_mac y) gs ≡ none) (bytes_eq_sound x m e) f in
            rw (f, gone) (ih ∙ rw gone refl)
        | inr e ↦ rw (f, e) ih
      ]
      | inr (g, f) ↦
          let mac = ap (λ y. bytes_eq y m) (find-mac x gs f) in
          elim (Bool-cases (bytes_eq x m)) [
            | inl e ↦
                let at = subst (λ y. find (has_mac y) gs ≡ some g) (bytes_eq_sound x m e) f in
                let next = rw at at ih in
                elim (Bool-cases (q g)) [
                  | inl t ↦ rw (f, at, e, t, mac, e) (ap suc (rw t at next))
                  | inr n ↦ rw (f, at, n) (rw n at next)
                ]
            | inr e ↦ elim (Bool-cases (q g)) [
              | inl t ↦ rw (f, e, t, mac, e) ih
              | inr n ↦ rw (f, e, n) ih
            ]
          ]
    ]

macs-online :
    (now : ℕ) (gs : List Group)
    → map (λ (s : GroupState). s.mac) (map (online_state now) gs) ≡ macs gs
unfolding online_state
macs-online now [] = refl
macs-online now (g ∷ gs) = ap (λ ms. g.device.mac ∷ ms) (macs-online now gs)

macs-offline : (gs : List Group) → map (λ (s : GroupState). s.mac) (map offline_state gs) ≡ macs gs
unfolding offline_state
macs-offline [] = refl
macs-offline (g ∷ gs) = ap (λ ms. g.device.mac ∷ ms) (macs-offline gs)

split_heard :
    (q : Group → Bool) (now : ℕ) (found : Option Group)
    → (if test_at q found then (if is_online now found then 1 else 0) else 0)
        + (if test_at (λ g. q g && not (Groups.online g now)) found then 1 else 0)
      ≡ (if test_at q found then 1 else 0)
split_heard q now none = refl
split_heard q now (some g) = ground arith

-- The test of `publish` at an address: a group bound to the dongle, with fans.
abbrev pub is_bound_fans : Tracker → Bytes → Bool
is_bound_fans t m = test_at (bound_fans t.master_mac) (find (has_mac m) t.groups)

-- Where the order holds exactly the groups that are online, as after a poll or a sweep, the
-- snapshot names each known group that has fans and is bound to the dongle once, online or not,
-- and no other.
pub count-publish :
    (c : Core) (now : ℕ) (m : Bytes)
    → IsTracker c.tracker
    → count m c.tracker.order ≡ (if is_heard c.tracker.groups now m then 1 else 0)
    → count m (map (λ (s : GroupState). s.mac) (publish c now).snapshot.groups)
      ≡ (if is_bound_fans c.tracker m then 1 else 0)
unfolding publish Tracker.online
count-publish c now m h o =
    let t = c.tracker in
    let q = bound_fans t.master_mac in
    let on = filter q (lookup_all t.groups t.order) in
    let off = filter (λ g. q g && not (Groups.online g now)) t.groups in
    let on_count = count-lookup_all t.groups q m t.order in
    let off_count =
      count-macs-filter (λ g. q g && not (Groups.online g now)) m t.groups (h.distinct m) in
    ap (count m)
      (map-append (λ (s : GroupState). s.mac) (map (online_state now) on) (map offline_state off))
    ∙ count-append m (map (λ (s : GroupState). s.mac) (map (online_state now) on))
        (map (λ (s : GroupState). s.mac) (map offline_state off))
    ∙ rw (macs-online now on, macs-offline off, on_count, off_count, o)
        (split_heard q now (find (has_mac m) t.groups))
