-- ===== src/Tracker/Forget.antt =====
-- src/groups.rs, `sweep`: which groups are forgotten, and what is reported of them.
use fan_control_lian_li_wire.Base.{
  ℕ, suc, ◌≤◌, ◌≡◌, refl, ap, ap₂, ◌∙◌, inl, inr, Bool, true, false, not, Option, none, some, List,
  [], ◌∷◌, map, arith, ltb, if◌then◌else◌, Bool-cases, find, filter, Bytes, bytes_eq, secs,
  duration_since,
}
use fan_control_lian_li_wire.Groups.{Group, online, bound_to, keep}
use fan_control_lian_li_wire.Tracker.{Tracker, has_mac, macs, group, rebuild, keeps, sweep}
use fan_control_lian_li_wire.Tracker.Counts.{count, test_at, find-mac}
use fan_control_lian_li_wire.Tracker.Order.{IsTracker}
use mathlib.Core.Option
use fan_control_lian_li_wire.Groups

find_absent :
    (q : Group → Bool) (m : Bytes) (gs : List Group)
    → suc (count m (macs gs)) ≤ 1
    → find (has_mac m) (filter q gs) ≡ none
find_absent q m [] h = refl
find_absent q m (g ∷ gs) h = elim (Bool-cases (bytes_eq g.device.mac m)) [
  | inl e ↦ absurd (ground (arith))
  | inr e ↦ elim (Bool-cases (q g)) [
    | inl t ↦ rw (t, e) (find_absent q m gs (rw e at h))
    | inr f ↦ rw f (find_absent q m gs (rw e at h))
  ]
]

find-filter :
    (q : Group → Bool) (m : Bytes) (gs : List Group)
    → count m (macs gs) ≤ 1
    → find (has_mac m) (filter q gs)
      ≡ (if test_at q (find (has_mac m) gs) then find (has_mac m) gs else none)
find-filter q m [] h = ground arith
find-filter q m (g ∷ gs) h = elim (Bool-cases (bytes_eq g.device.mac m)) [
  | inl e ↦ elim (Bool-cases (q g)) [
    | inl t ↦ rw (e, t, e)
    | inr f ↦ rw (e, f) (find_absent q m gs (rw e at h))
  ]
  | inr e ↦ elim (Bool-cases (q g)) [
    | inl t ↦ rw (e, t, e) (find-filter q m gs (rw e at h))
    | inr f ↦ rw (e, f) (find-filter q m gs (rw e at h))
  ]
]

-- What the list of forgotten addresses says of this one.
abbrev reported : Bytes → List (Bytes × Bool) → Option (Bytes × Bool)
reported m = find (λ f. bytes_eq f.0 m)

abbrev report : Bytes → Group → Bytes × Bool
report master g = (g.device.mac, bound_to g master)

reported-map :
    (master m : Bytes) (gs : List Group)
    → reported m (map (report master) gs) ≡ Option.map (report master) (find (has_mac m) gs)
reported-map master m [] = refl
reported-map master m (g ∷ gs) = elim (Bool-cases (bytes_eq g.device.mac m)) [
  | inl e ↦ rw e
  | inr e ↦ rw e (reported-map master m gs)
]

-- What a sweep made of the group at an address, and what it reported of it.
abbrev pub outcome : Tracker → ℕ → Bytes → Option Group × Option (Bytes × Bool)
outcome t now m = (group (sweep t now).0 m, reported m (sweep t now).1)

swept :
    (t : Tracker) (now : ℕ) (m : Bytes) (g : Group)
    → IsTracker t
    → group t m ≡ some g
    → outcome t now m ≡ (
        if keeps t.master_mac now g
        then (some g, none)
        else (none, some (m, bound_to g t.master_mac)))
unfolding sweep group rebuild
swept t now m g h e =
    let stays = find-filter (keeps t.master_mac now) m t.groups (h.distinct m) in
    let goes = find-filter (λ g. not (keeps t.master_mac now g)) m t.groups (h.distinct m) in
    let says =
      reported-map t.master_mac m (filter (λ g. not (keeps t.master_mac now g)) t.groups) in
    elim (Bool-cases (keeps t.master_mac now g)) [
      | inl k ↦ rw k (ap₂ (λ a b. (a, b)) (stays ∙ rw (e, k) refl) (says ∙ rw (goes, e, k) refl))
      | inr k ↦ rw k (
          ap₂ (λ a b. (a, b)) (stays ∙ rw (e, k) refl)
            (says ∙ rw (goes, e, k) (ap some (rw (find-mac m t.groups e) refl))))
    ]

-- A sweep keeps a group that is online as it is. Of those offline it forgets one that is not bound
-- to the dongle at once, and a bound one from ten minutes after it was last heard; each is reported
-- with whether it was bound.
pub group-sweep :
    (t : Tracker) (now : ℕ) (m : Bytes) (g : Group)
    → IsTracker t
    → group t m ≡ some g
    → outcome t now m ≡ (
        if Groups.online g now
        then (some g, none)
        else (if bound_to g t.master_mac
            then (if ltb (duration_since now g.last_seen) (secs 600)
                then (some g, none)
                else (none, some (m, true)))
            else (none, some (m, false))))
unfolding keeps
group-sweep t now m g h e =
    let s = swept t now m g h e in
    elim (Bool-cases (Groups.online g now)) [
      | inl on ↦ rw on (rw on at s)
      | inr off ↦ elim (Bool-cases (bound_to g t.master_mac)) [
        | inr free ↦ rw (off, free) (rw (off, free) at s)
        | inl bound ↦ elim (Bool-cases (ltb (duration_since now g.last_seen) (secs 600))) [
          | inl young ↦ rw (off, bound, young) (rw (off, bound, young) at s)
          | inr old ↦ rw (off, bound, old) (rw (off, bound, old) at s)
        ]
      ]
    ]
