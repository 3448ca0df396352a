-- ===== src/Tracker/Order.antt =====
-- src/groups.rs, `rebuild`: the slot order after it.
use fan_control_lian_li_wire.Base.{
  ℕ, ◌≤◌, ◌≡◌, ap, inl, inr, Bool, not, ◌&&◌, arith, if◌then◌else◌, Option-cases, find, filter,
  Bytes,
}
use fan_control_lian_li_wire.Groups.{Group, online}
use fan_control_lian_li_wire.Tracker.{Tracker, has_mac, macs, contains, sort, is_heard, rebuild}
use fan_control_lian_li_wire.Tracker.Counts.{
  count, count-append, count-sort, count-filter, contains-count, test_at, count-macs-filter,
  find-mac,
}
use fan_control_lian_li_wire.Groups

-- No two groups share an address, and none stands twice in the order.
pub record IsTracker (t : Tracker) : Type 0 where
  pub distinct : (m : Bytes) → count m (macs t.groups) ≤ 1
  pub once : (m : Bytes) → count m t.order ≤ 1

joins : Tracker → ℕ → Group → Bool
joins t now g =
    Groups.online g now && not (contains (filter (is_heard t.groups now) t.order) g.device.mac)

test_at-joins :
    (t : Tracker) (now : ℕ) (m : Bytes)
    → test_at (joins t now) (find (has_mac m) t.groups)
      ≡ (is_heard t.groups now m && not (contains (filter (is_heard t.groups now) t.order) m))
unfolding joins
test_at-joins t now m = elim (Option-cases (find (has_mac m) t.groups)) [
  | inl e ↦ rw e
  | inr (g, e) ↦ rw e (
      ap (λ x. Groups.online g now && not (contains (filter (is_heard t.groups now) t.order) x))
        (find-mac m t.groups e))
]

-- After a rebuild, the address of every group that is online stands in the order once, and no
-- other address stands there.
pub count-rebuild :
    (t : Tracker) (now : ℕ) (m : Bytes)
    → IsTracker t
    → count m (rebuild t now).order ≡ (if is_heard t.groups now m then 1 else 0)
unfolding rebuild joins
count-rebuild t now m h =
    let stay = filter (is_heard t.groups now) t.order in
    let joining = macs (filter (joins t now) t.groups) in
    ground (
      arith,
      h.once m,
      count-append m stay (sort joining),
      count-sort m joining,
      count-filter (is_heard t.groups now) m t.order,
      count-macs-filter (joins t now) m t.groups (h.distinct m),
      test_at-joins t now m,
      contains-count stay m,
    )

pub rebuild-IsTracker : (t : Tracker) (now : ℕ) → IsTracker t → IsTracker (rebuild t now)
unfolding rebuild
rebuild-IsTracker t now h = record {
  distinct = h.distinct;
  once = λ m. ground (arith, count-rebuild t now m h);
}
