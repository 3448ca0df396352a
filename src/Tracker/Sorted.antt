-- ===== src/Tracker/Sorted.antt =====
-- src/groups.rs, `rebuild`: who keeps a place in the order, and where the others join.
use fan_control_lian_li_wire.Base.{
  ◌+◌, sym, ◌∙◌, if◌then◌else◌, ℕ, ◌≡◌, refl, inl, inr, true, false, not, ◌&&◌, List, [], ◌∷◌, ◌++◌,
  arith, Bool-cases, filter, Bytes, bytes_lt,
}
use fan_control_lian_li_wire.Groups.{Group, new, online, keep}
use fan_control_lian_li_wire.Tracker.{
  Tracker, macs, contains, insert_sorted, sort, is_heard, rebuild,
}
use fan_control_lian_li_wire.Tracker.Counts.{count, count-append}
use fan_control_lian_li_wire.Tracker.Order.{IsTracker, count-rebuild}
use fan_control_lian_li_wire.Groups

bytes_lt_asymm : (a b : Bytes) → bytes_lt a b ≡ true → bytes_lt b a ≡ false
bytes_lt_asymm [] [] h = cc
bytes_lt_asymm [] (y ∷ ys) h = refl
bytes_lt_asymm (x ∷ xs) [] h = cc
bytes_lt_asymm (x ∷ xs) (y ∷ ys) h = ground (arith, bytes_lt_asymm xs ys)

-- Lowest address first.
abbrev pub IsSorted : List Bytes → Type 0
IsSorted [] = Unit {0}
IsSorted (m ∷ []) = Unit {0}
IsSorted (m ∷ n ∷ ns) = (bytes_lt n m ≡ false) × IsSorted (n ∷ ns)

insert_sorted-IsSorted : (m : Bytes) (ns : List Bytes) → IsSorted ns → IsSorted (insert_sorted m ns)
unfolding insert_sorted
insert_sorted-IsSorted m [] h = tt
insert_sorted-IsSorted m (n ∷ []) h = elim (Bool-cases (bytes_lt n m)) [
  | inl e ↦ rw e (bytes_lt_asymm n m e, tt)
  | inr e ↦ rw e (e, tt)
]
insert_sorted-IsSorted m (n ∷ k ∷ ns) h =
    let ih = insert_sorted-IsSorted m (k ∷ ns) h.1 in
    elim (Bool-cases (bytes_lt n m)) [
      | inl e ↦ elim (Bool-cases (bytes_lt k m)) [
        | inl f ↦ rw (e, f) (h.0, rw f at ih)
        | inr f ↦ rw (e, f) (bytes_lt_asymm n m e, (f, h.1))
      ]
      | inr e ↦ rw e (e, h)
    ]

sort-IsSorted : (ns : List Bytes) → IsSorted (sort ns)
unfolding sort
sort-IsSorted [] = tt
sort-IsSorted (n ∷ ns) = insert_sorted-IsSorted n (sort ns) (sort-IsSorted ns)

-- Those of the old order that keep their place.
abbrev pub staying : Tracker → ℕ → List Bytes
staying t now = filter (is_heard t.groups now) t.order

abbrev joining : Tracker → ℕ → List Bytes
joining t now =
    macs (filter (λ g. Groups.online g now && not (contains (staying t now) g.device.mac)) t.groups)

-- A rebuild keeps those of the old order that are online, in their order, and puts the others that
-- are online behind them, lowest address first: each group that is online stands once, in the one
-- part or in the other, and no other address stands in either. It changes nothing else.
pub rebuild_lem :
    (t : Tracker) (now : ℕ)
    → IsTracker t
    → (joined : List Bytes) × ((rebuild t now).order ≡ staying t now ++ joined)
      × IsSorted joined
      × ((m : Bytes)
          → count m (staying t now) + count m joined ≡ (if is_heard t.groups now m then 1 else 0))
      × ((rebuild t now).groups ≡ t.groups)
      × ((rebuild t now).master_mac ≡ t.master_mac)
unfolding rebuild
rebuild_lem t now h = (
  sort (joining t now),
  refl,
  sort-IsSorted (joining t now),
  (λ m. sym (count-append m (staying t now) (sort (joining t now))) ∙ count-rebuild t now m h),
  refl,
  refl,
)
