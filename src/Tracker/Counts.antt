-- ===== src/Tracker/Counts.antt =====
-- How often an address stands in a list, through the list operations of `Tracker`.
use fan_control_lian_li_wire.Base.{
  ℕ, suc, ◌+◌, ◌≤◌, ◌≡◌, refl, inl, inr, Bool, false, Option, none, some, List, [], ◌∷◌, ◌++◌,
  arith, ltb, if◌then◌else◌, Bool-cases, find, filter, Bytes, bytes_eq, bytes_eq_sound,
  bytes_eq_refl,
}
use fan_control_lian_li_wire.Groups.{Group}
use fan_control_lian_li_wire.Tracker.{has_mac, macs, contains, insert_sorted, sort}

abbrev pub count : Bytes → List Bytes → ℕ
count m [] = 0
count m (x ∷ xs) = let rest = count m xs in if bytes_eq x m then suc rest else rest

pub count-append : (m : Bytes) (xs ys : List Bytes) → count m (xs ++ ys) ≡ count m xs + count m ys
count-append m [] ys = omega arith
count-append m (x ∷ xs) ys = ground (arith, count-append m xs ys)

pub count-insert_sorted :
    (m n : Bytes) (ns : List Bytes) → count m (insert_sorted n ns) ≡ count m (n ∷ ns)
unfolding insert_sorted
count-insert_sorted m n [] = refl
count-insert_sorted m n (x ∷ ns) = ground (arith, count-insert_sorted m n ns)

pub count-sort : (m : Bytes) (ns : List Bytes) → count m (sort ns) ≡ count m ns
unfolding sort
count-sort m [] = refl
count-sort m (n ∷ ns) = ground (arith, count-insert_sorted m n (sort ns), count-sort m ns)

pub count-filter :
    (p : Bytes → Bool) (m : Bytes) (ns : List Bytes)
    → count m (filter p ns) ≡ (if p m then count m ns else 0)
count-filter p m [] = ground arith
count-filter p m (n ∷ ns) = elim (Bool-cases (bytes_eq n m)) [
  | inl e ↦ rw (bytes_eq_sound n m e) (ground (arith, count-filter p m ns, bytes_eq_refl m))
  | inr e ↦ ground (arith, count-filter p m ns)
]

pub contains-count : (ns : List Bytes) (m : Bytes) → contains ns m ≡ ltb 0 (count m ns)
contains-count [] m = refl
contains-count (n ∷ ns) m = ground (arith, contains-count ns m)

-- The test of a group that has this address.
abbrev pub test_at : (Group → Bool) → Option Group → Bool
test_at q none = false
test_at q (some g) = q g

pub count-macs-filter-le :
    (q : Group → Bool) (m : Bytes) (gs : List Group)
    → count m (macs (filter q gs)) ≤ count m (macs gs)
count-macs-filter-le q m [] = omega arith
count-macs-filter-le q m (g ∷ gs) = ground (arith, count-macs-filter-le q m gs)

-- Where no two groups share an address, it is kept by a filter exactly if its group passes.
pub count-macs-filter :
    (q : Group → Bool) (m : Bytes) (gs : List Group)
    → count m (macs gs) ≤ 1
    → count m (macs (filter q gs)) ≡ (if test_at q (find (has_mac m) gs) then 1 else 0)
count-macs-filter q m [] h = refl
count-macs-filter q m (g ∷ gs) h = elim (Bool-cases (bytes_eq g.device.mac m)) [
  | inl e ↦ rw e (ground (arith, count-macs-filter-le q m gs))
  | inr e ↦ elim (Bool-cases (q g)) [
    | inl t ↦ rw (e, t) (rw e (count-macs-filter q m gs (rw e at h)))
    | inr f ↦ rw (e, f) (count-macs-filter q m gs (rw e at h))
  ]
]

pub find-mac :
    (m : Bytes) (gs : List Group) {g : Group} → find (has_mac m) gs ≡ some g → g.device.mac ≡ m
find-mac m [] h = cc
find-mac m (x ∷ gs) {g} h = elim (Bool-cases (bytes_eq x.device.mac m)) [
  | inl e ↦ ground (arith, bytes_eq_sound x.device.mac m e)
  | inr e ↦ find-mac m gs {g = g} (rw e at h)
]
