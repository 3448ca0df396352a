-- ===== src/Probe/Unique.antt =====
-- src/bin/probe.rs: a prefix is resolved exactly if it names one group.
use fan_control_lian_li_wire.Base.{
  ◌≡◌, refl, ap, subst, ◌↔◌, inl, inr, Bool, true, false, List, [], ◌∷◌, ◌++◌, map, arith,
  Bool-cases, filter, any, Bytes, ok,
}
use fan_control_lian_li_wire.Discovery.{Device}
use fan_control_lian_li_wire.Probe.Resolve.{
  has_prefix, addresses, resolve_in, resolve, devices, choose_in, choose,
}
use fan_control_lian_li_wire.Tracker.{Tracker}
use fan_control_lian_li_wire.Engine.{Snapshot}

-- `x` stands once in the list and passes the test, and nothing before or after it does.
pub record IsOnly {A : Type 0} (test : A → Bool) (xs : List A) (x : A) : Type 0 where
  pub before : List A
  pub after : List A
  pub splits : xs ≡ before ++ x ∷ after
  pub passes : test x ≡ true
  pub others_before : any test before ≡ false
  pub others_after : any test after ≡ false

filter-none :
    {A : Type 0} (test : A → Bool) (xs : List A) → any test xs ≡ false → filter test xs ≡ []
filter-none test [] h = refl
filter-none test (x ∷ xs) h = ground (arith, filter-none test xs)

none-filter :
    {A : Type 0} (test : A → Bool) (xs : List A) → filter test xs ≡ [] → any test xs ≡ false
none-filter test [] h = refl
none-filter test (x ∷ xs) h = elim (Bool-cases (test x)) [
  | inl e ↦ absurd (cc (rw e at h))
  | inr e ↦ rw e (none-filter test xs (rw e at h))
]

filter-append-none :
    {A : Type 0} (test : A → Bool) (xs ys : List A)
    → any test xs ≡ false
    → filter test (xs ++ ys) ≡ filter test ys
filter-append-none test [] ys h = refl
filter-append-none test (x ∷ xs) ys h = ground (arith, filter-append-none test xs ys)

pub filter-IsOnly :
    {A : Type 0} (test : A → Bool) (xs : List A) (x : A)
    → IsOnly test xs x
    → filter test xs ≡ x ∷ []
filter-IsOnly test xs x o =
    rw
      (
        o.splits,
        filter-append-none test o.before (x ∷ o.after) o.others_before,
        o.passes,
        filter-none test o.after o.others_after,
      )
      refl

IsOnly-after :
    {A : Type 0} (test : A → Bool) (y : A) (ys : List A) (x : A)
    → test y ≡ false
    → IsOnly test ys x
    → IsOnly test (y ∷ ys) x
IsOnly-after test y ys x e o = record {
  before = y ∷ o.before;
  after = o.after;
  splits = ap (◌∷◌ y) o.splits;
  passes = o.passes;
  others_before = rw e o.others_before;
  others_after = o.others_after;
}

pub IsOnly-filter :
    {A : Type 0} (test : A → Bool) (xs : List A) (x : A)
    → filter test xs ≡ x ∷ []
    → IsOnly test xs x
IsOnly-filter test [] x h = absurd (cc h)
IsOnly-filter test (y ∷ ys) x h = elim (Bool-cases (test y)) [
  | inl e ↦
      let eq : (y ∷ filter test ys) ≡ x ∷ [] = rw e at h in
      let same : y ≡ x = cc eq in
      let rest : filter test ys ≡ [] = cc eq in
      record {
        before = [];
        after = ys;
        splits = ap (λ z. z ∷ ys) same;
        passes = subst (λ z. test z ≡ true) same e;
        others_before = refl;
        others_after = none-filter test ys rest;
      }
  | inr e ↦ IsOnly-after test y ys x e (IsOnly-filter test ys x (rw e at h))
]

resolve_in_ok :
    (known : List Bytes) (prefix : Bytes) (matching : List Bytes) (m : Bytes)
    → resolve_in known prefix matching ≡ ok m
    → matching ≡ m ∷ []
unfolding resolve_in
resolve_in_ok known prefix [] m h = cc
resolve_in_ok known prefix (one ∷ []) m h = cc
resolve_in_ok known prefix (one ∷ two ∷ more) m h = cc

choose_in_ok :
    (known : List Bytes) (prefix : Bytes) (matching : List Device) (d : Device)
    → choose_in known prefix matching ≡ ok d
    → matching ≡ d ∷ []
unfolding choose_in
choose_in_ok known prefix [] d h = cc
choose_in_ok known prefix (one ∷ []) d h = cc
choose_in_ok known prefix (one ∷ two ∷ more) d h = cc

-- A prefix is resolved to an address exactly if the text of this one address, among those that the
-- snapshot names, starts with it and no other does.
pub resolve_iff :
    (snapshot : Snapshot) (prefix m : Bytes)
    → (resolve snapshot prefix ≡ ok m) ↔ IsOnly (has_prefix prefix) (addresses snapshot) m
unfolding resolve resolve_in
resolve_iff snapshot prefix m = (
  λ h.
      IsOnly-filter (has_prefix prefix) (addresses snapshot) m
        (resolve_in_ok (addresses snapshot) prefix _ m h),
  λ o. rw (filter-IsOnly (has_prefix prefix) (addresses snapshot) m o, resolve) refl,
)

-- The same of the devices that `set` chooses from.
pub choose_iff :
    (t : Tracker) (prefix : Bytes) (d : Device)
    → (choose t prefix ≡ ok d) ↔ IsOnly (λ x. has_prefix prefix x.mac) (devices t) d
unfolding choose choose_in
choose_iff t prefix d = (
  λ h.
      IsOnly-filter (λ x. has_prefix prefix x.mac) (devices t) d
        (choose_in_ok (map (λ x. x.mac) (devices t)) prefix _ d h),
  λ o. rw (filter-IsOnly (λ x. has_prefix prefix x.mac) (devices t) d o, choose) refl,
)
