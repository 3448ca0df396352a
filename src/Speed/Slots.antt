-- ===== src/Speed/Slots.antt =====
-- src/speed.rs, `slot`: a bound device's position.
use fan_control_lian_li_wire.Base.{
  ℕ, suc, ◌+◌, ◌-◌, ◌≤◌, ◌<◌, ◌≡◌, refl, sym, ◌∙◌, ◌↔◌, inl, inr, Bool, true, false, none, some,
  List, [], ◌∷◌, arith, Bool-cases, Option-cases, length, get_elem?, filter, any, position_from,
  Bytes, bytes_eq, bytes_eq_sound,
}
use fan_control_lian_li_wire.Discovery.{Device}
use fan_control_lian_li_wire.Speed.{slot}

-- The devices bound to the dongle, in list order.
abbrev pub bound : List Device → Bytes → List Device
bound devices master = filter (λ d. bytes_eq d.master_mac master) devices

module _ {ℓ} {A : Type ℓ} (p : A → Bool) where
  position_from-found :
      (i k : ℕ) (xs : List A)
      → position_from i p xs ≡ some k
      → (x : A) × (i ≤ k) × (k < i + length xs) × (get_elem? xs (k - i) ≡ some x) × (p x ≡ true)
  position_from-found i k [] h = cc
  position_from-found i k (x ∷ xs) h = elim (Bool-cases (p x)) [
    | inl e ↦
        let same : i ≡ k = ground arith in
        let none_left : k - i ≡ 0 = omega arith in
        (x, omega arith, omega arith, rw none_left refl, e)
    | inr e ↦
        let (y, lo, hi, at, py) = position_from-found (suc i) k xs (rw e at h) in
        let next : k - i ≡ suc (k - suc i) = omega arith in
        (y, omega arith, omega arith, rw next at, py)
  ]

  position_from-none : (i : ℕ) (xs : List A) → (position_from i p xs ≡ none) ↔ (any p xs ≡ false)
  position_from-none i [] = ground arith
  position_from-none i (x ∷ xs) = elim (Bool-cases (p x)) [
    | inl e ↦ rw e ((λ h. cc), λ h. cc)
    | inr e ↦ rw e (position_from-none (suc i) xs)
  ]

-- The device is bound to the dongle and in the list.
abbrev pub is_bound : List Device → Bytes → Bytes → Bool
is_bound devices master mac = any (λ d. bytes_eq d.mac mac) (bound devices master)

-- A device that is bound, and one that is not.
pub slot_lem :
    (devices : List Device) (master mac : Bytes)
    → length (bound devices master) < 256
    → (is_bound devices master mac ≡ true
        → (d : Device) × (1 ≤ slot devices master mac)
          × (slot devices master mac ≤ length (bound devices master))
          × (get_elem? (bound devices master) (slot devices master mac - 1) ≡ some d)
          × (d.mac ≡ mac))
      × (is_bound devices master mac ≡ false → slot devices master mac ≡ 1)
unfolding slot
slot_lem devices master mac few =
    let p = λ (d : Device). bytes_eq d.mac mac in
    let bs = bound devices master in
    elim (Option-cases (position_from 0 p bs)) [
      | inl e ↦
          let out : is_bound devices master mac ≡ false = (position_from-none p 0 bs).0 e in
          ((λ h. absurd (cc (sym h ∙ out))), λ h. rw (e, slot) refl)
      | inr (k, e) ↦
          let (d, lo, hi, at, is) = position_from-found p 0 k bs e in
          let found : slot devices master mac ≡ k + 1 = rw (e, slot) (omega arith) in
          let back : k + 1 - 1 ≡ k - 0 = omega arith in
          (
            (λ h. (d, omega arith, omega arith, rw (found, back) at, bytes_eq_sound d.mac mac is)),
            λ h. absurd (cc (sym e ∙ (position_from-none p 0 bs).1 h)),
          )
    ]

-- Among fewer than 256 devices bound to the dongle, the slot of one of them is its place in their
-- list, counted from 1.
pub slot_place :
    (devices : List Device) (master mac : Bytes)
    → length (bound devices master) < 256
    → is_bound devices master mac ≡ true
    → (d : Device) × (1 ≤ slot devices master mac)
      × (slot devices master mac ≤ length (bound devices master))
      × (get_elem? (bound devices master) (slot devices master mac - 1) ≡ some d)
      × (d.mac ≡ mac)
slot_place devices master mac few h = (slot_lem devices master mac few).0 h

-- Two devices that share a slot are one.
pub slot_injective :
    (devices : List Device) (master m n : Bytes)
    → length (bound devices master) < 256
    → is_bound devices master m ≡ true
    → is_bound devices master n ≡ true
    → slot devices master m ≡ slot devices master n
    → m ≡ n
slot_injective devices master m n few hm hn e =
    let (a, _, _, at_a, is_a) = (slot_lem devices master m few).0 hm in
    let (b, _, _, at_b, is_b) = (slot_lem devices master n few).0 hn in
    cc (e, at_a, at_b, is_a, is_b)
