-- ===== src/Base/Arrays.antt =====
-- Fixed-size arrays `[A; n]` are lists with a known length; these views give their elements.
use Prim.Native.Nat.{ℕ, suc}
use mathlib.Core.Path.{◌≡◌, refl}
use mathlib.Core.List.{List, [], ◌∷◌}
use native.Mathlib.Omega.{arith}
use fan_control_lian_li_wire.Base.Lists.{length}

module _ {ℓ} {A : Type ℓ} where
  pub uncons :
      {n : ℕ} (xs : List A)
      → length xs ≡ suc n
      → (x : A) × (ys : List A) × (xs ≡ x ∷ ys) × (length ys ≡ n)
  uncons [] h = absurd (omega arith)
  uncons (x ∷ ys) h = (x, ys, refl, omega arith)

  pub eq-nil : (xs : List A) → length xs ≡ 0 → xs ≡ []
  eq-nil [] h = refl
  eq-nil (x ∷ xs) h = absurd (omega arith)

  pub four_elements :
      (xs : List A)
      → length xs ≡ 4
      → (a : A) × (b : A) × (c : A) × (d : A) × (xs ≡ a ∷ b ∷ c ∷ d ∷ [])
  four_elements xs h =
      let (a, r1, e1, h1) = uncons xs h in
      let (b, r2, e2, h2) = uncons r1 h1 in
      let (c, r3, e3, h3) = uncons r2 h2 in
      let (d, r4, e4, h4) = uncons r3 h3 in (a, b, c, d, cc (e1, e2, e3, e4, eq-nil r4 h4))

  pub six_elements :
      (xs : List A)
      → length xs ≡ 6
      → (a : A) × (b : A) × (c : A) × (d : A) × (e : A) × (f : A) × (xs
          ≡ a ∷ b ∷ c ∷ d ∷ e ∷ f ∷ [])
  six_elements xs h =
      let (a, r1, e1, h1) = uncons xs h in
      let (b, r2, e2, h2) = uncons r1 h1 in
      let (c, d, e, f, e3) = four_elements r2 h2 in (a, b, c, d, e, f, cc (e1, e2, e3))
