-- ===== src/Enumerate/Pairs.antt =====
-- src/enumerate.rs, `pair`: when the dongles are found.
use fan_control_lian_li_wire.Base.{
  ◌≡◌, refl, ◌∙◌, ◌↔◌, inl, inr, List, [], ◌∷◌, arith, filter, Bytes, ok, Result-cases,
}
use fan_control_lian_li_wire.Enumerate.{
  Role, transmitter, receiver, Dongles, classify, is_role, one_of, one, pair,
}

-- The paths that name this role.
abbrev pub with_role : Role → List Bytes → List Bytes
with_role role = filter (λ p. is_role role (classify p))

one_alone : (role : Role) (ps : List Bytes) (p : Bytes) → (one_of role ps ≡ ok p) ↔ (ps ≡ p ∷ [])
one_alone role [] p = ((λ h. absurd (ground (arith, h))), λ h. absurd (ground (arith, h)))
one_alone role (x ∷ []) p = ((λ h. ground (arith, h)), λ h. ground (arith, h))
one_alone role (x ∷ y ∷ ps) p = ((λ h. absurd (ground (arith, h))), λ h. absurd (ground (arith, h)))

-- `pair` finds the dongles exactly if the paths name one transmitter and one receiver, and finds
-- those.
pub pair_iff :
    (paths : List Bytes) (d : Dongles)
    → (pair paths ≡ ok d) ↔ (
        (with_role transmitter paths ≡ d.transmitter ∷ [])
        × (with_role receiver paths ≡ d.receiver ∷ []))
unfolding pair
pair_iff paths d = (
  (λ h. elim (Result-cases (one paths transmitter)) [
    | inr (x, q) ↦ absurd (ground (arith, rw (q, pair) at h))
    | inl (t, q) ↦ elim (Result-cases (one paths receiver)) [
      | inr (x, k) ↦ absurd (ground (arith, rw (q, k, pair) at h))
      | inl (r, k) ↦
          let both : ok (record { transmitter = t; receiver = r }) ≡ ok d = rw (q, k, pair) at h in
          (
            (one_alone transmitter (with_role transmitter paths) d.transmitter).0
                (q ∙ ground (arith, both)),
            (one_alone receiver (with_role receiver paths) d.receiver).0 (k ∙ ground (arith, both)),
          )
    ]
  ]),
  λ h.
      rw
        (
          (one_alone transmitter (with_role transmitter paths) d.transmitter).1 h.0,
          (one_alone receiver (with_role receiver paths) d.receiver).1 h.1,
          pair,
        )
        refl,
)
