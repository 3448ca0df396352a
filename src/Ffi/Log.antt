-- ===== src/Ffi/Log.antt =====
-- src/ffi.rs, `log_sink`: which lines are kept.
use mathlib.Core.List.{append_assoc}
use fan_control_lian_li_wire.Base.{
  ℕ, zero, suc, ◌-◌, ◌≤◌, ◌≡◌, refl, sym, ap, ◌∙◌, inl, inr, true, List, [], ◌∷◌, ◌++◌, append-nil,
  arith, leb, Bool-cases, length, drop, length-append, length-drop, Bytes,
}
use fan_control_lian_li_wire.Ffi.{push_line}

-- The lines kept once these have been logged, the oldest first.
pub kept : List Bytes → List Bytes → List Bytes
kept lines [] = lines
kept lines (line ∷ rest) = kept (push_line lines line) rest

drop-drop : (n : ℕ) (xs : List Bytes) → drop 1 (drop n xs) ≡ drop (suc n) xs
drop-drop zero [] = refl
drop-drop zero (x ∷ xs) = refl
drop-drop (suc n) [] = refl
drop-drop (suc n) (x ∷ xs) = drop-drop n xs

drop-append_within :
    (n : ℕ) (xs ys : List Bytes) → n ≤ length xs → drop n (xs ++ ys) ≡ drop n xs ++ ys
drop-append_within zero xs ys h = refl
drop-append_within (suc n) [] ys h = absurd (omega (arith, h))
drop-append_within (suc n) (x ∷ xs) ys h = drop-append_within n xs ys (omega (arith, h))

push_line_last :
    (seen : List Bytes) (line : Bytes)
    → push_line (drop (length seen - 1000) seen) line
      ≡ drop (length (seen ++ (line ∷ [])) - 1000) (seen ++ (line ∷ []))
unfolding push_line
push_line_last seen line =
    let n = length-append seen (line ∷ []) in
    let d = length-drop (length seen - 1000) seen in
    elim (Bool-cases (leb 1000 (length seen))) [
      | inl e ↦
          let full : leb 1000 (length (drop (length seen - 1000) seen)) ≡ true =
            ground (arith, d, e) in
          let one : length (seen ++ (line ∷ [])) - 1000 ≡ suc (length seen - 1000) =
            ground (arith, n, e) in
          rw (full, one)
            (ap (λ xs. xs ++ (line ∷ [])) (drop-drop (length seen - 1000) seen)
              ∙ sym (
                  drop-append_within (suc (length seen - 1000)) seen (line ∷ [])
                    (ground (arith, e))))
      | inr e ↦
          let none_over : length seen - 1000 ≡ 0 = ground (arith, e) in
          let none_after : length (seen ++ (line ∷ [])) - 1000 ≡ 0 = ground (arith, n, e) in
          rw (none_over, none_after, e) refl
    ]

kept_from :
    (seen lines : List Bytes)
    → kept (drop (length seen - 1000) seen) lines
      ≡ drop (length (seen ++ lines) - 1000) (seen ++ lines)
unfolding kept
kept_from seen [] = ap (λ xs. drop (length xs - 1000) xs) (sym (append-nil seen))
kept_from seen (line ∷ rest) =
    ap (λ xs. kept xs rest) (push_line_last seen line)
    ∙ kept_from (seen ++ (line ∷ [])) rest
    ∙ ap (λ xs. drop (length xs - 1000) xs) (append_assoc seen (line ∷ []) rest)

-- However many lines are logged before the host reads any, the latest thousand are kept, in order.
pub kept_lem : (lines : List Bytes) → kept [] lines ≡ drop (length lines - 1000) lines
kept_lem lines = kept_from [] lines
