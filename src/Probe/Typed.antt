-- ===== src/Probe/Typed.antt =====
-- src/bin/probe.rs, `run`: what the lines typed during a run ask of the engine.
use fan_control_lian_li_wire.Base.{
  ℕ, suc, ◌^◌, ◌≤◌, ◌≡◌, refl, sym, ap, subst, ◌∙◌, ◌⊎◌, inl, inr, some, List, [], ◌∷◌, ◌++◌,
  append_assoc, append-nil, arith, leb, Bool-cases, Option-cases, length, All, Bytes, bytes_eq,
  Result-cases, to_ascii_lowercase, split_once, trim, parse,
}
use fan_control_lian_li_wire.Probe.Resolve.{has_prefix, addresses, resolve}
use fan_control_lian_li_wire.Probe.Unique.{IsOnly, resolve_iff}
use fan_control_lian_li_wire.Engine.{Snapshot}
use fan_control_lian_li_wire.Engine.Tick.{Request, want_percent}
use fan_control_lian_li_wire.Engine.Host.{Shared, set_percent}
use fan_control_lian_li_wire.Probe.Session.{Time}
use fan_control_lian_li_wire.Probe.Run.{
  Running, is_quit, typed_percent, print_line, request_line, typed, typed_all,
}

-- A request for a percentage from 0 to 100 on the only group of the snapshot whose address starts
-- with some prefix.
pub record IsAsked (snapshot : Snapshot) (r : Request) : Type 0 where
  pub prefix : Bytes
  pub target : Bytes
  pub percent : ℕ
  pub asks : r ≡ want_percent target percent
  pub at_most : percent ≤ 100
  pub only : IsOnly (has_prefix prefix) (addresses snapshot) target

module _ {time : Time} where
  -- Nothing was asked, or one request more; nothing else that is shared has changed.
  abbrev pub AsksOne : Running time → Running time → Type 0
  AsksOne s s' =
      (s'.shared ≡ s.shared)
      ⊎ ((r : Request) × IsAsked s.shared.snapshot r
          × (s'.shared ≡ record s.shared { requests = s.shared.requests ++ (r ∷ []) }))

typed_percent_le : (percent : Bytes) (p : ℕ) → typed_percent percent ≡ some p → p ≤ 100
typed_percent_le percent p h = elim (Option-cases (parse (2 ^ 8) (trim percent))) [
  | inl e ↦ absurd (cc (rw (e, typed_percent) at h))
  | inr (v, e) ↦ elim (Bool-cases (leb v 100)) [
    | inl t ↦ ground (arith, rw (e, typed_percent, t) at h)
    | inr f ↦ absurd (cc (rw (e, typed_percent, f) at h))
  ]
]

module _ (time : Time) where
  request_line-AsksOne :
      (s : Running time) (prefix percent : Bytes) → AsksOne s (request_line time s prefix percent)
  unfolding request_line print_line set_percent
  request_line-AsksOne s prefix percent = elim (Result-cases (resolve s.shared.snapshot prefix)) [
    | inr (why, e) ↦ rw (e, request_line) (inl refl)
    | inl (target, e) ↦ elim (Option-cases (typed_percent percent)) [
      | inl n ↦ rw (e, request_line, n) (inl refl)
      | inr (p, n) ↦
          rw (e, request_line, n)
            (inr (
              want_percent target p,
              record {
                prefix = prefix;
                target = target;
                percent = p;
                asks = refl;
                at_most = typed_percent_le percent p n;
                only = (resolve_iff s.shared.snapshot prefix target).0 e;
              },
              refl,
            ))
    ]
  ]

  typed-AsksOne : (s : Running time) (raw : Bytes) → AsksOne s (typed time s raw).1
  unfolding typed print_line
  typed-AsksOne s raw =
      let line = to_ascii_lowercase (trim raw) in
      elim (Bool-cases (is_quit line)) [
        | inl q ↦ rw (q, typed) (inl refl)
        | inr q ↦ elim (Option-cases (split_once b' ' line)) [
          | inr (parts, e) ↦ rw (q, typed, e) (request_line-AsksOne s parts.0 parts.1)
          | inl e ↦ elim (Bool-cases (bytes_eq line [])) [
            | inl n ↦ rw (q, typed, e, n) (inl refl)
            | inr n ↦ rw (q, typed, e, n) (inl refl)
          ]
        ]
      ]

module _ {time : Time} where
  -- Requests were added, at most `n`; nothing else that is shared has changed.
  pub record AsksAtMost (n : ℕ) (s s' : Running time) : Type 0 where
    pub asked : List Request
    pub each : All (IsAsked s.shared.snapshot) asked
    pub at_most : length asked ≤ n
    pub added : s'.shared ≡ record s.shared { requests = s.shared.requests ++ asked }

  AsksAtMost-none : (n : ℕ) (s s' : Running time) → s'.shared ≡ s.shared → AsksAtMost n s s'
  AsksAtMost-none n s s' e = record {
    asked = [];
    each = tt;
    at_most = omega arith;
    added = e ∙ ap (λ rs. record s.shared { requests = rs }) (sym (append-nil s.shared.requests));
  }

  AsksAtMost-more :
      (n : ℕ) (s s1 s2 : Running time) → AsksOne s s1 → AsksAtMost n s1 s2 → AsksAtMost (suc n) s s2
  AsksAtMost-more n s s1 s2 (inl e) rest = record {
    asked = rest.asked;
    each = subst (λ (x : Shared). All (IsAsked x.snapshot) rest.asked) e rest.each;
    at_most = omega (arith, rest.at_most);
    added = rest.added ∙ ap (λ (x : Shared). record x { requests = x.requests ++ rest.asked }) e;
  }
  AsksAtMost-more n s s1 s2 (inr (r, is, e)) rest = record {
    asked = r ∷ rest.asked;
    each = (is, subst (λ (x : Shared). All (IsAsked x.snapshot) rest.asked) e rest.each);
    at_most = omega (arith, rest.at_most);
    added =
        rest.added
        ∙ ap (λ (x : Shared). record x { requests = x.requests ++ rest.asked }) e
        ∙ ap (λ rs. record s.shared { requests = rs })
            (append_assoc s.shared.requests (r ∷ []) rest.asked);
  }

module _ (time : Time) where
  -- Whatever lines are typed, each asks for at most one change, and every change asked for is a
  -- percentage from 0 to 100 on the only group of the snapshot whose address starts with some prefix;
  -- nothing else of what the engine shares is touched.
  pub typed_all-AsksAtMost :
      (s : Running time) (lines : List Bytes)
      → AsksAtMost (length lines) s (typed_all time s lines).1
  unfolding typed_all
  typed_all-AsksAtMost s [] = AsksAtMost-none 0 s s refl
  typed_all-AsksAtMost s (raw ∷ rest) =
      let s1 = (typed time s raw).1 in
      elim (Bool-cases (typed time s raw).0) [
        | inl q ↦
            rw (q, typed_all)
              (AsksAtMost-more (length rest) s s1 s1 (typed-AsksOne time s raw)
                (AsksAtMost-none (length rest) s1 s1 refl))
        | inr q ↦
            rw (q, typed_all)
              (AsksAtMost-more (length rest) s s1 (typed_all time s1 rest).1
                (typed-AsksOne time s raw) (typed_all-AsksAtMost s1 rest))
      ]
