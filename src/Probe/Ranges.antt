-- ===== src/Probe/Ranges.antt =====
-- src/bin/probe.rs: the ranges of the options that the parsers let through.
use fan_control_lian_li_wire.Base.{
  ℕ, ◌^◌, ◌≤◌, ◌<◌, ◌≡◌, refl, subst, ◌⊎◌, inl, inr, Bool, true, false, Option, none, some, List,
  [], ◌∷◌, ◌++◌, arith, ltb, leb, Bool-cases, Option-cases, All, Bytes, bytes, Result, ok, err,
  ◌>>=◌, ok_or, to_ascii_lowercase, split_once, parse,
}
use fan_control_lian_li_wire.Probe.Options.{
  quoted, positive, percent_of, RunOptions, parse_assignment, every_value, minutes_value, RunArg,
  leave_flag, every_flag, set_flag, minutes_given, unexpected, run_arg, with_every, with_set,
  with_minutes, with_leave, run_args, default_run, parse_run,
}

positive_gt : (limit : ℕ) (s : Bytes) (n : ℕ) → positive limit s ≡ some n → 0 < n
positive_gt limit s n h = elim (Option-cases (parse limit s)) [
  | inl e ↦ absurd (cc (rw (e, positive) at h))
  | inr (v, e) ↦ elim (Bool-cases (ltb 0 v)) [
    | inl t ↦ ground (arith, rw (e, positive, t) at h)
    | inr f ↦ absurd (cc (rw (e, positive, f) at h))
  ]
]

pub ok_or_ok : {A : Type 0} (e : Bytes) (o : Option A) (a : A) → ok_or e o ≡ ok a → o ≡ some a
ok_or_ok e none a h = cc
ok_or_ok e (some b) a h = cc

percent_of_le : (s : Bytes) (p : ℕ) → percent_of s ≡ ok p → p ≤ 100
unfolding percent_of
percent_of_le s p h = elim (Option-cases (parse (2 ^ 8) s)) [
  | inl e ↦ absurd (cc (rw (e, percent_of) at h))
  | inr (v, e) ↦ elim (Bool-cases (leb v 100)) [
    | inl t ↦ ground (arith, rw (e, percent_of, t) at h)
    | inr f ↦ absurd (cc (rw (e, percent_of, f) at h))
  ]
]

-- What a run needs of its options.
pub record IsRun (o : RunOptions) : Type 0 where
  pub every : 0 < o.every
  pub initial : All (λ a. a.1 ≤ 100) o.initial

All-snoc :
    (xs : List (Bytes × ℕ)) (a : Bytes × ℕ)
    → All (λ a. a.1 ≤ 100) xs
    → a.1 ≤ 100
    → All (λ a. a.1 ≤ 100) (xs ++ (a ∷ []))
All-snoc [] a h le = (le, tt)
All-snoc (x ∷ xs) a h le = (h.0, All-snoc xs a h.1 le)

bind-ok :
    {A B : Type 0} (r : Result Bytes A) (f : A → Result Bytes B) (b : B)
    → (r >>= f) ≡ ok b
    → (a : A) × (r ≡ ok a) × (f a ≡ ok b)
bind-ok (ok a) f b h = (a, refl, h)
bind-ok (err e) f b h = cc

parse_assignment_le : (s : Bytes) (a : Bytes × ℕ) → parse_assignment s ≡ ok a → a.1 ≤ 100
unfolding parse_assignment
parse_assignment_le s a h =
    let (split, e, rest) =
      bind-ok (ok_or (quoted s ++ bytes " is not <group>=<percent>") (split_once b'=' s)) _ a h in
    let (p, at, done) =
      bind-ok (percent_of split.1) (λ percent. ok (to_ascii_lowercase split.0, percent)) a rest in
    ground (arith, percent_of_le split.1 p at)

with_every-IsRun :
    (o : RunOptions) (value : Bytes) (n : ℕ)
    → IsRun o
    → positive (2 ^ 64) value ≡ some n
    → IsRun (with_every o n)
with_every-IsRun o value n i h =
    let above = positive_gt (2 ^ 64) value n h in
    record { every = omega arith; initial = i.initial }

with_set-IsRun :
    (o : RunOptions) (value : Bytes) (a : Bytes × ℕ)
    → IsRun o
    → parse_assignment value ≡ ok a
    → IsRun (with_set o a)
with_set-IsRun o value a i h = record {
  every = i.every;
  initial = All-snoc o.initial a i.initial (parse_assignment_le value a h);
}

same-IsRun :
    (o o' : RunOptions) → Path (Result Bytes RunOptions) (ok o) (ok o') → IsRun o → IsRun o'
same-IsRun o o' h i = let e : o ≡ o' = cc h in subst (λ x. IsRun x) e i

-- What neither field of `IsRun` reads may change.
kept-IsRun : (o o' : RunOptions) → o'.every ≡ o.every → o'.initial ≡ o.initial → IsRun o → IsRun o'
kept-IsRun o o' e f i = record { every = rw e i.every; initial = rw f i.initial }

RunArg-cases :
    (k : RunArg)
    → (k ≡ leave_flag)
      ⊎ ((k ≡ every_flag) ⊎ ((k ≡ set_flag) ⊎ ((k ≡ minutes_given) ⊎ (k ≡ unexpected))))
RunArg-cases leave_flag = inl refl
RunArg-cases every_flag = inr (inl refl)
RunArg-cases set_flag = inr (inr (inl refl))
RunArg-cases minutes_given = inr (inr (inr (inl refl)))
RunArg-cases unexpected = inr (inr (inr (inr refl)))

run_args-IsRun :
    (given : Bool) (o : RunOptions) (args : List Bytes) (o' : RunOptions)
    → IsRun o
    → run_args given o args ≡ ok o'
    → IsRun o'
unfolding run_args
run_args-IsRun given o [] o' i h = same-IsRun o o' h i
run_args-IsRun given o (arg ∷ []) o' i h = elim (RunArg-cases (run_arg given arg)) [
  | inl e ↦
      same-IsRun (with_leave o) o' (rw (e, run_args) at h) (kept-IsRun o (with_leave o) refl refl i)
  | inr (inl e) ↦ absurd (cc (rw (e, run_args) at h))
  | inr (inr (inl e)) ↦ absurd (cc (rw (e, run_args) at h))
  | inr (inr (inr (inl e))) ↦
      let (m, at, done) =
        bind-ok (minutes_value arg) (λ m. ok (with_minutes o m)) o' (rw (e, run_args) at h) in
      same-IsRun (with_minutes o m) o' done (kept-IsRun o (with_minutes o m) refl refl i)
  | inr (inr (inr (inr e))) ↦ absurd (cc (rw (e, run_args) at h))
]
run_args-IsRun given o (arg ∷ value ∷ rest) o' i h = elim (RunArg-cases (run_arg given arg)) [
  | inl e ↦
      run_args-IsRun given (with_leave o) (value ∷ rest) o'
        (kept-IsRun o (with_leave o) refl refl i) (rw (e, run_args) at h)
  | inr (inl e) ↦
      let (n, at, next) =
        bind-ok (every_value value) (λ n. run_args given (with_every o n) rest) o'
          (rw (e, run_args) at h) in
      run_args-IsRun given (with_every o n) rest o'
        (with_every-IsRun o value n i (ok_or_ok _ (positive (2 ^ 64) value) n at)) next
  | inr (inr (inl e)) ↦
      let (a, at, next) =
        bind-ok (parse_assignment value) (λ a. run_args given (with_set o a) rest) o'
          (rw (e, run_args) at h) in
      run_args-IsRun given (with_set o a) rest o' (with_set-IsRun o value a i at) next
  | inr (inr (inr (inl e))) ↦
      let (m, at, next) =
        bind-ok (minutes_value arg) (λ m. run_args true (with_minutes o m) (value ∷ rest)) o'
          (rw (e, run_args) at h) in
      run_args-IsRun true (with_minutes o m) (value ∷ rest) o'
        (kept-IsRun o (with_minutes o m) refl refl i) next
  | inr (inr (inr (inr e))) ↦ absurd (cc (rw (e, run_args) at h))
]

-- Whatever arguments `run` accepts, the status interval is positive and every percentage to set is
-- at most 100.
pub parse_run-IsRun : (args : List Bytes) (o : RunOptions) → parse_run args ≡ ok o → IsRun o
unfolding parse_run
parse_run-IsRun args o h =
    run_args-IsRun false default_run args o (record { every = omega arith; initial = tt }) h
