-- ===== src/Probe/Arguments.antt =====
-- src/bin/probe.rs, `parse_run`: the command lines that a person writes.
use fan_control_lian_li_wire.Base.{
  ◌*◌, ◌%◌, ℕ, ◌^◌, ◌≤◌, ◌<◌, ◌≡◌, refl, ◌∙◌, Bool, true, false, some, List, [], ◌∷◌, ◌++◌, arith,
  ltb, leb, ◌==◌, ==_refl, any, Bytes, bytes_eq, bytes, decimal, ok, to_ascii_lowercase,
  starts_with, split_once, HasDigit, decimal-HasDigit, parse-decimal,
}
use fan_control_lian_li_wire.Probe.Options.{
  positive, percent_of, RunOptions, parse_assignment, minutes_given, run_arg, with_every, with_set,
  with_leave, run_args, parse_run,
}

-- What a command line is made of.
pub data Item : Type 0 where
  leaving : Item
  every : ℕ → Item
  assigned : Bytes → ℕ → Item
  minutes : ℕ → Item

abbrev pub words : Item → List Bytes
words leaving = bytes "--leave" ∷ []
words (every n) = bytes "--every" ∷ decimal n ∷ []
words (assigned group percent) = bytes "--set" ∷ (group ++ b'=' ∷ decimal percent) ∷ []
words (minutes m) = decimal m ∷ []

abbrev pub command_line : List Item → List Bytes
command_line [] = []
command_line (item ∷ items) = words item ++ command_line items

abbrev pub apply_item : RunOptions → Item → RunOptions
apply_item o leaving = record o { leave = true }
apply_item o (every n) = record o { every = n * 1_000_000_000 }
apply_item o (assigned group percent) = record o {
  initial = o.initial ++ ((to_ascii_lowercase group, percent) ∷ []);
}
apply_item o (minutes m) = record o { length = m * 60 * 1_000_000_000 }

-- The items in order, a later one over an earlier one.
abbrev pub apply_items : RunOptions → List Item → RunOptions
apply_items o [] = o
apply_items o (item ∷ items) = apply_items (apply_item o item) items

-- An hour, with a status every ten seconds.
abbrev pub usual : RunOptions
usual = record {
  length = 3600 * 1_000_000_000;
  every = 10 * 1_000_000_000;
  initial = [];
  leave = false;
}

-- The numbers are in range, those of seconds included, no group has a `=`, and the minutes come at
-- most once, or not at all where the flag says that they came before.
abbrev pub AreWritten : Bool → List Item → Type 0
AreWritten given [] = Unit
AreWritten given (leaving ∷ items) = AreWritten given items
AreWritten given (every n ∷ items) = (0 < n) × (n < 2 ^ 64) × AreWritten given items
AreWritten given (assigned group percent ∷ items) =
    (percent ≤ 100) × (any (λ c. c == b'=') group ≡ false) × AreWritten given items
AreWritten given (minutes m ∷ items) =
    (given ≡ false) × (0 < m) × (m * 60 < 2 ^ 64) × AreWritten true items

pub positive-decimal : (limit n : ℕ) → 0 < n → n < limit → positive limit (decimal n) ≡ some n
positive-decimal limit n gt lt =
    let test : ltb 0 n ≡ true = ground arith in rw (parse-decimal limit n lt, positive, test) refl

pub percent_of-decimal : (p : ℕ) → p ≤ 100 → percent_of (decimal p) ≡ ok p
unfolding percent_of
percent_of-decimal p le =
    let test : leb p 100 ≡ true = ground arith in
    rw (parse-decimal (2 ^ 8) p (omega arith), percent_of, test) refl

pub split_once-append :
    (mark : ℕ) (before after : Bytes)
    → any (λ c. c == mark) before ≡ false
    → split_once mark (before ++ mark ∷ after) ≡ some (before, after)
unfolding split_once
split_once-append mark [] after h = rw (==_refl mark) refl
split_once-append mark (c ∷ cs) after h =
    let other : (c == mark) ≡ false = ground arith in
    let rest : any (λ x. x == mark) cs ≡ false = ground arith in
    rw (other, split_once-append mark cs after rest) refl

parse_assignment_written :
    (group : Bytes) (p : ℕ)
    → p ≤ 100
    → any (λ c. c == b'=') group ≡ false
    → parse_assignment (group ++ b'=' ∷ decimal p) ≡ ok (to_ascii_lowercase group, p)
unfolding parse_assignment
parse_assignment_written group p le h =
    rw (split_once-append b'=' group (decimal p) h, percent_of-decimal p le, parse_assignment) refl

not_flag : (s flag : Bytes) → HasDigit s → bytes_eq s (b'-' ∷ flag) ≡ false
not_flag [] flag h = refl
not_flag (c ∷ cs) flag h = ground arith

no_dashes : (s : Bytes) → HasDigit s → starts_with s (bytes "--") ≡ false
no_dashes [] h = refl
no_dashes (c ∷ cs) h = ground arith

run_arg-digits : (s : Bytes) → HasDigit s → run_arg false s ≡ minutes_given
unfolding run_arg
run_arg-digits s h =
    rw
      (
        not_flag s (bytes "-leave") h,
        not_flag s (bytes "-every") h,
        not_flag s (bytes "-set") h,
        no_dashes s h,
        run_arg,
      )
      refl

run_args_leave :
    (given : Bool) (o : RunOptions) (rest : List Bytes)
    → run_args given o (bytes "--leave" ∷ rest) ≡ run_args given (with_leave o) rest
unfolding run_args run_arg
run_args_leave given o [] = refl
run_args_leave given o (value ∷ rest) = refl

run_args_every :
    (given : Bool) (o : RunOptions) (n : ℕ) (rest : List Bytes)
    → 0 < n
    → n < 2 ^ 64
    → run_args given o (bytes "--every" ∷ decimal n ∷ rest) ≡ run_args given (with_every o n) rest
unfolding run_args run_arg
run_args_every given o n rest gt lt = rw (positive-decimal (2 ^ 64) n gt lt, run_args) refl

run_args_set :
    (given : Bool) (o : RunOptions) (group : Bytes) (p : ℕ) (rest : List Bytes)
    → p ≤ 100
    → any (λ c. c == b'=') group ≡ false
    → run_args given o (bytes "--set" ∷ (group ++ b'=' ∷ decimal p) ∷ rest)
      ≡ run_args given (with_set o (to_ascii_lowercase group, p)) rest
unfolding run_args run_arg
run_args_set given o group p rest le h = rw (parse_assignment_written group p le h, run_args) refl

whole_minutes : (m : ℕ) → m * 60 < 2 ^ 64 → m * 60 % 2 ^ 64 ≡ m * 60
whole_minutes m lt = omega (arith, lt)

run_args_minutes :
    (o : RunOptions) (m : ℕ) (rest : List Bytes)
    → 0 < m
    → m * 60 < 2 ^ 64
    → run_args false o (decimal m ∷ rest) ≡ run_args true (apply_item o (minutes m)) rest
unfolding run_args
run_args_minutes o m [] gt lt =
    rw
      (
        run_arg-digits (decimal m) (decimal-HasDigit m),
        positive-decimal (2 ^ 64) m gt (omega (arith, lt)),
        run_args,
        whole_minutes m lt,
      )
      refl
run_args_minutes o m (value ∷ rest) gt lt =
    rw
      (
        run_arg-digits (decimal m) (decimal-HasDigit m),
        positive-decimal (2 ^ 64) m gt (omega (arith, lt)),
        run_args,
        whole_minutes m lt,
      )
      refl

run_args-command_line :
    (given : Bool) (items : List Item) (o : RunOptions)
    → AreWritten given items
    → run_args given o (command_line items) ≡ ok (apply_items o items)
unfolding run_args
run_args-command_line given [] o h = refl
run_args-command_line given (leaving ∷ items) o h =
    run_args_leave given o (command_line items) ∙ run_args-command_line given items (with_leave o) h
run_args-command_line given (every n ∷ items) o h =
    run_args_every given o n (command_line items) h.0 h.1
    ∙ run_args-command_line given items (with_every o n) h.2
run_args-command_line given (assigned group p ∷ items) o h =
    run_args_set given o group p (command_line items) h.0 h.1
    ∙ run_args-command_line given items (with_set o (to_ascii_lowercase group, p)) h.2
run_args-command_line given (minutes m ∷ items) o h = rw h.0 (
    run_args_minutes o m (command_line items) h.1 h.2
    ∙ run_args-command_line true items (apply_item o (minutes m)) h.3)

-- The arguments of `run`, written in any order with numbers in range, no `=` in a group and the
-- minutes at most once, are read back as the options they ask for, in nanoseconds: an hour and a
-- status every ten seconds where nothing is said, as many minutes as are given where their seconds
-- fit into 64 bits, a later `--every` in the place of an earlier one, and the groups to set in
-- their order, in small letters.
pub parse_run-command_line :
    (items : List Item)
    → AreWritten false items
    → parse_run (command_line items) ≡ ok (apply_items usual items)
unfolding parse_run
parse_run-command_line items h = run_args-command_line false items usual h
