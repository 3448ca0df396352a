-- ===== src/Probe/Options.antt =====
-- src/bin/probe.rs: the command line. Arguments are UTF-8; `Err` carries the message.
use fan_control_lian_li_wire.Base
use fan_control_lian_li_wire.Base.{
  ℕ, ◌+◌, ◌-◌, ◌*◌, ◌/◌, ◌%◌, ◌^◌, ◌≤◌, ◌<◌, min, ◌≡◌, ◌∙◌, ◌≡⟨◌⟩◌, ◌∎, ◌≢◌, ◌↔◌, ◌⊎◌, Bool, true,
  false, not, ◌&&◌, ◌||◌, Option, none, some, List, [], ◌∷◌, ◌++◌, ltb, leb, ◌==◌, if◌then◌else◌,
  get_elem?, get_or, set, take, filter, Bytes, bytes_eq, get, bytes, secs, Result, ok, err, ◌>>=◌,
  ok_or, pos, lower, to_ascii_lowercase, starts_with, split_once, parse,
}

abbrev pub default_polls : ℕ
default_polls = 5

abbrev pub default_hold : ℕ
default_hold = 10

abbrev pub default_run_minutes : ℕ
default_run_minutes = 60

abbrev pub default_status_every : ℕ
default_status_every = 10

abbrev pub quoted : Bytes → Bytes
quoted s = bytes "'" ++ s ++ bytes "'"

-- `value.parse().ok().filter(|n| *n > 0)`.
abbrev pub positive : ℕ → Bytes → Option ℕ
positive limit value = elim (parse limit value) [
  | none ↦ none
  | some n ↦ if ltb 0 n then some n else none
]

-- `percent.parse().ok().filter(|p| *p <= 100).ok_or_else(..)`, of a `u8`.
unfoldable pub percent_of : Bytes → Result Bytes ℕ
percent_of value =
    ok_or (quoted value ++ bytes " is not a percent from 0 to 100")
      (elim (parse (2 ^ 8) value) [ none ↦ none | some p ↦ if leb p 100 then some p else none ])

pub record DiscoverOptions : Type 0 where
  pub polls : ℕ
  pub share : Bool

abbrev polls_value : Bytes → Result Bytes ℕ
polls_value value =
    ok_or (bytes "--polls: " ++ quoted value ++ bytes " is not a positive number")
      (positive (2 ^ 32) value)

pub data DiscoverArg : Type 0 where
  share_flag polls_flag unknown_option : DiscoverArg

-- The arm of the `match` that takes this argument.
unfoldable pub discover_arg : Bytes → DiscoverArg
discover_arg arg =
    if bytes_eq arg (bytes "--share")
    then share_flag
    else if bytes_eq arg (bytes "--polls")
    then polls_flag
    else unknown_option

abbrev unknown : Bytes → Bytes
unknown arg = bytes "unknown option " ++ quoted arg

-- The loop of `parse_discover`.
unfoldable pub discover_args : DiscoverOptions → List Bytes → Result Bytes DiscoverOptions
unfolding discover_arg
discover_args o [] = ok o
discover_args o (arg ∷ []) = elim (discover_arg arg) [
  | share_flag ↦ ok (record o { share = true })
  | polls_flag ↦ err (bytes "--polls needs a number")
  | unknown_option ↦ err (unknown arg)
]
discover_args o (arg ∷ value ∷ rest) = elim (discover_arg arg) [
  | share_flag ↦ discover_args (record o { share = true }) (value ∷ rest)
  | polls_flag ↦ polls_value value >>= λ n. discover_args (record o { polls = n }) rest
  | unknown_option ↦ err (unknown arg)
]

unfoldable pub parse_discover : List Bytes → Result Bytes DiscoverOptions
unfolding discover_args
parse_discover = discover_args (record { polls = default_polls; share = false })

pub record SetOptions : Type 0 where
  pub group : Bytes
  pub percent : ℕ
  pub hold : ℕ

unfoldable pub hold_of : Option Bytes → Result Bytes ℕ
hold_of none = ok default_hold
hold_of (some seconds) =
    ok_or (quoted seconds ++ bytes " is not a positive number of seconds")
      (positive (2 ^ 64) seconds)

unfoldable pub parse_set : List Bytes → Result Bytes SetOptions
unfolding percent_of hold_of
parse_set args = do
  group ← ok_or (bytes "set needs a group address prefix") (get_elem? args 0)
  value ← ok_or (bytes "set needs a percent") (get_elem? args 1)
  percent ← percent_of value
  hold ← hold_of (get_elem? args 2)
  if ltb 3 (Base.length args)
      then err (bytes "unexpected argument " ++ quoted (get_or args 3 []))
      else ok (record { group = to_ascii_lowercase group; percent = percent; hold = secs hold })

pub record RunOptions : Type 0 where
  pub length : ℕ
  pub every : ℕ
  pub initial : List (Bytes × ℕ)
  pub leave : Bool

unfoldable pub parse_assignment : Bytes → Result Bytes (Bytes × ℕ)
unfolding percent_of
parse_assignment text = do
  assigned ← ok_or (quoted text ++ bytes " is not <group>=<percent>") (split_once b'=' text)
  percent ← percent_of assigned.1
  ok (to_ascii_lowercase assigned.0, percent)

abbrev pub every_value : Bytes → Result Bytes ℕ
every_value value =
    ok_or (bytes "--every: " ++ quoted value ++ bytes " is not a positive number")
      (positive (2 ^ 64) value)

abbrev pub minutes_value : Bytes → Result Bytes ℕ
minutes_value value =
    ok_or (quoted value ++ bytes " is not a positive number of minutes") (positive (2 ^ 64) value)

pub data RunArg : Type 0 where
  leave_flag every_flag set_flag minutes_given unexpected : RunArg

-- The arm of the `match` that takes this argument; the flag is `minutes_given`.
unfoldable pub run_arg : Bool → Bytes → RunArg
run_arg given arg =
    if bytes_eq arg (bytes "--leave")
    then leave_flag
    else if bytes_eq arg (bytes "--every")
    then every_flag
    else if bytes_eq arg (bytes "--set")
    then set_flag
    else if not given && not (starts_with arg (bytes "--"))
    then minutes_given
    else unexpected

abbrev refused : Bytes → Bytes
refused arg = bytes "unexpected argument " ++ quoted arg

abbrev pub with_every : RunOptions → ℕ → RunOptions
with_every o n = record o { every = secs n }

abbrev pub with_set : RunOptions → Bytes × ℕ → RunOptions
with_set o a = record o { initial = o.initial ++ (a ∷ []) }

-- The seconds of the minutes are a `u64`.
abbrev pub with_minutes : RunOptions → ℕ → RunOptions
with_minutes o m = record o { length = secs (m * 60 % 2 ^ 64) }

abbrev pub with_leave : RunOptions → RunOptions
with_leave o = record o { leave = true }

-- The loop of `parse_run`.
unfoldable pub run_args : Bool → RunOptions → List Bytes → Result Bytes RunOptions
unfolding run_arg
run_args given o [] = ok o
run_args given o (arg ∷ []) = elim (run_arg given arg) [
  | leave_flag ↦ ok (with_leave o)
  | every_flag ↦ err (bytes "--every needs a number of seconds")
  | set_flag ↦ err (bytes "--set needs <group>=<percent>")
  | minutes_given ↦ minutes_value arg >>= λ m. ok (with_minutes o m)
  | unexpected ↦ err (refused arg)
]
run_args given o (arg ∷ value ∷ rest) = elim (run_arg given arg) [
  | leave_flag ↦ run_args given (with_leave o) (value ∷ rest)
  | every_flag ↦ every_value value >>= λ n. run_args given (with_every o n) rest
  | set_flag ↦ parse_assignment value >>= λ a. run_args given (with_set o a) rest
  | minutes_given ↦ minutes_value arg >>= λ m. run_args true (with_minutes o m) (value ∷ rest)
  | unexpected ↦ err (refused arg)
]

abbrev pub default_run : RunOptions
default_run = record {
  length = secs (default_run_minutes * 60);
  every = secs default_status_every;
  initial = [];
  leave = false;
}

unfoldable pub parse_run : List Bytes → Result Bytes RunOptions
unfolding run_args
parse_run = run_args false default_run
