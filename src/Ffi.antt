-- ===== src/Ffi.antt =====
-- src/ffi.rs: the C interface. A null pointer is `none`; what a call writes through a pointer is
-- part of its result; `last_error` is the thread's text of the last failure. Opening and closing are
-- in Ffi/Open; the catching of panics (`guarded`) is not modelled.
pub mod Log
pub mod Copy
pub mod Open
pub mod Opened
pub mod Reported
mod Examples
use fan_control_lian_li_wire.Base.{
  ℕ, zero, suc, ◌+◌, ◌-◌, ◌*◌, ◌/◌, ◌%◌, ◌^◌, ◌≤◌, ◌<◌, min, max, ◌≡◌, ap, ◌∙◌, ◌≡⟨◌⟩◌, ◌∎, ◌≢◌,
  ◌↔◌, ◌⊎◌, Bool, true, not, ◌&&◌, ◌||◌, Option, none, some, List, [], ◌∷◌, ◌++◌, ltb, leb, ◌==◌,
  if◌then◌else◌, length, get_elem?, get_or, set, take, drop, replicate, all, Bytes, get, bytes,
  decimal, err, ◌>>=◌, ℤ, pos, negsuc,
}
use fan_control_lian_li_wire.Engine.{GroupState, Snapshot, text, is_some}
use fan_control_lian_li_wire.Engine.Host.{Shared, set_percent, clear, start}
use fan_control_lian_li_wire.Engine

abbrev pub abi_version : ℕ
abi_version = 2

abbrev pub max_groups : ℕ
max_groups = 16

abbrev pub log_capacity : ℕ
log_capacity = 1000

abbrev pub success : ℤ
success = pos 0

abbrev pub err_argument : ℤ
err_argument = negsuc 0

abbrev pub err_size : ℤ
err_size = negsuc 4

-- `u8::from(bool)`.
abbrev pub flag : Bool → ℕ
flag b = if b then 1 else 0

pub record Group : Type 0 where
  pub mac : Bytes
  pub receiver : ℕ
  pub fan_count : ℕ
  pub model : ℕ
  pub online : ℕ
  pub acknowledged : ℕ
  pub has_target : ℕ
  pub unacknowledged : ℕ
  pub rpm : List ℕ
  pub duty : Bytes
  pub target : Bytes

abbrev pub default_group : Group
default_group = record {
  mac = replicate 6 0;
  receiver = 0;
  fan_count = 0;
  model = 0;
  online = 0;
  acknowledged = 0;
  has_target = 0;
  unacknowledged = 0;
  rpm = replicate 4 0;
  duty = replicate 4 0;
  target = replicate 4 0;
}

pub record State : Type 0 where
  pub size : ℕ
  pub version : ℕ
  pub master_mac : Bytes
  pub channel : ℕ
  pub alarm : ℕ
  pub ticks : ℕ
  pub polls : ℕ
  pub poll_failures : ℕ
  pub group_count : ℕ
  pub groups : List Group

-- `size_of::<State>()`: 44 bytes, sixteen groups of 32, and 4 to a multiple of 8.
abbrev pub state_size : ℕ
state_size = 560

-- `unwrap_or_default`.
abbrev pub target_or_zero : Option Bytes → Bytes
target_or_zero none = replicate 4 0
target_or_zero (some target) = target

unfoldable pub group_of : GroupState → Group
group_of g = record {
  mac = g.mac;
  receiver = g.receiver;
  fan_count = g.fan_count;
  model = g.model;
  online = flag g.online;
  acknowledged = flag g.acknowledged;
  has_target = flag (is_some g.target);
  unacknowledged = g.unacknowledged;
  rpm = g.rpm;
  duty = g.duty;
  target = target_or_zero g.target;
}

-- The loop over `groups.iter_mut().zip(&snapshot.groups)`.
unfoldable pub fill_groups : List Group → List GroupState → List Group
unfolding group_of
fill_groups [] gs = []
fill_groups (out ∷ outs) [] = out ∷ outs
fill_groups (out ∷ outs) (g ∷ gs) = group_of g ∷ fill_groups outs gs

-- `State::from`.
unfoldable pub state_of : Snapshot → State
unfolding fill_groups
state_of s = record {
  size = state_size;
  version = abi_version;
  master_mac = s.master_mac;
  channel = s.channel;
  alarm = flag (is_some s.alarm);
  ticks = s.ticks;
  polls = s.polls;
  poll_failures = s.poll_failures;
  group_count = min (length s.groups) max_groups;
  groups = fill_groups (replicate max_groups default_group) s.groups;
}

-- The engine is gone once the handle has been closed.
pub record Handle : Type 0 where
  pub engine : Option Shared
  pub log : List Bytes

-- The closure that `log_sink` returns.
unfoldable pub push_line : List Bytes → Bytes → List Bytes
push_line lines line =
    (if leb log_capacity (length lines) then drop 1 lines else lines) ++ (line ∷ [])

-- A call: its code, the handle after it, and the error it leaves, where it leaves one.
pub record Outcome : Type 0 where
  pub code : ℤ
  pub handle : Option Handle
  pub error : Option Bytes

abbrev pub refused : ℤ → Option Handle → Bytes → Outcome
refused code handle text = record { code = code; handle = handle; error = some text }

-- A request that reaches the engine, if it still runs.
abbrev pub on_engine : Bytes → Handle → (Shared → Shared) → Outcome
on_engine what h f = elim h.engine [
  | none ↦ refused err_argument (some h) (what ++ bytes ": engine stopped")
  | some s ↦ record {
    code = success;
    handle = some (record h { engine = some (f s) });
    error = none;
  }
]

unfoldable pub lianli_set_percent : Option Handle → Option Bytes → ℕ → Outcome
lianli_set_percent none mac percent =
    refused err_argument none (bytes "set_percent: handle or mac is null")
lianli_set_percent (some h) none percent =
    refused err_argument (some h) (bytes "set_percent: handle or mac is null")
lianli_set_percent (some h) (some mac) percent =
    if ltb 100 percent
    then refused err_argument (some h)
        (bytes "set_percent: " ++ decimal percent ++ bytes " is over 100")
    else on_engine (bytes "set_percent") h (λ s. set_percent s (take 6 mac) percent)

unfoldable pub lianli_clear : Option Handle → Option Bytes → Outcome
lianli_clear none mac = refused err_argument none (bytes "clear: handle or mac is null")
lianli_clear (some h) none = refused err_argument (some h) (bytes "clear: handle or mac is null")
lianli_clear (some h) (some mac) = on_engine (bytes "clear") h (λ s. clear s (take 6 mac))

-- The state is given by the size that the caller set; what is written is part of the result.
unfoldable pub lianli_read_state : Option Handle → Option ℕ → Outcome × Option State
unfolding state_of
lianli_read_state none given =
    (refused err_argument none (bytes "read_state: handle or state is null"), none)
lianli_read_state (some h) none =
    (refused err_argument (some h) (bytes "read_state: handle or state is null"), none)
lianli_read_state (some h) (some given) =
    if ltb given state_size
    then (
      refused err_size (some h) (
          bytes "read_state: state is "
          ++ decimal given
          ++ bytes " bytes, this library needs "
          ++ decimal state_size),
      none,
    )
    else elim h.engine [
      | none ↦ (refused err_argument (some h) (bytes "read_state: engine stopped"), none)
      | some s ↦
          (record { code = success; handle = some h; error = none }, some (state_of s.snapshot))
    ]

-- `is_char_boundary`: the start, the end, or a byte that continues no character.
unfoldable pub is_char_boundary : Bytes → ℕ → Bool
is_char_boundary text zero = true
is_char_boundary text (suc at) = elim (get_elem? text (suc at)) [
  | none ↦ suc at == length text
  | some b ↦ ltb b 128 || leb 192 b
]

-- The loop of `copy_out`.
unfoldable pub boundary_from : Bytes → ℕ → ℕ
boundary_from text zero = zero
boundary_from text (suc end) =
    let before = boundary_from text end in
    if is_char_boundary text (suc end) then suc end else before

-- `copy_out`: the length it returns, and the bytes it writes with their NUL.
unfoldable pub copy_out : Bytes → ℕ → ℕ × Bytes
unfolding boundary_from
copy_out text len =
    let end = boundary_from text (min (length text) (len - 1)) in (end, take end text ++ (0 ∷ []))

-- `lianli_take_log`; the buffer is its length, and what is written is part of the result.
unfoldable pub lianli_take_log : Option Handle → Option ℕ → Outcome × Option Bytes
lianli_take_log none buffer =
    (refused err_argument none (bytes "take_log: handle or buffer is null, or length is 0"), none)
lianli_take_log (some h) none = (
  refused err_argument (some h) (bytes "take_log: handle or buffer is null, or length is 0"),
  none,
)
lianli_take_log (some h) (some len) =
    if len == 0
    then (
      refused err_argument (some h) (bytes "take_log: handle or buffer is null, or length is 0"),
      none,
    )
    else elim h.log [
      | [] ↦ (record { code = success; handle = some h; error = none }, none)
      | line ∷ rest ↦
          let (end, written) = copy_out line len in
          (
            record { code = pos end; handle = some (record h { log = rest }); error = none },
            some written,
          )
    ]
