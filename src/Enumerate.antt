-- ===== src/Enumerate.antt =====
-- src/enumerate.rs: telling the two dongles apart by their device paths. The paths are
-- listed in Enumerate/Walk.
pub mod Pairs
pub mod Walk
pub mod Listing
pub mod Paths
mod Examples
use fan_control_lian_li_wire.Base.{
  ℕ, ◌+◌, ◌-◌, ◌*◌, ◌/◌, ◌%◌, ◌^◌, ◌≤◌, ◌<◌, ◌≡◌, ap, ◌∙◌, ◌≡⟨◌⟩◌, ◌∎, ◌≢◌, ◌↔◌, ◌⊎◌, Bool, true,
  false, not, ◌&&◌, ◌||◌, Option, none, some, List, [], ◌∷◌, ◌++◌, map, leb, ◌==◌, if◌then◌else◌,
  length, take, drop, filter, all, Bytes, bytes_eq, get, bytes, decimal, Result, ok, err, ◌>>=◌,
}
use fan_control_lian_li_wire.Win.{WinError, win_error_text}

abbrev vendor : Bytes
vendor = bytes "vid_0416&pid_"

abbrev pub transmitter_id : ℕ
transmitter_id = 0x8040

abbrev pub receiver_id : ℕ
receiver_id = 0x8041

pub data Role : Type 0 where
  transmitter : Role
  receiver : Role

-- `Role::fmt`.
abbrev pub role_text : Role → Bytes
role_text transmitter = bytes "transmitter"
role_text receiver = bytes "receiver"

abbrev pub role_eq : Role → Role → Bool
role_eq transmitter transmitter = true
role_eq transmitter receiver = false
role_eq receiver transmitter = false
role_eq receiver receiver = true

pub record Dongles : Type 0 where
  pub transmitter : Bytes
  pub receiver : Bytes

pub data Error : Type 0 where
  windows : WinError → Error
  missing : Role → Error
  several : Role → ℕ → Error

-- `Error::fmt`.
unfoldable pub error_text : (ℕ → Bytes) → Error → Bytes
error_text message (windows e) = win_error_text message e
error_text message (missing role) = bytes "no " ++ role_text role ++ bytes " dongle is attached"
error_text message (several role count) =
    decimal count ++ bytes " " ++ role_text role ++ bytes " dongles are attached"

-- `to_ascii_lowercase`.
abbrev lowercase : ℕ → ℕ
lowercase c = if leb 65 c && leb c 90 then c + 32 else c

-- What follows the first place where `pattern` stands.
unfoldable pub after_first : Bytes → Bytes → Option Bytes
after_first pattern [] = if bytes_eq pattern [] then some [] else none
after_first pattern (c ∷ cs) =
    if bytes_eq (take (length pattern) (c ∷ cs)) pattern
    then some (drop (length pattern) (c ∷ cs))
    else after_first pattern cs

abbrev hex_value : ℕ → Option ℕ
hex_value c =
    if leb 48 c && leb c 57
    then some (c - 48)
    else (if leb 97 c && leb c 102 then some (c - 87) else none)

-- `from_str_radix(_, 16)` of lower-case text after its sign.
abbrev hex_digits : ℕ → Bytes → Option ℕ
hex_digits n [] = some n
hex_digits n (c ∷ cs) = elim (hex_value c) [ none ↦ none | some d ↦ hex_digits (n * 16 + d) cs ]

-- `u16::from_str_radix(_, 16)` of four characters: a leading `+` is allowed.
abbrev parse_hex : Bytes → Option ℕ
parse_hex [] = none
parse_hex (c ∷ cs) = if c == 43 then hex_digits 0 cs else hex_digits 0 (c ∷ cs)

abbrev role_of : ℕ → Option Role
role_of product =
    if product == transmitter_id
    then some transmitter
    else (if product == receiver_id then some receiver else none)

-- `rest.get(..4)`; the path is ASCII, so that every place is a character boundary.
abbrev first_four : Bytes → Option Bytes
first_four rest = if leb 4 (length rest) then some (take 4 rest) else none

unfoldable pub classify : Bytes → Option Role
unfolding after_first
classify path = elim (after_first vendor (map lowercase path)) [
  | none ↦ none
  | some rest ↦ elim (first_four rest) [
    | none ↦ none
    | some digits ↦ elim (parse_hex digits) [ none ↦ none | some product ↦ role_of product ]
  ]
]

abbrev pub is_role : Role → Option Role → Bool
is_role role none = false
is_role role (some r) = role_eq r role

-- The closure `one`, on the paths that have the role.
abbrev pub one_of : Role → List Bytes → Result Error Bytes
one_of role [] = err (missing role)
one_of role (first ∷ []) = ok first
one_of role (first ∷ second ∷ more) = err (several role (length more + 2))

abbrev pub one : List Bytes → Role → Result Error Bytes
one paths role = one_of role (filter (λ p. is_role role (classify p)) paths)

unfoldable pub pair : List Bytes → Result Error Dongles
pair paths = one paths transmitter >>= λ t.
    one paths receiver >>= λ r. ok (record { transmitter = t; receiver = r })
