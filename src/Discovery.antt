-- ===== src/Discovery.antt =====
-- src/discovery.rs: the receiver's answer to a discovery request.
mod Examples
pub mod Parse
pub mod Records
pub mod Encode
pub mod Samples
use mathlib.Core.Option
use fan_control_lian_li_wire.Base.{
  ℕ, zero, suc, ◌+◌, ◌-◌, ◌*◌, ◌/◌, ◌%◌, ◌^◌, ◌≤◌, ◌<◌, min, max, bit_and, ◌≡◌, ap, ◌∙◌, ◌≡⟨◌⟩◌, ◌∎,
  ◌≢◌, ◌↔◌, ◌⊎◌, Bool, true, false, not, ◌&&◌, ◌||◌, Option, none, some, List, [], ◌∷◌, ◌++◌, map,
  ltb, leb, ◌==◌, if◌then◌else◌, length, set, take, drop, Bytes, byte_at, slice, u16_from_be_bytes,
  bytes_eq, bytes, decimal, hex_byte, Result, ◌>>=◌, ok, err,
}
use fan_control_lian_li_wire.Frame.{records_per_page, zero_mac}

abbrev pub header_len : ℕ
header_len = 4

abbrev pub record_len : ℕ
record_len = 42

abbrev pub fans_per_group : ℕ
fans_per_group = 4

abbrev pub send_rf : ℕ
send_rf = 0x10

abbrev pub marker : ℕ
marker = 0x1c

abbrev pub master_type : ℕ
master_type = 0xff

pub data Error : Type 0 where
  short : Error
  wrong_command : ℕ → Error
  truncated : ℕ → ℕ → Error

-- `Error::fmt`; `truncated expected actual`.
unfoldable pub error_text : Error → Bytes
error_text short = bytes "discovery reply shorter than its header"
error_text (wrong_command command) = bytes "discovery reply has command byte 0x" ++ hex_byte command
error_text (truncated expected actual) =
    bytes "discovery reply truncated: "
    ++ decimal actual
    ++ bytes " of "
    ++ decimal expected
    ++ bytes " bytes"

pub record Master : Type 0 where
  pub mac : Bytes
  pub channel : ℕ

pub record Device : Type 0 where
  pub mac : Bytes
  pub master_mac : Bytes
  pub channel : ℕ
  pub receiver : ℕ
  pub device_type : ℕ
  pub fan_count : ℕ
  pub right_attach : Bool
  pub effect : Bytes
  pub fan_types : Bytes
  pub rpm : List ℕ
  pub duty : Bytes
  pub sequence : ℕ
  pub pwm_line : Bool
  pub light_sync : Bool

pub record Reply : Type 0 where
  pub reported : ℕ
  pub masters : List Master
  pub devices : List Device
  pub skipped : ℕ

unfoldable pub mac_at : Bytes → ℕ → Option Bytes
mac_at record' at =
    let mac = slice at (at + 6) record' in if bytes_eq mac zero_mac then none else some mac

unfoldable pub parse_master : Bytes → Option Master
unfolding mac_at
parse_master r =
    if ltb (length r) record_len
      || not (byte_at r 41 == marker)
      || not (byte_at r 18 == master_type)
    then none
    else Option.map (λ mac. record { mac = mac; channel = byte_at r 12 }) (mac_at r 0)

-- The fan count and side that the raw count byte stands for.
unfoldable pub fan_shape : ℕ → ℕ × Bool
fan_shape raw_count =
    if leb 10 raw_count
    then (min (raw_count - 10) fans_per_group, true)
    else (min raw_count fans_per_group, false)

-- One round of the loop over the fan slots.
unfoldable pub rpm_at : Bytes → ℕ → ℕ
rpm_at r slot =
    let at = 28 + slot * 2 in u16_from_be_bytes (bit_and (byte_at r at) 0x0f) (byte_at r (at + 1))

-- The record's fields, read from their offsets.
unfoldable pub device_of : Bytes → Bytes → Device
unfolding fan_shape rpm_at
device_of r mac = record {
  mac = mac;
  master_mac = slice 6 12 r;
  channel = byte_at r 12;
  receiver = byte_at r 13;
  device_type = byte_at r 18;
  fan_count = (fan_shape (byte_at r 19)).0;
  right_attach = (fan_shape (byte_at r 19)).1;
  effect = slice 20 24 r;
  fan_types = slice 24 28 r;
  rpm = map (rpm_at r) (0 ∷ 1 ∷ 2 ∷ 3 ∷ []);
  duty = slice 36 40 r;
  sequence = byte_at r 40;
  pwm_line = not (bit_and (byte_at r 28) 0x20 == 0);
  light_sync = not (bit_and (byte_at r 28) 0x40 == 0);
}

unfoldable pub parse_device : Bytes → Option Device
unfolding mac_at
parse_device r =
    if ltb (length r) record_len || not (byte_at r 41 == marker) || byte_at r 18 == master_type
    then none
    else Option.map (device_of r) (mac_at r 0)

-- `as_chunks::<RECORD_LEN>().0`: the whole records, `n` of them.
pub chunks : ℕ → Bytes → List Bytes
chunks zero bs = []
chunks (suc n) bs = take record_len bs ∷ chunks n (drop record_len bs)

-- One round of the loop over the records. `skipped` is a `u8`.
unfoldable pub take_record : Reply → Bytes → Reply
take_record r bs = elim (parse_master bs) [
  | some master ↦ record r { masters = r.masters ++ master ∷ [] }
  | none ↦ elim (parse_device bs) [
    | some device ↦ record r { devices = r.devices ++ device ∷ [] }
    | none ↦ record r { skipped = (r.skipped + 1) % 256 }
  ]
]

pub take_records : Reply → List Bytes → Reply
unfolding take_record
take_records r [] = r
take_records r (bs ∷ rest) = take_records (take_record r bs) rest

-- The records that the header promises, held to what `pages` pages can carry.
abbrev pub promised : Bytes → ℕ → ℕ
promised reply pages = min (byte_at reply 1) (max pages 1 * records_per_page)

abbrev pub expected_len : Bytes → ℕ → ℕ
expected_len reply pages = header_len + promised reply pages * record_len

unfoldable pub parse_reply : Bytes → ℕ → Result Error Reply
unfolding chunks take_records
parse_reply reply pages =
    if ltb (length reply) header_len
    then err short
    else (if not (byte_at reply 0 == send_rf)
        then err (wrong_command (byte_at reply 0))
        else (let expected = expected_len reply pages in
            if ltb (length reply) expected
            then err (truncated expected (length reply))
            else (let body = slice header_len expected reply in
                ok (
                  take_records
                    (record { reported = byte_at reply 1; masters = []; devices = []; skipped = 0 })
                    (chunks (length body / record_len) body)))))
