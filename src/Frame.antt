-- ===== src/Frame.antt =====
-- src/frame.rs: the 64-byte frames exchanged with the dongles. A frame and a radio payload are
-- byte strings of 64 and 240 bytes.
mod Examples
pub mod Connect
pub mod Channels
pub mod Pages
pub mod Chunks
use fan_control_lian_li_wire.Base.{
  ℕ, zero, suc, ◌+◌, ◌-◌, ◌*◌, ◌/◌, ◌%◌, ◌^◌, ◌≤◌, ◌<◌, min, max, ◌≡◌, ap, ◌∙◌, ◌≡⟨◌⟩◌, ◌∎, ◌≢◌,
  ◌↔◌, ◌⊎◌, not, ◌&&◌, ◌||◌, Option, none, some, List, [], ◌∷◌, ◌++◌, map, ltb, leb, ◌==◌,
  if◌then◌else◌, length, set, replicate, filter, Bytes, byte_at, slice, copy_at, u16_from_be_bytes,
  u32_from_be_bytes, bytes_eq, bytes, ◌>>=◌,
}

abbrev pub frame_len : ℕ
frame_len = 64

abbrev pub rf_payload_len : ℕ
rf_payload_len = 240

abbrev pub rf_chunk_len : ℕ
rf_chunk_len = 60

abbrev pub rf_chunks : ℕ
rf_chunks = rf_payload_len / rf_chunk_len

abbrev pub broadcast : ℕ
broadcast = 0xff

abbrev pub default_channel : ℕ
default_channel = 8

abbrev pub records_per_page : ℕ
records_per_page = 10

abbrev pub page_len : ℕ
page_len = 512

abbrev pub max_pages : ℕ
max_pages = 26

abbrev pub send_rf : ℕ
send_rf = 0x10

abbrev pub get_mac : ℕ
get_mac = 0x11

abbrev pub zero_mac : Bytes
zero_mac = replicate 6 0

pub record ConnectReply : Type 0 where
  pub master_mac : Bytes
  pub firmware : ℕ

unfoldable pub connect_request : ℕ → Bytes
connect_request channel = set (set (replicate frame_len 0) 0 get_mac) 1 channel

unfoldable pub parse_connect_reply : Bytes → Option ConnectReply
parse_connect_reply reply =
    if ltb (length reply) 13 || not (byte_at reply 0 == get_mac)
    then none
    else (let master_mac = slice 1 7 reply in
        if bytes_eq master_mac zero_mac
        then none
        else (if leb
              (u32_from_be_bytes (byte_at reply 7) (byte_at reply 8) (byte_at reply 9)
                (byte_at reply 10))
              1
            then none
            else some (record {
              master_mac = master_mac;
              firmware = u16_from_be_bytes (byte_at reply 11) (byte_at reply 12);
            })))

-- `a..=b` as the `n = b - a + 1` numbers from `a`.
pub count_up : ℕ → ℕ → List ℕ
count_up a zero = []
count_up a (suc n) = a ∷ count_up (suc a) n

unfoldable pub channel_scan : List ℕ
unfolding count_up
channel_scan =
    default_channel
    ∷ (filter (λ c. c % 2 == 0 && not (c == default_channel)) (count_up 2 37)
        ++ filter (λ c. c % 2 == 1) (count_up 1 39))

unfoldable pub connect_attempts : ℕ → ℕ
connect_attempts channel = if channel == default_channel then 3 else 1

-- `pages.clamp(1, MAX_PAGES)`.
abbrev pub clamp_pages : ℕ → ℕ
clamp_pages pages = min (max pages 1) max_pages

unfoldable pub discovery_request : ℕ → Bytes
discovery_request pages = set (set (replicate frame_len 0) 0 send_rf) 1 (clamp_pages pages)

unfoldable pub discovery_reply_len : ℕ → ℕ
discovery_reply_len pages = clamp_pages pages * page_len

unfoldable pub pages_for : ℕ → ℕ
pages_for devices = max ((devices + (records_per_page - 1)) / records_per_page % 256) 1

-- One round of the loop of `rf_frames`.
pub rf_frame : ℕ → ℕ → Bytes → ℕ → Bytes
rf_frame channel receiver payload index =
    let start = index * rf_chunk_len in
    copy_at 4 (slice start (start + rf_chunk_len) payload)
      (set (set (set (set (replicate frame_len 0) 0 send_rf) 1 (index % 256)) 2 channel) 3 receiver)

unfoldable pub rf_frames : ℕ → ℕ → Bytes → List Bytes
unfolding rf_frame count_up
rf_frames channel receiver payload = map (rf_frame channel receiver payload) (count_up 0 rf_chunks)
