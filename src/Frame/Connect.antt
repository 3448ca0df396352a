-- ===== src/Frame/Connect.antt =====
-- src/frame.rs, `connect_request` and `parse_connect_reply`.
use fan_control_lian_li_wire.Base.{
  ◌≤◌, ◌<◌, ◌≡◌, ◌≢◌, ◌↔◌, some, arith, length, Bytes, byte_at, slice, u16_from_be_bytes,
  u32_from_be_bytes, bytes_eq_iff,
}
use fan_control_lian_li_wire.Frame.{ConnectReply, parse_connect_reply, zero_mac, get_mac}

-- What the doc comment asks of an accepted answer, field by field.
pub record Answers (reply : Bytes) (r : ConnectReply) : Type 0 where
  pub long : 13 ≤ length reply
  pub command : byte_at reply 0 ≡ get_mac
  pub address : r.master_mac ≡ slice 1 7 reply
  pub bound : r.master_mac ≢ zero_mac
  pub status :
      1 < u32_from_be_bytes (byte_at reply 7) (byte_at reply 8) (byte_at reply 9) (byte_at reply 10)
  pub version : r.firmware ≡ u16_from_be_bytes (byte_at reply 11) (byte_at reply 12)

-- An answer is accepted exactly when it is long enough, has the command byte, a non-zero address
-- and a status above 1, and then the address and firmware are read from their places.
pub parse_connect_reply_iff :
    (reply : Bytes) (r : ConnectReply) → (parse_connect_reply reply ≡ some r) ↔ Answers reply r
unfolding parse_connect_reply
parse_connect_reply_iff reply r = (
  λ h. ground (arith, bytes_eq_iff (slice 1 7 reply) zero_mac),
  λ a. ground (arith, bytes_eq_iff (slice 1 7 reply) zero_mac),
)
