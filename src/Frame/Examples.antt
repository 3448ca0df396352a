-- ===== src/Frame/Examples.antt =====
-- src/frame.rs at concrete inputs: the theorems' instances, and tests of the constants.
use fan_control_lian_li_wire.Base.{◌≡◌, refl, some, [], ◌∷◌, ◌++◌, replicate, Bytes}
use fan_control_lian_li_wire.Frame.{ConnectReply, parse_connect_reply, connect_attempts, rf_frames}
use fan_control_lian_li_wire.Frame.Chunks.{reassemble, IsChunk, rf_frames_carry}

abbrev numbered : Bytes
numbered = replicate 100 7 ++ replicate 140 9

rf_frames_carry_example :
    (f0 : Bytes) × (f1 : Bytes) × (f2 : Bytes) × (f3 : Bytes) × (rf_frames 8 2 numbered
      ≡ f0 ∷ f1 ∷ f2 ∷ f3 ∷ [])
    × IsChunk 8 2 0 f0
    × IsChunk 8 2 1 f1
    × IsChunk 8 2 2 f2
    × IsChunk 8 2 3 f3
    × (reassemble (rf_frames 8 2 numbered) ≡ numbered)
rf_frames_carry_example = rf_frames_carry 8 2 numbered refl

abbrev dongle_reply : Bytes
dongle_reply = 0x11 ∷ 0xbf ∷ 0x3d ∷ 0xca ∷ 0xe5 ∷ 0x66 ∷ 0xe4 ∷ 0 ∷ 0 ∷ 0 ∷ 2 ∷ 1 ∷ 6 ∷ []

abbrev dongle_said : ConnectReply
dongle_said = record { master_mac = 0xbf ∷ 0x3d ∷ 0xca ∷ 0xe5 ∷ 0x66 ∷ 0xe4 ∷ []; firmware = 0x106 }

dongle_reply_parses : parse_connect_reply dongle_reply ≡ some dongle_said
unfolding parse_connect_reply
dongle_reply_parses = refl

default_attempts : connect_attempts 8 ≡ 3
unfolding connect_attempts
default_attempts = refl
