-- ===== src/Enumerate/Examples.antt =====
-- src/enumerate.rs at concrete inputs, from the tests of that file.
use fan_control_lian_li_wire.Base.{◌≡◌, refl, ◌↔◌, some, [], ◌∷◌, Bytes, bytes, ok}
use fan_control_lian_li_wire.Enumerate.{transmitter, receiver, Dongles, classify, pair}
use fan_control_lian_li_wire.Enumerate.Pairs.{with_role, pair_iff}

abbrev tx_path : Bytes
tx_path = bytes "\\\\?\\usb#vid_0416&pid_8040#6&1"

abbrev rx_path : Bytes
rx_path = bytes "\\\\?\\USB#VID_0416&PID_8041#6&2"

classify_test : classify rx_path ≡ some receiver
unfolding classify
classify_test = refl

abbrev found : Dongles
found = record { transmitter = tx_path; receiver = rx_path }

pair_iff_example : (pair (rx_path ∷ tx_path ∷ []) ≡ ok found) ↔ (
    (with_role transmitter (rx_path ∷ tx_path ∷ []) ≡ tx_path ∷ [])
    × (with_role receiver (rx_path ∷ tx_path ∷ []) ≡ rx_path ∷ []))
pair_iff_example = pair_iff (rx_path ∷ tx_path ∷ []) found
