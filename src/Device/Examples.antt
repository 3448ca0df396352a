-- ===== src/Device/Examples.antt =====
-- src/device.rs at concrete inputs.
use fan_control_lian_li_wire.Base.{
  ℕ, suc, ◌-◌, ◌/◌, ◌^◌, ◌≤◌, ◌<◌, min, max, ◌≡◌, refl, true, none, some, [], ◌∷◌, ◌==◌,
  if◌then◌else◌, Bytes, ok,
}
use fan_control_lian_li_wire.Device.{out_pipe, in_pipe, timeout_millis, WinUsb, Device}
use fan_control_lian_li_wire.Device.Open.{
  Setup, transfer_of, pipes_from, pipes, set_policy, set_policies, configure, open_file,
  open_device,
}
use fan_control_lian_li_wire.Device.Closing.{
  Count, one_file_more, IsAccounted, Balances, open_device-Balances,
}
use fan_control_lian_li_wire.Device.Timeouts.{timeout_millis_bounds}

timeout_millis_bounds_example :
    (1 ≤ timeout_millis 200_000)
    × (timeout_millis 200_000 < 2 ^ 32)
    × (timeout_millis 200_000 ≡ max 1 (min (200_000 / 1_000_000) (2 ^ 32 - 1)))
timeout_millis_bounds_example = timeout_millis_bounds 200_000

-- An interface that counts the calls that set a timeout.
abbrev counting : WinUsb
counting = record {
  Interface = ℕ;
  set_timeout = λ i pipe millis. (ok tt, suc i);
  write_pipe = λ i frame. (ok 64, i);
  read_pipe = λ i len. (ok [], i);
}

abbrev opened : Device counting
opened = record { interface = 0; read_timeout = none; write_timeout = none }

-- The counting interface behind a world that counts what is open; it has both pipes, and a
-- path that is not empty does not open.
abbrev counted : Setup counting
counted = record {
  World = Count;
  File = Unit {0};
  get = λ w. (ok tt, w);
  create_file = λ w path. elim path [ [] ↦ (some tt, (suc w.0, w.1)) | _ ∷ _ ↦ (none, w) ];
  initialize = λ w f. (some 0, (w.0, suc w.1));
  query_settings = λ w i. (some 2, w);
  query_pipe = λ w i index. (
    some (record {
      kind = 2;
      pipe_id = if index == 0 then out_pipe else in_pipe;
      maximum_packet_size = 64;
    }),
    w,
  );
  set_pipe_policy = λ w i pipe policy value. (true, w);
  free = λ w i. (w.0, w.1 - 1);
  close_handle = λ w f. (w.0 - 1, w.1);
  last_error = λ w. 5;
}

created_lem :
    (w : Count) (path : Bytes)
    → (counted.create_file w path).1 ≡ one_file_more (counted.create_file w path).0 w
created_lem w [] = refl
created_lem w (b ∷ bs) = refl

counted-IsAccounted : IsAccounted counted (λ w. w)
counted-IsAccounted = record {
  gets = λ w. refl;
  creates = created_lem;
  initializes = λ w f. refl;
  queries = λ w i. refl;
  queries_pipe = λ w i n. refl;
  sets = λ w i pipe policy value. refl;
  frees = λ w i. refl;
  closes = λ w f. refl;
}

open_device-Balances_example :
    Balances counting counted (λ w. w) (0, 0) (open_device counting counted (0, 0) [])
open_device-Balances_example =
    open_device-Balances counting counted (λ w. w) (0, 0) [] counted-IsAccounted

opened_test : (open_device counting counted (0, 0) []).1 ≡ (1, 1)
unfolding open_device open_file configure pipes pipes_from set_policies set_policy transfer_of
opened_test = refl

closed_test : (open_device counting counted (0, 0) (7 ∷ [])).1 ≡ (0, 0)
unfolding open_device
closed_test = refl
