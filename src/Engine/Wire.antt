-- ===== src/Engine/Wire.antt =====
-- src/engine.rs, `impl Link for Dongle`: the engine on a real dongle.
use fan_control_lian_li_wire.Engine.{Link}
use fan_control_lian_li_wire.Dongle.{Port, connect, Usb, Dongle, reopen, poll, send_on, send}
use fan_control_lian_li_wire.Dongle

unfoldable pub dongle_link : (port : Port) → Usb port → Link
dongle_link port usb = record {
  Carrier = Dongle port × usb.World;
  master_mac = λ c. c.0.master.master_mac;
  channel = λ c. c.0.channel;
  poll = λ c. let (r, d) = Dongle.poll port c.0 in (r, (d, c.1));
  send = λ c channel to payload.
      let (r, d) = Dongle.send_on port c.0 channel to payload in (r, (d, c.1));
  reconnect = λ c every_channel. reopen port usb c.0 c.1 every_channel;
}
