-- ===== src/Groups/Examples.antt =====
-- src/groups.rs, `Group`, at concrete inputs.
use fan_control_lian_li_wire.Base.{◌≡◌, refl, ap, ◌≢◌, ◌⊎◌, none, [], ◌∷◌, arith, secs}
use fan_control_lian_li_wire.Discovery.{Device}
use fan_control_lian_li_wire.Discovery.Samples.{mac_a, mac_b, sample}
use fan_control_lian_li_wire.Groups.{
  Identity, identity, shape, identity_eq, shape_eq, Group, online, acknowledged, agree,
  settle_identity, settle_shape, note_heard, take_sighting,
}
use fan_control_lian_li_wire.Groups.Agreement.{
  Streak, heard, StaysOnline, identities, shapes, heard-third,
}
use fan_control_lian_li_wire.Groups

abbrev fresh : Group
fresh = record {
  device = sample mac_a;
  last_seen = 0;
  target = none;
  last_sent = none;
  unacknowledged = 0;
  identity = none;
  shape = none;
}

-- The group as another dongle's.
abbrev moved : Device
moved = record (sample mac_a) { master_mac = mac_b; channel = 9 }

stays_online : StaysOnline fresh ((moved, secs 3) ∷ (moved, secs 2) ∷ (moved, secs 1) ∷ [])
unfolding heard Groups.online take_sighting settle_identity settle_shape note_heard
    Groups.acknowledged identity_eq shape_eq agree identity shape
stays_online = (refl, (refl, (refl, tt)))

other : identity moved ≢ identity fresh.device
unfolding identity
other = λ e. ground (arith, ap (λ (i : Identity). i.channel) e)

heard-third_example :
    ((identity (heard fresh ((moved, secs 3) ∷ (moved, secs 2) ∷ (moved, secs 1) ∷ [])).device
        ≡ identity (heard fresh ((moved, secs 2) ∷ (moved, secs 1) ∷ [])).device)
      ⊎ ((identity (heard fresh ((moved, secs 3) ∷ (moved, secs 2) ∷ (moved, secs 1) ∷ [])).device
            ≡ identity moved)
          × Streak (identity moved) 2 (identities ((moved, secs 2) ∷ (moved, secs 1) ∷ []))))
    × ((shape (heard fresh ((moved, secs 3) ∷ (moved, secs 2) ∷ (moved, secs 1) ∷ [])).device
          ≡ shape (heard fresh ((moved, secs 2) ∷ (moved, secs 1) ∷ [])).device)
        ⊎ ((shape (heard fresh ((moved, secs 3) ∷ (moved, secs 2) ∷ (moved, secs 1) ∷ [])).device
              ≡ shape moved)
            × Streak (shape moved) 2 (shapes ((moved, secs 2) ∷ (moved, secs 1) ∷ []))))
unfolding Groups.online
heard-third_example =
    heard-third fresh moved (secs 3) ((moved, secs 2) ∷ (moved, secs 1) ∷ []) refl refl stays_online
