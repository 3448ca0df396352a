-- ===== src/Groups/Live.antt =====
-- src/groups.rs, `take_sighting`: what every sighting brings up to date, and what it keeps.
use fan_control_lian_li_wire.Base.{
  ℕ, ◌≡◌, refl, ap, ◌∙◌, inl, inr, false, Option, none, some, Bool-cases,
}
use fan_control_lian_li_wire.Discovery.{Device}
use fan_control_lian_li_wire.Groups.{
  Identity, Shape, identity, shape, identity_eq, shape_eq, Group, online, agree, keep,
  with_identity, with_shape, settle_identity, settle_shape, note_heard, take_sighting,
}
use fan_control_lian_li_wire.Groups.Sighting.{note_heard_lem}

-- What no agreement touches: the live readings, and what was asked of the group.
pub record Live (g : Group) (seen : Device) (g' : Group) : Type 0 where
  pub mac : g'.device.mac ≡ seen.mac
  pub rpm : g'.device.rpm ≡ seen.rpm
  pub duty : g'.device.duty ≡ seen.duty
  pub sequence : g'.device.sequence ≡ seen.sequence
  pub target : g'.target ≡ g.target
  pub last_sent : g'.last_sent ≡ g.last_sent

with_identity-live :
    (d : Device) (i : Option Identity)
    → ((with_identity d i).mac ≡ d.mac)
      × ((with_identity d i).rpm ≡ d.rpm)
      × ((with_identity d i).duty ≡ d.duty)
      × ((with_identity d i).sequence ≡ d.sequence)
with_identity-live d none = (refl, refl, refl, refl)
with_identity-live d (some i) = (refl, refl, refl, refl)

with_shape-live :
    (d : Device) (s : Option Shape)
    → ((with_shape d s).mac ≡ d.mac)
      × ((with_shape d s).rpm ≡ d.rpm)
      × ((with_shape d s).duty ≡ d.duty)
      × ((with_shape d s).sequence ≡ d.sequence)
with_shape-live d none = (refl, refl, refl, refl)
with_shape-live d (some s) = (refl, refl, refl, refl)

settle_identity-Live :
    (kept seen : Device) (g : Group) → Live g g.device (settle_identity kept seen g)
unfolding settle_identity
settle_identity-Live kept seen g =
    let l = with_identity-live g.device (agree identity_eq g.identity (identity seen)).1 in
    elim (Bool-cases (identity_eq (identity seen) (identity kept))) [
      | inl e ↦
          rw (e, settle_identity)
            (record {
              mac = refl;
              rpm = refl;
              duty = refl;
              sequence = refl;
              target = refl;
              last_sent = refl;
            })
      | inr e ↦
          rw (e, settle_identity)
            (record {
              mac = l.0;
              rpm = l.1;
              duty = l.2;
              sequence = l.3;
              target = refl;
              last_sent = refl;
            })
    ]

settle_shape-Live : (kept seen : Device) (g : Group) → Live g g.device (settle_shape kept seen g)
unfolding settle_shape
settle_shape-Live kept seen g =
    let l = with_shape-live g.device (agree shape_eq g.shape (shape seen)).1 in
    elim (Bool-cases (shape_eq (shape seen) (shape kept))) [
      | inl e ↦
          rw (e, settle_shape)
            (record {
              mac = refl;
              rpm = refl;
              duty = refl;
              sequence = refl;
              target = refl;
              last_sent = refl;
            })
      | inr e ↦
          rw (e, settle_shape)
            (record {
              mac = l.0;
              rpm = l.1;
              duty = l.2;
              sequence = l.3;
              target = refl;
              last_sent = refl;
            })
    ]

Live-trans : (g h k : Group) (seen : Device) → Live g seen h → Live h h.device k → Live g seen k
Live-trans g h k seen a b = record {
  mac = b.mac ∙ a.mac;
  rpm = b.rpm ∙ a.rpm;
  duty = b.duty ∙ a.duty;
  sequence = b.sequence ∙ a.sequence;
  target = b.target ∙ a.target;
  last_sent = b.last_sent ∙ a.last_sent;
}

note_heard-Live : (g : Group) (now : ℕ) → Live g g.device (note_heard g now)
note_heard-Live g now =
    let n = note_heard_lem g now in
    record {
      mac = ap (λ d. d.mac) n.0;
      rpm = ap (λ d. d.rpm) n.0;
      duty = ap (λ d. d.duty) n.0;
      sequence = ap (λ d. d.sequence) n.0;
      target = n.3;
      last_sent = n.4;
    }

seen-Live :
    (g h : Group) (seen : Device)
    → h.device.mac ≡ seen.mac
    → h.device.rpm ≡ seen.rpm
    → h.device.duty ≡ seen.duty
    → h.device.sequence ≡ seen.sequence
    → h.target ≡ g.target
    → h.last_sent ≡ g.last_sent
    → Live g seen h
seen-Live g h seen a b c d e f = record {
  mac = a;
  rpm = b;
  duty = c;
  sequence = d;
  target = e;
  last_sent = f;
}

-- Every sighting, online or not, brings the readings up to date, keeps the target and when it was
-- last sent, and counts as heard now.
pub take_sighting-Live :
    (g : Group) (seen : Device) (now : ℕ)
    → Live g seen (take_sighting g seen now) × ((take_sighting g seen now).last_seen ≡ now)
unfolding take_sighting
take_sighting-Live g seen now = elim (Bool-cases (online g now)) [
  | inl on ↦
      let kept : Group = record g { device = keep g.device seen } in
      let mid : Group = settle_identity g.device seen kept in
      let end : Group = settle_shape g.device seen mid in
      rw (on, take_sighting)
        (
          Live-trans g end (note_heard end now) seen
              (Live-trans g mid end seen
                (Live-trans g kept mid seen (seen-Live g kept seen refl refl refl refl refl refl)
                  (settle_identity-Live g.device seen kept))
                (settle_shape-Live g.device seen mid))
              (note_heard-Live end now),
          (note_heard_lem end now).5,
        )
  | inr off ↦
      let fresh : Group = record g { device = seen; identity = none; shape = none } in
      rw (off, take_sighting)
        (
          Live-trans g fresh (note_heard fresh now) seen
              (seen-Live g fresh seen refl refl refl refl refl refl) (note_heard-Live fresh now),
          (note_heard_lem fresh now).5,
        )
]

-- A group that was offline is taken as seen, with no candidate left.
pub take_sighting_offline :
    (g : Group) (seen : Device) (now : ℕ)
    → online g now ≡ false
    → ((take_sighting g seen now).device ≡ seen)
      × ((take_sighting g seen now).identity ≡ none)
      × ((take_sighting g seen now).shape ≡ none)
unfolding take_sighting
take_sighting_offline g seen now off =
    let n = note_heard_lem (record g { device = seen; identity = none; shape = none }) now in
    rw (off, take_sighting) (n.0, n.1, n.2)
