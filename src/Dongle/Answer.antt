-- ===== src/Dongle/Answer.antt =====
-- src/dongle.rs, `connect_with`: the answer that the scan takes.
use fan_control_lian_li_wire.Base.{
  ℕ, zero, suc, ◌≡◌, refl, ap, subst, ◌∙◌, inl, inr, true, none, some, List, [], ◌∷◌, arith, ◌==◌,
  Bool-cases, any, Bytes, ok, Result-cases,
}
use fan_control_lian_li_wire.Frame.{frame_len, ConnectReply, connect_request, parse_connect_reply}
use fan_control_lian_li_wire.Enumerate.{Role, transmitter}
use fan_control_lian_li_wire.Dongle.{
  connect_wait, flush_wait, Port, drain, write_frame, attempt, attempts_on, connect_with,
}
use fan_control_lian_li_wire.Device

module _ (port : Port) where
  -- The port as some writes and reads leave it.
  pub data Reached (p : port.Carrier) : port.Carrier → Type 0 where
    untouched : Reached p p
    wrote :
        {q : port.Carrier} (frame : Bytes) (wait : ℕ)
        → Reached p q
        → Reached p (port.write q frame wait).1
    has_read : {q : port.Carrier} (len wait : ℕ) → Reached p q → Reached p (port.read q len wait).1

  Reached-drain :
      (p q : port.Carrier) (chunk_len reads : ℕ)
      → Reached p q
      → Reached p (drain port q chunk_len reads).1
  unfolding drain
  Reached-drain p q chunk_len zero r = r
  Reached-drain p q chunk_len (suc reads) r =
      let next = port.read q chunk_len flush_wait in
      let after : Reached p next.1 = has_read chunk_len flush_wait r in
      elim (Result-cases next.0) [
        | inr (e, f) ↦ rw (f, drain) after
        | inl ([], f) ↦ rw (f, drain) after
        | inl (b ∷ bs, f) ↦ rw (f, drain) (Reached-drain p next.1 chunk_len reads after)
      ]

  Reached-write_frame :
      (p q : port.Carrier) (role : Role) (frame : Bytes)
      → Reached p q
      → Reached p (write_frame port q role frame).1
  unfolding write_frame
  Reached-write_frame p q role frame r =
      let after : Reached p (port.write q frame Device.timeout).1 = wrote frame Device.timeout r in
      elim (Result-cases (port.write q frame Device.timeout).0) [
        | inr (e, f) ↦ rw (f, write_frame) after
        | inl (n, f) ↦ rw (f, write_frame) after
      ]

  Reached-attempt :
      (p q : port.Carrier) (channel : ℕ) → Reached p q → Reached p (attempt port q channel).1
  unfolding attempt
  Reached-attempt p q channel r =
      let drained = drain port q frame_len 16 in
      let asked = write_frame port drained.1 transmitter (connect_request channel) in
      let r1 = Reached-drain p q frame_len 16 r in
      let r2 = Reached-write_frame p drained.1 transmitter (connect_request channel) r1 in
      let r3 : Reached p (port.read asked.1 frame_len connect_wait).1 =
        has_read frame_len connect_wait r2 in
      elim (Result-cases drained.0) [
        | inr (e, f) ↦ rw (f, attempt) r1
        | inl (a, f) ↦ elim (Result-cases asked.0) [
          | inr (e, k) ↦ rw (f, k, attempt) r2
          | inl (b, k) ↦ elim (Result-cases (port.read asked.1 frame_len connect_wait).0) [
            | inr (e, m) ↦ rw (f, k, m, attempt) r3
            | inl (got, m) ↦ rw (f, k, m, attempt) r3
          ]
        ]
      ]

  Reached-attempts_on :
      (p q : port.Carrier) (channel n : ℕ)
      → Reached p q
      → Reached p (attempts_on port q channel n).1
  unfolding attempts_on
  Reached-attempts_on p q channel zero r = r
  Reached-attempts_on p q channel (suc n) r =
      let tried = attempt port q channel in
      let after = Reached-attempt p q channel r in
      elim (Result-cases tried.0) [
        | inr (e, f) ↦ rw (f, attempts_on) after
        | inl (some x, f) ↦ rw (f, attempts_on) after
        | inl (none, f) ↦ rw (f, attempts_on) (Reached-attempts_on p tried.1 channel n after)
      ]

  -- From `p` the port came to a state in which the request for this channel was written whole, the
  -- read right after it gave an answer that parses as this reply, and nothing was done after that.
  pub record IsAnswer (p : port.Carrier) (channel : ℕ) (r : ConnectReply) (last : port.Carrier)
      : Type 0 where
    pub before : port.Carrier
    pub got : Bytes
    pub reached : Reached p before
    pub wrote_all : (port.write before (connect_request channel) Device.timeout).0 ≡ ok frame_len
    pub answered :
        (port.read
          (port.write before (connect_request channel) Device.timeout).1
          frame_len
          connect_wait).0
        ≡ ok got
    pub parsed : parse_connect_reply got ≡ some r
    pub then_left :
        last
        ≡ (port.read
            (port.write before (connect_request channel) Device.timeout).1
            frame_len
            connect_wait).1

  write_frame-ok :
      (q : port.Carrier) (role : Role) (frame : Bytes) (done : Unit {0})
      → (write_frame port q role frame).0 ≡ ok done
      → ((port.write q frame Device.timeout).0 ≡ ok frame_len)
        × ((write_frame port q role frame).1 ≡ (port.write q frame Device.timeout).1)
  unfolding write_frame
  write_frame-ok q role frame done h = elim (Result-cases (port.write q frame Device.timeout).0) [
    | inr (e, f) ↦ absurd (ground (arith, rw (f, write_frame) at h))
    | inl (n, f) ↦ elim (Bool-cases (n == frame_len)) [
      | inr k ↦ absurd (ground (arith, rw (f, write_frame, k) at h))
      | inl k ↦
          let same : n ≡ frame_len = ground (arith, k) in (f ∙ ap ok same, rw (f, write_frame) refl)
    ]
  ]

  attempt-IsAnswer :
      (p q : port.Carrier) (channel : ℕ) (r : ConnectReply)
      → Reached p q
      → (attempt port q channel).0 ≡ ok (some r)
      → IsAnswer p channel r (attempt port q channel).1
  unfolding attempt
  attempt-IsAnswer p q channel r from h =
      let drained = drain port q frame_len 16 in
      elim (Result-cases drained.0) [
        | inr (e, f) ↦ absurd (ground (arith, rw (f, attempt) at h))
        | inl (a, f) ↦
            let asked = write_frame port drained.1 transmitter (connect_request channel) in
            elim (Result-cases asked.0) [
              | inr (e, k) ↦ absurd (ground (arith, rw (f, k, attempt) at h))
              | inl (b, k) ↦ elim (Result-cases (port.read asked.1 frame_len connect_wait).0) [
                | inr (e, m) ↦ absurd (ground (arith, rw (f, k, m, attempt) at h))
                | inl (got, m) ↦
                    let (whole, left) =
                      write_frame-ok drained.1 transmitter (connect_request channel) b k in
                    record {
                      before = drained.1;
                      got = got;
                      reached = Reached-drain p q frame_len 16 from;
                      wrote_all = whole;
                      answered =
                          subst (λ x. (port.read x frame_len connect_wait).0 ≡ ok got) left m;
                      parsed = ground (arith, rw (f, k, m, attempt) at h);
                      then_left =
                          rw (f, k, m, attempt)
                            (ap (λ x. (port.read x frame_len connect_wait).1) left);
                    }
              ]
            ]
      ]

  attempts_on-IsAnswer :
      (p q : port.Carrier) (channel n : ℕ) (r : ConnectReply)
      → Reached p q
      → (attempts_on port q channel n).0 ≡ ok (some r)
      → IsAnswer p channel r (attempts_on port q channel n).1
  unfolding attempts_on
  attempts_on-IsAnswer p q channel zero r from h = absurd (ground (arith, h))
  attempts_on-IsAnswer p q channel (suc n) r from h =
      let tried = attempt port q channel in
      elim (Result-cases tried.0) [
        | inr (e, f) ↦ absurd (ground (arith, rw (f, attempts_on) at h))
        | inl (none, f) ↦
            rw (f, attempts_on)
              (attempts_on-IsAnswer p tried.1 channel n r (Reached-attempt p q channel from)
                (rw (f, attempts_on) at h))
        | inl (some x, f) ↦
            let same : x ≡ r = ground (arith, rw (f, attempts_on) at h) in
            rw (f, attempts_on)
              (attempt-IsAnswer p q channel r from (f ∙ ap (λ y. ok (some y)) same))
      ]

  connect_from-IsAnswer :
      (p q : port.Carrier) (plan : List (ℕ × ℕ)) (r : ConnectReply) (channel : ℕ)
      → Reached p q
      → (connect_with port q plan).0 ≡ ok (r, channel)
      → IsAnswer p channel r (connect_with port q plan).1 × (any (λ e. e.0 == channel) plan ≡ true)
  unfolding connect_with
  connect_from-IsAnswer p q [] r channel from h = absurd (ground (arith, h))
  connect_from-IsAnswer p q ((c, n) ∷ plan) r channel from h =
      let tried = attempts_on port q c n in
      elim (Result-cases tried.0) [
        | inr (e, f) ↦ absurd (ground (arith, rw (f, connect_with) at h))
        | inl (none, f) ↦
            let rest =
              connect_from-IsAnswer p tried.1 plan r channel (Reached-attempts_on p q c n from)
                (rw (f, connect_with) at h) in
            rw (f, connect_with) (rest.0, ground (arith, rest.1))
        | inl (some x, f) ↦
            let same : x ≡ r = ground (arith, rw (f, connect_with) at h) in
            let here : c ≡ channel = ground (arith, rw (f, connect_with) at h) in
            rw (f, connect_with)
              (
                subst (λ (k : ℕ). IsAnswer p k r tried.1) here
                    (attempts_on-IsAnswer p q c n r from (f ∙ ap (λ y. ok (some y)) same)),
                ground (arith, here),
              )
      ]

  -- Where `connect_with` returns a reply and a channel, the channel is one of the plan; from where
  -- the port was, by writes and reads alone, the request for that very channel was written whole, the
  -- read right after it gave an answer that parses as the reply, and the port is left as that read
  -- leaves it.
  pub connect_with-IsAnswer :
      (p : port.Carrier) (plan : List (ℕ × ℕ)) (r : ConnectReply) (channel : ℕ)
      → (connect_with port p plan).0 ≡ ok (r, channel)
      → IsAnswer p channel r (connect_with port p plan).1 × (any (λ e. e.0 == channel) plan ≡ true)
  connect_with-IsAnswer p plan r channel h = connect_from-IsAnswer p p plan r channel untouched h
