-- ===== src/Device/Closing.antt =====
-- src/device.rs: what is open after `open`, and after the device is dropped.
use fan_control_lian_li_wire.Base.{
  ℕ, zero, suc, ◌+◌, ◌-◌, ◌≡◌, refl, ap, ap₂, subst, ◌∙◌, inl, inr, Option, none, some, List, [],
  arith, Option-cases, Bytes, Result, ok, err, Result-cases, and_then,
}
use fan_control_lian_li_wire.Device.{Error, in_pipe, WinUsb}
use fan_control_lian_li_wire.Device.Open.{
  auto_clear_stall, allow_partial_reads, Pipe, Setup, Opened, transfer_of, pipes_from, pipes,
  set_policy, opened_with, set_policies, both_pipes, configure, release, kept_or_dropped, open_file,
  open_device, drop_device,
}

abbrev pub Count : Type 0
Count = ℕ × ℕ

abbrev pub one_file_more {ℓ} : {A : Type ℓ} → Option A → Count → Count
one_file_more none n = n
one_file_more (some a) n = (suc n.0, n.1)

abbrev pub one_interface_more {ℓ} : {A : Type ℓ} → Option A → Count → Count
one_interface_more none n = n
one_interface_more (some a) n = (n.0, suc n.1)

module _ {winusb : WinUsb} where
  -- `open_now` counts the files and the interfaces that are open, and each call changes the counts as
  -- it is documented to.
  pub record IsAccounted (setup : Setup winusb) (open_now : setup.World → Count) : Type 0 where
    pub gets : (w : setup.World) → open_now (setup.get w).1 ≡ open_now w
    pub creates :
        (w : setup.World) (path : Bytes)
        → open_now (setup.create_file w path).1
          ≡ one_file_more (setup.create_file w path).0 (open_now w)
    pub initializes :
        (w : setup.World) (f : setup.File)
        → open_now (setup.initialize w f).1
          ≡ one_interface_more (setup.initialize w f).0 (open_now w)
    pub queries :
        (w : setup.World) (i : winusb.Interface)
        → open_now (setup.query_settings w i).1 ≡ open_now w
    pub queries_pipe :
        (w : setup.World) (i : winusb.Interface) (n : ℕ)
        → open_now (setup.query_pipe w i n).1 ≡ open_now w
    pub sets :
        (w : setup.World) (i : winusb.Interface) (pipe policy value : ℕ)
        → open_now (setup.set_pipe_policy w i pipe policy value).1 ≡ open_now w
    pub frees :
        (w : setup.World) (i : winusb.Interface)
        → open_now (setup.free w i) ≡ ((open_now w).0, (open_now w).1 - 1)
    pub closes :
        (w : setup.World) (f : setup.File)
        → open_now (setup.close_handle w f) ≡ ((open_now w).0 - 1, (open_now w).1)

module _ (winusb : WinUsb) (setup : Setup winusb) (open_now : setup.World → Count) where
  -- A failure leaves as much open as there was; a success one file and one interface more, which
  -- dropping the device closes again.
  abbrev pub Balances : Count → Result Error (Opened winusb setup) × setup.World → Type 0
  Balances n (err e, w) = open_now w ≡ n
  Balances n (ok d, w) =
      (open_now w ≡ (suc n.0, suc n.1)) × (open_now (drop_device winusb setup w d) ≡ n)

  pipes_from_count :
      (count index : ℕ) (w : setup.World) (i : winusb.Interface) (ps : List Pipe)
      → IsAccounted setup open_now
      → open_now (pipes_from winusb setup count index w i ps).1 ≡ open_now w
  unfolding pipes_from
  pipes_from_count zero index w i ps a = refl
  pipes_from_count (suc count) index w i ps a =
      let same = a.queries_pipe w i index in
      elim (Option-cases (setup.query_pipe w i index).0) [
        | inl e ↦ rw (e, pipes_from) same
        | inr (info, e) ↦ elim (Result-cases (transfer_of winusb setup info)) [
          | inr (x, f) ↦ rw (e, pipes_from, f) same
          | inl (t, f) ↦
              rw (e, pipes_from, f)
                (pipes_from_count count (index + 1) (setup.query_pipe w i index).1 i _ a ∙ same)
        ]
      ]

  pipes_count :
      (w : setup.World) (i : winusb.Interface)
      → IsAccounted setup open_now
      → open_now (pipes winusb setup w i).1 ≡ open_now w
  unfolding pipes
  pipes_count w i a = elim (Option-cases (setup.query_settings w i).0) [
    | inl e ↦ rw (e, pipes) (a.queries w i)
    | inr (n, e) ↦
        rw (e, pipes) (pipes_from_count n 0 (setup.query_settings w i).1 i [] a ∙ a.queries w i)
  ]

  abbrev Configured :
      setup.File
      → winusb.Interface
      → Count
      → Result Error (Opened winusb setup) × setup.World
      → Type 0
  Configured file i n (err e, w) = open_now w ≡ n
  Configured file i n (ok d, w) = (open_now w ≡ n) × (d.file ≡ file) × (d.device.interface ≡ i)

  and_then-Configured :
      {A : Type 0} (file : setup.File) (i : winusb.Interface) (n : Count)
      (a : Result Error A × setup.World)
      (f : A → setup.World → Result Error (Opened winusb setup) × setup.World)
      → open_now a.1 ≡ n
      → ((x : A) (w : setup.World) → open_now w ≡ n → Configured file i n (f x w))
      → Configured file i n (and_then a f)
  and_then-Configured file i n (ok x, w) f h k = k x w h
  and_then-Configured file i n (err e, w) f h k = h

  set_policy_count :
      (w : setup.World) (i : winusb.Interface) (pipe policy value : ℕ) (n : Count)
      → IsAccounted setup open_now
      → open_now w ≡ n
      → open_now (set_policy winusb setup w i pipe policy value).1 ≡ n
  unfolding set_policy
  set_policy_count w i pipe policy value n a h = a.sets w i pipe policy value ∙ h

  set_policies-Configured :
      (w : setup.World) (file : setup.File) (i : winusb.Interface) (both : Pipe × Pipe) (n : Count)
      → IsAccounted setup open_now
      → open_now w ≡ n
      → Configured file i n (set_policies winusb setup w file i both)
  unfolding set_policies
  set_policies-Configured w file i (out, into) n a h =
      let first = set_policy winusb setup w i in_pipe auto_clear_stall 1 in
      and_then-Configured file i n first
        (λ done w1.
          and_then (set_policy winusb setup w1 i in_pipe allow_partial_reads 1)
            λ done' w2. (ok (opened_with winusb setup file i out into), w2))
        (set_policy_count w i in_pipe auto_clear_stall 1 n a h)
        λ done w1 h1.
          and_then-Configured file i n (set_policy winusb setup w1 i in_pipe allow_partial_reads 1)
            (λ done' w2. (ok (opened_with winusb setup file i out into), w2))
            (set_policy_count w1 i in_pipe allow_partial_reads 1 n a h1)
            λ done' w2 h2. (h2, refl, refl)

  configure-Configured :
      (w : setup.World) (file : setup.File) (i : winusb.Interface)
      → IsAccounted setup open_now
      → Configured file i (open_now w) (configure winusb setup w file i)
  unfolding configure
  configure-Configured w file i a =
      let n = open_now w in
      and_then-Configured file i n (pipes winusb setup w i)
        (λ found w1.
          and_then (both_pipes winusb setup found, w1)
            λ both w2. set_policies winusb setup w2 file i both)
        (pipes_count w i a)
        λ found w1 h1.
          and_then-Configured file i n (both_pipes winusb setup found, w1)
            (λ both w2. set_policies winusb setup w2 file i both) h1
            λ both w2 h2. set_policies-Configured w2 file i both n a h2

  release_count :
      (w : setup.World) (file : setup.File) (i : winusb.Interface) (n : Count)
      → IsAccounted setup open_now
      → open_now w ≡ (suc n.0, suc n.1)
      → open_now (release winusb setup w file i) ≡ n
  release_count w file i n a h =
      a.closes (setup.free w i) file
      ∙ ap (λ (c : Count). (c.0 - 1, c.1)) (a.frees w i)
      ∙ ap (λ (c : Count). (c.0 - 1, c.1 - 1)) h
      ∙ ap₂ (λ x y. (x, y)) (omega arith) (omega arith)

  kept_or_dropped-Balances :
      (file : setup.File) (i : winusb.Interface) (n : Count)
      (r : Result Error (Opened winusb setup) × setup.World)
      → IsAccounted setup open_now
      → Configured file i (suc n.0, suc n.1) r
      → Balances n (kept_or_dropped winusb setup file i r)
  unfolding drop_device
  kept_or_dropped-Balances file i n (err e, w) a h = release_count w file i n a h
  kept_or_dropped-Balances file i n (ok d, w) a h =
      (h.0, release_count w d.file d.device.interface n a h.0)

  open_file-Balances :
      (w : setup.World) (file : setup.File) (n : Count)
      → IsAccounted setup open_now
      → open_now w ≡ (suc n.0, n.1)
      → Balances n (open_file winusb setup w file)
  unfolding open_file
  open_file-Balances w file n a h =
      let made = a.initializes w file in
      let w1 = (setup.initialize w file).1 in
      elim (Option-cases (setup.initialize w file).0) [
        | inl e ↦
            rw (e, open_file)
              (a.closes w1 file
                ∙ ap (λ (c : Count). (c.0 - 1, c.1)) (rw e at made ∙ h)
                ∙ ap (λ x. (x, n.1)) (omega arith))
        | inr (i, e) ↦
            let more : open_now w1 ≡ (suc n.0, suc n.1) =
              rw e at made ∙ ap (λ (c : Count). (c.0, suc c.1)) h in
            rw (e, open_file)
              (kept_or_dropped-Balances file i n (configure winusb setup w1 file i) a (
                subst (λ c. Configured file i c (configure winusb setup w1 file i)) more
                  (configure-Configured w1 file i a)))
      ]

  -- With calls that open and close what they are documented to, `open` of any path leaves as much
  -- open as there was where it fails, whichever call failed; where it succeeds, one file and one
  -- interface more are open, and dropping the device closes exactly these.
  pub open_device-Balances :
      (w : setup.World) (path : Bytes)
      → IsAccounted setup open_now
      → Balances (open_now w) (open_device winusb setup w path)
  unfolding open_device
  open_device-Balances w path a = elim (Result-cases (setup.get w).0) [
    | inr (x, e) ↦ rw (e, open_device) (a.gets w)
    | inl (done, e) ↦
        let w1 = (setup.get w).1 in
        let made = a.creates w1 path in
        elim (Option-cases (setup.create_file w1 path).0) [
          | inl f ↦ rw (e, open_device, f) (rw f at made ∙ a.gets w)
          | inr (file, f) ↦
              rw (e, open_device, f)
                (open_file-Balances (setup.create_file w1 path).1 file (open_now w) a
                  (rw f at made ∙ ap (λ (c : Count). (suc c.0, c.1)) (a.gets w)))
        ]
  ]
