-- ===== src/Discovery/Parse.antt =====
-- src/discovery.rs, `parse_reply`: the header checks and the loop over the records.
use fan_control_lian_li_wire.Base.{
  ℕ, zero, suc, ◌+◌, ◌-◌, ◌/◌, ◌≤◌, ◌<◌, ◌≡◌, refl, sym, ap, ◌∙◌, ◌≢◌, ◌↔◌, inl, inr, Option, none,
  some, List, [], ◌∷◌, ◌++◌, append_assoc, append-nil, arith, Option-cases, length, drop,
  length-append, length-take, length-drop, filter_map, Bytes, IsByte, byte_at, slice, ok, err,
}
use fan_control_lian_li_wire.Discovery.{
  header_len, record_len, send_rf, Error, short, wrong_command, truncated, Master, Reply,
  parse_master, parse_device, chunks, take_record, take_records, promised, expected_len,
  parse_reply,
}
use fan_control_lian_li_wire.Frame.{discovery_reply_len}

-- No record is both a dongle's own entry and a device.
pub parse_device-parse_master :
    (bs : Bytes) {m : Master} → parse_master bs ≡ some m → parse_device bs ≡ none
unfolding parse_device parse_master
parse_device-parse_master bs h = ground arith

-- How the loop's state grows by one more record.
record Grew (r s : Reply) (bs : Bytes) : Type 0 where
  pub reported : s.reported ≡ r.reported
  pub masters : s.masters ≡ r.masters ++ filter_map parse_master (bs ∷ [])
  pub devices : s.devices ≡ r.devices ++ filter_map parse_device (bs ∷ [])
  pub skipped :
      s.skipped + length s.masters + length s.devices
      ≡ r.skipped + length r.masters + length r.devices + 1
  pub slow : s.skipped ≤ r.skipped + 1

take_record-Grew : (r : Reply) (bs : Bytes) → r.skipped < 255 → Grew r (take_record r bs) bs
unfolding take_record
take_record-Grew r bs h = elim (Option-cases (parse_master bs)) [
  | inr (m, e) ↦
      rw (e, take_record)
        (record {
          reported = refl;
          masters = rw e;
          devices = rw (parse_device-parse_master bs e) (sym (append-nil r.devices));
          skipped = omega (arith, length-append r.masters (m ∷ []));
          slow = omega arith;
        })
  | inl e ↦ elim (Option-cases (parse_device bs)) [
    | inr (d, f) ↦
        rw (e, f, take_record)
          (record {
            reported = refl;
            masters = rw e (sym (append-nil r.masters));
            devices = rw f;
            skipped = omega (arith, length-append r.devices (d ∷ []));
            slow = omega arith;
          })
    | inl f ↦
        rw (e, f, take_record)
          (record {
            reported = refl;
            masters = rw e (sym (append-nil r.masters));
            devices = rw f (sym (append-nil r.devices));
            skipped = omega arith;
            slow = omega arith;
          })
  ]
]

filter_map-cons {ℓ κ} :
    {A : Type ℓ} {B : Type κ} (f : A → Option B) (x : A) (xs : List A)
    → filter_map f (x ∷ []) ++ filter_map f xs ≡ filter_map f (x ∷ xs)
filter_map-cons f x xs = elim (Option-cases (f x)) [ inl e ↦ rw e | inr (b, e) ↦ rw e ]

-- What the loop leaves after the records `recs`.
record Read (r s : Reply) (recs : List Bytes) : Type 0 where
  pub reported : s.reported ≡ r.reported
  pub masters : s.masters ≡ r.masters ++ filter_map parse_master recs
  pub devices : s.devices ≡ r.devices ++ filter_map parse_device recs
  pub total :
      s.skipped + length s.masters + length s.devices
      ≡ r.skipped + length r.masters + length r.devices + length recs

take_records-Read :
    (recs : List Bytes) (r : Reply)
    → r.skipped + length recs ≤ 255
    → Read r (take_records r recs) recs
unfolding take_records
take_records-Read [] r h = record {
  reported = refl;
  masters = sym (append-nil r.masters);
  devices = sym (append-nil r.devices);
  total = omega arith;
}
take_records-Read (bs ∷ rest) r h =
    let g = take_record-Grew r bs (omega arith) in
    let s = take_record r bs in
    let more : s.skipped ≤ r.skipped + 1 = g.slow in
    let ih = take_records-Read rest s (omega arith) in
    record {
      reported = ih.reported ∙ g.reported;
      masters =
          ih.masters ∙ rw (g.masters, append_assoc, filter_map-cons parse_master bs rest) refl;
      devices =
          ih.devices ∙ rw (g.devices, append_assoc, filter_map-cons parse_device bs rest) refl;
      total = omega (arith, ih.total, g.skipped);
    }

-- The records that a reply of enough bytes promises.
abbrev pub records_of : Bytes → ℕ → List Bytes
records_of reply pages =
    chunks (promised reply pages) (slice header_len (expected_len reply pages) reply)

length-chunks : (n : ℕ) (bs : Bytes) → length (chunks n bs) ≡ n
unfolding chunks
length-chunks zero bs = refl
length-chunks (suc n) bs = ap suc (length-chunks n (drop record_len bs))

body_count :
    (reply : Bytes) (pages : ℕ)
    → expected_len reply pages ≤ length reply
    → length (slice header_len (expected_len reply pages) reply) / record_len ≡ promised reply pages
body_count reply pages h = omega (
  arith,
  length-take (expected_len reply pages - header_len) (drop header_len reply),
  length-drop header_len reply,
)

-- Why a reply is refused: it has fewer bytes than the header, another command byte, or fewer bytes
-- than the records it promises, in that order of precedence.
abbrev pub Refuses : Bytes → ℕ → Error → Type 0
Refuses reply pages short = length reply < header_len
Refuses reply pages (wrong_command command) =
    (header_len ≤ length reply) × (byte_at reply 0 ≢ send_rf) × (command ≡ byte_at reply 0)
Refuses reply pages (truncated expected actual) =
    (header_len ≤ length reply)
    × (byte_at reply 0 ≡ send_rf)
    × (length reply < expected_len reply pages)
    × (expected ≡ expected_len reply pages)
    × (actual ≡ length reply)

-- A reply is refused with an error exactly if `Refuses` gives that reason, and with its numbers.
pub parse_reply-err :
    (reply : Bytes) (pages : ℕ) (e : Error)
    → (parse_reply reply pages ≡ err e) ↔ Refuses reply pages e
unfolding parse_reply
parse_reply-err reply pages short = ((λ h. ground (arith, h)), λ h. ground arith)
parse_reply-err reply pages (wrong_command command) =
    ((λ h. ground (arith, h)), λ h. ground (arith, h))
parse_reply-err reply pages (truncated expected actual) =
    ((λ h. ground (arith, h)), λ h. ground (arith, h))

-- A whole reply is read. The dongles and the devices are those of its records that parse as such,
-- in the order of the reply; every record is counted once, as a dongle, a device or skipped; and
-- the reported count is the header's.
pub parse_reply-ok :
    (reply : Bytes) (pages : ℕ)
    → IsByte (byte_at reply 1)
    → header_len ≤ length reply
    → byte_at reply 0 ≡ send_rf
    → expected_len reply pages ≤ length reply
    → (r : Reply) × (parse_reply reply pages ≡ ok r)
      × (r.reported ≡ byte_at reply 1)
      × (r.masters ≡ filter_map parse_master (records_of reply pages))
      × (r.devices ≡ filter_map parse_device (records_of reply pages))
      × (r.skipped + length r.masters + length r.devices ≡ promised reply pages)
unfolding parse_reply
parse_reply-ok reply pages b h c e =
    let r0 : Reply = record {
      reported = byte_at reply 1;
      masters = [];
      devices = [];
      skipped = 0;
    } in
    let recs = records_of reply pages in
    let n : length recs ≡ promised reply pages =
      length-chunks (promised reply pages) (slice header_len (expected_len reply pages) reply) in
    let read = take_records-Read recs r0 (omega arith) in
    (
      take_records r0 recs,
      ground (arith, body_count reply pages e),
      read.reported,
      read.masters,
      read.devices,
      omega (arith, read.total),
    )

-- Whatever a reply to a request for `pages` pages promises fits the buffer that is read into.
pub expected_len_fits :
    (reply : Bytes) (pages : ℕ)
    → IsByte (byte_at reply 1)
    → IsByte pages
    → expected_len reply pages ≤ discovery_reply_len pages
unfolding discovery_reply_len
expected_len_fits reply pages b p = omega arith
