-- ===== src/Packet/Wire/Validate.antt =====
-- Which packets `validate_ipv4_tcp_checksums` passes, which it refuses, and where it panics.

use gput.Base.{
  ℕ, suc, ◌+◌, ◌-◌, ◌*◌, ◌%◌, ◌≤◌, ◌<◌, ◌≡◌, ◌↔◌, inl, inr, refl, ap, ◌∙◌, false, ◌&&◌, List, [],
  ◌∷◌, arith, leb, ◌==◌, length, take, drop, All, Outcome, Error, ok, err, panic, slice,
  packet_too_small, bad_header_length, total_length_exceeds, bad_ipv4_checksum, bad_tcp_checksum,
  Bool-cases, ==_iff, le→leb, length-take, All-take, index-get_or, slice-eq_ok,
}
use gput.Base.Bits.{bit_and_0x0f}
use gput.Packet.Raw
use gput.Packet.Raw.{RawPacket, max_raw_packet_bytes, as_bytes, IsByte}
use gput.Packet.Wire.Header.Reads.{byte_at, word_at, read_u16-word_at}
use gput.Packet.Wire.Checksum.{fold_checksum, checksum, tcp_checksum}
use gput.Packet.Wire.Checksum.Sums.{word_sum, checksum-eq-zero, fold_checksum-eq-zero}
use gput.Packet.Wire.Checksum.Segment.{pseudo_sum, tcp_checksum-eq, tcp_checksum-panic}
use gput.Packet.Wire.Build.{validate_ipv4_tcp_checksums}
use gput.Packet.Wire.Parse.Accepts.{ip_header_len}

-- The sum over the pseudo header and the segment, the transmitted checksum included.
abbrev pub segment_total : List ℕ → ℕ
segment_total bytes =
    let datagram = take (word_at bytes 2) bytes in
    let ihl = ip_header_len bytes in
    pseudo_sum datagram (length datagram - ihl) + word_sum (drop ihl datagram)

-- The lengths agree, and both sums are multiples of 65535.
pub record Sound (bytes : List ℕ) : Type 0 where
  pub long : 40 ≤ length bytes
  pub header_long : 20 ≤ ip_header_len bytes
  pub header_inside : ip_header_len bytes ≤ word_at bytes 2
  pub total_inside : word_at bytes 2 ≤ length bytes
  pub header_sum : word_sum (take (ip_header_len bytes) bytes) % 65535 ≡ 0
  pub segment_sum : segment_total bytes % 65535 ≡ 0

-- The ends of a validation.
pub data Validates (bytes : List ℕ) (result : Outcome (Unit {0})) : Type 0 where
  passes : result ≡ ok tt → Sound bytes → Validates bytes result
  refuses : (e : Error) → result ≡ err e → ¬ Sound bytes → Validates bytes result
  panics : result ≡ panic → word_at bytes 2 < ip_header_len bytes → Validates bytes result

slice_start : (xs : List ℕ) (n : ℕ) → n ≤ length xs → slice xs 0 n ≡ ok (take n xs)
slice_start xs n h =
    slice-eq_ok xs 0 n (omega arith) h
    ∙ ap (λ (k : ℕ). ok (take k xs)) (let e : n - 0 ≡ n = omega arith in e)

word_sum-pos : (bytes : List ℕ) → 2 ≤ length bytes → byte_at bytes 0 * 256 ≤ word_sum bytes
word_sum-pos [] h = omega arith
word_sum-pos (a ∷ []) h = omega arith
word_sum-pos (a ∷ b ∷ rest) h = omega arith

byte_at-take : (bytes : List ℕ) (n : ℕ) → byte_at (take (suc n) bytes) 0 ≡ byte_at bytes 0
byte_at-take [] n = refl
byte_at-take (b ∷ bytes) n = refl

module _ (packet : RawPacket) (valid : Raw.IsValid packet) where
  ranged : All IsByte packet.bytes
  ranged = valid.in_range

  header_checksum_iff :
      20 ≤ ip_header_len packet.bytes
      → ip_header_len packet.bytes ≤ length packet.bytes
      → (checksum (take (ip_header_len packet.bytes) packet.bytes) ≡ 0)
        ↔ (word_sum (take (ip_header_len packet.bytes) packet.bytes) % 65535 ≡ 0)
  header_checksum_iff h k =
      let bytes = packet.bytes in
      let ihl = ip_header_len bytes in
      let header = take ihl bytes in
      let size : length header ≡ ihl = omega (arith, length-take ihl bytes) in
      let first : byte_at header 0 ≡ byte_at bytes 0 =
        (let e : ihl ≡ suc (ihl - 1) = omega arith in rw e (byte_at-take bytes (ihl - 1))) in
      let nibble = bit_and_0x0f (byte_at bytes 0) in
      let pos : 0 < word_sum header =
        omega (arith, word_sum-pos header (omega arith), nibble, first) in
      let iff =
        checksum-eq-zero header (All-take IsByte ihl bytes ranged) (omega (arith, valid.fits)) in
      (λ z. (iff.0 z).0, λ z. iff.1 (z, pos))

  segment_checksum-eq :
      20 ≤ ip_header_len packet.bytes
      → ip_header_len packet.bytes ≤ word_at packet.bytes 2
      → word_at packet.bytes 2 ≤ length packet.bytes
      → let datagram = take (word_at packet.bytes 2) packet.bytes in
        let ihl = ip_header_len packet.bytes in
        tcp_checksum datagram ihl false ≡ ok (fold_checksum (segment_total packet.bytes))
  segment_checksum-eq a b c =
      let total = word_at packet.bytes 2 in
      let datagram = take total packet.bytes in
      let size : length datagram ≡ total = omega (arith, length-take total packet.bytes) in
      tcp_checksum-eq datagram (ip_header_len packet.bytes)
        (All-take IsByte total packet.bytes ranged) false (omega arith) (omega (arith, valid.fits))
        (omega arith)

  -- Every way that a validation ends.
  pub validate-Validates : Validates packet.bytes (validate_ipv4_tcp_checksums packet)
  unfolding validate_ipv4_tcp_checksums
  validate-Validates =
      let bytes = packet.bytes in
      let ihl = ip_header_len bytes in
      let total = word_at bytes 2 in
      elim (Bool-cases (leb 40 (length bytes))) [
        | inr short ↦ refuses packet_too_small (rw short) (λ s. ground (arith, s.long))
        | inl long ↦
            let l : 40 ≤ length bytes = ground arith in
            let first = index-get_or bytes 0 0 (omega arith) in
            elim (Bool-cases (leb 20 ihl && leb ihl (length bytes))) [
              | inr bad ↦
                  refuses bad_header_length (rw (long, first, bad))
                    (λ s. ground (arith, s.header_long, s.header_inside, s.total_inside))
              | inl b ↦
                  let lo : 20 ≤ ihl = ground arith in
                  let hi : ihl ≤ length bytes = ground arith in
                  let len = read_u16-word_at bytes 2 (omega arith) in
                  elim (Bool-cases (leb total (length bytes))) [
                    | inr bad ↦
                        refuses total_length_exceeds (rw (long, first, b, len, bad))
                          (λ s. ground (arith, s.total_inside))
                    | inl c ↦
                        let inside : total ≤ length bytes = ground arith in
                        let header = slice_start bytes ihl hi in
                        let datagram = slice_start bytes total inside in
                        elim (Bool-cases (checksum (take ihl bytes) == 0)) [
                          | inr bad ↦
                              refuses bad_ipv4_checksum (rw (long, first, b, len, c, header, bad))
                                (λ s. ground (arith, (header_checksum_iff lo hi).1 s.header_sum))
                          | inl d ↦ elim (Bool-cases (leb ihl total)) [
                            | inr under ↦
                                let size = length-take total bytes in
                                panics
                                  (rw (
                                    long,
                                    first,
                                    b,
                                    len,
                                    c,
                                    header,
                                    d,
                                    datagram,
                                    tcp_checksum-panic (take total bytes) ihl
                                        (All-take IsByte total bytes ranged) false
                                        (ground (arith, size)),
                                  ))
                                  (ground arith)
                            | inl over ↦
                                let within : ihl ≤ total = ground arith in
                                let sum = segment_checksum-eq lo within inside in
                                let whole = segment_total bytes in
                                let iff = fold_checksum-eq-zero whole in
                                elim (Bool-cases (fold_checksum whole == 0)) [
                                  | inl e ↦
                                      passes
                                        (rw (long, first, b, len, c, header, d, datagram, sum, e))
                                        (record {
                                          long = l;
                                          header_long = lo;
                                          header_inside = within;
                                          total_inside = inside;
                                          header_sum =
                                              (header_checksum_iff lo hi).0 ((==_iff _ _).0 d);
                                          segment_sum = (iff.0 ((==_iff _ _).0 e)).0;
                                        })
                                  | inr e ↦
                                      refuses bad_tcp_checksum
                                        (rw (long, first, b, len, c, header, d, datagram, sum, e))
                                        (λ s. ground (arith, iff.1 (s.segment_sum, omega arith)))
                                ]
                          ]
                        ]
                  ]
            ]
      ]

  -- A valid packet is passed exactly if its lengths agree and both sums are multiples of 65535.
  pub validate_iff : (validate_ipv4_tcp_checksums packet ≡ ok tt) ↔ Sound packet.bytes
  validate_iff = elim validate-Validates [
    | passes e s ↦ (λ _. s, λ _. e)
    | refuses x e n ↦ (λ h. cc, λ s. absurd (n s))
    | panics e h ↦ (λ k. cc, λ s. absurd (omega (arith, s.header_inside)))
  ]

  -- A valid packet of at least 40 bytes whose total length is below its header length makes the
  -- validation panic, if its header lies inside the packet and has a correct checksum.
  pub validate_panics :
      40 ≤ length packet.bytes
      → 20 ≤ ip_header_len packet.bytes
      → ip_header_len packet.bytes ≤ length packet.bytes
      → word_at packet.bytes 2 < ip_header_len packet.bytes
      → word_sum (take (ip_header_len packet.bytes) packet.bytes) % 65535 ≡ 0
      → validate_ipv4_tcp_checksums packet ≡ panic
  unfolding validate_ipv4_tcp_checksums
  validate_panics long lo hi under sum =
      let bytes = packet.bytes in
      let ihl = ip_header_len bytes in
      let total = word_at bytes 2 in
      let size = length-take total bytes in
      rw (
        le→leb 40 (length bytes) long,
        index-get_or bytes 0 0 (omega arith),
        le→leb 20 ihl lo,
        le→leb ihl (length bytes) hi,
        read_u16-word_at bytes 2 (omega arith),
        le→leb total (length bytes) (omega arith),
        slice_start bytes ihl hi,
        (==_iff _ _).1 ((header_checksum_iff lo hi).1 sum),
        slice_start bytes total (omega arith),
        tcp_checksum-panic (take total bytes) ihl (All-take IsByte total bytes ranged) false
            (omega arith),
      )
