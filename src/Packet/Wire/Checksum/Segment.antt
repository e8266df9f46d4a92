-- ===== src/Packet/Wire/Checksum/Segment.antt =====
-- What `tcp_checksum` computes on a packet that is long enough, and where it panics.

use gput.Base.{
  ℕ, ◌+◌, ◌-◌, ◌*◌, ◌%◌, ◌^◌, ◌≤◌, ◌<◌, ◌≡◌, sym, ap, ◌∙◌, Bool, true, false, List, arith,
  if◌then◌else◌, length, take, drop, All, ok, panic, slice, le→leb, lt→leb, length-drop,
  take-length_self, All-drop, slice-eq_ok,
}
use gput.Packet.Raw.{IsByte}
use gput.Packet.Wire.Header.{add_u32}
use gput.Packet.Wire.Checksum.{fold_checksum, sum_tcp_chunks, tcp_checksum}
use gput.Packet.Wire.Checksum.Sums.{
  word_sum, word_sum-le, skip_sum, skip_sum-le, sum_tcp_chunks-whole, sum_tcp_chunks-skip,
  sum_chunks-mod,
}
use gput.Packet.Wire.Header.Reads.{word_at, word_at-lt, read_u16-word_at}

-- The pseudo header: both addresses, the protocol and the length of the segment.
abbrev pub pseudo_sum : List ℕ → ℕ → ℕ
pseudo_sum packet tcp_len =
    word_at packet 12 + word_at packet 14 + word_at packet 16 + word_at packet 18 + 6 + tcp_len

abbrev pub segment_sum : Bool → List ℕ → ℕ
segment_sum clear segment = if clear then skip_sum 0 segment else word_sum segment

sum_tcp_chunks-eq :
    (clear : Bool) (segment : List ℕ) (sum : ℕ)
    → All IsByte segment
    → sum < 2 ^ 32
    → sum_tcp_chunks clear 0 sum segment ≡ (sum + segment_sum clear segment) % 2 ^ 32
sum_tcp_chunks-eq true segment sum h k = sum_tcp_chunks-skip segment 0 sum h k
sum_tcp_chunks-eq false segment sum h k =
    sum_tcp_chunks-whole segment 0 sum ∙ sum_chunks-mod segment sum h k

segment_sum-le :
    (clear : Bool) (segment : List ℕ)
    → All IsByte segment
    → segment_sum clear segment ≤ 65535 * length segment
segment_sum-le true segment h = skip_sum-le segment 0 h
segment_sum-le false segment h = word_sum-le segment h

slice_rest : (xs : List ℕ) (n : ℕ) → n ≤ length xs → slice xs n (length xs) ≡ ok (drop n xs)
slice_rest xs n h =
    slice-eq_ok xs n (length xs) h (omega arith)
    ∙ ap (λ (k : ℕ). ok (take k (drop n xs))) (sym (length-drop n xs))
    ∙ ap ok (take-length_self (drop n xs))

-- The additions of `tcp_checksum`, none of which wraps.
pseudo_sum-steps :
    (packet : List ℕ) (tcp_len : ℕ)
    → All IsByte packet
    → tcp_len ≤ 60000
    → add_u32
        (add_u32
          (add_u32
            (add_u32
              (add_u32 (add_u32 0 (word_at packet 12)) (word_at packet 14))
              (word_at packet 16))
            (word_at packet 18))
          6)
        (tcp_len % 2 ^ 32)
      ≡ pseudo_sum packet tcp_len
pseudo_sum-steps packet tcp_len bytes h = omega (
  arith,
  word_at-lt packet 12 bytes,
  word_at-lt packet 14 bytes,
  word_at-lt packet 16 bytes,
  word_at-lt packet 18 bytes,
)

pub pseudo_sum-lt :
    (packet : List ℕ) (tcp_len : ℕ)
    → All IsByte packet
    → tcp_len ≤ 60000
    → pseudo_sum packet tcp_len ≤ 322_146
pseudo_sum-lt packet tcp_len bytes h = omega (
  arith,
  word_at-lt packet 12 bytes,
  word_at-lt packet 14 bytes,
  word_at-lt packet 16 bytes,
  word_at-lt packet 18 bytes,
)

module _ (packet : List ℕ) (ihl : ℕ) (bytes : All IsByte packet) where
  sum_tcp_chunks-pseudo :
      (clear : Bool)
      → length packet ≤ 60000
      → sum_tcp_chunks clear 0
          (add_u32
            (add_u32
              (add_u32
                (add_u32
                  (add_u32 (add_u32 0 (word_at packet 12)) (word_at packet 14))
                  (word_at packet 16))
                (word_at packet 18))
              6)
            ((length packet - ihl) % 2 ^ 32))
          (drop ihl packet)
        ≡ pseudo_sum packet (length packet - ihl) + segment_sum clear (drop ihl packet)
  sum_tcp_chunks-pseudo clear h =
      let tcp_len = length packet - ihl in
      let segment = drop ihl packet in
      let ranged = All-drop IsByte ihl packet bytes in
      let small = pseudo_sum-lt packet tcp_len bytes (omega arith) in
      rw (pseudo_sum-steps packet tcp_len bytes (omega arith)) (
        omega (
          arith,
          sum_tcp_chunks-eq clear segment (pseudo_sum packet tcp_len) ranged (omega arith),
          segment_sum-le clear segment ranged,
          length-drop ihl packet,
        ))

  -- The checksum of the pseudo header and the segment, whose additions do not wrap.
  pub tcp_checksum-eq :
      (clear : Bool)
      → 20 ≤ length packet
      → length packet ≤ 60000
      → ihl ≤ length packet
      → tcp_checksum packet ihl clear
        ≡ ok (
            fold_checksum
              (pseudo_sum packet (length packet - ihl) + segment_sum clear (drop ihl packet)))
  unfolding tcp_checksum
  tcp_checksum-eq clear long short inside =
      rw
        (
          le→leb ihl (length packet) inside,
          read_u16-word_at packet 12 (omega arith),
          read_u16-word_at packet 14 (omega arith),
          read_u16-word_at packet 16 (omega arith),
          read_u16-word_at packet 18 (omega arith),
          slice_rest packet ihl inside,
        )
        (ap (λ (t : ℕ). ok (fold_checksum t)) (sum_tcp_chunks-pseudo clear (omega arith)))

  -- A total length below the header length underflows, or slices from behind the end.
  pub tcp_checksum-panic :
      (clear : Bool) → length packet < ihl → tcp_checksum packet ihl clear ≡ panic
  unfolding tcp_checksum
  tcp_checksum-panic clear h = rw (lt→leb ihl (length packet) h)
