-- ===== src/Packet/Wire/Checksum.antt =====
-- The Internet checksum of src/packet/wire.rs, over an IPv4 header and over a TCP segment.
pub mod Sums
pub mod Segment
use mathlib.Core.Logic.{dite}
use mathlib.Core.WellFounded.{Acc}
use gput.Base.{
  ℕ, zero, suc, ◌+◌, ◌-◌, ◌*◌, ◌/◌, ◌%◌, ◌^◌, ◌≤◌, ◌<◌, bit_and, bit_or, bit_xor, ◌≡◌, Bool, true,
  false, ◌&&◌, ◌||◌, Option, none, some, List, [], ◌∷◌, ◌++◌, arith, dec_lt, ltb, leb, ◌==◌, ◌!=◌,
  if◌then◌else◌, length, replicate, Outcome, ok, err, panic, ◌>>=◌, ◌>>◌, ensure, index, slice,
  store, copy_at, ipv4_tcp_too_large, ipv4_length_limit, packet_too_small, bad_header_length,
  total_length_exceeds, bad_ipv4_checksum, bad_tcp_checksum,
}
use gput.Base.Order.{lt_wf}
use gput.Base.Bits.{bit_and_0xffff}
use gput.Packet.Wire.Header.{
  tcp_fin, FlowKey, TcpPacketView, TcpPacketSpec, add_u32, sub_u32, mul_u32, read_u16, read_u32,
  write_u16, write_u32, be_bytes_u16, be_bytes_u32,
}

-- The loop `while sum >> 16 != 0`.
pub carry_shrinks : (sum : ℕ) → 0 < sum / 2 ^ 16 → bit_and sum 0xffff + sum / 2 ^ 16 < sum
carry_shrinks sum h = omega (arith, bit_and_0xffff sum)

pub fold_loop : (sum : ℕ) → Acc ◌<◌ sum → ℕ
fold_loop sum (Acc.intro _ smaller) =
    dite (dec_lt 0 (sum / 2 ^ 16))
      (λ more. fold_loop (bit_and sum 0xffff + sum / 2 ^ 16) (smaller _ (carry_shrinks sum more)))
      (λ _. sum)

-- `!(sum as u16)`.
unfoldable pub fold_checksum : ℕ → ℕ
unfolding fold_loop lt_wf dec_lt
fold_checksum sum = 0xffff - fold_loop sum (lt_wf.apply sum) % 2 ^ 16

-- One chunk of two bytes, the second 0 past the end.
abbrev pub chunk_word : ℕ → ℕ → ℕ
chunk_word high low = bit_or (high * 2 ^ 8) low

-- The loop over `bytes.chunks(2)`.
unfoldable pub sum_chunks : ℕ → List ℕ → ℕ
sum_chunks sum [] = sum
sum_chunks sum (a ∷ []) = add_u32 sum (chunk_word a 0)
sum_chunks sum (a ∷ b ∷ rest) = sum_chunks (add_u32 sum (chunk_word a b)) rest

unfoldable pub checksum : List ℕ → ℕ
checksum bytes = fold_checksum (sum_chunks 0 bytes)

-- The loop over `chunks(2).enumerate()`, which may skip the checksum's own word.
unfoldable pub sum_tcp_chunks : Bool → ℕ → ℕ → List ℕ → ℕ
sum_tcp_chunks clear_checksum word_index sum [] = sum
sum_tcp_chunks clear_checksum word_index sum (a ∷ []) =
    if clear_checksum && word_index == 8 then sum else add_u32 sum (chunk_word a 0)
sum_tcp_chunks clear_checksum word_index sum (a ∷ b ∷ rest) =
    sum_tcp_chunks clear_checksum (word_index + 1)
      (if clear_checksum && word_index == 8 then sum else add_u32 sum (chunk_word a b)) rest

unfoldable pub tcp_checksum : List ℕ → ℕ → Bool → Outcome ℕ
tcp_checksum packet ip_header_len clear_checksum = do
  tcp_len ← if leb ip_header_len (length packet) then ok (length packet - ip_header_len) else panic
  src_high ← read_u16 packet 12
  src_low ← read_u16 packet 14
  dst_high ← read_u16 packet 16
  dst_low ← read_u16 packet 18
  let sum = add_u32 (add_u32 (add_u32 (add_u32 0 src_high) src_low) dst_high) dst_low
  let pseudo = add_u32 (add_u32 sum 6) (tcp_len % 2 ^ 32)
  segment ← slice packet ip_header_len (length packet)
  ok (fold_checksum (sum_tcp_chunks clear_checksum 0 pseudo segment))
