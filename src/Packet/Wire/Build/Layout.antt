-- ===== src/Packet/Wire/Build/Layout.antt =====
-- The bytes that the builder produces: both headers field by field, and the payload.

use gput.Base.{
  ℕ, ◌+◌, ◌-◌, ◌/◌, ◌%◌, ◌^◌, ◌≤◌, ◌≡◌, refl, ap, ◌∙◌, true, List, [], ◌∷◌, ◌++◌, arith, length,
  replicate, take, ok, slice, copy_at, ==_self, le→leb, length-append, length-replicate,
  take-append_left, replicate-add, slice-eq_ok,
}
use gput.Packet.Wire.Header.{TcpPacketSpec, write_u16, write_u32}
use gput.Packet.Wire.Checksum.{checksum, tcp_checksum}
use gput.Packet.Wire.Build.{fill_packet, write_checksums, copy_tail}

abbrev pub ip_cells : TcpPacketSpec → ℕ → ℕ → List ℕ → List ℕ
ip_cells spec total c rest =
    let len = total % 2 ^ 16 in
    let src = spec.key.src_ip in
    let dst = spec.key.dst_ip in
    0x45
    ∷ 0
    ∷ len / 2 ^ 8
    ∷ len % 2 ^ 8
    ∷ 0
    ∷ 0
    ∷ 0x40
    ∷ 0
    ∷ 64
    ∷ 6
    ∷ c / 2 ^ 8
    ∷ c % 2 ^ 8
    ∷ src / 2 ^ 24
    ∷ src / 2 ^ 16 % 2 ^ 8
    ∷ src / 2 ^ 8 % 2 ^ 8
    ∷ src % 2 ^ 8
    ∷ dst / 2 ^ 24
    ∷ dst / 2 ^ 16 % 2 ^ 8
    ∷ dst / 2 ^ 8 % 2 ^ 8
    ∷ dst % 2 ^ 8
    ∷ rest

abbrev pub tcp_cells : TcpPacketSpec → ℕ → List ℕ → List ℕ
tcp_cells spec c rest =
    let src = spec.key.src_port in
    let dst = spec.key.dst_port in
    let seq = spec.seq in
    let ack = spec.ack in
    src / 2 ^ 8
    ∷ src % 2 ^ 8
    ∷ dst / 2 ^ 8
    ∷ dst % 2 ^ 8
    ∷ seq / 2 ^ 24
    ∷ seq / 2 ^ 16 % 2 ^ 8
    ∷ seq / 2 ^ 8 % 2 ^ 8
    ∷ seq % 2 ^ 8
    ∷ ack / 2 ^ 24
    ∷ ack / 2 ^ 16 % 2 ^ 8
    ∷ ack / 2 ^ 8 % 2 ^ 8
    ∷ ack % 2 ^ 8
    ∷ 0x50
    ∷ spec.flags
    ∷ 0xff
    ∷ 0xff
    ∷ c / 2 ^ 8
    ∷ c % 2 ^ 8
    ∷ 0
    ∷ 0
    ∷ rest

copy_at-all : (xs ys : List ℕ) → length xs ≡ length ys → copy_at xs 0 ys ≡ ok ys
copy_at-all [] [] h = refl
copy_at-all [] (y ∷ ys) h = absurd (omega arith)
copy_at-all (x ∷ xs) [] h = absurd (omega arith)
copy_at-all (x ∷ xs) (y ∷ ys) h = rw (copy_at-all xs ys (omega arith))

copy_at-append :
    (front rest ys : List ℕ)
    → length rest ≡ length ys
    → copy_at (front ++ rest) (length front) ys ≡ ok (front ++ ys)
copy_at-append [] rest ys h = copy_at-all rest ys h
copy_at-append (x ∷ front) rest ys h = rw (copy_at-append front rest ys h)

copy_tail-append :
    (front rest ys : List ℕ)
    → length rest ≡ length ys
    → copy_tail (front ++ rest) (length front) ys ≡ ok (front ++ ys)
copy_tail-append front rest ys h =
    let long : length front ≤ length (front ++ rest) = omega (arith, length-append front rest) in
    let same : length (front ++ rest) - length front ≡ length ys =
      omega (arith, length-append front rest) in
    rw (le→leb _ _ long, same, ==_self) (copy_at-append front rest ys h)

pub fill_packet-eq :
    (spec : TcpPacketSpec)
    → let total = 40 + length spec.payload in
      fill_packet spec total ≡ ok (ip_cells spec total 0 (tcp_cells spec 0 spec.payload))
unfolding fill_packet write_u16 write_u32
fill_packet-eq spec =
    let n = length spec.payload in
    let zero_byte : ℕ = 0 in
    let front = ip_cells spec (40 + n) 0 (tcp_cells spec 0 []) in
    rw (replicate-add 40 n zero_byte)
      (copy_tail-append front (replicate n 0) spec.payload (length-replicate n 0))

slice-front : (front rest : List ℕ) → slice (front ++ rest) 0 (length front) ≡ ok front
slice-front front rest =
    slice-eq_ok (front ++ rest) 0 (length front) (omega arith)
      (omega (arith, length-append front rest))
    ∙ ap (λ (k : ℕ). ok (take k (front ++ rest)))
        (let e : length front - 0 ≡ length front = omega arith in e)
    ∙ ap ok (take-append_left front rest)

-- The two checksums go to bytes 10 and 36.
pub write_checksums-eq :
    (spec : TcpPacketSpec) (total : ℕ) (segment_checksum : ℕ)
    → let header_checksum = checksum (ip_cells spec total 0 []) in
      tcp_checksum (ip_cells spec total header_checksum (tcp_cells spec 0 spec.payload)) 20 true
        ≡ ok segment_checksum
      → write_checksums (ip_cells spec total 0 (tcp_cells spec 0 spec.payload))
        ≡ ok (ip_cells spec total header_checksum (tcp_cells spec segment_checksum spec.payload))
unfolding write_checksums write_u16
write_checksums-eq spec total c h =
    rw (slice-front (ip_cells spec total 0 []) (tcp_cells spec 0 spec.payload), h)
