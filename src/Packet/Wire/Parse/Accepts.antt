-- ===== src/Packet/Wire/Parse/Accepts.antt =====
-- Which byte strings the parsers of src/packet/wire.rs accept, and what they read from them.

use gput.Base.{
  ℕ, ◌+◌, ◌-◌, ◌*◌, ◌/◌, ◌^◌, ◌≤◌, bit_and, ◌≡◌, ◌⊎◌, inl, inr, true, false, not, ◌||◌, Option,
  none, some, List, arith, ltb, ◌!=◌, length, take, drop, ok, Bool-cases, index-get_or, slice-eq_ok,
}
use gput.Packet.Raw.{RawPacket, as_bytes}
use gput.Packet.Wire.Header.{FlowKey, TcpPacketView}
use gput.Packet.Wire.Header.Reads.{byte_at, word_at, long_at, read_u16-word_at, read_u32-long_at}
use gput.Packet.Wire.Parse.{
  rejects_start, read_flow_key, read_view, parse_ipv4_tcp_bytes, parse_ipv4_tcp,
  scheduling_flow_key,
}

-- `bytes[0] & 0x0f` and `bytes[ip_header_len + 12] >> 4`, in 32-bit words.
abbrev pub ip_header_len : List ℕ → ℕ
ip_header_len bytes = bit_and (byte_at bytes 0) 0x0f * 4

abbrev pub tcp_header_len : List ℕ → ℕ
tcp_header_len bytes = byte_at bytes (ip_header_len bytes + 12) / 2 ^ 4 * 4

pub record Starts (bytes : List ℕ) (n : ℕ) : Type 0 where
  pub long : n ≤ length bytes
  pub version : byte_at bytes 0 / 16 ≡ 4
  pub protocol : byte_at bytes 9 ≡ 6

-- An unfragmented IPv4/TCP packet whose lengths agree with one another.
pub record Accepts (bytes : List ℕ) : Type 0 where
  pub starts : Starts bytes 40
  pub ip_header : 20 ≤ ip_header_len bytes
  pub tcp_inside : ip_header_len bytes + 20 ≤ length bytes
  pub unfragmented : bit_and (word_at bytes 6) 0x3fff ≡ 0
  pub total_long : ip_header_len bytes + 20 ≤ word_at bytes 2
  pub total_inside : word_at bytes 2 ≤ length bytes
  pub tcp_header : 20 ≤ tcp_header_len bytes
  pub headers_inside : ip_header_len bytes + tcp_header_len bytes ≤ word_at bytes 2

abbrev pub key_of : List ℕ → ℕ → FlowKey
key_of bytes ihl = record {
  src_ip = long_at bytes 12;
  dst_ip = long_at bytes 16;
  src_port = word_at bytes ihl;
  dst_port = word_at bytes (ihl + 2);
}

abbrev pub view_of : List ℕ → TcpPacketView
view_of bytes =
    let ihl = ip_header_len bytes in
    let start = ihl + tcp_header_len bytes in
    record {
      key = key_of bytes ihl;
      seq = long_at bytes (ihl + 4);
      ack = long_at bytes (ihl + 8);
      flags = byte_at bytes (ihl + 13);
      payload = take (word_at bytes 2 - start) (drop start bytes);
    }

rejects_start-cases :
    (bytes : List ℕ) (n : ℕ)
    → 10 ≤ n
    → ((rejects_start bytes n ≡ ok true) × ¬ Starts bytes n)
      ⊎ ((rejects_start bytes n ≡ ok false) × Starts bytes n)
unfolding rejects_start
rejects_start-cases bytes n h = elim (Bool-cases (ltb (length bytes) n)) [
  | inl short ↦ inl (rw short, λ s. ground (arith, s.long))
  | inr long ↦
      let l : n ≤ length bytes = ground arith in
      elim (Bool-cases (byte_at bytes 0 / 2 ^ 4 != 4)) [
        | inl other ↦
            inl (
              rw (long, index-get_or bytes 0 0 (omega arith), other),
              λ s. ground (arith, s.version),
            )
        | inr four ↦ elim (Bool-cases (byte_at bytes 9 != 6)) [
          | inl other ↦ inl (
            rw (
              long,
              index-get_or bytes 0 0 (omega arith),
              four,
              index-get_or bytes 9 0 (omega arith),
              other,
            ),
            λ s. ground (arith, s.protocol),
          )
          | inr six ↦ inr (
            rw (
              long,
              index-get_or bytes 0 0 (omega arith),
              four,
              index-get_or bytes 9 0 (omega arith),
              six,
            ),
            record { long = l; version = ground arith; protocol = ground arith },
          )
        ]
      ]
]

read_flow_key-eq :
    (bytes : List ℕ) (ihl : ℕ)
    → 20 ≤ length bytes
    → ihl + 4 ≤ length bytes
    → read_flow_key bytes ihl ≡ ok (key_of bytes ihl)
unfolding read_flow_key
read_flow_key-eq bytes ihl h k = rw (
  read_u32-long_at bytes 12 (omega arith),
  read_u32-long_at bytes 16 (omega arith),
  read_u16-word_at bytes ihl (omega arith),
  read_u16-word_at bytes (ihl + 2) (omega arith),
)

read_view-eq :
    (bytes : List ℕ)
    → Accepts bytes
    → read_view bytes (ip_header_len bytes) (tcp_header_len bytes) (word_at bytes 2)
      ≡ ok (view_of bytes)
unfolding read_view
read_view-eq bytes a =
    let ihl = ip_header_len bytes in
    let inside = a.tcp_inside in
    let long = a.starts.long in
    rw (
      read_flow_key-eq bytes ihl (omega arith) (omega arith),
      read_u32-long_at bytes (ihl + 4) (omega arith),
      read_u32-long_at bytes (ihl + 8) (omega arith),
      index-get_or bytes (ihl + 13) 0 (omega arith),
      slice-eq_ok bytes (ihl + tcp_header_len bytes) (word_at bytes 2) a.headers_inside
          a.total_inside,
    )

-- The parser's two ends.
pub data Parses (bytes : List ℕ) : Type 0 where
  rejected : parse_ipv4_tcp_bytes bytes ≡ ok none → ¬ Accepts bytes → Parses bytes
  accepted : parse_ipv4_tcp_bytes bytes ≡ ok (some (view_of bytes)) → Accepts bytes → Parses bytes

pub parse-Parses : (bytes : List ℕ) → Parses bytes
unfolding parse_ipv4_tcp_bytes
parse-Parses bytes =
    let ihl = ip_header_len bytes in
    let thl = tcp_header_len bytes in
    let total = word_at bytes 2 in
    elim (rejects_start-cases bytes 40 (omega arith)) [
      | inl (bad, not) ↦ rejected (rw bad) (λ a. not a.starts)
      | inr (good, starts) ↦
          let long = starts.long in
          let first = index-get_or bytes 0 0 (omega arith) in
          elim (Bool-cases (ltb ihl 20 || ltb (length bytes) (ihl + 20))) [
            | inl bad ↦
                rejected (rw (good, first, bad)) (λ a. ground (arith, a.ip_header, a.tcp_inside))
            | inr b ↦
                let inside : ihl + 20 ≤ length bytes = ground arith in
                let frag = read_u16-word_at bytes 6 (omega arith) in
                elim (Bool-cases (bit_and (word_at bytes 6) 0x3fff != 0)) [
                  | inl bad ↦
                      rejected (rw (good, first, b, frag, bad))
                        (λ a. ground (arith, a.unfragmented))
                  | inr c ↦
                      let len = read_u16-word_at bytes 2 (omega arith) in
                      elim (Bool-cases (ltb total (ihl + 20) || ltb (length bytes) total)) [
                        | inl bad ↦
                            rejected (rw (good, first, b, frag, c, len, bad))
                              (λ a. ground (arith, a.total_long, a.total_inside))
                        | inr d ↦
                            let offset = index-get_or bytes (ihl + 12) 0 (omega arith) in
                            elim (Bool-cases (ltb thl 20 || ltb total (ihl + thl))) [
                              | inl bad ↦
                                  rejected (rw (good, first, b, frag, c, len, d, offset, bad))
                                    (λ a. ground (arith, a.tcp_header, a.headers_inside))
                              | inr e ↦
                                  let a : Accepts bytes = record {
                                    starts = starts;
                                    ip_header = ground arith;
                                    tcp_inside = inside;
                                    unfragmented = ground arith;
                                    total_long = ground arith;
                                    total_inside = ground arith;
                                    tcp_header = ground arith;
                                    headers_inside = ground arith;
                                  } in
                                  accepted
                                    (rw (
                                      good,
                                      first,
                                      b,
                                      frag,
                                      c,
                                      len,
                                      d,
                                      offset,
                                      e,
                                      read_view-eq bytes a,
                                    ))
                                    a
                            ]
                      ]
                ]
          ]
    ]

-- The scheduler's reader does not panic either, and reads the key of every packet that the parser
-- accepts, at the same offsets.
pub scheduling_flow_key-total :
    (packet : RawPacket) → (r : Option FlowKey) × (scheduling_flow_key packet ≡ ok r)
unfolding scheduling_flow_key
scheduling_flow_key-total packet =
    let bytes = as_bytes packet in
    let ihl = ip_header_len bytes in
    elim (rejects_start-cases bytes 24 (omega arith)) [
      | inl (bad, not) ↦ (none, rw bad)
      | inr (good, starts) ↦
          let long = starts.long in
          let first = index-get_or bytes 0 0 (omega arith) in
          elim (Bool-cases (ltb ihl 20 || ltb (length bytes) (ihl + 4))) [
            | inl bad ↦ (none, rw (good, first, bad))
            | inr b ↦ (
              some (key_of bytes ihl),
              rw (good, first, b, read_flow_key-eq bytes ihl (omega arith) (ground arith)),
            )
          ]
    ]

scheduling_flow_key-Accepts :
    (packet : RawPacket)
    → Accepts (as_bytes packet)
    → scheduling_flow_key packet ≡ ok (some ((view_of (as_bytes packet)).key))
unfolding scheduling_flow_key
scheduling_flow_key-Accepts packet a =
    let bytes = as_bytes packet in
    let ihl = ip_header_len bytes in
    let long = a.starts.long in
    let inside = a.tcp_inside in
    let starts : Starts bytes 24 = record {
      long = omega arith;
      version = a.starts.version;
      protocol = a.starts.protocol;
    } in
    elim (rejects_start-cases bytes 24 (omega arith)) [
      | inl (bad, not) ↦ absurd (not starts)
      | inr (good, _) ↦
          let first = index-get_or bytes 0 0 (omega arith) in
          let tests : ltb ihl 20 || ltb (length bytes) (ihl + 4) ≡ false =
            ground (arith, a.ip_header, a.tcp_inside) in
          rw (good, first, tests, read_flow_key-eq bytes ihl (omega arith) (omega arith))
    ]

-- The parser never panics: it returns the view that the header fields describe if the packet is
-- an unfragmented IPv4/TCP packet whose lengths agree, and `None` exactly if it is not.
pub parse_ipv4_tcp-decides :
    (packet : RawPacket)
    → ((parse_ipv4_tcp packet ≡ ok none) × ¬ Accepts (as_bytes packet))
      ⊎ ((parse_ipv4_tcp packet ≡ ok (some (view_of (as_bytes packet))))
          × Accepts (as_bytes packet))
unfolding parse_ipv4_tcp
parse_ipv4_tcp-decides packet = elim (parse-Parses (as_bytes packet)) [
  | rejected e n ↦ inl (e, n)
  | accepted e a ↦ inr (e, a)
]

pub parse_ipv4_tcp-Accepts :
    (packet : RawPacket) (view : TcpPacketView)
    → parse_ipv4_tcp packet ≡ ok (some view)
    → Accepts (as_bytes packet) × (view ≡ view_of (as_bytes packet))
parse_ipv4_tcp-Accepts packet view h = elim (parse_ipv4_tcp-decides packet) [
  | inl (e, n) ↦ cc
  | inr (e, a) ↦ (a, cc)
]

-- The key by which the scheduler orders a packet that the engines act on is the key of its flow.
pub scheduling_flow_key-parse :
    (packet : RawPacket) (view : TcpPacketView)
    → parse_ipv4_tcp packet ≡ ok (some view)
    → scheduling_flow_key packet ≡ ok (some view.key)
scheduling_flow_key-parse packet view h =
    let (a, same) = parse_ipv4_tcp-Accepts packet view h in
    rw same (scheduling_flow_key-Accepts packet a)

pub parse_ipv4_tcp-of_Accepts :
    (packet : RawPacket)
    → Accepts (as_bytes packet)
    → parse_ipv4_tcp packet ≡ ok (some (view_of (as_bytes packet)))
parse_ipv4_tcp-of_Accepts packet a = elim (parse_ipv4_tcp-decides packet) [
  | inl (e, n) ↦ absurd (n a)
  | inr (e, _) ↦ e
]
