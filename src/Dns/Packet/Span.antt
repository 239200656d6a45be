-- ===== src/Dns/Packet/Span.antt =====
-- Where the DNS message of a packet lies (bandix-plus/src/dns.rs).
use bandix_plus_lite.Base.{
  ℕ, zero, suc, ◌+◌, ◌*◌, ◌≤◌, ◌≡◌, min, inl, inr, List, some, ltb, if◌then◌else◌, length, get_or,
  drop, Option-cases, Bool-cases, arith,
}
use bandix_plus_lite.Dns.Name.{read_u16}
use bandix_plus_lite.Dns.Packet.{
  IpPacket, DnsSpan, parse_ipv4, is_extension, walk_extensions, parse_ipv6, parse_ip, span_udp,
  span_tcp, span_of,
}

-- The transport header begins behind an IP header, inside the IP packet, which ends inside the
-- packet.
pub record IpInside (packet : List ℕ) (offset : ℕ) (ip : IpPacket) : Type 0 where
  pub behind_ip : offset + 20 ≤ ip.transport_offset
  pub end_inside : ip.packet_end ≤ length packet

parse_ipv4-IpInside :
    (packet : List ℕ) (offset : ℕ) (ip : IpPacket)
    → parse_ipv4 packet offset ≡ some ip
    → IpInside packet offset ip
unfolding parse_ipv4
parse_ipv4-IpInside packet offset ip h = ground arith

walk_extensions_bounds :
    (rounds : ℕ) (packet : List ℕ) (packet_end next_header cursor n c : ℕ)
    → walk_extensions rounds packet packet_end next_header cursor ≡ some (n, c)
    → cursor ≤ c
unfolding walk_extensions
walk_extensions_bounds zero packet packet_end next_header cursor n c h = ground arith
walk_extensions_bounds (suc rounds) packet packet_end next_header cursor n c h =
    let extension_len =
      (if is_extension next_header
        then (get_or packet (cursor + 1) 0 + 1) * 8
        else (get_or packet (cursor + 1) 0 + 2) * 4) in
    elim (Bool-cases (ltb packet_end (cursor + extension_len))) [
      | inl outside ↦ ground arith
      | inr fits ↦ ground (
        arith,
        walk_extensions_bounds rounds packet packet_end (get_or packet cursor 0)
            (cursor + extension_len) n c,
      )
    ]

parse_ipv6-IpInside :
    (packet : List ℕ) (offset : ℕ) (ip : IpPacket)
    → parse_ipv6 packet offset ≡ some ip
    → IpInside packet offset ip
unfolding parse_ipv6
parse_ipv6-IpInside packet offset ip h = elim (Option-cases (read_u16 packet (offset + 4))) [
  | inl short ↦ ground arith
  | inr (payload_len, read) ↦
      let packet_end = min (offset + 40 + payload_len) (length packet) in
      elim (Option-cases
        (walk_extensions 8 packet packet_end (get_or (drop offset packet) 6 0) (offset + 40))) [
          | inl stopped ↦ ground arith
          | inr ((n, c), walked) ↦ ground (
            arith,
            walk_extensions_bounds 8 packet packet_end (get_or (drop offset packet) 6 0)
                (offset + 40) n c,
          )
        ]
]

span_of_bounds :
    (packet : List ℕ) (ip : IpPacket) (s : DnsSpan)
    → span_of packet ip ≡ some s
    → (ip.transport_offset + 8 ≤ s.dns_offset)
      × (12 ≤ s.dns_len)
      × (s.dns_offset + s.dns_len ≤ ip.packet_end)
unfolding span_of span_udp span_tcp
span_of_bounds packet ip s h = ground arith

-- A packet of either family in which a message is found holds all of it: the message has a whole
-- DNS header, stands behind an IP and a transport header, and ends within the IP packet, which ends
-- within the bytes captured.
pub span_of-inside :
    (packet : List ℕ) (offset version : ℕ) (ip : IpPacket) (s : DnsSpan)
    → parse_ip packet offset version ≡ some ip
    → span_of packet ip ≡ some s
    → (offset + 28 ≤ s.dns_offset)
      × (12 ≤ s.dns_len)
      × (s.dns_offset + s.dns_len ≤ ip.packet_end)
      × (ip.packet_end ≤ length packet)
unfolding parse_ip
span_of-inside packet offset version ip s h k =
    let inside : IpInside packet offset ip =
      ground (arith, parse_ipv4-IpInside packet offset ip, parse_ipv6-IpInside packet offset ip) in
    let b = span_of_bounds packet ip s k in
    (omega (arith, inside.behind_ip, b.0), b.1, b.2, inside.end_inside)
