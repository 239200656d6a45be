-- ===== src/Ebpf/Dns/Bounds.antt =====
-- Where the message of a packet that `is_dns_packet` accepts lies
-- (bandix-plus-ebpf/src/main.rs).
use bandix_plus_lite.Base.{ℕ, zero, suc, ◌+◌, ◌≤◌, ◌≡◌, inl, inr, some, true, arith, Option-cases}
use bandix_plus_lite.Ebpf.Context.{TcContext, ptr_at, be16, ipv6_hdr_size}
use bandix_plus_lite.Ebpf.Dns.{
  Transport, extension_header, skip_extensions, transport_v4, transport_v6, transport_of,
  dns_span_udp, dns_span_tcp, dns_span, is_dns_header, is_dns_packet,
}

-- The transport header begins behind an IP header, inside the IP packet, which ends inside the
-- captured bytes.
pub record InPacket (ip_offset packet_len : ℕ) (t : Transport) : Type 0 where
  pub behind_ip : ip_offset + 20 ≤ t.offset
  pub before_end : t.offset ≤ t.ip_end
  pub end_inside : t.ip_end ≤ packet_len

transport_v4-InPacket :
    (ctx : TcContext) (ip_offset packet_len : ℕ) (t : Transport)
    → transport_v4 ctx ip_offset packet_len ≡ some t
    → InPacket ip_offset packet_len t
unfolding transport_v4
transport_v4-InPacket ctx ip_offset packet_len t h = ground arith

skip_extensions_bounds :
    (ctx : TcContext) (ip_end rounds protocol offset p o : ℕ)
    → offset ≤ ip_end
    → skip_extensions ctx ip_end rounds protocol offset ≡ some (p, o)
    → (offset ≤ o) × (o ≤ ip_end)
unfolding skip_extensions
skip_extensions_bounds ctx ip_end zero protocol offset p o h e = ground arith
skip_extensions_bounds ctx ip_end (suc rounds) protocol offset p o h e =
    elim (Option-cases (extension_header ctx protocol offset)) [
      | inl none_found ↦ ground arith
      | inr ((next, extension_len), found) ↦
          ground (
            arith,
            found,
            skip_extensions_bounds ctx ip_end rounds next (offset + extension_len) p o,
          )
    ]

transport_v6-InPacket :
    (ctx : TcContext) (ip_offset packet_len : ℕ) (t : Transport)
    → transport_v6 ctx ip_offset packet_len ≡ some t
    → InPacket ip_offset packet_len t
unfolding transport_v6
transport_v6-InPacket ctx ip_offset packet_len t h =
    elim (Option-cases (ptr_at ctx ip_offset ipv6_hdr_size)) [
      | inl none_found ↦ ground arith
      | inr (ip, found) ↦ by_extensions ip found
    ]
  where
    by_extensions :
        (ip : ℕ) → ptr_at ctx ip_offset ipv6_hdr_size ≡ some ip → InPacket ip_offset packet_len t
    by_extensions ip found =
        let ip_end = ip_offset + ipv6_hdr_size + be16 ctx.memory (ip + 4) in
        elim (Option-cases
          (skip_extensions ctx ip_end 6 (ctx.memory (ip + 6)) (ip_offset + ipv6_hdr_size))) [
            | inl none_left ↦ ground arith
            | inr ((p, o), left) ↦ ground (
              arith,
              skip_extensions_bounds ctx ip_end 6 (ctx.memory (ip + 6)) (ip_offset + ipv6_hdr_size)
                  p o,
            )
          ]

transport_of-InPacket :
    (ctx : TcContext) (ip_offset ip_version packet_len : ℕ) (t : Transport)
    → transport_of ctx ip_offset ip_version packet_len ≡ some t
    → InPacket ip_offset packet_len t
unfolding transport_of
transport_of-InPacket ctx ip_offset ip_version packet_len t h = ground (
  arith,
  transport_v4-InPacket ctx ip_offset packet_len t,
  transport_v6-InPacket ctx ip_offset packet_len t,
)

dns_span_bounds :
    (ctx : TcContext) (t : Transport) (a b : ℕ)
    → dns_span ctx t ≡ some (a, b)
    → (t.offset + 8 ≤ a) × (b ≤ t.ip_end)
unfolding dns_span dns_span_udp dns_span_tcp
dns_span_bounds ctx t a b h = ground arith

-- Where the message of an accepted packet stands.
pub record MessageAt (ctx : TcContext) (ip_offset ip_version packet_len : ℕ) : Type 0 where
  pub transport : Transport
  pub message : ℕ
  pub message_end : ℕ
  pub found : transport_of ctx ip_offset ip_version packet_len ≡ some transport
  pub span : dns_span ctx transport ≡ some (message, message_end)
  pub behind_headers : ip_offset + 28 ≤ message
  pub whole_header : message + 12 ≤ message_end
  pub inside : message_end ≤ packet_len

-- A packet that is_dns_packet accepts holds a message with a whole DNS header, behind an IP and a
-- transport header, and all of the message lies within the captured bytes.
pub is_dns_packet-MessageAt :
    (ctx : TcContext) (ip_offset ip_version packet_len : ℕ)
    → is_dns_packet ctx ip_offset ip_version packet_len ≡ true
    → MessageAt ctx ip_offset ip_version packet_len
unfolding is_dns_packet is_dns_header
is_dns_packet-MessageAt ctx ip_offset ip_version packet_len h =
    elim (Option-cases (transport_of ctx ip_offset ip_version packet_len)) [
      | inl none_found ↦ ground arith
      | inr (t, found) ↦ elim (Option-cases (dns_span ctx t)) [
        | inl no_span ↦ ground arith
        | inr ((a, b), span) ↦
            let p = transport_of-InPacket ctx ip_offset ip_version packet_len t found in
            let q = dns_span_bounds ctx t a b span in
            record {
              transport = t;
              message = a;
              message_end = b;
              found = found;
              span = span;
              behind_headers = omega (arith, p.behind_ip, q.0);
              whole_header = ground arith;
              inside = omega (arith, p.end_inside, q.1);
            }
      ]
    ]
