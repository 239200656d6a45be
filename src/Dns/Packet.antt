-- ===== src/Dns/Packet.antt =====
-- `parse_ipv4`, `parse_ipv6` and the transport headers of `parse_dns_packet` in
-- bandix-plus/src/dns.rs. Offsets are far below 2 ^ 64, so the checked additions do not fail.
pub mod Span
use bandix_plus_lite.Base.{
  ℕ, zero, suc, ◌+◌, ◌-◌, ◌*◌, ◌/◌, ◌%◌, ◌^◌, min, List, [], ◌∷◌, Option, some, none, bind, Bool,
  true, false, ◌&&◌, ◌||◌, ◌==◌, ◌!=◌, ltb, leb, if◌then◌else◌, length, get_or, drop, take,
}
use bandix_plus_lite.Base.Bytes.{slice}
use bandix_plus_lite.Base.Addresses.{IpAddr, v4, v6}
use bandix_plus_lite.Dns.Name.{read_u16}

-- What `parse_ipv4` and `parse_ipv6` return.
pub record IpPacket : Type 0 where
  pub source : IpAddr
  pub destination : IpAddr
  pub protocol : ℕ
  pub transport_offset : ℕ
  pub packet_end : ℕ

unfoldable pub parse_ipv4 : List ℕ → ℕ → Option IpPacket
parse_ipv4 packet offset =
    if ltb (length packet) (offset + 20)
    then none
    else let header = drop offset packet in
      if get_or header 0 0 / 2 ^ 4 != 4
      then none
      else let ihl = get_or header 0 0 % 16 * 4 in
        if ltb ihl 20
        then none
        else bind (read_u16 packet (offset + 2)) λ total_len.
          if ltb total_len ihl || ltb (length packet) (offset + total_len)
          then none
          else bind (read_u16 packet (offset + 6)) λ fragment.
            if fragment % 2 ^ 14 != 0
            then none
            else some (record {
              source = v4 (slice header 12 4);
              destination = v4 (slice header 16 4);
              protocol = get_or header 9 0;
              transport_offset = offset + ihl;
              packet_end = offset + total_len;
            })

-- The next header behind an extension header of so many bytes, if the extension fits.
unfoldable pub after_extension : List ℕ → ℕ → ℕ → ℕ → Option (ℕ × ℕ)
after_extension packet packet_end cursor extension_len =
    if ltb packet_end (cursor + extension_len)
    then none
    else some (get_or packet cursor 0, cursor + extension_len)

-- 0 | 43 | 60 | 135 | 139 | 140
abbrev pub is_extension : ℕ → Bool
is_extension next_header =
    next_header == 0
    || next_header == 43
    || next_header == 60
    || next_header == 135
    || next_header == 139
    || next_header == 140

-- The loop over the extension headers, by the rounds left.
unfoldable pub walk_extensions : ℕ → List ℕ → ℕ → ℕ → ℕ → Option (ℕ × ℕ)
unfolding after_extension
walk_extensions zero packet packet_end next_header cursor = some (next_header, cursor)
walk_extensions (suc rounds) packet packet_end next_header cursor =
    if is_extension next_header || next_header == 51
    then if ltb packet_end (cursor + 2)
      then none
      else bind
          (after_extension packet packet_end cursor (
            if is_extension next_header
            then (get_or packet (cursor + 1) 0 + 1) * 8
            else (get_or packet (cursor + 1) 0 + 2) * 4))
          (λ (next, behind). walk_extensions rounds packet packet_end next behind)
    else if next_header == 44 || next_header == 50
    then none
    else some (next_header, cursor)

unfoldable pub parse_ipv6 : List ℕ → ℕ → Option IpPacket
parse_ipv6 packet offset =
    if ltb (length packet) (offset + 40)
    then none
    else let header = drop offset packet in
      if get_or header 0 0 / 2 ^ 4 != 6
      then none
      else bind (read_u16 packet (offset + 4)) λ payload_len.
        let packet_end = min (offset + 40 + payload_len) (length packet) in
        bind (walk_extensions 8 packet packet_end (get_or header 6 0) (offset + 40))
          λ (next_header, cursor). some (record {
            source = v6 (slice header 8 16);
            destination = v6 (slice header 24 16);
            protocol = next_header;
            transport_offset = cursor;
            packet_end = packet_end;
          })

-- The ports, and where the DNS message begins and how long it is.
pub record DnsSpan : Type 0 where
  pub source_port : ℕ
  pub destination_port : ℕ
  pub dns_offset : ℕ
  pub dns_len : ℕ

unfoldable pub span_udp : List ℕ → IpPacket → Option DnsSpan
span_udp packet ip =
    if ltb ip.packet_end (ip.transport_offset + 8)
    then none
    else bind (read_u16 packet ip.transport_offset) λ source_port.
      bind (read_u16 packet (ip.transport_offset + 2)) λ destination_port.
        bind (read_u16 packet (ip.transport_offset + 4)) λ udp_len.
          if ltb udp_len 20 || ltb ip.packet_end (ip.transport_offset + udp_len)
          then none
          else some (record {
            source_port = source_port;
            destination_port = destination_port;
            dns_offset = ip.transport_offset + 8;
            dns_len = udp_len - 8;
          })

unfoldable pub span_tcp : List ℕ → IpPacket → Option DnsSpan
span_tcp packet ip =
    if ltb ip.packet_end (ip.transport_offset + 20)
    then none
    else bind (read_u16 packet ip.transport_offset) λ source_port.
      bind (read_u16 packet (ip.transport_offset + 2)) λ destination_port.
        let tcp_header_len = get_or packet (ip.transport_offset + 12) 0 / 2 ^ 4 * 4 in
        let prefix_offset = ip.transport_offset + tcp_header_len in
        if ltb tcp_header_len 20 || ltb ip.packet_end (prefix_offset + 2)
        then none
        else bind (read_u16 packet prefix_offset) λ dns_len.
          if ltb dns_len 12 || ltb ip.packet_end (prefix_offset + 2 + dns_len)
          then none
          else some (record {
            source_port = source_port;
            destination_port = destination_port;
            dns_offset = prefix_offset + 2;
            dns_len = dns_len;
          })

unfoldable pub span_of : List ℕ → IpPacket → Option DnsSpan
span_of packet ip =
    if ip.protocol == 17
    then span_udp packet ip
    else if ip.protocol == 6
    then span_tcp packet ip
    else none

unfoldable pub parse_ip : List ℕ → ℕ → ℕ → Option IpPacket
parse_ip packet ip_offset ip_version =
    if ip_version == 4
    then parse_ipv4 packet ip_offset
    else if ip_version == 6
    then parse_ipv6 packet ip_offset
    else none

-- The ports must name the DNS service, and the message is a part of the packet.
unfoldable pub message_of : List ℕ → DnsSpan → Option (List ℕ)
message_of packet span =
    if span.source_port != 53 && span.destination_port != 53
    then none
    else if ltb (length packet) (span.dns_offset + span.dns_len)
    then none
    else some (slice packet span.dns_offset span.dns_len)
