-- ===== src/Ebpf/Dns.antt =====
-- `is_dns_packet` of bandix-plus-ebpf/src/main.rs: whether a packet is a complete DNS message over
-- UDP or TCP. The function's three parts, which hand values on, are functions of their own.
pub mod Bounds
use mathlib.Core.Option
use bandix_plus_lite.Base.{
  ℕ, zero, suc, ◌+◌, ◌*◌, ◌/◌, ◌%◌, ◌^◌, List, [], ◌∷◌, Option, some, none, bind, Bool, true, false,
  ◌&&◌, ◌||◌, not, ◌==◌, ◌!=◌, ltb, leb, if◌then◌else◌,
}
use bandix_plus_lite.Ebpf.Common.{ip_v4, ip_v6}
use bandix_plus_lite.Ebpf.Context.{
  TcContext, ptr_at, or_false, be16, be32, packet_u16, ipproto_tcp, ipproto_udp, dns_port,
  ipv4_hdr_size, ipv6_hdr_size, tcp_hdr_size, udp_hdr_size,
}

-- The transport protocol, where its header begins, and where the IP packet ends.
pub record Transport : Type 0 where
  pub protocol : ℕ
  pub offset : ℕ
  pub ip_end : ℕ

unfoldable pub transport_v4 : TcContext → ℕ → ℕ → Option Transport
transport_v4 ctx ip_offset packet_len = bind (ptr_at ctx ip_offset ipv4_hdr_size) λ ip.
    let ihl_ver = ctx.memory ip in
    let ihl = ihl_ver % 16 * 4 in
    if ihl_ver / 2 ^ 4 != 4 || ltb ihl ipv4_hdr_size || ltb packet_len (ip_offset + ihl)
    then none
    else let total_len = be16 ctx.memory (ip + 2) in
      if ltb total_len ihl || ltb packet_len (ip_offset + total_len)
      then none
      else if be16 ctx.memory (ip + 6) % 2 ^ 14 != 0
      then none
      else some (record {
        protocol = ctx.memory (ip + 9);
        offset = ip_offset + ihl;
        ip_end = ip_offset + total_len;
      })

abbrev pub is_transport : ℕ → Bool
is_transport protocol = protocol == ipproto_udp || protocol == ipproto_tcp

-- 0 | 43 | 60 | 135 | 139 | 140
abbrev pub is_options_header : ℕ → Bool
is_options_header protocol =
    protocol == 0
    || protocol == 43
    || protocol == 60
    || protocol == 135
    || protocol == 139
    || protocol == 140

-- The protocol behind an extension header, and the header's length.
unfoldable pub extension_header : TcContext → ℕ → ℕ → Option (ℕ × ℕ)
extension_header ctx protocol offset =
    if is_options_header protocol
    then bind (ctx.load offset 1)
        (λ next. bind (ctx.load (offset + 1) 1) (λ length. some (next 0, (length 0 + 1) * 8)))
    else if protocol == 51
    then bind (ctx.load offset 1)
        (λ next. bind (ctx.load (offset + 1) 1) (λ length. some (next 0, (length 0 + 2) * 4)))
    else none

-- The loop over the IPv6 extension headers, by the rounds left: the protocol and the offset that
-- it stops at.
unfoldable pub skip_extensions : TcContext → ℕ → ℕ → ℕ → ℕ → Option (ℕ × ℕ)
skip_extensions ctx ip_end zero protocol offset = some (protocol, offset)
skip_extensions ctx ip_end (suc rounds) protocol offset =
    if is_transport protocol
    then some (protocol, offset)
    else if protocol == 44 || protocol == 50
    then none
    else bind (extension_header ctx protocol offset) λ (next, extension_len).
      if ltb extension_len 8 || ltb ip_end (offset + extension_len)
      then none
      else skip_extensions ctx ip_end rounds next (offset + extension_len)

unfoldable pub transport_v6 : TcContext → ℕ → ℕ → Option Transport
transport_v6 ctx ip_offset packet_len = bind (ptr_at ctx ip_offset ipv6_hdr_size) λ ip.
    if be32 ctx.memory ip / 2 ^ 28 != 6 || ltb packet_len (ip_offset + ipv6_hdr_size)
    then none
    else let ip_end = ip_offset + ipv6_hdr_size + be16 ctx.memory (ip + 4) in
      if ltb packet_len ip_end
      then none
      else bind (skip_extensions ctx ip_end 6 (ctx.memory (ip + 6)) (ip_offset + ipv6_hdr_size))
          λ (protocol, transport_offset).
            if not (is_transport protocol)
            then none
            else some (record { protocol = protocol; offset = transport_offset; ip_end = ip_end })

-- The first part of `is_dns_packet`.
unfoldable pub transport_of : TcContext → ℕ → ℕ → ℕ → Option Transport
transport_of ctx ip_offset ip_version packet_len =
    if ip_version == ip_v4
    then transport_v4 ctx ip_offset packet_len
    else if ip_version == ip_v6
    then transport_v6 ctx ip_offset packet_len
    else none

-- Where the DNS message begins and ends, behind a UDP header.
unfoldable pub dns_span_udp : TcContext → Transport → Option (ℕ × ℕ)
dns_span_udp ctx t = bind (ptr_at ctx t.offset udp_hdr_size) λ udp.
    if be16 ctx.memory udp != dns_port && be16 ctx.memory (udp + 2) != dns_port
    then none
    else let udp_len = be16 ctx.memory (udp + 4) in
      if ltb udp_len (udp_hdr_size + 12) || ltb t.ip_end (t.offset + udp_len)
      then none
      else some (t.offset + udp_hdr_size, t.offset + udp_len)

-- Behind a TCP header and the message's length.
unfoldable pub dns_span_tcp : TcContext → Transport → Option (ℕ × ℕ)
dns_span_tcp ctx t = bind (ptr_at ctx t.offset tcp_hdr_size) λ tcp.
    if be16 ctx.memory tcp != dns_port && be16 ctx.memory (tcp + 2) != dns_port
    then none
    else let tcp_header_len = be16 ctx.memory (tcp + 12) / 2 ^ 12 * 4 in
      let length_offset = t.offset + tcp_header_len in
      if ltb tcp_header_len tcp_hdr_size || ltb t.ip_end (length_offset + 2)
      then none
      else bind (packet_u16 ctx length_offset) λ dns_len.
        if ltb dns_len 12 || ltb t.ip_end (length_offset + 2 + dns_len)
        then none
        else some (length_offset + 2, length_offset + 2 + dns_len)

unfoldable pub dns_span : TcContext → Transport → Option (ℕ × ℕ)
dns_span ctx t =
    if not (is_transport t.protocol)
    then none
    else if t.protocol == ipproto_udp
    then dns_span_udp ctx t
    else dns_span_tcp ctx t

-- The header of the message itself.
unfoldable pub is_dns_header : TcContext → ℕ × ℕ → Bool
is_dns_header ctx (dns_offset, dns_end) =
    if ltb dns_end (dns_offset + 12)
    then false
    else or_false (packet_u16 ctx (dns_offset + 2)) λ flags.
      or_false (packet_u16 ctx (dns_offset + 4)) λ question_count.
        ltb 0 question_count && leb question_count 16 && leb (flags / 2 ^ 11 % 16) 5

unfoldable pub is_dns_packet : TcContext → ℕ → ℕ → ℕ → Bool
is_dns_packet ctx ip_offset ip_version packet_len =
    or_false (transport_of ctx ip_offset ip_version packet_len)
      λ t. or_false (dns_span ctx t) (is_dns_header ctx)
