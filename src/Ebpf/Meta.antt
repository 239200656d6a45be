-- ===== src/Ebpf/Meta.antt =====
-- `resolve_packet_meta` of bandix-plus-ebpf/src/main.rs: the family of a packet, its client MAC and
-- where its IP header begins, for Ethernet frames and for interfaces without an Ethernet header.
use mathlib.Core.Option
use bandix_plus_lite.Base.{
  ℕ, zero, suc, ◌+◌, ◌/◌, ◌%◌, ◌^◌, Option, some, none, bind, ◌||◌, ◌==◌, ◌!=◌, if◌then◌else◌,
}
use bandix_plus_lite.Ebpf.Common.{Mac, ip_v4, ip_v6, ingress}
use bandix_plus_lite.Ebpf.Context.{
  TcContext, ptr_at, be16, mac_at, eth_p_ip, eth_p_ipv6, eth_p_ppp_ses, eth_p_8021q, eth_p_8021ad,
  ppp_proto_ip, ppp_proto_ipv6, eth_hdr_size, vlan_hdr_size, pppoe_hdr_size,
}
use bandix_plus_lite.Ebpf.Management.{Filters, is_management_packet}

pub record PacketMeta : Type 0 where
  pub ip_version : ℕ
  pub mac : Option Mac
  pub ip_offset : ℕ

unfoldable pub version_of_ppp : ℕ → Option ℕ
version_of_ppp proto =
    if proto == ppp_proto_ip
    then some ip_v4
    else if proto == ppp_proto_ipv6
    then some ip_v6
    else none

unfoldable pub resolve_ip_version_from_eth : TcContext → ℕ → ℕ → Option ℕ
unfolding version_of_ppp
resolve_ip_version_from_eth ctx eth_proto payload_offset =
    if eth_proto == eth_p_ip
    then some ip_v4
    else if eth_proto == eth_p_ipv6
    then some ip_v6
    else if eth_proto == eth_p_ppp_ses
    then bind (ptr_at ctx payload_offset pppoe_hdr_size)
        (λ pppoe. version_of_ppp (be16 ctx.memory (pppoe + 6)))
    else none

unfoldable pub resolve_ip_version_from_l3 : TcContext → ℕ → Option ℕ
resolve_ip_version_from_l3 ctx offset = bind (ptr_at ctx offset 2) λ first2.
    let version = be16 ctx.memory first2 / 2 ^ 12 in
    if version == 4 then some ip_v4 else if version == 6 then some ip_v6 else none

-- The first of two answers that there is.
abbrev pub or_else : Option ℕ → Option ℕ → Option ℕ
or_else none second = second
or_else (some v) second = some v

unfoldable pub resolve_ip_version_from_ppp : TcContext → Option ℕ
unfolding version_of_ppp
resolve_ip_version_from_ppp ctx =
    bind (ptr_at ctx 0 2)
      λ proto. or_else (version_of_ppp (be16 ctx.memory proto)) (resolve_ip_version_from_l3 ctx 2)

-- The loop over at most two VLAN headers, by the rounds left.
unfoldable pub strip_vlan : TcContext → ℕ → ℕ → ℕ → ℕ × ℕ
strip_vlan ctx zero eth_proto offset = (eth_proto, offset)
strip_vlan ctx (suc rounds) eth_proto offset =
    if eth_proto == eth_p_8021q || eth_proto == eth_p_8021ad
    then elim (ptr_at ctx offset vlan_hdr_size) [
      | none ↦ (eth_proto, offset)
      | some vlan ↦ strip_vlan ctx rounds (be16 ctx.memory (vlan + 2)) (offset + vlan_hdr_size)
    ]
    else (eth_proto, offset)

-- On ingress the client is the sender, but the group address of a multicast or broadcast frame.
unfoldable pub client_mac : TcContext → ℕ → ℕ → Mac
client_mac ctx direction eth =
    if direction == ingress
    then if ctx.memory eth % 2 != 0 then mac_at ctx.memory eth else mac_at ctx.memory (eth + 6)
    else mac_at ctx.memory eth

-- What one of the three ways to read the headers finds: nothing, so that the next way is tried, or
-- the answer of `resolve_packet_meta`.
abbrev pub Attempt : Type 0
Attempt = Option (Option PacketMeta)

abbrev pub first_attempt : Attempt → Option PacketMeta → Option PacketMeta
first_attempt none rest = rest
first_attempt (some answer) rest = answer

module _ (f : Filters) where
  -- A packet whose family is known is dropped from the accounting if it is a management packet.
  abbrev pub unless_management : TcContext → ℕ → ℕ → ℕ → PacketMeta → Option PacketMeta
  unless_management ctx direction eth_proto offset meta =
      if is_management_packet f ctx direction eth_proto offset then none else some meta

  abbrev pub proto_of_version : ℕ → ℕ
  proto_of_version version = if version == ip_v4 then eth_p_ip else eth_p_ipv6

  unfoldable pub meta_behind_eth : TcContext → ℕ → ℕ → ℕ × ℕ → Attempt
  unfolding client_mac
  meta_behind_eth ctx direction eth (eth_proto, offset) =
      Option.map
        (λ version. unless_management ctx direction eth_proto offset (record {
          ip_version = version;
          mac = some (client_mac ctx direction eth);
          ip_offset =
              (if eth_proto == eth_p_ppp_ses then offset + pppoe_hdr_size else offset) % 2 ^ 16;
        }))
        (resolve_ip_version_from_eth ctx eth_proto offset)

  unfoldable pub meta_from_eth : TcContext → ℕ → Attempt
  unfolding meta_behind_eth
  meta_from_eth ctx direction = bind (ptr_at ctx 0 eth_hdr_size) λ eth.
      meta_behind_eth ctx direction eth (strip_vlan ctx 2 (be16 ctx.memory (eth + 12)) eth_hdr_size)

  -- No Ethernet header: the IP header, or a PPP protocol field, comes first.
  unfoldable pub meta_from_bare : TcContext → ℕ → ℕ → Option ℕ → Attempt
  meta_from_bare ctx direction offset resolved =
      Option.map
        (λ version.
          unless_management ctx direction (proto_of_version version) offset
            (record { ip_version = version; mac = none; ip_offset = offset }))
        resolved

  unfoldable pub resolve_packet_meta : TcContext → ℕ → Option PacketMeta
  unfolding meta_from_eth meta_from_bare
  resolve_packet_meta ctx direction = first_attempt (meta_from_eth ctx direction) (
      first_attempt (meta_from_bare ctx direction 0 (resolve_ip_version_from_l3 ctx 0))
        (first_attempt (meta_from_bare ctx direction 2 (resolve_ip_version_from_ppp ctx)) none))
