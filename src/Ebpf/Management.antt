-- ===== src/Ebpf/Management.antt =====
-- `is_management_packet` of bandix-plus-ebpf/src/main.rs: TCP segments to the router's own
-- management ports, which are not counted. The maps are filled by the service: parameters.
use bandix_plus_lite.Base.{
  ℕ, ◌+◌, ◌*◌, ◌%◌, ◌^◌, List, [], ◌∷◌, Bool, false, ◌||◌, not, ◌==◌, ◌!=◌, ltb, if◌then◌else◌,
}
use bandix_plus_lite.Ebpf.Common.{RouterIpKey, ip_v4, ip_v6, ingress}
use bandix_plus_lite.Ebpf.Context.{
  TcContext, ptr_at, or_false, be16, be32, eth_p_ip, eth_p_ipv6, eth_p_ppp_ses, ppp_proto_ip,
  ppp_proto_ipv6, pppoe_hdr_size, ipv4_hdr_size, ipv6_hdr_size, tcp_hdr_size,
}

-- The maps that the service fills, by what `get(..).is_some()` answers.
pub record Filters : Type 0 where
  pub management_ports : ℕ → Bool
  pub router_local_ips : RouterIpKey → Bool

module _ (f : Filters) where
  -- On ingress the router is the destination; on egress it is the source.
  unfoldable pub management_port_matches : ℕ → ℕ → ℕ → Bool
  management_port_matches source destination direction =
      f.management_ports (if direction == ingress then destination else source)

  unfoldable pub is_management_v4 : TcContext → ℕ → ℕ → Bool
  is_management_v4 ctx direction offset = or_false (ptr_at ctx offset ipv4_hdr_size) λ ip.
      let ihl = ctx.memory ip % 16 * 4 in
      if ctx.memory (ip + 9) != 6 || ltb ihl ipv4_hdr_size
      then false
      else if be16 ctx.memory (ip + 6) % 2 ^ 13 != 0
      then false
      else or_false (ptr_at ctx (offset + ihl) tcp_hdr_size) λ tcp.
        if not (management_port_matches (be16 ctx.memory tcp) (be16 ctx.memory (tcp + 2)) direction)
        then false
        else f.router_local_ips (record {
          ip =
              (if direction == ingress
                then be32 ctx.memory (ip + 16)
                else be32 ctx.memory (ip + 12))
              ∷ 0
              ∷ 0
              ∷ 0
              ∷ [];
          ip_version = ip_v4;
        })

  unfoldable pub words_at : (ℕ → ℕ) → ℕ → List ℕ
  words_at memory address =
      be32 memory address
      ∷ be32 memory (address + 4)
      ∷ be32 memory (address + 8)
      ∷ be32 memory (address + 12)
      ∷ []

  unfoldable pub is_management_v6 : TcContext → ℕ → ℕ → Bool
  unfolding words_at
  is_management_v6 ctx direction offset = or_false (ptr_at ctx offset ipv6_hdr_size) λ ip.
      if ctx.memory (ip + 6) != 6
      then false
      else or_false (ptr_at ctx (offset + ipv6_hdr_size) tcp_hdr_size) λ tcp.
        if not (management_port_matches (be16 ctx.memory tcp) (be16 ctx.memory (tcp + 2)) direction)
        then false
        else f.router_local_ips (record {
          ip = words_at ctx.memory (if direction == ingress then ip + 24 else ip + 8);
          ip_version = ip_v6;
        })

  -- By the protocol number behind the Ethernet, VLAN and PPPoE headers.
  unfoldable pub is_management_ip : TcContext → ℕ → ℕ → ℕ → Bool
  unfolding is_management_v4 is_management_v6
  is_management_ip ctx direction eth_proto offset =
      if eth_proto == eth_p_ip
      then is_management_v4 ctx direction offset
      else if eth_proto == eth_p_ipv6
      then is_management_v6 ctx direction offset
      else false

  unfoldable pub is_management_packet : TcContext → ℕ → ℕ → ℕ → Bool
  unfolding is_management_ip
  is_management_packet ctx direction eth_proto offset =
      if eth_proto == eth_p_ppp_ses
      then or_false (ptr_at ctx offset pppoe_hdr_size) (λ pppoe.
        let proto = be16 ctx.memory (pppoe + 6) in
        if proto == ppp_proto_ip
        then is_management_ip ctx direction eth_p_ip (offset + pppoe_hdr_size)
        else if proto == ppp_proto_ipv6
        then is_management_ip ctx direction eth_p_ipv6 (offset + pppoe_hdr_size)
        else false)
      else is_management_ip ctx direction eth_proto offset
