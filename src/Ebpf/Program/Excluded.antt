-- ===== src/Ebpf/Program/Excluded.antt =====
-- What becomes of control-plane packets (bandix-plus-ebpf/src/main.rs).
use bandix_plus_lite.Base.{
  ℕ, ◌+◌, ◌*◌, ◌%◌, ◌^◌, ◌≤◌, ◌≡◌, sym, ap, ◌∙◌, refl, [], ◌∷◌, some, none, true, false, ltb, ◌==◌,
  if◌then◌else◌, arith,
}
use bandix_plus_lite.Ebpf.Common.{InterfaceTrafficKey, DeviceTrafficKey, TrafficValue}
use bandix_plus_lite.Ebpf.Context.{TcContext, ptr_at, be16, be32, eth_hdr_size}
use bandix_plus_lite.Ebpf.Management.{
  Filters, is_management_packet, is_management_ip, is_management_v4, management_port_matches,
}
use bandix_plus_lite.Ebpf.Meta.{
  resolve_packet_meta, strip_vlan, resolve_ip_version_from_eth, meta_from_eth, meta_behind_eth,
}
use bandix_plus_lite.Ebpf.Counters.{KernelMap}
use bandix_plus_lite.Ebpf.Program.{Config, State, account, try_bandix_plus}

resolve-management :
    (f : Filters) (ctx : TcContext) (direction eth proto offset version : ℕ)
    → ptr_at ctx 0 eth_hdr_size ≡ some eth
    → strip_vlan ctx 2 (be16 ctx.memory (eth + 12)) eth_hdr_size ≡ (proto, offset)
    → resolve_ip_version_from_eth ctx proto offset ≡ some version
    → is_management_packet f ctx direction proto offset ≡ true
    → resolve_packet_meta f ctx direction ≡ none
unfolding resolve_packet_meta meta_from_eth meta_behind_eth
resolve-management f ctx direction eth proto offset version found behind family excluded =
    simp (found, behind, family, excluded)

-- Where the port and the address of the router stand in the TCP and the IPv4 header: those of the
-- destination on ingress, and of the source on egress.
pub data RouterSide : ℕ → ℕ → ℕ → Type 0 where
  to_router : RouterSide 1 2 16
  from_router : RouterSide 2 0 12

-- A frame with a segment from or to a management port of the router, by its bytes: the IPv4 header
-- begins behind the fourteen bytes of the Ethernet header, and is `header_len` bytes long.
pub record IsManagementFrame (f : Filters) (ctx : TcContext) (direction : ℕ) : Type 0 where
  pub header_len : ℕ
  pub port_at : ℕ
  pub address_at : ℕ
  pub side : RouterSide direction port_at address_at
  pub whole : ctx.start + 14 + header_len + 20 ≤ ctx.end
  pub is_ipv4 : be16 ctx.memory (ctx.start + 12) ≡ 0x0800
  pub lengthened : ctx.memory (ctx.start + 14) % 16 * 4 ≡ header_len
  pub long_enough : 20 ≤ header_len
  pub is_tcp : ctx.memory (ctx.start + 14 + 9) ≡ 6
  pub unfragmented : be16 ctx.memory (ctx.start + 14 + 6) % 2 ^ 13 ≡ 0
  pub port : f.management_ports (be16 ctx.memory (ctx.start + (14 + header_len) + port_at)) ≡ true
  pub address :
      f.router_local_ips (record {
        ip = be32 ctx.memory (ctx.start + 14 + address_at) ∷ 0 ∷ 0 ∷ 0 ∷ [];
        ip_version = 4;
      })
      ≡ true

port_of_side :
    (f : Filters) (direction port_at address_at : ℕ) (word : ℕ → ℕ) (tcp : ℕ)
    → RouterSide direction port_at address_at
    → f.management_ports (word (tcp + port_at)) ≡ true
    → management_port_matches f (word tcp) (word (tcp + 2)) direction ≡ true
unfolding management_port_matches
port_of_side f direction port_at address_at word tcp to_router h = h
port_of_side f direction port_at address_at word tcp from_router h =
    let e : tcp + 0 ≡ tcp = omega arith in ap (λ k. f.management_ports (word k)) (sym e) ∙ h

address_of_side :
    (direction port_at address_at : ℕ) (word : ℕ → ℕ) (ip : ℕ)
    → RouterSide direction port_at address_at
    → (if direction == 1 then word (ip + 16) else word (ip + 12)) ≡ word (ip + address_at)
address_of_side direction port_at address_at word ip to_router = refl
address_of_side direction port_at address_at word ip from_router = refl

module _ {f : Filters} {ctx : TcContext} {direction : ℕ}
    (v : IsManagementFrame f ctx direction) where
  eth_found : ptr_at ctx 0 14 ≡ some (ctx.start + 0)
  unfolding ptr_at
  eth_found = ground (arith, v.whole)

  ip_found : ptr_at ctx 14 20 ≡ some (ctx.start + 14)
  unfolding ptr_at
  ip_found = ground (arith, v.whole, v.long_enough)

  tcp_found : ptr_at ctx (14 + v.header_len) 20 ≡ some (ctx.start + (14 + v.header_len))
  unfolding ptr_at
  tcp_found = ground (arith, v.whole)

  frame_excluded : is_management_packet f ctx direction 0x0800 14 ≡ true
  unfolding is_management_packet is_management_ip is_management_v4
  frame_excluded =
      let enough : ltb v.header_len 20 ≡ false = ground (arith, v.long_enough) in
      rw
        (
          ip_found,
          v.is_tcp,
          v.lengthened,
          enough,
          v.unfragmented,
          tcp_found,
          port_of_side f direction v.port_at v.address_at (be16 ctx.memory)
              (ctx.start + (14 + v.header_len)) v.side v.port,
          address_of_side direction v.port_at v.address_at (be32 ctx.memory) (ctx.start + 14)
              v.side,
        )
        v.address

  nothing_stripped : strip_vlan ctx 2 (be16 ctx.memory (ctx.start + 0 + 12)) 14 ≡ (0x0800, 14)
  unfolding strip_vlan
  nothing_stripped =
      let e : ctx.start + 0 + 12 ≡ ctx.start + 12 = omega arith in
      ap (λ k. strip_vlan ctx 2 (be16 ctx.memory k) 14) e
      ∙ ap (λ k. strip_vlan ctx 2 k 14) v.is_ipv4

  frame_version : resolve_ip_version_from_eth ctx 0x0800 14 ≡ some 4
  unfolding resolve_ip_version_from_eth
  frame_version = refl

  frame_unresolved : resolve_packet_meta f ctx direction ≡ none
  frame_unresolved =
      resolve-management f ctx direction (ctx.start + 0) 0x0800 14 4 eth_found nothing_stripped
        frame_version frame_excluded

module _ {I D F : Type 0} (ifaces : KernelMap I InterfaceTrafficKey TrafficValue)
    (devices : KernelMap D DeviceTrafficKey TrafficValue) (failures : KernelMap F ℕ ℕ)
    (cfg : Config) where
  -- An Ethernet frame with an unfragmented IPv4 packet whose TCP header is in linear memory, to a
  -- management port at an address of the router on ingress, or from one on egress, changes no
  -- counter and submits no event.
  pub excluded-unchanged :
      (ctx : TcContext) (direction : ℕ) (s : State I D F)
      → IsManagementFrame cfg.filters ctx direction
      → try_bandix_plus ifaces devices failures cfg ctx direction s ≡ s
  unfolding try_bandix_plus account
  excluded-unchanged ctx direction s v =
      ap (λ o. account ifaces devices failures cfg ctx direction o s) (frame_unresolved v)
