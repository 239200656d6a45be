-- ===== src/Ebpf/Context.antt =====
-- What the kernel gives a program that handles one packet, and the reads of
-- bandix-plus-ebpf/src/main.rs from it. `TcContext` and the BPF helpers are aya's and the kernel's:
-- their answers are the fields of a record. Sums of offsets are far below 2 ^ 64: an offset is at
-- most 65535 + 8 and every length that is added to one comes from 16 bits.
use bandix_plus_lite.Base.{
  ℕ, ◌+◌, ◌*◌, ◌≡◌, ◌≤◌, List, [], ◌∷◌, Option, some, none, Bool, false, ltb, if◌then◌else◌, arith,
}
use bandix_plus_lite.Ebpf.Common.{Mac}
use mathlib.Core.Option

pub record TcContext : Type 0 where
  -- `ctx.data()` and `ctx.data_end()`: the addresses of the part of the packet in linear memory.
  pub start : ℕ
  pub end : ℕ
  -- The byte at an address.
  pub memory : ℕ → ℕ
  -- `ctx.load` of so many bytes at an offset, which also reaches what is not linear.
  pub load : ℕ → ℕ → Option (ℕ → ℕ)
  -- `bpf_skb_load_bytes` of so many bytes from offset 0.
  pub skb_load_bytes : ℕ → Option (List ℕ)
  -- `(*ctx.skb.skb).len` and `.ifindex`.
  pub len : ℕ
  pub ifindex : ℕ
  -- Whether `DNS_DATA.reserve` finds room, and `bpf_ktime_get_ns`.
  pub slot_free : Bool
  pub ktime_ns : ℕ

-- `let Ok(x) = e else { return false };`
abbrev pub or_false {ℓ} : {A : Type ℓ} → Option A → (A → Bool) → Bool
or_false none k = false
or_false (some a) k = k a

-- `u16::from_be` and `u32::from_be` of an unaligned read.
abbrev pub be16 : (ℕ → ℕ) → ℕ → ℕ
be16 memory address = memory address * 256 + memory (address + 1)

abbrev pub be32 : (ℕ → ℕ) → ℕ → ℕ
be32 memory address = be16 memory address * 65536 + be16 memory (address + 2)

abbrev pub mac_at : (ℕ → ℕ) → ℕ → Mac
mac_at memory address =
    memory address
    ∷ memory (address + 1)
    ∷ memory (address + 2)
    ∷ memory (address + 3)
    ∷ memory (address + 4)
    ∷ memory (address + 5)
    ∷ []

-- The protocol numbers, and the sizes of the packed headers.
abbrev pub eth_p_ip : ℕ
eth_p_ip = 0x0800

abbrev pub eth_p_ipv6 : ℕ
eth_p_ipv6 = 0x86DD

abbrev pub eth_p_ppp_ses : ℕ
eth_p_ppp_ses = 0x8864

abbrev pub eth_p_8021q : ℕ
eth_p_8021q = 0x8100

abbrev pub eth_p_8021ad : ℕ
eth_p_8021ad = 0x88A8

abbrev pub ppp_proto_ip : ℕ
ppp_proto_ip = 0x0021

abbrev pub ppp_proto_ipv6 : ℕ
ppp_proto_ipv6 = 0x0057

abbrev pub ipproto_tcp : ℕ
ipproto_tcp = 6

abbrev pub ipproto_udp : ℕ
ipproto_udp = 17

abbrev pub dns_port : ℕ
dns_port = 53

abbrev pub eth_hdr_size : ℕ
eth_hdr_size = 14

abbrev pub vlan_hdr_size : ℕ
vlan_hdr_size = 4

abbrev pub pppoe_hdr_size : ℕ
pppoe_hdr_size = 8

abbrev pub ipv4_hdr_size : ℕ
ipv4_hdr_size = 20

abbrev pub ipv6_hdr_size : ℕ
ipv6_hdr_size = 40

abbrev pub tcp_hdr_size : ℕ
tcp_hdr_size = 20

abbrev pub udp_hdr_size : ℕ
udp_hdr_size = 8

-- `ptr_at::<T>` with `size_of::<T>()`: an address at which a whole header is readable.
unfoldable pub ptr_at : TcContext → ℕ → ℕ → Option ℕ
ptr_at ctx offset size =
    if ltb ctx.end (ctx.start + offset + size) then none else some (ctx.start + offset)

unfoldable pub packet_u16 : TcContext → ℕ → Option ℕ
packet_u16 ctx offset = Option.map (λ b. be16 b 0) (ctx.load offset 2)

-- What `ptr_at` allows to read lies within the packet's linear bytes.
pub ptr_at-inside :
    (ctx : TcContext) (offset size : ℕ) {address : ℕ}
    → ptr_at ctx offset size ≡ some address
    → (address ≡ ctx.start + offset) × (address + size ≤ ctx.end)
unfolding ptr_at
ptr_at-inside ctx offset size h = ground arith
