-- ===== src/Ebpf/Common.antt =====
-- The types of bandix-plus-common/src/lib.rs. Padding is left out: it is always zero.
use bandix_plus_lite.Base.{ℕ, List}

-- `IpVersion` and `TrafficDirection` are used by their `u8` values.
abbrev pub ip_v4 : ℕ
ip_v4 = 4

abbrev pub ip_v6 : ℕ
ip_v6 = 6

abbrev pub ingress : ℕ
ingress = 1

abbrev pub egress : ℕ
egress = 2

abbrev pub dns_packet_max_bytes : ℕ
dns_packet_max_bytes = 1600

-- A MAC address is the list of its six bytes.
abbrev pub Mac : Type 0
Mac = List ℕ

pub record DnsPacketHeader : Type 0 where
  pub timestamp_ns : ℕ
  pub ifindex : ℕ
  pub captured_len : ℕ
  pub ip_offset : ℕ
  pub ip_version : ℕ
  pub direction : ℕ
  pub mac : Mac
  pub has_mac : ℕ

pub record InterfaceTrafficKey : Type 0 where
  pub ifindex : ℕ
  pub ip_version : ℕ
  pub direction : ℕ

pub record DeviceTrafficKey : Type 0 where
  pub ifindex : ℕ
  pub mac : Mac
  pub ip_version : ℕ
  pub direction : ℕ

pub record TrafficValue : Type 0 where
  pub packets : ℕ
  pub bytes : ℕ

-- The four words of an address.
pub record EcmTrafficKey : Type 0 where
  pub ip : List ℕ
  pub ip_version : ℕ
  pub direction : ℕ

pub record RouterIpKey : Type 0 where
  pub ip : List ℕ
  pub ip_version : ℕ
