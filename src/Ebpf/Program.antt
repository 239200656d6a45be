-- ===== src/Ebpf/Program.antt =====
-- `try_bandix_plus` and `capture_dns_packet` of bandix-plus-ebpf/src/main.rs: what the two
-- classifiers do with one packet. Their verdict is always TC_ACT_UNSPEC, so only the state is
-- returned.
pub mod Accounting
pub mod Capture
pub mod Excluded
use bandix_plus_lite.Base.{
  ℕ, ◌+◌, ◌≡◌, List, [], ◌∷◌, Option, some, none, Bool, true, false, ◌&&◌, ◌||◌, not, ◌==◌, ◌!=◌,
  ltb, if◌then◌else◌, replicate,
}
use mathlib.Core.Option
use bandix_plus_lite.Ebpf.Common.{
  InterfaceTrafficKey, DeviceTrafficKey, TrafficValue, DnsPacketHeader, Mac, dns_packet_max_bytes,
}
use bandix_plus_lite.Ebpf.Context.{TcContext}
use bandix_plus_lite.Ebpf.Management.{Filters}
use bandix_plus_lite.Ebpf.Meta.{PacketMeta, resolve_packet_meta}
use bandix_plus_lite.Ebpf.Dns.{is_dns_packet}
use bandix_plus_lite.Ebpf.Counters.{KernelMap, DeviceMaps, bump_iface_counter, bump_device_counter}

pub record DnsPacketEvent : Type 0 where
  pub header : DnsPacketHeader
  pub packet : List ℕ

-- What the service sets: the filter maps, the global DNS_ENABLED and the map TRACK_DEVICES.
pub record Config : Type 0 where
  pub filters : Filters
  pub dns_enabled : ℕ
  pub track_devices : ℕ → Option ℕ

-- The maps that the programs write, and the events submitted to DNS_DATA, newest first.
pub record State (I D F : Type 0) : Type 0 where
  pub iface : I
  pub device : DeviceMaps D F
  pub events : List DnsPacketEvent

abbrev pub mac_or_zero : Option Mac → Mac
mac_or_zero none = replicate 6 0
mac_or_zero (some mac) = mac

abbrev pub has_mac : Option Mac → ℕ
has_mac none = 0
has_mac (some mac) = 1

unfoldable pub event_header : TcContext → ℕ → PacketMeta → DnsPacketHeader
event_header ctx direction meta = record {
  timestamp_ns = ctx.ktime_ns;
  ifindex = ctx.ifindex;
  captured_len = ctx.len;
  ip_offset = meta.ip_offset;
  ip_version = meta.ip_version;
  direction = direction;
  mac = mac_or_zero meta.mac;
  has_mac = has_mac meta.mac;
}

-- The event is submitted once its bytes are there; it is discarded if they cannot be loaded.
unfoldable pub submit :
    DnsPacketHeader → Option (List ℕ) → List DnsPacketEvent → List DnsPacketEvent
submit header none events = events
submit header (some packet) events = record { header = header; packet = packet } ∷ events

unfoldable pub capture_dns_packet :
    TcContext → ℕ → PacketMeta → List DnsPacketEvent → List DnsPacketEvent
unfolding submit event_header
capture_dns_packet ctx direction meta events =
    if ctx.len == 0 || ltb dns_packet_max_bytes ctx.len
    then events
    else if not (is_dns_packet ctx meta.ip_offset meta.ip_version ctx.len)
    then events
    else if not ctx.slot_free
    then events
    else submit (event_header ctx direction meta) (ctx.skb_load_bytes ctx.len) events

unfoldable pub iface_key : TcContext → ℕ → PacketMeta → InterfaceTrafficKey
iface_key ctx direction meta = record {
  ifindex = ctx.ifindex;
  ip_version = meta.ip_version;
  direction = direction;
}

unfoldable pub device_key : TcContext → ℕ → PacketMeta → Mac → DeviceTrafficKey
device_key ctx direction meta mac = record {
  ifindex = ctx.ifindex;
  mac = mac;
  ip_version = meta.ip_version;
  direction = direction;
}

module _ {I D F : Type 0} (ifaces : KernelMap I InterfaceTrafficKey TrafficValue)
    (devices : KernelMap D DeviceTrafficKey TrafficValue) (failures : KernelMap F ℕ ℕ)
    (cfg : Config) where
  unfoldable pub count_device :
      TcContext → ℕ → PacketMeta → Option Mac → DeviceMaps D F → DeviceMaps D F
  unfolding device_key
  count_device ctx direction meta none s = s
  count_device ctx direction meta (some mac) s =
      if Option.get_or (cfg.track_devices ctx.ifindex) 0 == 1
      then bump_device_counter devices failures (device_key ctx direction meta mac) ctx.len s
      else s

  unfoldable pub account : TcContext → ℕ → Option PacketMeta → State I D F → State I D F
  unfolding count_device iface_key
  account ctx direction none s = s
  account ctx direction (some meta) s = record {
    iface = bump_iface_counter ifaces (iface_key ctx direction meta) ctx.len s.iface;
    device = count_device ctx direction meta meta.mac s.device;
    events =
        if cfg.dns_enabled != 0 then capture_dns_packet ctx direction meta s.events else s.events;
  }

  unfoldable pub try_bandix_plus : TcContext → ℕ → State I D F → State I D F
  unfolding account
  try_bandix_plus ctx direction s =
      account ctx direction (resolve_packet_meta cfg.filters ctx direction) s
