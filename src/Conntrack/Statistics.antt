-- ===== src/Conntrack/Statistics.antt =====
-- `calculate_stats` and the functions it calls, `replace_flows`, of bandix-plus/src/conntrack.rs.
-- The iteration order of a hash map is a parameter. Texts are lists of bytes.
pub mod Tally
pub mod Listed
pub mod Counts
mod Tests
use bandix_plus_lite.Base.{
  ℕ, zero, suc, ◌+◌, ◌-◌, ◌^◌, min, List, [], ◌∷◌, ◌++◌, map, Option, some, none, Bool, true, false,
  ◌&&◌, ◌||◌, ◌==◌, ltb, if◌then◌else◌, take, not,
}
use bandix_plus_lite.Base.Map.{Eq, get, insert}
use bandix_plus_lite.Base.Equality.{decided_eq}
use bandix_plus_lite.Base.Addresses.{IpAddr}
use native.Mathlib.Decide.{ℕ_discrete}
use bandix_plus_lite.Conntrack.Flows.{ConntrackState, ParsedFlow, insert_flow, max_tracked_flows}
use bandix_plus_lite.Conntrack.Decode.{
  FlowKey, flow_key_eq, TcpState, syn_sent, syn_recv, established, fin_wait, close_wait, last_ack,
  closing, time_wait, closed, listening, syn_sent2, no_state, FlowProtocol, tcp_flow, udp_flow,
  ConnectionFlow, Parsed,
}

abbrev pub Label : Type 0
Label = List ℕ

unfoldable pub Label-discrete : Discrete Label
Label-discrete = hlevel ℕ_discrete

instance abbrev pub label_eq : Eq Label
label_eq = decided_eq Label-discrete

unfoldable pub IpAddr-discrete : Discrete IpAddr
IpAddr-discrete = hlevel ℕ_discrete

instance abbrev pub ip_eq : Eq IpAddr
ip_eq = decided_eq IpAddr-discrete

-- The counts that the totals and the devices share.
pub record ConnectionCounts : Type 0 where
  pub total_connections : ℕ
  pub tcp_connections : ℕ
  pub udp_connections : ℕ
  pub established_tcp : ℕ
  pub time_wait_tcp : ℕ
  pub close_wait_tcp : ℕ

abbrev pub no_connections : ConnectionCounts
no_connections = record {
  total_connections = 0;
  tcp_connections = 0;
  udp_connections = 0;
  established_tcp = 0;
  time_wait_tcp = 0;
  close_wait_tcp = 0;
}

-- A registered device (`DeviceIdentity`).
pub record KnownDevice : Type 0 where
  pub mac : Label
  pub hostname : Label
  pub logical_iface : Label
  pub ipv4 : List IpAddr
  pub ipv6 : List IpAddr

pub record ConnectionGlobalStats : Type 0 where
  pub counts : ConnectionCounts
  pub last_updated : ℕ

pub record ConnectionDeviceStats : Type 0 where
  pub mac : Label
  pub hostname : Label
  pub logical_iface : Label
  pub ipv4 : List IpAddr
  pub ipv6 : List IpAddr
  pub counts : ConnectionCounts
  pub last_updated : ℕ

-- `saturating_add(1)` of a u32.
abbrev pub count_one : ℕ → ℕ
count_one n = min (n + 1) (2 ^ 32 - 1)

unfoldable pub classify_tcp_state : Option TcpState → ConnectionCounts → ConnectionCounts
classify_tcp_state none c = c
classify_tcp_state (some established) c = record c { established_tcp = count_one c.established_tcp }
classify_tcp_state (some time_wait) c = record c { time_wait_tcp = count_one c.time_wait_tcp }
classify_tcp_state (some fin_wait) c = record c { time_wait_tcp = count_one c.time_wait_tcp }
classify_tcp_state (some closing) c = record c { time_wait_tcp = count_one c.time_wait_tcp }
classify_tcp_state (some last_ack) c = record c { time_wait_tcp = count_one c.time_wait_tcp }
classify_tcp_state (some close_wait) c = record c { close_wait_tcp = count_one c.close_wait_tcp }
classify_tcp_state (some _) c = c

-- A flow counted among the totals or for a device: its protocol, its state, and the total.
unfoldable pub count_flow : FlowProtocol → Option TcpState → ConnectionCounts → ConnectionCounts
count_flow tcp_flow state c =
    let counted =
      classify_tcp_state state (record c { tcp_connections = count_one c.tcp_connections }) in
    record counted { total_connections = count_one counted.total_connections }
count_flow udp_flow state c = record c {
  udp_connections = count_one c.udp_connections;
  total_connections = count_one c.total_connections;
}

abbrev pub owns : IpAddr → List IpAddr → Bool
owns ip [] = false
owns ip (x ∷ xs) = ip_eq.beq x ip || owns ip xs

abbrev pub owners : List KnownDevice → IpAddr → List KnownDevice
owners [] ip = []
owners (d ∷ identities) ip =
    if owns ip d.ipv4 || owns ip d.ipv6 then (d ∷ owners identities ip) else owners identities ip

abbrev pub only_one : List KnownDevice → Option KnownDevice
only_one [] = none
only_one (d ∷ []) = some d
only_one (d ∷ e ∷ more) = none

unfoldable pub unique_identity_for_ip : List KnownDevice → IpAddr → Option KnownDevice
unique_identity_for_ip identities ip = only_one (owners identities ip)

-- `devices.entry(..).or_insert_with(..)`
abbrev pub entry_or_new : KnownDevice → ℕ → Option ConnectionDeviceStats → ConnectionDeviceStats
entry_or_new d now (some stats) = stats
entry_or_new d now none = record {
  mac = d.mac;
  hostname = d.hostname;
  logical_iface = d.logical_iface;
  ipv4 = d.ipv4;
  ipv6 = d.ipv6;
  counts = no_connections;
  last_updated = now;
}

abbrev pub Devices : Type 0
Devices = List (Label × ConnectionDeviceStats)

abbrev pub count_for : Option KnownDevice → ConnectionFlow → ℕ → Devices → Devices
count_for none flow now devices = devices
count_for (some d) flow now devices =
    let entry = entry_or_new d now (get d.mac devices) in
    insert d.mac (record entry { counts = count_flow flow.protocol flow.state entry.counts })
      devices

-- The loop over the flows.
unfoldable pub count_flows :
    List ConnectionFlow
    → List KnownDevice
    → ℕ
    → ConnectionCounts
    → Devices
    → ConnectionCounts × Devices
count_flows [] identities now global devices = (global, devices)
count_flows (flow ∷ flows) identities now global devices =
    count_flows flows identities now (count_flow flow.protocol flow.state global)
      (count_for (unique_identity_for_ip identities flow.orig.src) flow now devices)

-- The order of texts, by bytes.
abbrev pub label_ltb : Label → Label → Bool
label_ltb [] [] = false
label_ltb [] (y ∷ ys) = true
label_ltb (x ∷ xs) [] = false
label_ltb (x ∷ xs) (y ∷ ys) = ltb x y || x == y && label_ltb xs ys

-- More connections first, then by address.
abbrev pub comes_before : ConnectionDeviceStats → ConnectionDeviceStats → Bool
comes_before a b =
    ltb b.counts.total_connections a.counts.total_connections
    || a.counts.total_connections == b.counts.total_connections && label_ltb a.mac b.mac

-- `sort_by`, which is stable, by insertion.
abbrev pub insert_sorted :
    ConnectionDeviceStats → List ConnectionDeviceStats → List ConnectionDeviceStats
insert_sorted d [] = d ∷ []
insert_sorted d (e ∷ devices) =
    if comes_before e d then (e ∷ insert_sorted d devices) else (d ∷ e ∷ devices)

unfoldable pub sort_devices : List ConnectionDeviceStats → List ConnectionDeviceStats
sort_devices [] = []
sort_devices (d ∷ devices) = insert_sorted d (sort_devices devices)

abbrev pub values : Devices → List ConnectionDeviceStats
values [] = []
values ((mac, stats) ∷ devices) = stats ∷ values devices

module _ (iteration_order : Devices → Devices) where
  unfoldable pub calculate_stats :
      List ConnectionFlow
      → List KnownDevice
      → ℕ
      → ConnectionGlobalStats × List ConnectionDeviceStats
  calculate_stats flows identities now =
      let (global, devices) = count_flows flows identities now no_connections [] in
      (
        record { counts = global; last_updated = now },
        sort_devices (values (iteration_order devices)),
      )

-- The loop of `replace_flows` over a table that is cleared.
abbrev pub insert_all :
    List Parsed → ConntrackState FlowKey ConnectionFlow → ConntrackState FlowKey ConnectionFlow
insert_all [] s = s
insert_all (p ∷ parsed) s = insert_all parsed (insert_flow s p)

unfoldable pub replace_flows :
    List Parsed → ConntrackState FlowKey ConnectionFlow → ConntrackState FlowKey ConnectionFlow
replace_flows parsed s =
    insert_all (take max_tracked_flows parsed) (record { flows = []; flow_ids = [] })
