-- ===== src/Conntrack/Statistics/Tests.antt =====
-- The statistics of two flows of one device (bandix-plus/src/conntrack.rs).
use bandix_plus_lite.Base.{◌≡◌, [], ◌∷◌, some, none, All, arith}
use bandix_plus_lite.Base.Addresses.{v4}
use bandix_plus_lite.Base.Map.{get}
use bandix_plus_lite.Conntrack.Decode.{ConnectionFlow, EndpointKey, tcp_flow, established}
use bandix_plus_lite.Conntrack.Statistics.{
  Label, label_eq, KnownDevice, Devices, no_connections, count_flows, calculate_stats, values,
}
use mathlib.Core.List.{Perm}
use mathlib.Core.List.Perm
use bandix_plus_lite.Conntrack.Statistics.Tally.{counts_of}
use bandix_plus_lite.Conntrack.Statistics.Counts.{attributed, counts_at, calculate_stats-exact}

abbrev laptop : KnownDevice
laptop = record {
  mac = 1 ∷ [];
  hostname = 2 ∷ [];
  logical_iface = 3 ∷ [];
  ipv4 = v4 (10 ∷ 0 ∷ 0 ∷ 2 ∷ []) ∷ [];
  ipv6 = [];
}

abbrev outward : EndpointKey
outward = record {
  src = v4 (10 ∷ 0 ∷ 0 ∷ 2 ∷ []);
  dst = v4 (1 ∷ 1 ∷ 1 ∷ 1 ∷ []);
  sport = 40000;
  dport = 443;
}

abbrev open_flow : ConnectionFlow
open_flow = record {
  id = none;
  protocol = tcp_flow;
  state = some established;
  orig = outward;
  reply = outward;
  orig_packets = 0;
  orig_bytes = 0;
  reply_packets = 0;
  reply_bytes = 0;
  flags = [];
}

-- A hash map that is iterated as it was filled.
abbrev filled : Devices → Devices
filled devices = devices

calculate_stats-exact_example :
    ((calculate_stats filled (open_flow ∷ open_flow ∷ []) (laptop ∷ []) 5).0.counts
      ≡ counts_of (open_flow ∷ open_flow ∷ []))
    × ((mac : Label)
        → counts_at
            (get mac (count_flows (open_flow ∷ open_flow ∷ []) (laptop ∷ []) 5 no_connections []).1)
          ≡ counts_of (attributed (laptop ∷ []) mac (open_flow ∷ open_flow ∷ [])))
    × Perm
        (calculate_stats filled (open_flow ∷ open_flow ∷ []) (laptop ∷ []) 5).1
        (values (count_flows (open_flow ∷ open_flow ∷ []) (laptop ∷ []) 5 no_connections []).1)
    × All
        (λ stats.
          stats.counts
          ≡ counts_of (attributed (laptop ∷ []) stats.mac (open_flow ∷ open_flow ∷ [])))
        (values (count_flows (open_flow ∷ open_flow ∷ []) (laptop ∷ []) 5 no_connections []).1)
calculate_stats-exact_example =
    calculate_stats-exact filled (open_flow ∷ open_flow ∷ []) (laptop ∷ []) 5
      (λ devices. Perm.refl (values devices)) (omega arith)
