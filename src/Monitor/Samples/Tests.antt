-- ===== src/Monitor/Samples/Tests.antt =====
-- The samples of one interface over two snapshots (bandix-plus/src/monitor.rs).
use bandix_plus_lite.Base.{ℕ, ◌≡◌, [], ◌∷◌, max, last}
use bandix_plus_lite.Monitor.Types.{CounterQuad, InterfaceOverviewItem, SnapshotData}
use bandix_plus_lite.Monitor.Samples.{new_history, query_iface}
use bandix_plus_lite.Monitor.Samples.Windows.{
  all_points, as_written, ingest_snapshots, query_iface-newest,
}

abbrev quiet : CounterQuad
quiet = record {
  up_v4_bps = 1;
  down_v4_bps = 2;
  up_v6_bps = 0;
  down_v6_bps = 0;
  up_v4_bytes = 3;
  down_v4_bytes = 4;
  up_v6_bytes = 0;
  down_v6_bytes = 0;
}

abbrev lan : InterfaceOverviewItem
lan = record { ifindex = 4; ifname = "lan"; metrics = quiet; cumulative = quiet }

abbrev at_time : ℕ → SnapshotData
at_time ts = record { timestamp_ms = ts; interfaces = lan ∷ []; devices = [] }

query_iface-newest_example :
    query_iface (ingest_snapshots (at_time 1 ∷ at_time 2 ∷ []) (new_history 1)) 4
    ≡ as_written (last (max 1 1) (all_points 4 (at_time 1 ∷ at_time 2 ∷ [])))
query_iface-newest_example = query_iface-newest 1 (at_time 1 ∷ at_time 2 ∷ []) 4
