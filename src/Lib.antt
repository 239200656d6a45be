-- ===== src/Lib.antt =====
-- Bandix Plus Lite counts the traffic of a router's interfaces and devices. Two kernel programs
-- (bandix-plus-ebpf/src/main.rs) classify every packet, count it in BPF hash maps, and submit DNS
-- packets as events. The service (bandix-plus/src) reads the maps, gathers samples into hourly
-- buckets (monitor.rs) and keeps completed hours in ring files (persistence.rs).
--
-- Parts, and the files that model them:
-- - Base: lists, tests, byte strings, association lists and error results that the parts share.
-- - Ebpf: bandix-plus-ebpf/src/main.rs, with the types of bandix-plus-common/src/lib.rs in
--   Ebpf/Common. Ebpf/Context holds what a program can read of a packet (`ptr_at`, `packet_u16`);
--   Ebpf/Management is `is_management_packet`; Ebpf/Meta is `resolve_packet_meta`; Ebpf/Dns is
--   `is_dns_packet`; Ebpf/Counters the `bump_*` functions; Ebpf/Program is `capture_dns_packet` and
--   `try_bandix_plus`; Ebpf/Ecm the two `ecm_*_sync_hook` probes. The kernel's maps are a record of
--   operations with the laws of a BPF hash map as one processor sees it, and a full map refuses an
--   insertion. Ebpf/Ecm/Processors runs the probes on several processors over a per-CPU map.
-- - Monitor: bandix-plus/src/monitor.rs. Monitor/Types has the shared records, Monitor/Bucket the
--   arithmetic of one hour, Monitor/Histogram the operations of `HistogramHistory`, Monitor/Daily is
--   `merge_hourly_to_daily`, and Monitor/Samples is `TrafficHistory`. The local hour or day of a time
--   stamp comes from chrono and is a parameter.
-- - Persistence: bandix-plus/src/persistence.rs. Persistence/Codec encodes and decodes records,
--   Persistence/Header the header of a ring, and Persistence/Ring opens, migrates, appends to and
--   reads a ring file. A disk is the file at the ring's path and the files set aside; the operating
--   system carries out what is asked of it.
-- - Conntrack: bandix-plus/src/conntrack.rs. Conntrack/Netlink is the two iterators over netlink
--   data, for any byte order of the target; Conntrack/Decode is `parse_flow_message` with what it
--   calls and `apply_event_messages`; Conntrack/Flows is `insert_flow` and `remove_flow`;
--   Conntrack/Statistics is `calculate_stats` and `replace_flows`.
-- - Dns: bandix-plus/src/dns.rs. Dns/Name is `read_dns_name`, Dns/Packet `parse_ipv4`, `parse_ipv6`
--   and the transport part of `parse_dns_packet`, Dns/Message `parse_dns_message`, Dns/Key
--   `DnsMatchKey`, Dns/Store the operations of `DnsMonitor` on its records, and Dns/Search its
--   `queries`. A text is the list of its bytes; the texts that the code formats for record types,
--   codes and answers are values that hold their parts; `String::from_utf8_lossy`, the texts of such
--   values in a search and the iteration order of a hash map are parameters.
--
-- Conventions: a machine integer is a natural number, with `saturating_add` and `wrapping_add`
-- written out where the code saturates or wraps; a byte string is a list of numbers; a fallible
-- function returns `Result` or `Option`. A `usize` has 32 bits, as on the narrowest targets of the releases: the sizes of
-- rings wrap there, and below 2 ^ 32 they are the same on 64 bits. The slices of the netlink
-- iterators are checked, and one out of range, a panic, is an error of its own. Loops are recursive on the rounds that the code bounds them
-- by: two VLAN headers, six IPv6 extension headers, one round per record of a ring. The loop over
-- netlink attributes takes rounds, and the length of the payload and one more is enough. The loop of
-- `read_dns_name` takes 146 rounds, one for each of 17 jumps and 128 labels and one that refuses; an
-- eviction takes one round per record held.
--
-- Not modelled: sockets, commands, JSON and HTTP, start-up, the collection of a snapshot, and
-- the reader task, the file and the statistics of the DNS monitor.
pub mod Base
pub mod Monitor
pub mod Persistence
pub mod Ebpf
pub mod Conntrack
pub mod Dns
