-- ===== src/Conntrack/Decode/Tests.antt =====
-- A flow and an event on concrete bytes (bandix-plus/src/conntrack.rs).
use bandix_plus_lite.Base.{
  ℕ, ◌≡◌, ◌==◌, inl, refl, List, [], ◌∷◌, some, none, ok, if◌then◌else◌, arith, replicate,
}
use bandix_plus_lite.Base.Bytes.{from_be_acc}
use bandix_plus_lite.Conntrack.Tests.{little_endian}
use bandix_plus_lite.Conntrack.Flows.Table.{FlowsAreBounded}
use bandix_plus_lite.Conntrack.Decode.{
  flow_key_eq, FlowTable, parse_flow_message, apply_event_messages, tcp_flow, udp_flow,
  tcp_state_name, status_flags,
}
use bandix_plus_lite.Conntrack.Decode.Events.{apply_event_messages-FlowsAreBounded}
use bandix_plus_lite.Conntrack.Decode.Written.{four, written, endpoint}
use bandix_plus_lite.Conntrack.Decode.Written.Flow.{
  FlowNotice, NoticeFits, flow_attributes, parse_flow_message-written,
}

abbrev notice : FlowNotice
notice = record {
  protocol = 6;
  orig = four (10 ∷ 0 ∷ 0 ∷ 2 ∷ []) (1 ∷ 1 ∷ 1 ∷ 1 ∷ []);
  orig_sport = 40000;
  orig_dport = 443;
  reply = four (1 ∷ 1 ∷ 1 ∷ 1 ∷ []) (10 ∷ 0 ∷ 0 ∷ 2 ∷ []);
  reply_sport = 443;
  reply_dport = 40000;
  status = 0 ∷ 0 ∷ 0 ∷ 6 ∷ [];
  state = 3;
  orig_packets = 0 ∷ 0 ∷ 0 ∷ 0 ∷ 0 ∷ 0 ∷ 0 ∷ 9 ∷ [];
  orig_bytes = 0 ∷ 0 ∷ 0 ∷ 0 ∷ 0 ∷ 0 ∷ 2 ∷ 0 ∷ [];
  reply_packets = 0 ∷ 0 ∷ 0 ∷ 0 ∷ 0 ∷ 0 ∷ 0 ∷ 7 ∷ [];
  reply_bytes = 0 ∷ 0 ∷ 0 ∷ 0 ∷ 0 ∷ 0 ∷ 1 ∷ 0 ∷ [];
  id = 0 ∷ 0 ∷ 1 ∷ 5 ∷ [];
}

notice-NoticeFits : NoticeFits notice
notice-NoticeFits = record {
  known = inl refl;
  orig_fits = (refl, refl);
  reply_fits = (refl, refl);
  status_size = refl;
  orig_sizes = (refl, refl);
  reply_sizes = (refl, refl);
  id_size = refl;
}

parse_flow_message-written_example :
    parse_flow_message little_endian
      (2 ∷ 0 ∷ 0 ∷ 0 ∷ written little_endian (flow_attributes little_endian notice))
    ≡ ok (
        some (record {
          key = record {
            protocol = 6;
            orig = endpoint notice.orig 40000 443;
            reply = endpoint notice.reply 443 40000;
          };
          id = some (from_be_acc 0 notice.id);
          flow = record {
            id = some (from_be_acc 0 notice.id);
            protocol = if notice.protocol == 6 then tcp_flow else udp_flow;
            state = if notice.protocol == 6 then some (tcp_state_name 3) else none;
            orig = endpoint notice.orig 40000 443;
            reply = endpoint notice.reply 443 40000;
            orig_packets = from_be_acc 0 notice.orig_packets;
            orig_bytes = from_be_acc 0 notice.orig_bytes;
            reply_packets = from_be_acc 0 notice.reply_packets;
            reply_bytes = from_be_acc 0 notice.reply_bytes;
            flags = status_flags (from_be_acc 0 notice.status);
          };
        }))
parse_flow_message-written_example =
    parse_flow_message-written little_endian notice 2 0 0 0 notice-NoticeFits

abbrev no_flows : FlowTable little_endian
no_flows = record { flows = []; flow_ids = [] }

-- A message of the kind DONE, and bytes that are no message.
abbrev events : List ℕ
events = 20 ∷ 0 ∷ 0 ∷ 0 ∷ 3 ∷ 0 ∷ replicate 17 0

apply_event_messages_example :
    FlowsAreBounded (apply_event_messages little_endian events no_flows).0
apply_event_messages_example =
    apply_event_messages-FlowsAreBounded little_endian events no_flows (omega arith)
