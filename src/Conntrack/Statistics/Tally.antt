-- ===== src/Conntrack/Statistics/Tally.antt =====
-- Counting flows without saturation (bandix-plus/src/conntrack.rs).
use bandix_plus_lite.Base.{
  ℕ, ◌+◌, ◌-◌, ◌^◌, ◌<◌, ◌≤◌, ◌≡◌, ap, ◌∙◌, List, [], ◌∷◌, Option, some, Bool, true, false,
  if◌then◌else◌, length, arith,
}
use bandix_plus_lite.Conntrack.Decode.{
  TcpState, established, fin_wait, close_wait, last_ack, closing, time_wait, FlowProtocol, tcp_flow,
  udp_flow, ConnectionFlow,
}
use bandix_plus_lite.Conntrack.Statistics.{
  label_eq, ConnectionCounts, no_connections, classify_tcp_state, count_flow,
}

-- How many flows pass a test.
pub tally : (ConnectionFlow → Bool) → List ConnectionFlow → ℕ
tally p [] = 0
tally p (f ∷ flows) = (if p f then 1 else 0) + tally p flows

abbrev pub is_tcp : FlowProtocol → Bool
is_tcp tcp_flow = true
is_tcp udp_flow = false

-- TCP flows by their state.
abbrev pub is_established : FlowProtocol → Option TcpState → Bool
is_established tcp_flow (some established) = true
is_established _ _ = false

abbrev pub is_closing : FlowProtocol → Option TcpState → Bool
is_closing tcp_flow (some time_wait) = true
is_closing tcp_flow (some fin_wait) = true
is_closing tcp_flow (some closing) = true
is_closing tcp_flow (some last_ack) = true
is_closing _ _ = false

abbrev pub is_close_wait : FlowProtocol → Option TcpState → Bool
is_close_wait tcp_flow (some close_wait) = true
is_close_wait _ _ = false

abbrev pub is_udp : FlowProtocol → Bool
is_udp tcp_flow = false
is_udp udp_flow = true

abbrev pub counts_of : List ConnectionFlow → ConnectionCounts
counts_of flows = record {
  total_connections = length flows;
  tcp_connections = tally (λ f. is_tcp f.protocol) flows;
  udp_connections = tally (λ f. is_udp f.protocol) flows;
  established_tcp = tally (λ f. is_established f.protocol f.state) flows;
  time_wait_tcp = tally (λ f. is_closing f.protocol f.state) flows;
  close_wait_tcp = tally (λ f. is_close_wait f.protocol f.state) flows;
}

-- No count is above the number of flows.
record CountsBelow (n : ℕ) (c : ConnectionCounts) : Type 0 where
  total : c.total_connections ≤ n
  tcp : c.tcp_connections ≤ n
  udp : c.udp_connections ≤ n
  est : c.established_tcp ≤ n
  tw : c.time_wait_tcp ≤ n
  cw : c.close_wait_tcp ≤ n

abbrev one_if : Bool → ℕ
one_if b = if b then 1 else 0

-- One flow counted, without saturation.
abbrev plus_flow : FlowProtocol → Option TcpState → ConnectionCounts → ConnectionCounts
plus_flow p s c = record {
  total_connections = c.total_connections + 1;
  tcp_connections = c.tcp_connections + one_if (is_tcp p);
  udp_connections = c.udp_connections + one_if (is_udp p);
  established_tcp = c.established_tcp + one_if (is_established p s);
  time_wait_tcp = c.time_wait_tcp + one_if (is_closing p s);
  close_wait_tcp = c.close_wait_tcp + one_if (is_close_wait p s);
}

module _ (n : ℕ) (c : ConnectionCounts) (v : CountsBelow n c) (room : n < 2 ^ 32 - 1) where
  count_flow-plus : (p : FlowProtocol) (s : Option TcpState) → count_flow p s c ≡ plus_flow p s c
  unfolding count_flow classify_tcp_state
  count_flow-plus p s =
      let total : (count_flow p s c).total_connections ≡ (plus_flow p s c).total_connections =
        ground (arith, v.total) in
      let tcp : (count_flow p s c).tcp_connections ≡ (plus_flow p s c).tcp_connections =
        ground (arith, v.tcp) in
      let udp : (count_flow p s c).udp_connections ≡ (plus_flow p s c).udp_connections =
        ground (arith, v.udp) in
      let est : (count_flow p s c).established_tcp ≡ (plus_flow p s c).established_tcp =
        ground (arith, v.est) in
      let tw : (count_flow p s c).time_wait_tcp ≡ (plus_flow p s c).time_wait_tcp =
        ground (arith, v.tw) in
      let cw : (count_flow p s c).close_wait_tcp ≡ (plus_flow p s c).close_wait_tcp =
        ground (arith, v.cw) in
      λ j. record {
        total_connections = total j;
        tcp_connections = tcp j;
        udp_connections = udp j;
        established_tcp = est j;
        time_wait_tcp = tw j;
        close_wait_tcp = cw j;
      }

  plus_flow-CountsBelow :
      (p : FlowProtocol) (s : Option TcpState) → CountsBelow (n + 1) (plus_flow p s c)
  plus_flow-CountsBelow p s = record {
    total = omega (arith, v.total);
    tcp = ground (arith, v.tcp);
    udp = ground (arith, v.udp);
    est = ground (arith, v.est);
    tw = ground (arith, v.tw);
    cw = ground (arith, v.cw);
  }

-- All of the flows counted, one after the other.
unfoldable pub count_all : List ConnectionFlow → ConnectionCounts → ConnectionCounts
count_all [] c = c
count_all (f ∷ flows) c = count_all flows (count_flow f.protocol f.state c)

-- Two counts added.
abbrev plus_counts : ConnectionCounts → ConnectionCounts → ConnectionCounts
plus_counts c d = record {
  total_connections = c.total_connections + d.total_connections;
  tcp_connections = c.tcp_connections + d.tcp_connections;
  udp_connections = c.udp_connections + d.udp_connections;
  established_tcp = c.established_tcp + d.established_tcp;
  time_wait_tcp = c.time_wait_tcp + d.time_wait_tcp;
  close_wait_tcp = c.close_wait_tcp + d.close_wait_tcp;
}

same_counts :
    (a b : ConnectionCounts)
    → a.total_connections ≡ b.total_connections
    → a.tcp_connections ≡ b.tcp_connections
    → a.udp_connections ≡ b.udp_connections
    → a.established_tcp ≡ b.established_tcp
    → a.time_wait_tcp ≡ b.time_wait_tcp
    → a.close_wait_tcp ≡ b.close_wait_tcp
    → a ≡ b
same_counts a b total tcp udp est tw cw = λ j. record {
  total_connections = total j;
  tcp_connections = tcp j;
  udp_connections = udp j;
  established_tcp = est j;
  time_wait_tcp = tw j;
  close_wait_tcp = cw j;
}

count_all-counts :
    (flows : List ConnectionFlow) (n : ℕ) (c : ConnectionCounts)
    → CountsBelow n c
    → n + length flows < 2 ^ 32
    → count_all flows c ≡ plus_counts c (counts_of flows)
unfolding count_all tally
count_all-counts [] n c v room =
    same_counts c (plus_counts c (counts_of [])) (omega arith) (omega arith) (omega arith)
      (omega arith) (omega arith) (omega arith)
count_all-counts (f ∷ flows) n c v room =
    ap (count_all flows) (count_flow-plus n c v (omega arith) f.protocol f.state)
    ∙ count_all-counts flows (n + 1) (plus_flow f.protocol f.state c)
        (plus_flow-CountsBelow n c v (omega arith) f.protocol f.state) (omega arith)
    ∙ same_counts _ _ (omega arith) (omega arith) (omega arith) (omega arith) (omega arith)
        (omega arith)

no_connections-CountsBelow : CountsBelow 0 no_connections
no_connections-CountsBelow = record {
  total = omega arith;
  tcp = omega arith;
  udp = omega arith;
  est = omega arith;
  tw = omega arith;
  cw = omega arith;
}

pub count_all-exact :
    (flows : List ConnectionFlow)
    → length flows < 2 ^ 32
    → count_all flows no_connections ≡ counts_of flows
count_all-exact flows few =
    count_all-counts flows 0 no_connections no_connections-CountsBelow (omega arith)
    ∙ same_counts _ _ (omega arith) (omega arith) (omega arith) (omega arith) (omega arith)
        (omega arith)
