-- ===== src/Ebpf/Program/Capture.antt =====
-- What `capture_dns_packet` submits (bandix-plus-ebpf/src/main.rs).
use bandix_plus_lite.Base.{
  ℕ, ◌<◌, ◌≤◌, ◌≡◌, ◌⊎◌, inl, inr, refl, ap, List, [], ◌∷◌, Option, none, some, true, false,
  Bool-cases, Option-cases, ltb, ◌==◌, ◌||◌, arith,
}
use bandix_plus_lite.Ebpf.Common.{Mac, dns_packet_max_bytes}
use bandix_plus_lite.Ebpf.Context.{TcContext}
use bandix_plus_lite.Ebpf.Meta.{PacketMeta}
use bandix_plus_lite.Ebpf.Dns.{is_dns_packet}
use bandix_plus_lite.Ebpf.Dns.Bounds.{MessageAt, is_dns_packet-MessageAt}
use bandix_plus_lite.Ebpf.Program.{DnsPacketEvent, event_header, submit, capture_dns_packet}

-- The hardware address that a header gives, and whether it is one.
pub address_field : Option Mac → Mac × ℕ
address_field none = (0 ∷ 0 ∷ 0 ∷ 0 ∷ 0 ∷ 0 ∷ [], 0)
address_field (some mac) = (mac, 1)

-- The captured event of a packet whose bytes were loaded.
pub event_of : TcContext → ℕ → PacketMeta → List ℕ → DnsPacketEvent
event_of ctx direction meta packet = record {
  header = record {
    timestamp_ns = ctx.ktime_ns;
    ifindex = ctx.ifindex;
    captured_len = ctx.len;
    ip_offset = meta.ip_offset;
    ip_version = meta.ip_version;
    direction = direction;
    mac = (address_field meta.mac).0;
    has_mac = (address_field meta.mac).1;
  };
  packet = packet;
}

event_header-event_of :
    (ctx : TcContext) (direction : ℕ) (meta : PacketMeta) (packet : List ℕ) (mac : Option Mac)
    → meta.mac ≡ mac
    → event_header ctx direction meta ≡ (event_of ctx direction meta packet).header
unfolding event_header event_of address_field
event_header-event_of ctx direction meta packet none e = rw e
event_header-event_of ctx direction meta packet (some mac) e = rw e

-- Why a packet is not submitted.
pub Withheld : TcContext → PacketMeta → Type 0
Withheld ctx meta =
    (ctx.len ≡ 0)
    ⊎ (dns_packet_max_bytes < ctx.len)
    ⊎ (is_dns_packet ctx meta.ip_offset meta.ip_version ctx.len ≡ false)
    ⊎ (ctx.slot_free ≡ false)
    ⊎ (ctx.skb_load_bytes ctx.len ≡ none)

module _ (ctx : TcContext) (meta : PacketMeta) where
  size-Withheld : (ctx.len == 0 || ltb dns_packet_max_bytes ctx.len) ≡ true → Withheld ctx meta
  unfolding Withheld
  size-Withheld bad = elim (Bool-cases (ctx.len == 0)) [
    | inl zero_len ↦ inl (ground arith)
    | inr some_len ↦ inr (inl (ground (arith, bad)))
  ]

  dns-Withheld :
      is_dns_packet ctx meta.ip_offset meta.ip_version ctx.len ≡ false → Withheld ctx meta
  unfolding Withheld
  dns-Withheld other = inr (inr (inl other))

  slot-Withheld : ctx.slot_free ≡ false → Withheld ctx meta
  unfolding Withheld
  slot-Withheld taken = inr (inr (inr (inl taken)))

  load-Withheld : ctx.skb_load_bytes ctx.len ≡ none → Withheld ctx meta
  unfolding Withheld
  load-Withheld failed = inr (inr (inr (inr failed)))

-- What a submitted event says of its packet.
pub record Submitted (ctx : TcContext) (direction : ℕ) (meta : PacketMeta)
    (before after : List DnsPacketEvent) : Type 0 where
  pub packet : List ℕ
  pub added : after ≡ event_of ctx direction meta packet ∷ before
  pub loaded : ctx.skb_load_bytes ctx.len ≡ some packet
  pub not_empty : 1 ≤ ctx.len
  pub in_slot : ctx.len ≤ dns_packet_max_bytes
  pub dns : MessageAt ctx meta.ip_offset meta.ip_version ctx.len

submit_cases :
    (ctx : TcContext) (direction : ℕ) (meta : PacketMeta) (events : List DnsPacketEvent)
    → 1 ≤ ctx.len
    → ctx.len ≤ dns_packet_max_bytes
    → MessageAt ctx meta.ip_offset meta.ip_version ctx.len
    → ((submit (event_header ctx direction meta) (ctx.skb_load_bytes ctx.len) events ≡ events)
        × Withheld ctx meta)
      ⊎ Submitted ctx direction meta events
          (submit (event_header ctx direction meta) (ctx.skb_load_bytes ctx.len) events)
unfolding submit event_of
submit_cases ctx direction meta events pos short dns =
    elim (Option-cases (ctx.skb_load_bytes ctx.len)) [
      | inl failed ↦ inl (rw failed, load-Withheld ctx meta failed)
      | inr (packet, loaded) ↦ inr (record {
        packet = packet;
        added = rw loaded (
            ap (λ h. record { header = h; packet = packet } ∷ events)
              (event_header-event_of ctx direction meta packet meta.mac refl));
        loaded = loaded;
        not_empty = pos;
        in_slot = short;
        dns = dns;
      })
    ]

-- Capturing a packet adds exactly one event, with the time, interface, length, place and family of
-- the IP header, direction and hardware address (zeros where there is none) of the packet and the
-- bytes loaded from it, all of a packet of 1 to 1600 bytes with a whole DNS header inside, or it
-- leaves the events as they are, which happens only where the packet is empty or longer than that,
-- is not taken for DNS, finds no room for an event, or cannot be loaded.
pub capture_cases :
    (ctx : TcContext) (direction : ℕ) (meta : PacketMeta) (events : List DnsPacketEvent)
    → ((capture_dns_packet ctx direction meta events ≡ events) × Withheld ctx meta)
      ⊎ Submitted ctx direction meta events (capture_dns_packet ctx direction meta events)
unfolding capture_dns_packet
capture_cases ctx direction meta events =
    elim (Bool-cases (ctx.len == 0 || ltb dns_packet_max_bytes ctx.len)) [
      | inl bad ↦ inl (rw bad, size-Withheld ctx meta bad)
      | inr short ↦ elim (Bool-cases (is_dns_packet ctx meta.ip_offset meta.ip_version ctx.len)) [
        | inr other ↦ inl (rw (short, other), dns-Withheld ctx meta other)
        | inl dns ↦ elim (Bool-cases ctx.slot_free) [
          | inr taken ↦ inl (rw (short, dns, taken), slot-Withheld ctx meta taken)
          | inl free ↦
              simp (short, dns, free)
                (submit_cases ctx direction meta events (ground arith) (ground arith)
                  (is_dns_packet-MessageAt ctx meta.ip_offset meta.ip_version ctx.len dns))
        ]
      ]
    ]
