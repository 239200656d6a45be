-- ===== src/Ebpf/Program/Accounting.antt =====
-- The interface counters over any sequence of packets (bandix-plus-ebpf/src/main.rs).
use bandix_plus_lite.Base.{
  ℕ, ◌+◌, ◌<◌, ◌^◌, ◌≡◌, ◌↔◌, inl, inr, sym, ap, subst, ◌∙◌, List, [], ◌∷◌, Option, some, none,
  Bool, true, false, ◌&&◌, ◌==◌, if◌then◌else◌, Bool-cases, arith,
}
use bandix_plus_lite.Base.Bytes.{saturating_add}
use bandix_plus_lite.Ebpf.Common.{InterfaceTrafficKey, DeviceTrafficKey, TrafficValue}
use bandix_plus_lite.Ebpf.Context.{TcContext}
use bandix_plus_lite.Ebpf.Meta.{PacketMeta, resolve_packet_meta}
use bandix_plus_lite.Ebpf.Counters.{KernelMap, bump, bump_iface_counter}
use bandix_plus_lite.Ebpf.Counters.Laws.{bump_iface_present, bump_iface_ne}
use bandix_plus_lite.Ebpf.Program.{Config, State, iface_key, account, try_bandix_plus}

abbrev pub key_beq : InterfaceTrafficKey → InterfaceTrafficKey → Bool
key_beq a b = a.ifindex == b.ifindex && a.ip_version == b.ip_version && a.direction == b.direction

pub key_beq_iff : (a b : InterfaceTrafficKey) → (key_beq a b ≡ true) ↔ (a ≡ b)
key_beq_iff a b = ground arith

abbrev pub Packet : Type 0
Packet = TcContext × ℕ

-- Whether a packet is accounted to this interface, family and direction.
pub counts_for : Config → InterfaceTrafficKey → Packet → Bool
counts_for cfg key (ctx, direction) = elim (resolve_packet_meta cfg.filters ctx direction) [
  | none ↦ false
  | some meta ↦ key_beq (iface_key ctx direction meta) key
]

saturating_add-lt : (a b : ℕ) → saturating_add a b < 2 ^ 64
saturating_add-lt a b = omega arith

saturating_add_assoc :
    (a b c : ℕ) → saturating_add (saturating_add a b) c ≡ saturating_add a (b + c)
saturating_add_assoc a b c = omega arith

-- The packets and bytes accounted to a key in a sequence of packets.
pub packet_count : Config → InterfaceTrafficKey → List Packet → ℕ
packet_count cfg key [] = 0
packet_count cfg key (p ∷ ps) =
    if counts_for cfg key p then 1 + packet_count cfg key ps else packet_count cfg key ps

pub byte_count : Config → InterfaceTrafficKey → List Packet → ℕ
byte_count cfg key [] = 0
byte_count cfg key (p ∷ ps) =
    if counts_for cfg key p then p.0.len + byte_count cfg key ps else byte_count cfg key ps

module _ {I D F : Type 0} (ifaces : KernelMap I InterfaceTrafficKey TrafficValue)
    (devices : KernelMap D DeviceTrafficKey TrafficValue) (failures : KernelMap F ℕ ℕ)
    (cfg : Config) where
  pub run : List Packet → State I D F → State I D F
  run [] s = s
  run ((ctx, direction) ∷ ps) s =
      run ps (try_bandix_plus ifaces devices failures cfg ctx direction s)

  account-iface :
      (ctx : TcContext) (direction : ℕ) (key : InterfaceTrafficKey) (s : State I D F)
      (v : TrafficValue) (o : Option PacketMeta)
      → ifaces.get key s.iface ≡ some v
      → ifaces.get key (account ifaces devices failures cfg ctx direction o s).iface
        ≡ some (
            if (elim o [ none ↦ false | some meta ↦ key_beq (iface_key ctx direction meta) key ])
            then bump v ctx.len
            else v)
  unfolding account
  account-iface ctx direction key s v none h = h
  account-iface ctx direction key s v (some meta) h =
      elim (Bool-cases (key_beq (iface_key ctx direction meta) key)) [
        | inl same ↦
            let e : iface_key ctx direction meta ≡ key =
              (key_beq_iff (iface_key ctx direction meta) key).0 same in
            rw same (
              subst
                (λ j.
                  ifaces.get j
                    (bump_iface_counter ifaces (iface_key ctx direction meta) ctx.len s.iface)
                  ≡ some (bump v ctx.len))
                e
                (bump_iface_present ifaces (iface_key ctx direction meta) ctx.len s.iface v
                  (ap (λ j. ifaces.get j s.iface) e ∙ h)))
        | inr other ↦ rw other (
            bump_iface_ne ifaces (iface_key ctx direction meta) key ctx.len s.iface
              (λ q. cc ((key_beq_iff (iface_key ctx direction meta) key).1 q, other))
            ∙ h)
      ]

  -- Over any sequence of packets, the counter of an interface, family and direction that is there
  -- and holds u64s ends as it was plus the number and the bytes of the packets accounted to it,
  -- each stopped at the largest u64, whatever the other packets do.
  pub run-counts :
      (ps : List Packet) (key : InterfaceTrafficKey) (s : State I D F) (v : TrafficValue)
      → ifaces.get key s.iface ≡ some v
      → v.packets < 2 ^ 64
      → v.bytes < 2 ^ 64
      → (w : TrafficValue) × (ifaces.get key (run ps s).iface ≡ some w)
        × (w.packets ≡ saturating_add v.packets (packet_count cfg key ps))
        × (w.bytes ≡ saturating_add v.bytes (byte_count cfg key ps))
  unfolding run try_bandix_plus packet_count byte_count counts_for bump
  run-counts [] key s v h p b = (v, h, omega (arith, p), omega (arith, b))
  run-counts ((ctx, direction) ∷ ps) key s v h p b =
      elim (Bool-cases (counts_for cfg key (ctx, direction))) [
        | inl same ↦
            let step =
              account-iface ctx direction key s v (resolve_packet_meta cfg.filters ctx direction) h
              ∙ ap (λ t. some (if t then bump v ctx.len else v)) same in
            let (w, e, ep, eb) =
              run-counts ps key (try_bandix_plus ifaces devices failures cfg ctx direction s)
                (bump v ctx.len) step (saturating_add-lt v.packets 1)
                (saturating_add-lt v.bytes ctx.len) in
            (
              w,
              e,
              ep
                  ∙ saturating_add_assoc v.packets 1 (packet_count cfg key ps)
                  ∙ ap
                      (λ t.
                        saturating_add v.packets
                          (if t then 1 + packet_count cfg key ps else packet_count cfg key ps))
                      (sym same),
              eb
                  ∙ saturating_add_assoc v.bytes ctx.len (byte_count cfg key ps)
                  ∙ ap
                      (λ t.
                        saturating_add v.bytes
                          (if t then ctx.len + byte_count cfg key ps else byte_count cfg key ps))
                      (sym same),
            )
        | inr other ↦
            let step =
              account-iface ctx direction key s v (resolve_packet_meta cfg.filters ctx direction) h
              ∙ ap (λ t. some (if t then bump v ctx.len else v)) other in
            let (w, e, ep, eb) =
              run-counts ps key (try_bandix_plus ifaces devices failures cfg ctx direction s) v step
                p b in
            (
              w,
              e,
              ep
                  ∙ ap
                      (λ t.
                        saturating_add v.packets
                          (if t then 1 + packet_count cfg key ps else packet_count cfg key ps))
                      (sym other),
              eb
                  ∙ ap
                      (λ t.
                        saturating_add v.bytes
                          (if t then ctx.len + byte_count cfg key ps else byte_count cfg key ps))
                      (sym other),
            )
      ]
