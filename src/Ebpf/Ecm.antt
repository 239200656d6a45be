-- ===== src/Ebpf/Ecm.antt =====
-- The two kprobes of bandix-plus-ebpf/src/main.rs that follow the traffic which ECM accelerates.
-- `+=` on a u64 wraps in the release build that is loaded. ECM_TRAFFIC_STATS is a per-CPU map: a hook
-- reads and writes it as the processor that it runs on sees it, which is the map here; Processors
-- has the calls of several of them.
pub mod Totals
pub mod Processors
mod Tests
use mathlib.Core.Option
use bandix_plus_lite.Base.{
  ℕ, List, [], ◌∷◌, Option, some, none, Bool, true, false, ◌&&◌, ◌||◌, ◌==◌, ltb, if◌then◌else◌,
}
use bandix_plus_lite.Base.Bytes.{wrapping_add}
use bandix_plus_lite.Ebpf.Common.{EcmTrafficKey, TrafficValue, ip_v4, ip_v6, ingress, egress}
use bandix_plus_lite.Ebpf.Counters.{KernelMap}

-- What aya and the kernel answer a probe: `ctx.arg(i)`, and `bpf_probe_read_kernel` of the four
-- words at an address.
pub record ProbeContext : Type 0 where
  pub arg : ℕ → Option ℕ
  pub probe_read : ℕ → Option (List ℕ)

-- The five arguments, zero where one cannot be read. The first is the IPv4 address, or the address
-- of the IPv6 address.
abbrev pub arg_or_zero : ProbeContext → ℕ → ℕ
arg_or_zero ctx i = Option.get_or (ctx.arg i) 0

abbrev pub ecm_key : List ℕ → ℕ → ℕ → EcmTrafficKey
ecm_key ip version direction = record { ip = ip; ip_version = version; direction = direction }

module _ {M : Type 0} (maps : KernelMap M EcmTrafficKey TrafficValue) where
  -- `let _ = ECM_TRAFFIC_STATS.insert(..)`: a failure changes nothing.
  abbrev pub ecm_inserted : M → Option M → M
  ecm_inserted m none = m
  ecm_inserted m (some m') = m'

  unfoldable pub ecm_found : EcmTrafficKey → ℕ → ℕ → M → Option TrafficValue → M
  ecm_found key packets bytes m (some val) =
      maps.write key
        (record {
          packets = wrapping_add val.packets packets;
          bytes = wrapping_add val.bytes bytes;
        })
        m
  ecm_found key packets bytes m none =
      ecm_inserted m (maps.insert key (record { packets = packets; bytes = bytes }) m)

  -- What a hook does with the bytes and packets of one direction.
  unfoldable pub ecm_count : EcmTrafficKey → ℕ → ℕ → M → M
  unfolding ecm_found
  ecm_count key packets bytes m =
      if ltb 0 bytes then ecm_found key packets bytes m (maps.get key m) else m

  unfoldable pub ecm_both : ProbeContext → List ℕ → ℕ → M → M
  unfolding ecm_count
  ecm_both ctx ip version m =
      ecm_count (ecm_key ip version ingress) (arg_or_zero ctx 4) (arg_or_zero ctx 2)
        (ecm_count (ecm_key ip version egress) (arg_or_zero ctx 3) (arg_or_zero ctx 1) m)

  unfoldable pub ecm_bandix_sync_hook : ProbeContext → M → M
  unfolding ecm_both
  ecm_bandix_sync_hook ctx m =
      if arg_or_zero ctx 0 == 0 || (arg_or_zero ctx 1 == 0 && arg_or_zero ctx 2 == 0)
      then m
      else ecm_both ctx (arg_or_zero ctx 0 ∷ 0 ∷ 0 ∷ 0 ∷ []) ip_v4 m

  unfoldable pub ecm_read_ip : ProbeContext → Option (List ℕ) → M → M
  unfolding ecm_both
  ecm_read_ip ctx none m = m
  ecm_read_ip ctx (some ip) m = ecm_both ctx ip ip_v6 m

  unfoldable pub ecm_bandix_ipv6_sync_hook : ProbeContext → M → M
  unfolding ecm_read_ip
  ecm_bandix_ipv6_sync_hook ctx m =
      if arg_or_zero ctx 0 == 0 || (arg_or_zero ctx 1 == 0 && arg_or_zero ctx 2 == 0)
      then m
      else ecm_read_ip ctx (ctx.probe_read (arg_or_zero ctx 0)) m
