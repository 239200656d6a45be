-- ===== src/Ebpf/Ecm/Processors.antt =====
-- The ECM counters over the calls of several processors (bandix-plus-ebpf/src/main.rs):
-- ECM_TRAFFIC_STATS is a per-CPU map.
use bandix_plus_lite.Base.{
  ℕ, ◌≡◌, ◌≢◌, inl, inr, refl, sym, ap, ◌∙◌, subst, List, [], ◌∷◌, Option, some, none, ◌&&◌, ◌||◌,
  ◌==◌, ltb, if◌then◌else◌, Bool-cases, arith,
}
use bandix_plus_lite.Ebpf.Common.{EcmTrafficKey, TrafficValue, ip_v4, ip_v6, ingress, egress}
use bandix_plus_lite.Ebpf.Counters.{PerCpuMap}
use bandix_plus_lite.Ebpf.Ecm.{
  ProbeContext, arg_or_zero, ecm_key, ecm_inserted, ecm_found, ecm_count, ecm_both,
  ecm_bandix_sync_hook, ecm_read_ip, ecm_bandix_ipv6_sync_hook,
}
use bandix_plus_lite.Ebpf.Ecm.Totals.{
  EcmCall, sync, ipv6_sync, call_share, calls_share, plus, IsU64Value, plus_zero, plus-plus,
  plus-IsU64, ecm_call, ecm_call-get,
}

-- The calls that one processor makes.
pub calls_on : ℕ → List (ℕ × EcmCall) → List EcmCall
calls_on cpu [] = []
calls_on cpu ((at, c) ∷ cs) = if at == cpu then (c ∷ calls_on cpu cs) else calls_on cpu cs

module _ {M : Type 0} (maps : PerCpuMap M EcmTrafficKey TrafficValue) where
  -- The calls, each on its processor, in their order.
  unfoldable pub ecm_run : List (ℕ × EcmCall) → M → M
  ecm_run [] m = m
  ecm_run ((cpu, c) ∷ cs) m = ecm_run cs (ecm_call (maps.view cpu) c m)

  -- A call on another processor leaves the values of this one that are there.
  module _ (a b : ℕ) (apart : a ≢ b) where
    found-other :
        (k key : EcmTrafficKey) (packets bytes : ℕ) (m : M) (o : Option TrafficValue)
        (v : TrafficValue)
        → (maps.view a).get k m ≡ o
        → (maps.view b).get key m ≡ some v
        → (maps.view b).get key (ecm_found (maps.view a) k packets bytes m o) ≡ some v
    unfolding ecm_found
    found-other k key packets bytes m (some w) v e h = maps.get-write_other a b k key _ m apart ∙ h
    found-other k key packets bytes m none v e h =
        inserted_other ((maps.view a).insert k (record { packets = packets; bytes = bytes }) m) refl
      where
        absent : k ≢ key
        absent p = cc (subst (λ j. (maps.view b).get j m ≡ none) p (maps.get-shared a b k m e), h)

        inserted_other :
            (o : Option M)
            → (maps.view a).insert k (record { packets = packets; bytes = bytes }) m ≡ o
            → (maps.view b).get key (ecm_inserted (maps.view a) m o) ≡ some v
        inserted_other none p = h
        inserted_other (some m') p = maps.get-insert_other a b k key _ m m' p absent ∙ h

    count-other :
        (k key : EcmTrafficKey) (packets bytes : ℕ) (m : M) (v : TrafficValue)
        → (maps.view b).get key m ≡ some v
        → (maps.view b).get key (ecm_count (maps.view a) k packets bytes m) ≡ some v
    unfolding ecm_count
    count-other k key packets bytes m v h = elim (Bool-cases (ltb 0 bytes)) [
      | inl some_bytes ↦
          rw some_bytes (found-other k key packets bytes m ((maps.view a).get k m) v refl h)
      | inr no_bytes ↦ rw no_bytes h
    ]

    both-other :
        (key : EcmTrafficKey) (ctx : ProbeContext) (ip : List ℕ) (version : ℕ) (m : M)
        (v : TrafficValue)
        → (maps.view b).get key m ≡ some v
        → (maps.view b).get key (ecm_both (maps.view a) ctx ip version m) ≡ some v
    unfolding ecm_both
    both-other key ctx ip version m v h =
        count-other (ecm_key ip version ingress) key (arg_or_zero ctx 4) (arg_or_zero ctx 2)
          (ecm_count (maps.view a) (ecm_key ip version egress) (arg_or_zero ctx 3)
            (arg_or_zero ctx 1) m)
          v
          (count-other (ecm_key ip version egress) key (arg_or_zero ctx 3) (arg_or_zero ctx 1) m v
            h)

    read_ip-other :
        (key : EcmTrafficKey) (ctx : ProbeContext) (o : Option (List ℕ)) (m : M) (v : TrafficValue)
        → (maps.view b).get key m ≡ some v
        → (maps.view b).get key (ecm_read_ip (maps.view a) ctx o m) ≡ some v
    unfolding ecm_read_ip
    read_ip-other key ctx none m v h = h
    read_ip-other key ctx (some ip) m v h = both-other key ctx ip ip_v6 m v h

    call-other :
        (key : EcmTrafficKey) (c : EcmCall) (m : M) (v : TrafficValue)
        → (maps.view b).get key m ≡ some v
        → (maps.view b).get key (ecm_call (maps.view a) c m) ≡ some v
    unfolding ecm_call ecm_bandix_sync_hook ecm_bandix_ipv6_sync_hook
    call-other key (sync ctx) m v h =
        elim (Bool-cases
          (arg_or_zero ctx 0 == 0 || arg_or_zero ctx 1 == 0 && arg_or_zero ctx 2 == 0)) [
            | inl skip ↦ rw skip h
            | inr busy ↦ rw busy (both-other key ctx _ ip_v4 m v h)
          ]
    call-other key (ipv6_sync ctx) m v h =
        elim (Bool-cases
          (arg_or_zero ctx 0 == 0 || arg_or_zero ctx 1 == 0 && arg_or_zero ctx 2 == 0)) [
            | inl skip ↦ rw skip h
            | inr busy ↦ rw busy (read_ip-other key ctx (ctx.probe_read (arg_or_zero ctx 0)) m v h)
          ]

  -- Over any sequence of calls of the two hooks on any processors, the value that one processor has
  -- of a counter that is there, and that holds u64s, ends as it was plus the packets and bytes of
  -- that processor's calls that name its address, family and direction with some bytes, in u64,
  -- whatever its other calls and the other processors do.
  pub ecm_run-get :
      (cpu : ℕ) (key : EcmTrafficKey) (cs : List (ℕ × EcmCall)) (m : M) (v : TrafficValue)
      → IsU64Value v
      → (maps.view cpu).get key m ≡ some v
      → (maps.view cpu).get key (ecm_run cs m) ≡ some (plus v (calls_share key (calls_on cpu cs)))
  unfolding ecm_run calls_share calls_on
  ecm_run-get cpu key [] m v u h = h ∙ ap some (sym (plus_zero v u))
  ecm_run-get cpu key ((at, c) ∷ cs) m v u h = elim (Bool-cases (at == cpu)) [
    | inl here ↦
        let same : at ≡ cpu = ground (arith, here) in
        let one : (maps.view cpu).get key (ecm_call (maps.view at) c m)
            ≡ some (plus v (call_share key c)) =
          subst
            (λ p.
              (maps.view cpu).get key (ecm_call (maps.view p) c m)
              ≡ some (plus v (call_share key c)))
            (sym same) (ecm_call-get (maps.view cpu) key c m v u h) in
        rw here (
          ecm_run-get cpu key cs (ecm_call (maps.view at) c m) (plus v (call_share key c))
            (plus-IsU64 v (call_share key c)) one
          ∙ ap some (plus-plus v (call_share key c) (calls_share key (calls_on cpu cs))))
    | inr elsewhere ↦
        let apart : at ≢ cpu = λ p. ground (arith, p, elsewhere) in
        rw elsewhere (
          ecm_run-get cpu key cs (ecm_call (maps.view at) c m) v u
            (call-other at cpu apart key c m v h))
  ]
