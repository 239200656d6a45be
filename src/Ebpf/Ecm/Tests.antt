-- ===== src/Ebpf/Ecm/Tests.antt =====
-- Hook calls on two processors (bandix-plus-ebpf/src/main.rs).
use bandix_plus_lite.Base.{
  ℕ, ◌≡◌, ◌≢◌, refl, sym, ap, subst, ◌∙◌, List, [], ◌∷◌, get_or, length, Option, some, none, ltb,
  ◌==◌, if◌then◌else◌, Bool-cases, inl, inr, arith,
}
use bandix_plus_lite.Base.Map.{Eq, get, insert, get-insert_self, get-insert_ne}
use bandix_plus_lite.Ebpf.Common.{EcmTrafficKey, TrafficValue}
use bandix_plus_lite.Ebpf.Counters.{PerCpuMap}
use bandix_plus_lite.Ebpf.Ecm.{ProbeContext}
use bandix_plus_lite.Ebpf.Ecm.Totals.{
  EcmCall, sync, ecm_key_beq, ecm_key_beq_iff, calls_share, plus,
}
use bandix_plus_lite.Ebpf.Ecm.Processors.{calls_on, ecm_run, ecm_run-get}

instance abbrev ecm_key_eq : Eq EcmTrafficKey
ecm_key_eq = record { beq = ecm_key_beq; beq_iff = ecm_key_beq_iff }

-- The hook's arguments: the address, then bytes and packets sent and received.
abbrev probe_of : ℕ → ℕ → ℕ → ℕ → ℕ → ProbeContext
probe_of ip tx_bytes rx_bytes tx_pkts rx_pkts = record {
  arg = λ i. some (get_or (ip ∷ tx_bytes ∷ rx_bytes ∷ tx_pkts ∷ rx_pkts ∷ []) i 0);
  probe_read = λ address. none;
}

abbrev sent_by_host : EcmTrafficKey
sent_by_host = record { ip = 7 ∷ 0 ∷ 0 ∷ 0 ∷ []; ip_version = 4; direction = 2 }

-- A map whose values are read and written per processor, under keys that all share.
abbrev PerCpuEntries : Type 0
PerCpuEntries = List (EcmTrafficKey × (ℕ → TrafficValue))

abbrev value_on : ℕ → Option (ℕ → TrafficValue) → Option TrafficValue
value_on cpu none = none
value_on cpu (some values) = some (values cpu)

abbrev set_on : ℕ → TrafficValue → Option (ℕ → TrafficValue) → ℕ → TrafficValue
set_on cpu v none at = if at == cpu then v else record { packets = 0; bytes = 0 }
set_on cpu v (some values) at = if at == cpu then v else values at

abbrev written_in :
    ℕ → EcmTrafficKey → TrafficValue → Option (ℕ → TrafficValue) → PerCpuEntries → PerCpuEntries
written_in cpu k v none m = m
written_in cpu k v (some values) m = insert k (set_on cpu v (some values)) m

set_self : (cpu : ℕ) (v : TrafficValue) (o : Option (ℕ → TrafficValue)) → set_on cpu v o cpu ≡ v
set_self cpu v none = ground arith
set_self cpu v (some values) = ground arith

set_other :
    (a b : ℕ) (v : TrafficValue) (values : ℕ → TrafficValue)
    → a ≢ b
    → set_on a v (some values) b ≡ values b
set_other a b v values ne = ground arith

abbrev cpu_insert : ℕ → EcmTrafficKey → TrafficValue → PerCpuEntries → Option PerCpuEntries
cpu_insert cpu k v m = if ltb (length m) 4 then some (insert k (set_on cpu v (get k m)) m) else none

cpu_insert-some :
    (cpu : ℕ) (k : EcmTrafficKey) (v : TrafficValue) (m m' : PerCpuEntries)
    → cpu_insert cpu k v m ≡ some m'
    → insert k (set_on cpu v (get k m)) m ≡ m'
cpu_insert-some cpu k v m m' h = ground arith

written_self :
    (cpu : ℕ) (k : EcmTrafficKey) (v w : TrafficValue) (m : PerCpuEntries)
    (o : Option (ℕ → TrafficValue))
    → value_on cpu o ≡ some w
    → value_on cpu (get k (written_in cpu k v o m)) ≡ some v
written_self cpu k v w m none h = absurd (cc h)
written_self cpu k v w m (some values) h =
    ap (value_on cpu) (get-insert_self k (set_on cpu v (some values)) m)
    ∙ ap some (set_self cpu v (some values))

written_ne :
    (a b : ℕ) (k j : EcmTrafficKey) (v : TrafficValue) (m : PerCpuEntries)
    (o : Option (ℕ → TrafficValue))
    → k ≢ j
    → value_on b (get j (written_in a k v o m)) ≡ value_on b (get j m)
written_ne a b k j v m none ne = refl
written_ne a b k j v m (some values) ne =
    ap (value_on b) (get-insert_ne k j (set_on a v (some values)) m ne)

written_other :
    (a b : ℕ) (k j : EcmTrafficKey) (v : TrafficValue) (m : PerCpuEntries)
    (o : Option (ℕ → TrafficValue))
    → get k m ≡ o
    → a ≢ b
    → value_on b (get j (written_in a k v o m)) ≡ value_on b (get j m)
written_other a b k j v m none there apart = refl
written_other a b k j v m (some values) there apart = elim (Bool-cases (ecm_key_eq.beq k j)) [
  | inr other ↦ written_ne a b k j v m (some values) (λ p. cc ((ecm_key_eq.beq_iff k j).1 p, other))
  | inl same ↦
      subst (λ i. value_on b (get i (insert k (set_on a v (some values)) m)) ≡ value_on b (get i m))
        ((ecm_key_eq.beq_iff k j).0 same)
        (ap (value_on b) (get-insert_self k (set_on a v (some values)) m)
          ∙ ap some (set_other a b v values apart)
          ∙ ap (value_on b) (sym there))
]

shared_keys : (a b : ℕ) (o : Option (ℕ → TrafficValue)) → value_on a o ≡ none → value_on b o ≡ none
shared_keys a b none h = refl
shared_keys a b (some values) h = absurd (cc h)

abbrev per_cpu_map : PerCpuMap PerCpuEntries EcmTrafficKey TrafficValue
per_cpu_map = record {
  view = λ cpu. record {
    get = λ k m. value_on cpu (get k m);
    write = λ k v m. written_in cpu k v (get k m) m;
    insert = cpu_insert cpu;
    get-write_self = λ k v w m h. written_self cpu k v w m (get k m) h;
    get-write_ne = λ k j v m ne. written_ne cpu cpu k j v m (get k m) ne;
    get-insert_self = λ k v m m' h.
        ap (λ n. value_on cpu (get k n)) (sym (cpu_insert-some cpu k v m m' h))
        ∙ ap (value_on cpu) (get-insert_self k (set_on cpu v (get k m)) m)
        ∙ ap some (set_self cpu v (get k m));
    get-insert_ne = λ k j v m m' h ne.
        ap (λ n. value_on cpu (get j n)) (sym (cpu_insert-some cpu k v m m' h))
        ∙ ap (value_on cpu) (get-insert_ne k j (set_on cpu v (get k m)) m ne);
  };
  get-shared = λ a b k m h. shared_keys a b (get k m) h;
  get-write_other = λ a b k j v m apart. written_other a b k j v m (get k m) refl apart;
  get-insert_other = λ a b k j v m m' h ne.
      ap (λ n. value_on b (get j n)) (sym (cpu_insert-some a k v m m' h))
      ∙ ap (value_on b) (get-insert_ne k j (set_on a v (get k m)) m ne);
}

-- The counter of the first host is near the largest u64 on the first processor.
abbrev ecm_counted : PerCpuEntries
ecm_counted =
    (
      sent_by_host,
      λ cpu.
          if cpu == 0
          then record { packets = 5; bytes = 18446744073709551610 }
          else record { packets = 0; bytes = 0 },
    )
    ∷ []

abbrev three_calls : List (ℕ × EcmCall)
three_calls =
    (0, sync (probe_of 7 1500 0 1 0))
    ∷ (1, sync (probe_of 7 70 0 1 0))
    ∷ (0, sync (probe_of 8 90 60 1 1))
    ∷ []

ecm_counted-present :
    value_on 0 (get sent_by_host ecm_counted)
    ≡ some (record { packets = 5; bytes = 18446744073709551610 })
unfolding get ecm_key_beq
ecm_counted-present = refl

ecm_run_example :
    value_on 0 (get sent_by_host (ecm_run per_cpu_map three_calls ecm_counted))
    ≡ some (
        plus
          (record { packets = 5; bytes = 18446744073709551610 })
          (calls_share sent_by_host (calls_on 0 three_calls)))
ecm_run_example =
    ecm_run-get per_cpu_map 0 sent_by_host three_calls ecm_counted
      (record { packets = 5; bytes = 18446744073709551610 }) (omega arith, omega arith)
      ecm_counted-present
