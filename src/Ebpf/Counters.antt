-- ===== src/Ebpf/Counters.antt =====
-- The traffic counters of bandix-plus-ebpf/src/main.rs, over the kernel's maps.
pub mod Laws
use bandix_plus_lite.Base.{
  ℕ, ◌+◌, ◌≡◌, ◌≢◌, ◌↔◌, Option, some, none, Bool, true, false, ◌&&◌, ◌==◌, arith,
}
use bandix_plus_lite.Base.Bytes.{saturating_add}
use bandix_plus_lite.Ebpf.Common.{InterfaceTrafficKey, DeviceTrafficKey, TrafficValue}

-- A BPF hash map: `get`, a write through the pointer of `get_ptr_mut`, and `insert`, which fails
-- where the map is full. Its laws are what the kernel documents of a hash map.
pub record KernelMap (M K V : Type 0) : Type 0 where
  pub get : K → M → Option V
  pub write : K → V → M → M
  pub insert : K → V → M → Option M
  pub get-write_self : (k : K) (v w : V) (m : M) → get k m ≡ some w → get k (write k v m) ≡ some v
  pub get-write_ne : (k j : K) (v : V) (m : M) → k ≢ j → get j (write k v m) ≡ get j m
  pub get-insert_self : (k : K) (v : V) (m m' : M) → insert k v m ≡ some m' → get k m' ≡ some v
  pub get-insert_ne :
      (k j : K) (v : V) (m m' : M) → insert k v m ≡ some m' → k ≢ j → get j m' ≡ get j m

-- A per-CPU hash map: each processor reads and writes its own values, by the map as it sees it, and
-- all of them see the same keys.
pub record PerCpuMap (M K V : Type 0) : Type 0 where
  pub view : ℕ → KernelMap M K V
  pub get-shared : (a b : ℕ) (k : K) (m : M) → (view a).get k m ≡ none → (view b).get k m ≡ none
  pub get-write_other :
      (a b : ℕ) (k j : K) (v : V) (m : M)
      → a ≢ b
      → (view b).get j ((view a).write k v m) ≡ (view b).get j m
  pub get-insert_other :
      (a b : ℕ) (k j : K) (v : V) (m m' : M)
      → (view a).insert k v m ≡ some m'
      → k ≢ j
      → (view b).get j m' ≡ (view b).get j m

unfoldable pub bump : TrafficValue → ℕ → TrafficValue
bump value bytes = record {
  packets = saturating_add value.packets 1;
  bytes = saturating_add value.bytes bytes;
}

-- The device counters, and the count of those that found no room, as one processor sees it.
pub record DeviceMaps (D F : Type 0) : Type 0 where
  pub stats : D
  pub failures : F

module _ {I : Type 0} (maps : KernelMap I InterfaceTrafficKey TrafficValue) where
  -- `let _ = IFACE_TRAFFIC_STATS.insert(..)`: a failure changes nothing.
  abbrev pub inserted_or : I → Option I → I
  inserted_or m none = m
  inserted_or m (some m') = m'

  unfoldable pub bump_iface_found : InterfaceTrafficKey → ℕ → I → Option TrafficValue → I
  bump_iface_found key bytes m (some value) = maps.write key (bump value bytes) m
  bump_iface_found key bytes m none =
      inserted_or m (maps.insert key (record { packets = 1; bytes = bytes }) m)

  unfoldable pub bump_iface_counter : InterfaceTrafficKey → ℕ → I → I
  unfolding bump_iface_found
  bump_iface_counter key bytes m = bump_iface_found key bytes m (maps.get key m)

module _ {F : Type 0} (maps : KernelMap F ℕ ℕ) where
  abbrev pub failure_inserted_or : F → Option F → F
  failure_inserted_or m none = m
  failure_inserted_or m (some m') = m'

  unfoldable pub bump_failure_found : F → Option ℕ → F
  bump_failure_found m (some value) = maps.write 0 (saturating_add value 1) m
  bump_failure_found m none = failure_inserted_or m (maps.insert 0 1 m)

  unfoldable pub bump_device_insert_failure_count : F → F
  unfolding bump_failure_found
  bump_device_insert_failure_count m = bump_failure_found m (maps.get 0 m)

module _ {D F : Type 0} (maps : KernelMap D DeviceTrafficKey TrafficValue)
    (failure_maps : KernelMap F ℕ ℕ) where
  unfoldable pub device_inserted : DeviceMaps D F → Option D → DeviceMaps D F
  device_inserted s none = record s {
    failures = bump_device_insert_failure_count failure_maps s.failures;
  }
  device_inserted s (some stats) = record s { stats = stats }

  unfoldable pub bump_device_found :
      DeviceTrafficKey → ℕ → DeviceMaps D F → Option TrafficValue → DeviceMaps D F
  unfolding device_inserted
  bump_device_found key bytes s (some value) = record s {
    stats = maps.write key (bump value bytes) s.stats;
  }
  bump_device_found key bytes s none =
      device_inserted s (maps.insert key (record { packets = 1; bytes = bytes }) s.stats)

  unfoldable pub bump_device_counter : DeviceTrafficKey → ℕ → DeviceMaps D F → DeviceMaps D F
  unfolding bump_device_found
  bump_device_counter key bytes s = bump_device_found key bytes s (maps.get key s.stats)
