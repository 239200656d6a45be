-- ===== src/Ebpf/Counters/Laws.antt =====
-- What a bump leaves in the counter maps (bandix-plus-ebpf/src/main.rs).
use bandix_plus_lite.Base.{ℕ, ◌≡◌, ◌≢◌, refl, Option, some, none}
use bandix_plus_lite.Ebpf.Common.{InterfaceTrafficKey, TrafficValue}
use bandix_plus_lite.Ebpf.Counters.{
  KernelMap, bump, inserted_or, bump_iface_found, bump_iface_counter,
}

module _ {I : Type 0} (maps : KernelMap I InterfaceTrafficKey TrafficValue) where
  -- A counter that is there is bumped.
  pub bump_iface_present :
      (key : InterfaceTrafficKey) (bytes : ℕ) (m : I) (v : TrafficValue)
      → maps.get key m ≡ some v
      → maps.get key (bump_iface_counter maps key bytes m) ≡ some (bump v bytes)
  unfolding bump_iface_counter
  bump_iface_present key bytes m v h = rw h (maps.get-write_self key (bump v bytes) v m h)

  inserted_ne :
      (key j : InterfaceTrafficKey) (bytes : ℕ) (m : I) (o : Option I)
      → key ≢ j
      → maps.insert key (record { packets = 1; bytes = bytes }) m ≡ o
      → maps.get j (inserted_or maps m o) ≡ maps.get j m
  inserted_ne key j bytes m none ne e = refl
  inserted_ne key j bytes m (some m') ne e = maps.get-insert_ne key j _ m m' e ne

  found_ne :
      (key j : InterfaceTrafficKey) (bytes : ℕ) (m : I) (o : Option TrafficValue)
      → key ≢ j
      → maps.get j (bump_iface_found maps key bytes m o) ≡ maps.get j m
  unfolding bump_iface_found
  found_ne key j bytes m none ne =
      inserted_ne key j bytes m (maps.insert key (record { packets = 1; bytes = bytes }) m) ne refl
  found_ne key j bytes m (some v) ne = maps.get-write_ne key j (bump v bytes) m ne

  -- Every other counter stays as it is.
  pub bump_iface_ne :
      (key j : InterfaceTrafficKey) (bytes : ℕ) (m : I)
      → key ≢ j
      → maps.get j (bump_iface_counter maps key bytes m) ≡ maps.get j m
  unfolding bump_iface_counter
  bump_iface_ne key j bytes m ne = found_ne key j bytes m (maps.get key m) ne
