-- ===== src/Base/Addresses.antt =====
-- Network addresses, by the bytes of an address in network order.
use Prim.Native.Nat.{ℕ}
use mathlib.Core.List.{List}

-- `std::net::IpAddr`: four or sixteen bytes.
pub data IpAddr : Type 0 where
  v4 v6 : List ℕ → IpAddr
