-- ===== src/Conntrack/Statistics/Counts.antt =====
-- The statistics of the flows against plain counting (bandix-plus/src/conntrack.rs).
use bandix_plus_lite.Base.{
  ℕ, suc, ◌^◌, ◌<◌, ◌≤◌, ◌≡◌, inl, inr, ◌+◌, refl, sym, ap, ap₂, ◌∙◌, ◌==◌, ◌&&◌, ◌||◌, List, [],
  ◌∷◌, Option, some, none, Bool, true, false, if◌then◌else◌, length, All, arith, Bool-cases,
}
use bandix_plus_lite.Base.Map.{get, insert, get-insert_self, get-insert_ne}
use bandix_plus_lite.Base.Addresses.{IpAddr}
use bandix_plus_lite.Conntrack.Decode.{ConnectionFlow}
use bandix_plus_lite.Conntrack.Statistics.{
  Label, label_eq, ConnectionCounts, no_connections, KnownDevice, ConnectionDeviceStats, count_flow,
  owns, owners, only_one, ip_eq, unique_identity_for_ip, entry_or_new, Devices, count_for,
  count_flows, calculate_stats, values,
}
use mathlib.Core.List.{Perm}
use mathlib.Core.List.Perm
use bandix_plus_lite.Conntrack.Statistics.Listed.{
  IsKeyed, IsFoundIn, All-weaken, count_flows-IsKeyed, values-IsFoundIn, sort_devices-Perm,
}
use bandix_plus_lite.Conntrack.Statistics.Tally.{counts_of, count_all, count_all-exact}

-- Whether an address is among those of a device.
pub listed : IpAddr → List IpAddr → Bool
listed ip [] = false
listed ip (x ∷ xs) = if ip_eq.beq x ip then true else listed ip xs

pub has_address : IpAddr → KnownDevice → Bool
has_address ip d = if listed ip d.ipv4 then true else listed ip d.ipv6

-- How many devices have an address, and whether one of this hardware address has it.
pub owner_count : IpAddr → List KnownDevice → ℕ
owner_count ip [] = 0
owner_count ip (d ∷ identities) =
    if has_address ip d then 1 + owner_count ip identities else owner_count ip identities

pub owned_under : Label → IpAddr → List KnownDevice → Bool
owned_under mac ip [] = false
owned_under mac ip (d ∷ identities) =
    if has_address ip d && label_eq.beq d.mac mac then true else owned_under mac ip identities

-- Exactly one device has the address, and it is the one of this hardware address.
pub only_owner : List KnownDevice → Label → IpAddr → Bool
only_owner identities mac ip = owner_count ip identities == 1 && owned_under mac ip identities

abbrev is_of : Label → Option KnownDevice → Bool
is_of mac none = false
is_of mac (some d) = label_eq.beq d.mac mac

-- The flows of one device.
pub attributed : List KnownDevice → Label → List ConnectionFlow → List ConnectionFlow
attributed identities mac [] = []
attributed identities mac (f ∷ flows) =
    let rest = attributed identities mac flows in
    if only_owner identities mac f.orig.src then (f ∷ rest) else rest

owns-listed : (ip : IpAddr) (xs : List IpAddr) → owns ip xs ≡ listed ip xs
unfolding listed
owns-listed ip [] = refl
owns-listed ip (x ∷ xs) = rw (owns-listed ip xs) (ground arith)

owns-has_address :
    (ip : IpAddr) (d : KnownDevice) → (owns ip d.ipv4 || owns ip d.ipv6) ≡ has_address ip d
unfolding has_address
owns-has_address ip d = rw (owns-listed ip d.ipv4, owns-listed ip d.ipv6) (ground arith)

abbrev under : Label → List KnownDevice → Bool
under mac [] = false
under mac (d ∷ ds) = if label_eq.beq d.mac mac then true else under mac ds

owners-count :
    (mac : Label) (ip : IpAddr) (identities : List KnownDevice)
    → (length (owners identities ip) ≡ owner_count ip identities)
      × (under mac (owners identities ip) ≡ owned_under mac ip identities)
unfolding owner_count owned_under
owners-count mac ip [] = (refl, refl)
owners-count mac ip (d ∷ identities) =
    let (count, found) = owners-count mac ip identities in
    rw (owns-has_address ip d) (elim (Bool-cases (has_address ip d)) [
      | inl has ↦ rw has (omega (arith, count), rw found)
      | inr without ↦ rw without (count, found)
    ])

only_one-is_of :
    (mac : Label) (ds : List KnownDevice)
    → is_of mac (only_one ds) ≡ (length ds == 1 && under mac ds)
only_one-is_of mac [] = refl
only_one-is_of mac (d ∷ []) = ground arith
only_one-is_of mac (d ∷ e ∷ more) = ground arith

is_of-only_owner :
    (identities : List KnownDevice) (mac : Label) (ip : IpAddr)
    → is_of mac (unique_identity_for_ip identities ip) ≡ only_owner identities mac ip
unfolding unique_identity_for_ip only_owner
is_of-only_owner identities mac ip =
    let (count, found) = owners-count mac ip identities in
    only_one-is_of mac (owners identities ip) ∙ ap₂ (λ n t. n == 1 && t) count found

-- The counts of a device; it is not listed without a flow.
abbrev pub counts_at : Option ConnectionDeviceStats → ConnectionCounts
counts_at none = no_connections
counts_at (some stats) = stats.counts

entry_or_new-counts :
    (d : KnownDevice) (now : ℕ) (o : Option ConnectionDeviceStats)
    → (entry_or_new d now o).counts ≡ counts_at o
entry_or_new-counts d now none = refl
entry_or_new-counts d now (some stats) = refl

count_for-counts :
    (mac : Label) (o : Option KnownDevice) (f : ConnectionFlow) (now : ℕ) (devices : Devices)
    → counts_at (get mac (count_for o f now devices)) ≡ (
        if is_of mac o
        then count_flow f.protocol f.state (counts_at (get mac devices))
        else counts_at (get mac devices))
count_for-counts mac none f now devices = refl
count_for-counts mac (some d) f now devices =
    let entry = entry_or_new d now (get d.mac devices) in
    let stats : ConnectionDeviceStats = record entry {
      counts = count_flow f.protocol f.state entry.counts;
    } in
    let one = count_flow f.protocol f.state (counts_at (get mac devices)) in
    let chosen : (t : Bool)
        → label_eq.beq d.mac mac ≡ t
        → (if t then one else counts_at (get mac devices))
          ≡ (if label_eq.beq d.mac mac then one else counts_at (get mac devices)) =
      λ t e. ap (λ u. if u then one else counts_at (get mac devices)) (sym e) in
    elim (Bool-cases (label_eq.beq d.mac mac)) [
      | inl same ↦
          let p : d.mac ≡ mac = (label_eq.beq_iff d.mac mac).0 same in
          ap (λ k. counts_at (get k (insert d.mac stats devices))) (sym p)
          ∙ ap counts_at (get-insert_self d.mac stats devices)
          ∙ ap (count_flow f.protocol f.state) (
              entry_or_new-counts d now (get d.mac devices) ∙ ap (λ k. counts_at (get k devices)) p)
          ∙ chosen true same
      | inr other ↦
          ap counts_at (
            get-insert_ne d.mac mac stats devices
              (λ p. absurd (true-ne_false (sym ((label_eq.beq_iff d.mac mac).1 p) ∙ other))))
          ∙ chosen false other
    ]
  where
    true-ne_false : true ≡ false → ⊥
    true-ne_false e = cc

count_flows-device :
    (mac : Label) (identities : List KnownDevice) (now : ℕ) (flows : List ConnectionFlow)
    (global : ConnectionCounts) (devices : Devices)
    → counts_at (get mac (count_flows flows identities now global devices).1)
      ≡ count_all (attributed identities mac flows) (counts_at (get mac devices))
unfolding count_flows count_all attributed
count_flows-device mac identities now [] global devices = refl
count_flows-device mac identities now (f ∷ flows) global devices =
    let o = unique_identity_for_ip identities f.orig.src in
    count_flows-device mac identities now flows (count_flow f.protocol f.state global)
      (count_for o f now devices)
    ∙ ap (count_all (attributed identities mac flows)) (count_for-counts mac o f now devices)
    ∙ pick (is_of mac o)
    ∙ ap (λ t. count_all (if t then f ∷ rest else rest) before)
        (is_of-only_owner identities mac f.orig.src)
  where
    before : ConnectionCounts
    before = counts_at (get mac devices)

    rest : List ConnectionFlow
    rest = attributed identities mac flows

    pick :
        (t : Bool)
        → count_all rest (if t then count_flow f.protocol f.state before else before)
          ≡ count_all (if t then f ∷ rest else rest) before
    pick true = refl
    pick false = refl

count_flows-global :
    (identities : List KnownDevice) (now : ℕ) (flows : List ConnectionFlow)
    (global : ConnectionCounts) (devices : Devices)
    → (count_flows flows identities now global devices).0 ≡ count_all flows global
unfolding count_flows count_all
count_flows-global identities now [] global devices = refl
count_flows-global identities now (f ∷ flows) global devices =
    count_flows-global identities now flows (count_flow f.protocol f.state global)
      (count_for (unique_identity_for_ip identities f.orig.src) f now devices)

length-attributed :
    (identities : List KnownDevice) (mac : Label) (flows : List ConnectionFlow)
    → length (attributed identities mac flows) ≤ length flows
unfolding attributed
length-attributed identities mac [] = omega arith
length-attributed identities mac (f ∷ flows) =
    pick (only_owner identities mac f.orig.src) (length-attributed identities mac flows)
  where
    pick :
        (t : Bool)
        → length (attributed identities mac flows) ≤ length flows
        → length
            (if t then f ∷ attributed identities mac flows else attributed identities mac flows)
          ≤ suc (length flows)
    pick true h = omega (arith, h)
    pick false h = omega (arith, h)

-- For fewer than 2 ^ 32 flows the totals are the plain counts of the flows, by protocol and TCP
-- state, and what is counted for a device are the plain counts of the flows whose origin is an
-- address of exactly one of the devices, where that one has this hardware address; and the devices
-- that are returned are those counted, each once, with the plain counts of their flows. The
-- iteration of the map gives each of its values once.
pub calculate_stats-exact :
    (iteration_order : Devices → Devices) (flows : List ConnectionFlow)
    (identities : List KnownDevice) (now : ℕ)
    → ((devices : Devices) → Perm (values (iteration_order devices)) (values devices))
    → length flows < 2 ^ 32
    → ((calculate_stats iteration_order flows identities now).0.counts ≡ counts_of flows)
      × ((mac : Label)
          → counts_at (get mac (count_flows flows identities now no_connections []).1)
            ≡ counts_of (attributed identities mac flows))
      × Perm
          (calculate_stats iteration_order flows identities now).1
          (values (count_flows flows identities now no_connections []).1)
      × All
          (λ stats. stats.counts ≡ counts_of (attributed identities stats.mac flows))
          (values (count_flows flows identities now no_connections []).1)
unfolding calculate_stats get IsKeyed IsFoundIn
calculate_stats-exact iteration_order flows identities now each_once few =
    let counted = (count_flows flows identities now no_connections []).1 in
    let exact : (mac : Label)
        → counts_at (get mac counted) ≡ counts_of (attributed identities mac flows) =
      λ mac.
        count_flows-device mac identities now flows no_connections []
        ∙ count_all-exact (attributed identities mac flows)
            (omega (arith, length-attributed identities mac flows)) in
    (
      count_flows-global identities now flows no_connections [] ∙ count_all-exact flows few,
      exact,
      Perm.trans (Perm.symm (sort_devices-Perm (values (iteration_order counted))))
          (each_once counted),
      All-weaken (values counted) (λ s found. sym (ap counts_at found) ∙ exact s.mac)
          (values-IsFoundIn counted
            (count_flows-IsKeyed flows identities now no_connections [] tt)),
    )
