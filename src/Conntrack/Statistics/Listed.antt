-- ===== src/Conntrack/Statistics/Listed.antt =====
-- The devices that `calculate_stats` lists, against the map that it counts in
-- (bandix-plus/src/conntrack.rs).
use mathlib.Core.List.{Perm}
use mathlib.Core.List.Perm
use bandix_plus_lite.Base.{
  ℕ, Option, ◌≡◌, ◌≢◌, inl, inr, refl, sym, ap, ◌∙◌, List, [], ◌∷◌, some, none, All, Bool-cases,
  if◌then◌else◌,
}
use bandix_plus_lite.Base.Map.{get, insert, beq_self, beq_ne, get-insert_ne}
use bandix_plus_lite.Conntrack.Decode.{ConnectionFlow}
use bandix_plus_lite.Conntrack.Statistics.{
  Label, label_eq, KnownDevice, ConnectionDeviceStats, ConnectionCounts, Devices, entry_or_new,
  count_flow, count_for, count_flows, unique_identity_for_ip, comes_before, insert_sorted,
  sort_devices, values,
}

-- Each entry stands once, under its own hardware address.
unfoldable pub IsKeyed : Devices → Type 0
IsKeyed [] = Unit
IsKeyed ((k, s) ∷ devices) = (s.mac ≡ k) × (get k devices ≡ none) × IsKeyed devices

insert-IsKeyed :
    (k : Label) (s : ConnectionDeviceStats) (devices : Devices)
    → s.mac ≡ k
    → IsKeyed devices
    → IsKeyed (insert k s devices)
unfolding IsKeyed insert get
insert-IsKeyed k s [] e v = (e, refl, tt)
insert-IsKeyed k s ((j, w) ∷ devices) e v = elim (Bool-cases (label_eq.beq j k)) [
  | inl same ↦ rw same (e, ap (λ i. get i devices) (sym ((label_eq.beq_iff j k).0 same)) ∙ v.1, v.2)
  | inr other ↦
      let ne : k ≢ j = λ q. cc ((label_eq.beq_iff j k).1 (sym q), other) in
      rw other (v.0, get-insert_ne k j s devices ne ∙ v.1, insert-IsKeyed k s devices e v.2)
]

-- The entry that a device has, or gets, has its address.
entry-mac :
    (d : KnownDevice) (now : ℕ) (devices : Devices)
    → IsKeyed devices
    → (entry_or_new d now (get d.mac devices)).mac ≡ d.mac
unfolding IsKeyed get
entry-mac d now [] v = refl
entry-mac d now ((j, w) ∷ devices) v = elim (Bool-cases (label_eq.beq j d.mac)) [
  | inl same ↦ rw same (v.0 ∙ (label_eq.beq_iff j d.mac).0 same)
  | inr other ↦ rw other (entry-mac d now devices v.2)
]

count_for-IsKeyed :
    (o : Option KnownDevice) (f : ConnectionFlow) (now : ℕ) (devices : Devices)
    → IsKeyed devices
    → IsKeyed (count_for o f now devices)
count_for-IsKeyed none f now devices v = v
count_for-IsKeyed (some d) f now devices v =
    insert-IsKeyed d.mac _ devices (entry-mac d now devices v) v

pub count_flows-IsKeyed :
    (flows : List ConnectionFlow) (identities : List KnownDevice) (now : ℕ)
    (global : ConnectionCounts) (devices : Devices)
    → IsKeyed devices
    → IsKeyed (count_flows flows identities now global devices).1
unfolding count_flows
count_flows-IsKeyed [] identities now global devices v = v
count_flows-IsKeyed (f ∷ flows) identities now global devices v =
    count_flows-IsKeyed flows identities now (count_flow f.protocol f.state global)
      (count_for (unique_identity_for_ip identities f.orig.src) f now devices)
      (count_for-IsKeyed (unique_identity_for_ip identities f.orig.src) f now devices v)

-- The value of an entry is found under its address.
unfoldable pub IsFoundIn : Devices → ConnectionDeviceStats → Type 0
IsFoundIn devices s = get s.mac devices ≡ some s

pub All-weaken :
    {A : Type 0} {P Q : A → Type 0} (xs : List A) → ((x : A) → P x → Q x) → All P xs → All Q xs
All-weaken [] h v = v
All-weaken (x ∷ xs) h v = (h x v.0, All-weaken xs h v.1)

found_behind :
    (k : Label) (s t : ConnectionDeviceStats) (devices : Devices)
    → get k devices ≡ none
    → IsFoundIn devices t
    → IsFoundIn ((k, s) ∷ devices) t
unfolding IsFoundIn get
found_behind k s t devices absent found =
    let ne : k ≢ t.mac = λ q. cc (ap (λ i. get i devices) q, absent, found) in
    rw (beq_ne k t.mac ne) found

first_found :
    (k : Label) (s : ConnectionDeviceStats) (devices : Devices)
    → s.mac ≡ k
    → IsFoundIn ((k, s) ∷ devices) s
unfolding IsFoundIn get
first_found k s devices e =
    ap (λ i. if label_eq.beq i s.mac then some s else get s.mac devices) (sym e)
    ∙ ap (λ t. if t then some s else get s.mac devices) (beq_self s.mac)

pub values-IsFoundIn :
    (devices : Devices) → IsKeyed devices → All (IsFoundIn devices) (values devices)
unfolding IsKeyed
values-IsFoundIn [] v = tt
values-IsFoundIn ((k, s) ∷ devices) v = (
  first_found k s devices v.0,
  All-weaken (values devices) (λ t. found_behind k s t devices v.1) (values-IsFoundIn devices v.2),
)

insert_sorted-Perm :
    (d : ConnectionDeviceStats) (ds : List ConnectionDeviceStats)
    → Perm (d ∷ ds) (insert_sorted d ds)
insert_sorted-Perm d [] = Perm.refl (d ∷ [])
insert_sorted-Perm d (e ∷ ds) = elim (Bool-cases (comes_before e d)) [
  | inl before ↦ rw before (Perm.trans (Perm.swap e d ds) (Perm.cons e (insert_sorted-Perm d ds)))
  | inr behind ↦ rw behind (Perm.refl (d ∷ e ∷ ds))
]

pub sort_devices-Perm : (ds : List ConnectionDeviceStats) → Perm ds (sort_devices ds)
unfolding sort_devices
sort_devices-Perm [] = Perm.refl []
sort_devices-Perm (d ∷ ds) =
    Perm.trans (Perm.cons d (sort_devices-Perm ds)) (insert_sorted-Perm d (sort_devices ds))
