-- ===== src/Ebpf/Ecm/Totals.antt =====
-- The ECM counters over any sequence of hook calls (bandix-plus-ebpf/src/main.rs).
use mathlib.Core.Option
use bandix_plus_lite.Base.{
  ℕ, ◌+◌, ◌<◌, ◌^◌, ◌%◌, ◌≡◌, ◌≢◌, ◌↔◌, inl, inr, refl, sym, ap, ◌∙◌, subst, List, [], ◌∷◌, Option,
  some, none, Bool, true, false, ◌&&◌, ◌==◌, ltb, if◌then◌else◌, Bool-cases, Option-cases, arith,
}
use bandix_plus_lite.Ebpf.Common.{EcmTrafficKey, TrafficValue, ip_v4, ip_v6, ingress, egress}
use bandix_plus_lite.Ebpf.Counters.{KernelMap}
use bandix_plus_lite.Ebpf.Ecm.{
  ProbeContext, arg_or_zero, ecm_key, ecm_inserted, ecm_found, ecm_count, ecm_both,
  ecm_bandix_sync_hook, ecm_read_ip, ecm_bandix_ipv6_sync_hook,
}

abbrev words_beq : List ℕ → List ℕ → Bool
words_beq [] [] = true
words_beq [] (y ∷ ys) = false
words_beq (x ∷ xs) [] = false
words_beq (x ∷ xs) (y ∷ ys) = x == y && words_beq xs ys

words_beq_iff : (a b : List ℕ) → (words_beq a b ≡ true) ↔ (a ≡ b)
words_beq_iff [] [] = ground arith
words_beq_iff [] (y ∷ ys) = ground arith
words_beq_iff (x ∷ xs) [] = ground arith
words_beq_iff (x ∷ xs) (y ∷ ys) = ground (arith, words_beq_iff xs ys)

unfoldable pub ecm_key_beq : EcmTrafficKey → EcmTrafficKey → Bool
ecm_key_beq a b = words_beq a.ip b.ip && a.ip_version == b.ip_version && a.direction == b.direction

pub ecm_key_beq_iff : (a b : EcmTrafficKey) → (ecm_key_beq a b ≡ true) ↔ (a ≡ b)
unfolding ecm_key_beq
ecm_key_beq_iff a b = ground (arith, words_beq_iff a.ip b.ip)

-- A call of one of the two hooks.
pub data EcmCall : Type 0 where
  sync ipv6_sync : ProbeContext → EcmCall

-- The address and family that a call is about, if it has one.
pub address_of : EcmCall → Option (List ℕ × ℕ)
address_of (sync ctx) =
    if arg_or_zero ctx 0 == 0 then none else some (arg_or_zero ctx 0 ∷ 0 ∷ 0 ∷ 0 ∷ [], ip_v4)
address_of (ipv6_sync ctx) =
    if arg_or_zero ctx 0 == 0
    then none
    else Option.map (λ ip. (ip, ip_v6)) (ctx.probe_read (arg_or_zero ctx 0))

-- The packets and bytes that one direction of a call adds to a counter.
pub share : EcmTrafficKey → EcmTrafficKey → ℕ → ℕ → ℕ × ℕ
share key k packets bytes = if ecm_key_beq k key && ltb 0 bytes then (packets, bytes) else (0, 0)

abbrev pub add_pair : ℕ × ℕ → ℕ × ℕ → ℕ × ℕ
add_pair a b = (a.0 + b.0, a.1 + b.1)

abbrev both_shares : EcmTrafficKey → ProbeContext → List ℕ × ℕ → ℕ × ℕ
both_shares key ctx (ip, version) =
    add_pair (share key (ecm_key ip version egress) (arg_or_zero ctx 3) (arg_or_zero ctx 1))
      (share key (ecm_key ip version ingress) (arg_or_zero ctx 4) (arg_or_zero ctx 2))

abbrev address_shares : EcmTrafficKey → ProbeContext → Option (List ℕ × ℕ) → ℕ × ℕ
address_shares key ctx none = (0, 0)
address_shares key ctx (some a) = both_shares key ctx a

pub call_share : EcmTrafficKey → EcmCall → ℕ × ℕ
call_share key (sync ctx) = address_shares key ctx (address_of (sync ctx))
call_share key (ipv6_sync ctx) = address_shares key ctx (address_of (ipv6_sync ctx))

unfoldable pub calls_share : EcmTrafficKey → List EcmCall → ℕ × ℕ
calls_share key [] = (0, 0)
calls_share key (c ∷ cs) = add_pair (call_share key c) (calls_share key cs)

-- A counter after so many packets and bytes more, in u64.
pub plus : TrafficValue → ℕ × ℕ → TrafficValue
plus v a = record { packets = (v.packets + a.0) % 2 ^ 64; bytes = (v.bytes + a.1) % 2 ^ 64 }

abbrev pub IsU64Value : TrafficValue → Type 0
IsU64Value v = (v.packets < 2 ^ 64) × (v.bytes < 2 ^ 64)

pub plus_zero : (v : TrafficValue) → IsU64Value v → plus v (0, 0) ≡ v
unfolding plus
plus_zero v u = ground (arith, u)

pub plus-plus : (v : TrafficValue) (a b : ℕ × ℕ) → plus (plus v a) b ≡ plus v (add_pair a b)
unfolding plus
plus-plus v a b =
    let p : ((v.packets + a.0) % 2 ^ 64 + b.0) % 2 ^ 64 ≡ (v.packets + (a.0 + b.0)) % 2 ^ 64 =
      omega arith in
    let q : ((v.bytes + a.1) % 2 ^ 64 + b.1) % 2 ^ 64 ≡ (v.bytes + (a.1 + b.1)) % 2 ^ 64 =
      omega arith in
    λ j. record { packets = p j; bytes = q j }

pub plus-IsU64 : (v : TrafficValue) (a : ℕ × ℕ) → IsU64Value (plus v a)
unfolding plus
plus-IsU64 v a = (omega arith, omega arith)

idle_share :
    (key : EcmTrafficKey) (ctx : ProbeContext) (a : List ℕ × ℕ)
    → (arg_or_zero ctx 1 == 0 && arg_or_zero ctx 2 == 0) ≡ true
    → both_shares key ctx a ≡ (0, 0)
unfolding share
idle_share key ctx (ip, version) idle = ground arith

module _ {M : Type 0} (maps : KernelMap M EcmTrafficKey TrafficValue) where
  found-get_self :
      (key : EcmTrafficKey) (packets bytes : ℕ) (m : M) (v : TrafficValue)
      → maps.get key m ≡ some v
      → maps.get key (ecm_found maps key packets bytes m (maps.get key m))
        ≡ some (plus v (packets, bytes))
  unfolding ecm_found plus
  found-get_self key packets bytes m v h =
      ap (λ o. maps.get key (ecm_found maps key packets bytes m o)) h
      ∙ maps.get-write_self key (plus v (packets, bytes)) v m h

  inserted-get_ne :
      (k key : EcmTrafficKey) (w : TrafficValue) (m : M) (o : Option M)
      → k ≢ key
      → maps.insert k w m ≡ o
      → maps.get key (ecm_inserted maps m o) ≡ maps.get key m
  inserted-get_ne k key w m none ne e = refl
  inserted-get_ne k key w m (some m') ne e = maps.get-insert_ne k key w m m' e ne

  found-get_ne :
      (k key : EcmTrafficKey) (packets bytes : ℕ) (m : M) (o : Option TrafficValue)
      → k ≢ key
      → maps.get key (ecm_found maps k packets bytes m o) ≡ maps.get key m
  unfolding ecm_found
  found-get_ne k key packets bytes m none ne =
      inserted-get_ne k key (record { packets = packets; bytes = bytes }) m
        (maps.insert k (record { packets = packets; bytes = bytes }) m) ne refl
  found-get_ne k key packets bytes m (some w) ne = maps.get-write_ne k key _ m ne

  ecm_count-get :
      (key k : EcmTrafficKey) (packets bytes : ℕ) (m : M) (v : TrafficValue)
      → IsU64Value v
      → maps.get key m ≡ some v
      → maps.get key (ecm_count maps k packets bytes m) ≡ some (plus v (share key k packets bytes))
  unfolding ecm_count share
  ecm_count-get key k packets bytes m v u h = elim (Bool-cases (ltb 0 bytes)) [
    | inl some_bytes ↦ elim (Bool-cases (ecm_key_beq k key)) [
      | inl same ↦
          let e : k ≡ key = (ecm_key_beq_iff k key).0 same in
          rw (some_bytes, same)
            (subst
              (λ j.
                maps.get key (ecm_found maps j packets bytes m (maps.get j m))
                ≡ some (plus v (packets, bytes)))
              (sym e) (found-get_self key packets bytes m v h))
      | inr other ↦
          rw (some_bytes, other)
            (found-get_ne k key packets bytes m (maps.get k m)
                (λ q. cc ((ecm_key_beq_iff k key).1 q, other))
              ∙ h
              ∙ ap some (sym (plus_zero v u)))
    ]
    | inr no_bytes ↦ elim (Bool-cases (ecm_key_beq k key)) [
      | inl same ↦ rw (no_bytes, same) (h ∙ ap some (sym (plus_zero v u)))
      | inr other ↦ rw (no_bytes, other) (h ∙ ap some (sym (plus_zero v u)))
    ]
  ]

  both-get :
      (key : EcmTrafficKey) (ctx : ProbeContext) (ip : List ℕ) (version : ℕ) (m : M)
      (v : TrafficValue)
      → IsU64Value v
      → maps.get key m ≡ some v
      → maps.get key (ecm_both maps ctx ip version m)
        ≡ some (plus v (both_shares key ctx (ip, version)))
  unfolding ecm_both
  both-get key ctx ip version m v u h =
      let a = share key (ecm_key ip version egress) (arg_or_zero ctx 3) (arg_or_zero ctx 1) in
      let b = share key (ecm_key ip version ingress) (arg_or_zero ctx 4) (arg_or_zero ctx 2) in
      ecm_count-get key (ecm_key ip version ingress) (arg_or_zero ctx 4) (arg_or_zero ctx 2)
        (ecm_count maps (ecm_key ip version egress) (arg_or_zero ctx 3) (arg_or_zero ctx 1) m)
        (plus v a) (plus-IsU64 v a)
        (ecm_count-get key (ecm_key ip version egress) (arg_or_zero ctx 3) (arg_or_zero ctx 1) m v u
          h)
      ∙ ap some (plus-plus v a b)

  -- A call of the hook that it names.
  unfoldable pub ecm_call : EcmCall → M → M
  ecm_call (sync ctx) m = ecm_bandix_sync_hook maps ctx m
  ecm_call (ipv6_sync ctx) m = ecm_bandix_ipv6_sync_hook maps ctx m

  pub ecm_call-get :
      (key : EcmTrafficKey) (c : EcmCall) (m : M) (v : TrafficValue)
      → IsU64Value v
      → maps.get key m ≡ some v
      → maps.get key (ecm_call c m) ≡ some (plus v (call_share key c))
  unfolding ecm_call call_share address_of ecm_bandix_sync_hook ecm_bandix_ipv6_sync_hook
      ecm_read_ip
  ecm_call-get key (sync ctx) m v u h = elim (Bool-cases (arg_or_zero ctx 0 == 0)) [
    | inl zero_ip ↦ rw zero_ip (h ∙ ap some (sym (plus_zero v u)))
    | inr an_ip ↦ elim (Bool-cases (arg_or_zero ctx 1 == 0 && arg_or_zero ctx 2 == 0)) [
      | inl idle ↦
          rw (an_ip, idle)
            (h
              ∙ ap some (
                  sym (plus_zero v u)
                  ∙ ap (plus v)
                      (sym (idle_share key ctx (arg_or_zero ctx 0 ∷ 0 ∷ 0 ∷ 0 ∷ [], ip_v4) idle))))
      | inr busy ↦ rw (an_ip, busy) (both-get key ctx _ ip_v4 m v u h)
    ]
  ]
  ecm_call-get key (ipv6_sync ctx) m v u h = elim (Bool-cases (arg_or_zero ctx 0 == 0)) [
    | inl zero_ip ↦ rw zero_ip (h ∙ ap some (sym (plus_zero v u)))
    | inr an_ip ↦ elim (Option-cases (ctx.probe_read (arg_or_zero ctx 0))) [
      | inl unread ↦ elim (Bool-cases (arg_or_zero ctx 1 == 0 && arg_or_zero ctx 2 == 0)) [
        | inl idle ↦ rw (an_ip, idle, unread) (h ∙ ap some (sym (plus_zero v u)))
        | inr busy ↦ rw (an_ip, busy, unread) (h ∙ ap some (sym (plus_zero v u)))
      ]
      | inr (ip, read) ↦ elim (Bool-cases (arg_or_zero ctx 1 == 0 && arg_or_zero ctx 2 == 0)) [
        | inl idle ↦
            rw (an_ip, idle, read)
              (h
                ∙ ap some
                    (sym (plus_zero v u) ∙ ap (plus v) (sym (idle_share key ctx (ip, ip_v6) idle))))
        | inr busy ↦ rw (an_ip, busy, read) (both-get key ctx ip ip_v6 m v u h)
      ]
    ]
  ]
