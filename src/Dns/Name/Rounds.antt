-- ===== src/Dns/Name/Rounds.antt =====
-- How long the loop of `read_dns_name` runs (bandix-plus/src/dns.rs).
use bandix_plus_lite.Base.{
  ℕ, zero, suc, ◌+◌, ◌-◌, ◌<◌, ◌≡◌, ◌≢◌, refl, List, [], ◌∷◌, length, length-append, get_or, arith,
}
use bandix_plus_lite.Base.Bytes.{slice}
use bandix_plus_lite.Dns.Name.{
  NameReader, NameStep, refused, finished, going, follow_pointer, read_label, name_step,
  out_of_rounds, continue_name, name_loop, start_name, name_rounds,
}

-- The rounds that the limits on jumps and labels leave.
abbrev pub rounds_left : NameReader → ℕ
rounds_left r = (17 - r.jumps) + (128 - length r.labels)

name_step-rounds :
    (packet : List ℕ) (r r' : NameReader)
    → name_step packet r ≡ going r'
    → rounds_left r' < rounds_left r
unfolding name_step follow_pointer read_label
name_step-rounds packet r r' h = ground (
  arith,
  h,
  length-append r.labels (slice packet (r.position + 1) (get_or packet r.position 0) ∷ []),
)

name_loop-ends :
    (rounds : ℕ) (packet : List ℕ) (r : NameReader)
    → rounds_left r < rounds
    → name_loop rounds packet r ≢ out_of_rounds
unfolding name_loop
name_loop-ends zero packet r h = absurd (omega arith)
name_loop-ends (suc rounds) packet r h =
    step_ends (λ r' p. name_loop-ends rounds packet r' p) (name_step packet r) refl
  where
    step_ends :
        ((r' : NameReader) → rounds_left r' < rounds → name_loop rounds packet r' ≢ out_of_rounds)
        → (s : NameStep) → name_step packet r ≡ s
        → continue_name s (λ r'. name_loop rounds packet r') ≢ out_of_rounds
    step_ends again refused e = cc
    step_ends again (finished labels next) e = cc
    step_ends again (going r') e = again r' (omega (arith, name_step-rounds packet r r' e, h))

-- Reading a name at any offset of any packet comes to an end, with a name or a refusal: the limits
-- on jumps and labels leave no loop of pointers that runs on.
pub read_name-ends :
    (packet : List ℕ) (offset : ℕ)
    → name_loop name_rounds packet (start_name offset) ≢ out_of_rounds
read_name-ends packet offset = name_loop-ends name_rounds packet (start_name offset) (omega arith)
