-- ===== src/Base/Equality.antt =====
-- Boolean equality of a type whose equality is decided (`#[derive(PartialEq)]`).
use mathlib.Core.Path.{◌≡◌, refl}
use mathlib.Core.Bool.{Bool, true, false}
use mathlib.Core.Logic.{◌↔◌}
use bandix_plus_lite.Base.Map.{Eq}

abbrev pub of_decision : {P : Type 0} → Dec P → Bool
of_decision (yes p) = true
of_decision (no h) = false

pub of_decision_iff : {P : Type 0} (d : Dec P) → (of_decision d ≡ true) ↔ P
of_decision_iff (yes p) = (λ h. p, λ q. refl)
of_decision_iff (no h) = (λ q. cc, λ q. absurd (h q))

abbrev pub decided_eq : {A : Type 0} → Discrete A → Eq A
decided_eq d = record { beq = λ a b. of_decision (d a b); beq_iff = λ a b. of_decision_iff (d a b) }
