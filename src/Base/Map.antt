-- ===== src/Base/Map.antt =====
-- Hash maps as association lists, over keys with a Boolean equality. Nothing below depends on an
-- iteration order.
use Prim.Native.Nat.{ℕ}
use mathlib.Core.Path.{◌≡◌, refl, ap, sym, ◌∙◌}
use mathlib.Core.Logic.{◌↔◌, ◌≢◌, inl, inr}
use mathlib.Core.Bool.{Bool, true, false}
use mathlib.Core.Option.{Option, none, some}
use mathlib.Core.List.{List, [], ◌∷◌}
use bandix_plus_lite.Base.Tests.{if◌then◌else◌, ◌==◌, ==_iff, Bool-cases}

pub record Eq (K : Type 0) : Type 0 where
  pub beq : K → K → Bool
  pub beq_iff : (a b : K) → (beq a b ≡ true) ↔ (a ≡ b)

instance abbrev pub nat_eq : Eq ℕ
nat_eq = record { beq = ◌==◌; beq_iff = ==_iff }

module _ {K : Type 0} ⦃e : Eq K⦄ where
  pub beq_self : (k : K) → e.beq k k ≡ true
  beq_self k = (e.beq_iff k k).1 refl

  pub beq_ne : (k j : K) → k ≢ j → e.beq k j ≡ false
  beq_ne k j h = elim (Bool-cases (e.beq k j)) [
    | inl same ↦ absurd (h ((e.beq_iff k j).0 same))
    | inr other ↦ other
  ]

module _ {K V : Type 0} ⦃e : Eq K⦄ where
  unfoldable pub get : K → List (K × V) → Option V
  get k [] = none
  get k ((j, v) ∷ m) = if e.beq j k then some v else get k m

  unfoldable pub insert : K → V → List (K × V) → List (K × V)
  insert k v [] = (k, v) ∷ []
  insert k v ((j, w) ∷ m) = if e.beq j k then (k, v) ∷ m else (j, w) ∷ insert k v m

  unfoldable pub remove : K → List (K × V) → List (K × V)
  remove k [] = []
  remove k ((j, w) ∷ m) = if e.beq j k then remove k m else (j, w) ∷ remove k m

  pub get-insert_self : (k : K) (v : V) (m : List (K × V)) → get k (insert k v m) ≡ some v
  unfolding get insert
  get-insert_self k v [] = rw ((e.beq_iff k k).1 refl)
  get-insert_self k v ((j, w) ∷ m) = elim (Bool-cases (e.beq j k)) [
    | inl same ↦ rw (same, (e.beq_iff k k).1 refl)
    | inr other ↦ rw (other, other) (get-insert_self k v m)
  ]

  pub get-insert_ne : (k j : K) (v : V) (m : List (K × V)) → k ≢ j → get j (insert k v m) ≡ get j m
  unfolding get insert
  get-insert_ne k j v [] h = rw (beq_ne k j h)
  get-insert_ne k j v ((i, w) ∷ m) h = elim (Bool-cases (e.beq i k)) [
    | inl same ↦
        let i-ne : i ≢ j = λ q. h (sym ((e.beq_iff i k).0 same) ∙ q) in
        rw (same, beq_ne k j h, beq_ne i j i-ne)
    | inr other ↦ rw other (ap (λ t. if e.beq i j then some w else t) (get-insert_ne k j v m h))
  ]

  pub get-remove_self : (k : K) (m : List (K × V)) → get k (remove k m) ≡ none
  unfolding get remove
  get-remove_self k [] = refl
  get-remove_self k ((j, w) ∷ m) = elim (Bool-cases (e.beq j k)) [
    | inl same ↦ rw same (get-remove_self k m)
    | inr other ↦ rw (other, other) (get-remove_self k m)
  ]

  pub get-remove_ne : (k j : K) (m : List (K × V)) → k ≢ j → get j (remove k m) ≡ get j m
  unfolding get remove
  get-remove_ne k j [] h = refl
  get-remove_ne k j ((i, w) ∷ m) h = elim (Bool-cases (e.beq i k)) [
    | inl same ↦
        let i-ne : i ≢ j = λ q. h (sym ((e.beq_iff i k).0 same) ∙ q) in
        rw (same, beq_ne i j i-ne) (get-remove_ne k j m h)
    | inr other ↦ rw other (ap (λ t. if e.beq i j then some w else t) (get-remove_ne k j m h))
  ]
