-- ===== src/Persistence/Ring/Rotation.antt =====
-- A ring of slots read in age order: the lists behind the ring files of
-- bandix-plus/src/persistence.rs.
use native.Mathlib.Nat.{mod-eq_of_lt, mod-eq-sub-mod}
use bandix_plus_lite.Base.{
  ℕ, zero, suc, ◌+◌, ◌-◌, ◌%◌, ◌<◌, ◌≤◌, ◌≡◌, inl, inr, refl, sym, ap, ap₂, ◌∙◌, List, [], ◌∷◌,
  ◌++◌, ◌==◌, leb, if◌then◌else◌, length, take, drop, last, last_all, split_at, length-append,
  length-drop, length-take, take-append-drop, drop-append, take-append, drop-append_le,
  drop-append_add, drop_all, take_all, drop-drop, append-nil, append_assoc, Bool-cases, arith,
}

-- The slot behind slot `j` of `n`.
abbrev pub next_slot : ℕ → ℕ → ℕ
next_slot n j = if j + 1 == n then 0 else j + 1

next_slot-last : (n j : ℕ) → j + 1 ≡ n → next_slot n j ≡ 0
next_slot-last n j h = ground arith

next_slot-inner : (n j : ℕ) → j + 1 < n → next_slot n j ≡ j + 1
next_slot-inner n j h = ground arith

pub wraps_to_zero : (a n : ℕ) → 0 < n → a ≡ n → a % n ≡ 0
wraps_to_zero a n h e =
    mod-eq-sub-mod {n = a} {m = n} (omega arith)
    ∙ (let z : a - n ≡ 0 = omega arith in rw z (mod-eq_of_lt h))

pub start_before : (n wp c : ℕ) → wp < n → c ≤ wp → (wp + n - c) % n ≡ wp - c
start_before n wp c hw hc =
    mod-eq-sub-mod {n = wp + n - c} {m = n} (omega arith)
    ∙ (let e : wp + n - c - n ≡ wp - c = omega arith in
        rw e (mod-eq_of_lt {n = wp - c} {m = n} (omega arith)))

module _ {A : Type 0} where
  -- A slot is overwritten, or added behind the last one.
  abbrev pub put : ℕ → A → List A → List A
  put i v [] = v ∷ []
  put zero v (x ∷ xs) = v ∷ xs
  put (suc i) v (x ∷ xs) = x ∷ put i v xs

  -- The slots from the oldest on: `write_pos` is the slot that is written next.
  abbrev pub in_order : ℕ → List A → List A
  in_order wp slots = drop wp slots ++ take wp slots

  pub put-append :
      (front : List A) (x v : A) (back : List A) (i : ℕ)
      → i ≡ length front
      → put i v (front ++ (x ∷ back)) ≡ front ++ (v ∷ back)
  put-append [] x v back zero h = refl
  put-append [] x v back (suc i) h = absurd (omega arith)
  put-append (y ∷ front) x v back zero h = absurd (omega arith)
  put-append (y ∷ front) x v back (suc i) h =
      ap (λ t. y ∷ t) (put-append front x v back i (omega arith))

  pub put_end : (xs : List A) (v : A) (i : ℕ) → i ≡ length xs → put i v xs ≡ xs ++ (v ∷ [])
  put_end [] v i h = refl
  put_end (x ∷ xs) v zero h = absurd (omega arith)
  put_end (x ∷ xs) v (suc i) h = ap (λ t. x ∷ t) (put_end xs v i (omega arith))

  in_order_end : (xs : List A) (wp : ℕ) → wp ≡ length xs → in_order wp xs ≡ xs
  in_order_end xs wp h = rw (drop_all xs wp (omega arith), take_all xs wp (omega arith)) refl

  -- The last `n` of a list with `x` in front of `n` others.
  last-cons : (x : A) (ys : List A) (n : ℕ) → length ys ≡ n → last n (x ∷ ys) ≡ ys
  last-cons x ys n h = let e : suc (length ys) - n ≡ 1 = omega arith in ap (λ k. drop k (x ∷ ys)) e

  -- With room left, the new element joins behind the others.
  in_order-put_room :
      (xs : List A) (v : A) (n wp : ℕ)
      → length xs < n
      → wp ≡ length xs
      → in_order ((wp + 1) % n) (put wp v xs) ≡ xs ++ (v ∷ [])
  in_order-put_room xs v n wp h e = rw (put_end xs v wp e) (elim (Bool-cases (wp + 1 == n)) [
    | inl full ↦
        let z : (wp + 1) % n ≡ 0 = wraps_to_zero (wp + 1) n (omega arith) (ground arith) in
        rw (z, append-nil) refl
    | inr room ↦
        let z : (wp + 1) % n ≡ wp + 1 = mod-eq_of_lt (ground arith) in
        rw z (in_order_end (xs ++ (v ∷ [])) (wp + 1) (omega (arith, length-append xs (v ∷ []))))
  ])

  -- In a full ring it takes the place of the oldest.
  in_order-put_full :
      (front : List A) (x v : A) (back : List A) (n : ℕ)
      → length (front ++ (x ∷ back)) ≡ n
      → in_order ((length front + 1) % n) (put (length front) v (front ++ (x ∷ back)))
        ≡ (back ++ front) ++ (v ∷ [])
  in_order-put_full front x v [] n h =
      let l : length front + 1 ≡ n = omega (arith, length-append front (x ∷ [])) in
      rw (
        put-append front x v [] (length front) refl,
        wraps_to_zero (length front + 1) n (omega arith) l,
        append-nil,
      )
  in_order-put_full front x v (y ∷ back) n h =
      let l : length front + 1 < n = omega (arith, length-append front (x ∷ y ∷ back)) in
      let e : front ++ (v ∷ y ∷ back) ≡ (front ++ (v ∷ [])) ++ (y ∷ back) =
        sym (append_assoc front (v ∷ []) (y ∷ back)) in
      let k : length front + 1 ≡ length (front ++ (v ∷ [])) =
        omega (arith, length-append front (v ∷ [])) in
      rw
        (
          put-append front x v (y ∷ back) (length front) refl,
          mod-eq_of_lt l,
          e,
          drop-append (front ++ (v ∷ [])) (y ∷ back) (length front + 1) k,
          take-append (front ++ (v ∷ [])) (y ∷ back) (length front + 1) k,
          append_assoc,
        )
        refl

  -- Putting an element and stepping on keeps the newest `n` elements, in order.
  pub in_order-put :
      (xs : List A) (v : A) (n wp : ℕ)
      → wp < n
      → length xs ≤ n
      → (length xs < n → wp ≡ length xs)
      → in_order ((wp + 1) % n) (put wp v xs) ≡ last n (in_order wp xs ++ (v ∷ []))
  in_order-put xs v n wp hw hl room = elim (Bool-cases (length xs == n)) [
    | inr less ↦
        let e : wp ≡ length xs = room (ground arith) in
        let lt : length xs < n = ground arith in
        in_order-put_room xs v n wp lt e
        ∙ sym (
            rw (in_order_end xs wp e)
              (last_all n (xs ++ (v ∷ [])) (omega (arith, length-append xs (v ∷ [])))))
    | inl full ↦ full_case (ground arith) (split_at wp xs (ground arith))
  ]
    where
      full_case :
          length xs ≡ n
          → (front : List A) × (x : A) × (back : List A) × (xs ≡ front ++ (x ∷ back))
            × (length front ≡ wp)
          → in_order ((wp + 1) % n) (put wp v xs) ≡ last n (in_order wp xs ++ (v ∷ []))
      full_case l (front, x, back, e, lf) =
          rw
            (
              ← lf,
              e,
              drop-append front (x ∷ back) (length front) refl,
              take-append front (x ∷ back) (length front) refl,
            )
            (in_order-put_full front x v back n lx
              ∙ sym (last-cons x ((back ++ front) ++ (v ∷ [])) n (omega (arith, ll, lx))))
        where
          lx : length (front ++ (x ∷ back)) ≡ n
          lx = ap length (sym e) ∙ l

          ll : length ((back ++ front) ++ (v ∷ [])) ≡ length (front ++ (x ∷ back))
          ll = omega (
            arith,
            length-append (back ++ front) (v ∷ []),
            length-append back front,
            length-append front (x ∷ back),
          )

  -- `k` slots read one after the other from slot `j` on, going round behind slot `n - 1`.
  unfoldable pub window : List A → ℕ → ℕ → ℕ → List A
  window xs n j zero = []
  window xs n j (suc k) = take 1 (drop j xs) ++ window xs n (next_slot n j) k

  take-suc : (k : ℕ) (ys : List A) → take (suc k) ys ≡ take 1 ys ++ take k (drop 1 ys)
  take-suc zero [] = refl
  take-suc (suc k) [] = refl
  take-suc k (y ∷ ys) = refl

  window_straight :
      (xs : List A) (n j k : ℕ)
      → j + k ≤ length xs
      → length xs ≤ n
      → window xs n j k ≡ take k (drop j xs)
  unfolding window
  window_straight xs n j zero h l = refl
  window_straight xs n j (suc zero) h l = append-nil (take 1 (drop j xs))
  window_straight xs n j (suc (suc k)) h l =
      let e : next_slot n j ≡ j + 1 = next_slot-inner n j (omega arith) in
      rw (take-suc (suc k) (drop j xs), drop-drop 1 j xs)
        (ap (λ t. take 1 (drop j xs) ++ t)
          (ap (λ t. window xs n t (suc k)) e
            ∙ window_straight xs n (j + 1) (suc k) (omega arith) l))

  window_round :
      (xs : List A) (n j d k m : ℕ)
      → length xs ≡ n
      → j + suc d ≡ n
      → m ≡ suc d + k
      → window xs n j m ≡ drop j xs ++ window xs n 0 k
  unfolding window
  window_round xs n j d k zero l e h = absurd (omega arith)
  window_round xs n j zero k (suc m) l e h =
      rw (take_all (drop j xs) 1 (omega (arith, length-drop j xs)))
        (ap₂ (λ s t. drop j xs ++ window xs n s t) (next_slot-last n j e) m-eq-k)
    where
      m-eq-k : m ≡ k
      m-eq-k = omega arith
  window_round xs n j (suc d) k (suc m) l e h =
      ap (λ t. take 1 (drop j xs) ++ t)
        (ap (λ t. window xs n t m) (next_slot-inner n j (omega arith))
          ∙ window_round xs n (j + 1) d k m l (omega arith) (omega arith))
      ∙ sym (append_assoc (take 1 (drop j xs)) (drop (j + 1) xs) (window xs n 0 k))
      ∙ ap (λ t. t ++ window xs n 0 k)
          (ap (λ t. take 1 (drop j xs) ++ t) (sym (drop-drop 1 j xs))
            ∙ take-append-drop 1 (drop j xs))

  drop-take : (a c m : ℕ) (xs : List A) → m ≡ a + c → drop a (take m xs) ≡ take c (drop a xs)
  drop-take zero c m xs h = let e : m ≡ c = omega arith in ap (λ k. take k xs) e
  drop-take (suc a) c zero xs h = absurd (omega arith)
  drop-take (suc a) zero (suc m) [] h = refl
  drop-take (suc a) (suc c) (suc m) [] h = refl
  drop-take (suc a) c (suc m) (x ∷ xs) h = drop-take a c m xs (omega arith)

  window_room :
      (xs : List A) (n wp c : ℕ)
      → wp < n
      → wp ≡ length xs
      → c ≤ length xs
      → window xs n ((wp + n - c) % n) c ≡ last c (in_order wp xs)
  window_room xs n wp c hw e hc =
      ap (λ t. window xs n t c) (start_before n wp c hw (omega arith))
      ∙ window_straight xs n (wp - c) c (omega arith) (omega arith)
      ∙ take_all (drop (wp - c) xs) c (omega (arith, length-drop (wp - c) xs))
      ∙ (let z : wp - c ≡ length xs - c = omega arith in ap (λ k. drop k xs) z)
      ∙ ap (last c) (sym (in_order_end xs wp e))

  pub length-in_order :
      (xs : List A) (wp : ℕ) → wp ≤ length xs → length (in_order wp xs) ≡ length xs
  length-in_order xs wp h =
      omega (arith, length-append (drop wp xs) (take wp xs), length-drop wp xs, length-take wp xs)

  -- The newest slots do not reach round the end of the ring.
  window_near :
      (xs : List A) (n wp c : ℕ)
      → wp < n
      → length xs ≡ n
      → c ≤ wp
      → window xs n ((wp + n - c) % n) c ≡ last c (in_order wp xs)
  window_near xs n wp c hw l hc =
      ap (λ t. window xs n t c) (start_before n wp c hw hc)
      ∙ window_straight xs n (wp - c) c (omega arith) (omega arith)
      ∙ sym (drop-take (wp - c) c wp xs (omega arith))
      ∙ sym (
          drop-append_add (drop wp xs) (take wp xs) (length (in_order wp xs) - c) (wp - c)
            (omega (arith, length-in_order xs wp (omega arith), length-drop wp xs)))

  -- The newest slots reach round the end of the ring.
  window_far :
      (xs : List A) (n wp c : ℕ)
      → wp < n
      → length xs ≡ n
      → wp < c
      → c ≤ n
      → window xs n ((wp + n - c) % n) c ≡ last c (in_order wp xs)
  window_far xs n wp c hw l hc hn =
      ap (λ t. window xs n t c) (mod-eq_of_lt {n = wp + n - c} {m = n} (omega arith))
      ∙ window_round xs n (wp + n - c) (c - wp - 1) wp c l (omega arith) (omega arith)
      ∙ ap₂ ◌++◌ front (window_straight xs n 0 wp (omega arith) (omega arith))
      ∙ sym (
          drop-append_le (drop wp xs) (take wp xs) (length (in_order wp xs) - c)
            (omega (arith, length-in_order xs wp (omega arith), length-drop wp xs)))
    where
      front : drop (wp + n - c) xs ≡ drop (length (in_order wp xs) - c) (drop wp xs)
      front =
          (let e : wp + n - c ≡ wp + (length (in_order wp xs) - c) =
              omega (arith, length-in_order xs wp (omega arith)) in
            ap (λ k. drop k xs) e)
          ∙ sym (drop-drop (length (in_order wp xs) - c) wp xs)

  -- The `c` slots that end just before the write position are the `c` newest elements.
  pub window-start :
      (xs : List A) (n wp c : ℕ)
      → wp < n
      → length xs ≤ n
      → (length xs < n → wp ≡ length xs)
      → c ≤ length xs
      → window xs n ((wp + n - c) % n) c ≡ last c (in_order wp xs)
  window-start xs n wp c hw hl room hc = elim (Bool-cases (length xs == n)) [
    | inr less ↦ window_room xs n wp c hw (room (ground arith)) hc
    | inl full ↦ elim (Bool-cases (leb c wp)) [
      | inl near ↦ window_near xs n wp c hw (ground arith) (ground arith)
      | inr far ↦ window_far xs n wp c hw (ground arith) (ground arith) (ground arith)
    ]
  ]
