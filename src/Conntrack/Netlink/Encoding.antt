-- ===== src/Conntrack/Netlink/Encoding.antt =====
-- Attributes as netlink lays them out, and the iterator over them
-- (bandix-plus/src/conntrack.rs).
use native.Mathlib.Nat.{mod-eq_of_lt}
use bandix_plus_lite.Base.{
  ℕ, zero, suc, ◌+◌, ◌-◌, ◌%◌, ◌^◌, ◌<◌, ◌≤◌, ◌≡◌, refl, sym, ap, ◌∙◌, List, [], ◌∷◌, ◌++◌, map,
  some, none, true, false, ◌&&◌, Bool-cases, inl, inr, ◌==◌, ltb, leb, length, drop, take,
  replicate, length-append, length-drop, length-replicate, drop-append, take-append,
  drop-append_add, drop-drop, All, ok, arith,
}
use bandix_plus_lite.Conntrack.Netlink.{
  ByteOrder, align, all_zero, next_attribute, yielded, attributes,
}

abbrev pub Attribute : Type 0
Attribute = ℕ × List ℕ

-- The kind has fourteen bits, and the length of the whole attribute sixteen.
abbrev pub IsAttribute : Attribute → Type 0
IsAttribute a = (a.0 < 2 ^ 14) × (4 + length a.1 < 2 ^ 16)

all_zero-append : (xs ys : List ℕ) → all_zero xs ≡ false → all_zero (xs ++ ys) ≡ false
all_zero-append [] ys h = cc h
all_zero-append (x ∷ xs) ys h = elim (Bool-cases (x == 0)) [
  | inl z ↦ rw z (all_zero-append xs ys (ap (λ t. t && all_zero xs) (sym z) ∙ h))
  | inr nz ↦ rw nz
]

all_zero-replicate : (n : ℕ) → all_zero (replicate n 0) ≡ true
all_zero-replicate zero = refl
all_zero-replicate (suc n) = all_zero-replicate n

module _ (order : ByteOrder) where
  -- Attributes one after the other, each padded to four bytes, before a tail.
  unfoldable pub encode_attributes : List Attribute → List ℕ → List ℕ
  unfolding align
  encode_attributes [] tail = tail
  encode_attributes ((kind, value) ∷ rest) tail =
      order.to_ne_bytes 2 (4 + length value)
      ++ (order.to_ne_bytes 2 kind
          ++ (value
              ++ (replicate (align (4 + length value) 4 - (4 + length value)) 0
                  ++ encode_attributes rest tail)))

  next_attribute-encoded :
      (buffer more : List ℕ) (offset kind : ℕ) (value pad : List ℕ)
      → IsAttribute (kind, value)
      → drop offset buffer
        ≡ order.to_ne_bytes 2 (4 + length value)
          ++ (order.to_ne_bytes 2 kind ++ (value ++ (pad ++ more)))
      → next_attribute order buffer offset
        ≡ (some (ok (kind, value)), offset + align (4 + length value) 4)
  unfolding next_attribute align
  next_attribute-encoded buffer more offset kind value pad fits h = rw (
    not_at_end, not_zero, enough, length_read, some_length, with_header, room, in_range, kind_read,
    kind_fits, value_read,
  )
    where
      t : List ℕ
      t = order.to_ne_bytes 2 (4 + length value)

      u : List ℕ
      u = order.to_ne_bytes 2 kind

      size : length buffer - offset ≡ 2 + (2 + (length value + length (pad ++ more)))
      size = omega (
        arith,
        sym (length-drop offset buffer) ∙ ap length h,
        order.length-to_ne_bytes 2 (4 + length value),
        order.length-to_ne_bytes 2 kind,
        length-append t (u ++ (value ++ (pad ++ more))),
        length-append u (value ++ (pad ++ more)),
        length-append value (pad ++ more),
      )

      not_at_end : leb (length buffer) offset ≡ false
      not_at_end = ground (arith, size)

      t_not_zero : all_zero t ≡ false
      t_not_zero = elim (Bool-cases (all_zero t)) [
        | inl z ↦
            let e : 4 + length value ≡ 0 =
              order.zero-to_ne_bytes 2 (4 + length value) (omega (arith, fits.1)) z in
            absurd (omega (arith, e))
        | inr nz ↦ nz
      ]

      not_zero : all_zero (drop offset buffer) ≡ false
      not_zero = ap all_zero h ∙ all_zero-append t (u ++ (value ++ (pad ++ more))) t_not_zero

      enough : ltb (length buffer - offset) 4 ≡ false
      enough = ground (arith, size)

      length_read : order.from_ne_bytes (take 2 (drop offset buffer)) ≡ 4 + length value
      length_read =
          ap (λ r. order.from_ne_bytes (take 2 r)) h
          ∙ ap order.from_ne_bytes (
              take-append t (u ++ (value ++ (pad ++ more))) 2
                (sym (order.length-to_ne_bytes 2 (4 + length value))))
          ∙ order.from-to_ne_bytes 2 (4 + length value) (omega (arith, fits.1))

      some_length : (4 + length value == 0) ≡ false
      some_length = ground arith

      with_header : ltb (4 + length value) 4 ≡ false
      with_header = ground arith

      kind_fits : kind % 2 ^ 14 ≡ kind
      kind_fits = mod-eq_of_lt {n = kind} {m = 2 ^ 14} fits.0

      room : ltb (length buffer - offset) (4 + length value) ≡ false
      room = ground (arith, size)

      in_range : ltb (length (drop offset buffer)) (4 + length value) ≡ false
      in_range = ground (arith, size, length-drop offset buffer)

      behind_length : drop 2 (drop offset buffer) ≡ u ++ (value ++ (pad ++ more))
      behind_length =
          ap (drop 2) h
          ∙ drop-append t (u ++ (value ++ (pad ++ more))) 2
              (sym (order.length-to_ne_bytes 2 (4 + length value)))

      behind_header : drop 4 (drop offset buffer) ≡ value ++ (pad ++ more)
      behind_header =
          sym (drop-drop 2 2 (drop offset buffer))
          ∙ ap (drop 2) behind_length
          ∙ drop-append u (value ++ (pad ++ more)) 2 (sym (order.length-to_ne_bytes 2 kind))

      kind_read : order.from_ne_bytes (take 2 (drop 2 (drop offset buffer))) ≡ kind
      kind_read =
          ap (λ r. order.from_ne_bytes (take 2 r)) behind_length
          ∙ ap order.from_ne_bytes
              (take-append u (value ++ (pad ++ more)) 2 (sym (order.length-to_ne_bytes 2 kind)))
          ∙ order.from-to_ne_bytes 2 kind (omega (arith, fits.0))

      value_read : take (4 + length value - 4) (drop 4 (drop offset buffer)) ≡ value
      value_read =
          ap (take (4 + length value - 4)) behind_header
          ∙ take-append value (pad ++ more) (4 + length value - 4) (omega arith)

  next_attribute-ended :
      (buffer : List ℕ) (offset : ℕ)
      → all_zero (drop offset buffer) ≡ true
      → next_attribute order buffer offset ≡ (none, length buffer)
  unfolding next_attribute
  next_attribute-ended buffer offset h = elim (Bool-cases (leb (length buffer) offset)) [
    | inl past ↦ rw past
    | inr inside ↦ rw (inside, h)
  ]

  -- The next attribute begins behind the padding.
  skip_attribute :
      (kind : ℕ) (value more : List ℕ) (size : ℕ)
      → 4 + length value ≤ size
      → drop size (
          order.to_ne_bytes 2 (4 + length value)
          ++ (order.to_ne_bytes 2 kind
              ++ (value ++ (replicate (size - (4 + length value)) 0 ++ more))))
        ≡ more
  skip_attribute kind value more size h =
      let pad : List ℕ = replicate (size - (4 + length value)) 0 in
      drop-append_add (order.to_ne_bytes 2 (4 + length value))
        (order.to_ne_bytes 2 kind ++ (value ++ (pad ++ more))) size (size - 2)
        (omega (arith, order.length-to_ne_bytes 2 (4 + length value)))
      ∙ drop-append_add (order.to_ne_bytes 2 kind) (value ++ (pad ++ more)) (size - 2) (size - 4)
          (omega (arith, order.length-to_ne_bytes 2 kind))
      ∙ drop-append_add value (pad ++ more) (size - 4) (size - (4 + length value)) (omega arith)
      ∙ drop-append pad more (size - (4 + length value))
          (sym (length-replicate (size - (4 + length value)) 0))

  align-le : (n : ℕ) → n ≤ align n 4
  unfolding align
  align-le n = omega arith

  attributes-encoded_at :
      (attrs : List Attribute) (z rounds offset : ℕ) (buffer : List ℕ)
      → All IsAttribute attrs
      → length attrs < rounds
      → drop offset buffer ≡ encode_attributes attrs (replicate z 0)
      → attributes order rounds buffer offset ≡ map ok attrs
  unfolding attributes encode_attributes
  attributes-encoded_at attrs z zero offset buffer fits enough h = absurd (omega arith)
  attributes-encoded_at [] z (suc rounds) offset buffer fits enough h =
      ap (λ s. yielded s.0 (attributes order rounds buffer s.1))
        (next_attribute-ended buffer offset (ap all_zero h ∙ all_zero-replicate z))
  attributes-encoded_at ((kind, value) ∷ rest) z (suc rounds) offset buffer fits enough h =
      let size = align (4 + length value) 4 in
      let more = encode_attributes rest (replicate z 0) in
      ap (λ s. yielded s.0 (attributes order rounds buffer s.1))
        (next_attribute-encoded buffer more offset kind value
          (replicate (size - (4 + length value)) 0) fits.0 h)
      ∙ ap (λ items. ok (kind, value) ∷ items)
          (attributes-encoded_at rest z rounds (offset + size) buffer fits.1 (omega arith) (
            sym (drop-drop size offset buffer)
            ∙ ap (drop size) h
            ∙ skip_attribute kind value more size (align-le (4 + length value))))

  -- A payload of attributes, each padded to four bytes, with any number of zero bytes behind them,
  -- is read back attribute by attribute, in order, without an error, and the loop then ends: it
  -- takes no more rounds than there are attributes, and one that finds the end. The kinds have
  -- fourteen bits and the lengths sixteen.
  pub attributes-encoded :
      (attrs : List Attribute) (z rounds : ℕ)
      → All IsAttribute attrs
      → length attrs < rounds
      → attributes order rounds (encode_attributes attrs (replicate z 0)) 0 ≡ map ok attrs
  attributes-encoded attrs z rounds fits enough =
      attributes-encoded_at attrs z rounds 0 (encode_attributes attrs (replicate z 0)) fits enough
        refl
