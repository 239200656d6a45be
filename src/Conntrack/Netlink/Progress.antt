-- ===== src/Conntrack/Netlink/Progress.antt =====
-- Where the items of the netlink iterators lie, and how far the iterators go
-- (bandix-plus/src/conntrack.rs).
use bandix_plus_lite.Base.{
  ℕ, zero, suc, ◌+◌, ◌-◌, ◌<◌, ◌≤◌, ◌≡◌, ◌≢◌, refl, ap, ◌∙◌, List, ◌∷◌, Option, some, none, length,
  drop, take, length-drop, length-take, ok, err, arith,
}
use bandix_plus_lite.Conntrack.Netlink.{
  ByteOrder, Item, slice_out_of_range, align, next_attribute, yielded, attributes,
}

-- An item is an error that leaves the iterator at its end, or a value that lies within the buffer
-- behind a header of so many bytes, and never the panic of a slice; the offset was before the end
-- and has grown in both cases.
pub record ItemIsInside (header : ℕ) (buffer : List ℕ) (offset after : ℕ) (item : Item)
    : Type 0 where
  pub started : offset < length buffer
  pub moved : offset < after
  pub in_range : item ≢ err slice_out_of_range
  pub inside :
      (kind : ℕ) (value : List ℕ)
      → item ≡ ok (kind, value)
      → offset + header + length value ≤ length buffer

module _ (order : ByteOrder) where
  pub next_attribute-inside :
      (buffer : List ℕ) (offset after : ℕ) (item : Item)
      → next_attribute order buffer offset ≡ (some item, after)
      → ItemIsInside 4 buffer offset after item
  unfolding next_attribute align
  next_attribute-inside buffer offset after item h =
      let n = order.from_ne_bytes (take 2 (drop offset buffer)) in
      record {
        started = ground (arith, h);
        moved = ground (arith, h);
        in_range = λ e. ground (arith, h, e, length-drop offset buffer);
        inside = λ kind value e. ground (
          arith,
          h,
          e,
          length-take (n - 4) (drop 4 (drop offset buffer)),
          length-drop 4 (drop offset buffer),
          length-drop offset buffer,
        );
      }

  attributes-enough_at :
      (buffer : List ℕ) (rounds k offset : ℕ)
      → length buffer - offset < rounds
      → attributes order (rounds + k) buffer offset ≡ attributes order rounds buffer offset
  unfolding attributes
  attributes-enough_at buffer zero k offset h = absurd (omega arith)
  attributes-enough_at buffer (suc rounds) k offset h =
      let e : suc rounds + k ≡ suc (rounds + k) = omega arith in
      ap (λ n. attributes order n buffer offset) e
      ∙ more_rounds (λ after p. attributes-enough_at buffer rounds k after p)
          (next_attribute order buffer offset).0 (next_attribute order buffer offset).1 refl
    where
      more_rounds :
          ((after : ℕ)
            → length buffer - after < rounds
            → attributes order (rounds + k) buffer after ≡ attributes order rounds buffer after)
          → (o : Option Item) (after : ℕ) → next_attribute order buffer offset ≡ (o, after)
          → yielded o (attributes order (rounds + k) buffer after)
            ≡ yielded o (attributes order rounds buffer after)
      more_rounds again none after found = refl
      more_rounds again (some item) after found =
          let inside = next_attribute-inside buffer offset after item found in
          ap (λ items. item ∷ items) (again after (omega (arith, inside.started, inside.moved)))

  -- The loop over the attributes of any payload ends within one round for each of its bytes and one
  -- more: further rounds yield nothing else.
  pub attributes-enough :
      (buffer : List ℕ) (rounds k : ℕ)
      → length buffer < rounds
      → attributes order (rounds + k) buffer 0 ≡ attributes order rounds buffer 0
  attributes-enough buffer rounds k h = attributes-enough_at buffer rounds k 0 (omega (arith, h))
