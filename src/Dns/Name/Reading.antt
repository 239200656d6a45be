-- ===== src/Dns/Name/Reading.antt =====
-- Names as they are written, and what `read_dns_name` makes of them (bandix-plus/src/dns.rs).
use bandix_plus_lite.Base.{
  ℕ, zero, suc, ◌+◌, ◌-◌, ◌/◌, ◌%◌, ◌*◌, ◌<◌, ◌≤◌, ◌≡◌, refl, List, [], ◌∷◌, ◌++◌, length,
  length-append, length-drop, get_or, ◌==◌, ◌!=◌, ◌||◌, ltb, leb, arith, ap, sym, ◌∙◌, some, true,
  false, map, take, drop, drop-drop, drop-append, take-append, append_assoc, append-nil, All,
}
use bandix_plus_lite.Base.Bytes.{slice}
use bandix_plus_lite.Dns.Name.{
  Text, NameReader, finished, going, follow_pointer, read_label, name_step, name, unwrap_or,
  continue_name, name_loop, start_name, name_rounds, join_labels, name_of, read_dns_name,
}

-- A label has 1 to 63 bytes.
abbrev pub IsLabel : List ℕ → Type 0
IsLabel l = (1 ≤ length l) × (length l ≤ 63)

-- The bytes of labels, each behind its length, before a tail.
unfoldable pub encode_labels : List (List ℕ) → List ℕ → List ℕ
encode_labels [] tail = tail
encode_labels (l ∷ ls) tail = length l ∷ (l ++ encode_labels ls tail)

unfoldable pub encoded_len : List (List ℕ) → ℕ
encoded_len [] = 0
encoded_len (l ∷ ls) = length l + 1 + encoded_len ls

twice_count_le : (ls : List (List ℕ)) → All IsLabel ls → 2 * length ls ≤ encoded_len ls
unfolding encoded_len
twice_count_le [] h = omega arith
twice_count_le (l ∷ ls) h = omega (arith, h.0, twice_count_le ls h.1)

get_or-drop : (i : ℕ) (xs : List ℕ) → get_or xs i 0 ≡ get_or (drop i xs) 0 0
get_or-drop zero [] = refl
get_or-drop zero (x ∷ xs) = refl
get_or-drop (suc i) [] = refl
get_or-drop (suc i) (x ∷ xs) = get_or-drop i xs

-- The loop behind a list of labels.
abbrev after_labels : NameReader → List (List ℕ) → NameReader
after_labels r ls = record r {
  labels = r.labels ++ ls;
  expanded_len = r.expanded_len + encoded_len ls;
  position = r.position + encoded_len ls;
}

name_step-label :
    (packet : List ℕ) (r : NameReader) (l more : List ℕ)
    → drop r.position packet ≡ length l ∷ (l ++ more)
    → IsLabel l
    → r.jumps ≤ 16
    → length r.labels ≤ 127
    → r.expanded_len + (length l + 1) ≤ 255
    → name_step packet r
      ≡ going (record r {
        labels = r.labels ++ (l ∷ []);
        expanded_len = r.expanded_len + (length l + 1);
        position = r.position + 1 + length l;
      })
unfolding name_step read_label
name_step-label packet r l more h v jumps few short =
    simp (bounds, first, plain, plain0, some_byte, room, fits, label)
  where
    size : length packet - r.position ≡ 1 + (length l + length more)
    size = omega (arith, sym (length-drop r.position packet) ∙ ap length h, length-append l more)

    bounds : (leb (length packet) r.position || ltb 16 r.jumps || ltb 127 (length r.labels)) ≡ false
    bounds = ground (arith, size)

    first : get_or packet r.position 0 ≡ length l
    first = get_or-drop r.position packet ∙ ap (λ (t : List ℕ). get_or t 0 0) h

    plain : (length l / 64 == 3) ≡ false
    plain = ground arith

    plain0 : (length l / 64 != 0) ≡ false
    plain0 = ground arith

    some_byte : (length l == 0) ≡ false
    some_byte = ground arith

    room : ltb (length packet) (r.position + 1 + length l) ≡ false
    room = ground (arith, size)

    fits : ltb 255 (r.expanded_len + (length l + 1)) ≡ false
    fits = ground arith

    label : slice packet (r.position + 1) (length l) ≡ l
    label =
        ap (take (length l)) (sym (drop-drop 1 r.position packet) ∙ ap (drop 1) h)
        ∙ take-append l more (length l) refl

drop-label : (l more : List ℕ) → drop (1 + length l) (length l ∷ (l ++ more)) ≡ more
drop-label l more =
    let e : 1 + length l ≡ suc (length l) = omega arith in
    ap (λ n. drop n (length l ∷ (l ++ more))) e ∙ drop-append l more (length l) refl

pub length-encode_labels :
    (ls : List (List ℕ)) (tail : List ℕ)
    → length (encode_labels ls tail) ≡ encoded_len ls + length tail
unfolding encode_labels encoded_len
length-encode_labels [] tail = omega arith
length-encode_labels (l ∷ ls) tail =
    omega (arith, length-append l (encode_labels ls tail), length-encode_labels ls tail)

pub drop-labels :
    (ls : List (List ℕ)) (packet tail : List ℕ) (position : ℕ)
    → drop position packet ≡ encode_labels ls tail
    → drop (position + encoded_len ls) packet ≡ tail
unfolding encode_labels encoded_len
drop-labels [] packet tail position h =
    let e : position + 0 ≡ position = omega arith in ap (λ n. drop n packet) e ∙ h
drop-labels (l ∷ ls) packet tail position h =
    let e : position + (length l + 1 + encoded_len ls)
        ≡ position + (1 + length l) + encoded_len ls =
      omega arith in
    ap (λ n. drop n packet) e
    ∙ drop-labels ls packet tail (position + (1 + length l)) (
        sym (drop-drop (1 + length l) position packet)
        ∙ ap (drop (1 + length l)) h
        ∙ drop-label l (encode_labels ls tail))

name_loop-labels :
    (ls : List (List ℕ)) (packet tail : List ℕ) (r : NameReader) (rounds : ℕ)
    → drop r.position packet ≡ encode_labels ls tail
    → All IsLabel ls
    → r.jumps ≤ 16
    → length r.labels + length ls ≤ 127
    → r.expanded_len + encoded_len ls ≤ 255
    → name_loop (length ls + rounds) packet r ≡ name_loop rounds packet (after_labels r ls)
unfolding encode_labels encoded_len name_loop
name_loop-labels [] packet tail r rounds h v jumps few short =
    let no_more : r.labels ≡ r.labels ++ [] = sym (append-nil r.labels) in
    let same : r ≡ after_labels r [] = λ j. record r {
      labels = no_more j;
      expanded_len = plus_zero r.expanded_len j;
      position = plus_zero r.position j;
    } in
    let e : 0 + rounds ≡ rounds = omega arith in
    ap (λ n. name_loop n packet r) e ∙ ap (name_loop rounds packet) same
  where
    plus_zero : (n : ℕ) → n ≡ n + 0
    plus_zero n = omega arith
name_loop-labels (l ∷ ls) packet tail r rounds h v jumps few short =
    let r1 : NameReader = record r {
      labels = r.labels ++ (l ∷ []);
      expanded_len = r.expanded_len + (length l + 1);
      position = r.position + 1 + length l;
    } in
    let e : suc (length ls) + rounds ≡ suc (length ls + rounds) = omega arith in
    let p : r.position + 1 + length l ≡ r.position + (1 + length l) = omega arith in
    let x : r.expanded_len + (length l + 1) + encoded_len ls
        ≡ r.expanded_len + (length l + 1 + encoded_len ls) =
      omega arith in
    let q : r.position + 1 + length l + encoded_len ls
        ≡ r.position + (length l + 1 + encoded_len ls) =
      omega arith in
    let behind : drop (r.position + 1 + length l) packet ≡ encode_labels ls tail =
      ap (λ n. drop n packet) p
      ∙ sym (drop-drop (1 + length l) r.position packet)
      ∙ ap (drop (1 + length l)) h
      ∙ drop-label l (encode_labels ls tail) in
    ap (λ n. name_loop n packet r) e
    ∙ ap (λ s. continue_name s (λ r'. name_loop (length ls + rounds) packet r'))
        (name_step-label packet r l (encode_labels ls tail) h v.0 jumps (omega arith) (omega arith))
    ∙ name_loop-labels ls packet tail r1 rounds behind v.1 jumps
        (omega (arith, length-append r.labels (l ∷ []))) (omega arith)
    ∙ ap (name_loop rounds packet) (λ j. record r {
      labels = append_assoc r.labels (l ∷ []) ls j;
      expanded_len = x j;
      position = q j;
    })

name_step-end :
    (packet more : List ℕ) (r : NameReader)
    → drop r.position packet ≡ 0 ∷ more
    → r.jumps ≤ 16
    → length r.labels ≤ 127
    → name_step packet r ≡ finished r.labels (unwrap_or r.consumed_position (r.position + 1))
unfolding name_step read_label
name_step-end packet more r h jumps few = simp (bounds, first)
  where
    size : length packet - r.position ≡ 1 + length more
    size = omega (arith, sym (length-drop r.position packet) ∙ ap length h)

    bounds : (leb (length packet) r.position || ltb 16 r.jumps || ltb 127 (length r.labels)) ≡ false
    bounds = ground (arith, size)

    first : get_or packet r.position 0 ≡ 0
    first = get_or-drop r.position packet ∙ ap (λ (t : List ℕ). get_or t 0 0) h

name_step-pointer :
    (packet more : List ℕ) (r : NameReader) (p : ℕ)
    → drop r.position packet ≡ (192 + p / 256) ∷ (p % 256) ∷ more
    → p < 16384
    → p < length packet
    → r.jumps ≤ 16
    → length r.labels ≤ 127
    → name_step packet r
      ≡ going (record r {
        consumed_position = some (unwrap_or r.consumed_position (r.position + 2));
        position = p;
        jumps = r.jumps + 1;
      })
unfolding name_step follow_pointer
name_step-pointer packet more r p h small inside jumps few =
    simp (bounds, first, is_pointer, second_inside, second, pointer, pointer_inside)
  where
    size : length packet - r.position ≡ 2 + length more
    size = omega (arith, sym (length-drop r.position packet) ∙ ap length h)

    bounds : (leb (length packet) r.position || ltb 16 r.jumps || ltb 127 (length r.labels)) ≡ false
    bounds = ground (arith, size)

    first : get_or packet r.position 0 ≡ 192 + p / 256
    first = get_or-drop r.position packet ∙ ap (λ (t : List ℕ). get_or t 0 0) h

    is_pointer : ((192 + p / 256) / 64 == 3) ≡ true
    is_pointer = ground arith

    second_inside : leb (length packet) (r.position + 1) ≡ false
    second_inside = ground (arith, size)

    second : get_or packet (r.position + 1) 0 ≡ p % 256
    second =
        get_or-drop (r.position + 1) packet
        ∙ ap (λ (t : List ℕ). get_or t 0 0) (sym (drop-drop 1 r.position packet) ∙ ap (drop 1) h)

    pointer : (192 + p / 256) % 64 * 256 + p % 256 ≡ p
    pointer = omega arith

    pointer_inside : leb (length packet) p ≡ false
    pointer_inside = ground arith

-- A whole name at `offset`: labels and the zero byte.
name_loop-plain :
    (ls : List (List ℕ)) (packet more : List ℕ) (r : NameReader) (rounds : ℕ)
    → drop r.position packet ≡ encode_labels ls (0 ∷ more)
    → All IsLabel ls
    → r.jumps ≤ 16
    → length r.labels + length ls ≤ 127
    → r.expanded_len + encoded_len ls ≤ 255
    → length ls < rounds
    → name_loop rounds packet r
      ≡ name (r.labels ++ ls) (unwrap_or r.consumed_position (r.position + encoded_len ls + 1))
unfolding name_loop
name_loop-plain ls packet more r rounds h v jumps few short enough =
    let e : rounds ≡ length ls + suc (rounds - length ls - 1) = omega arith in
    ap (λ n. name_loop n packet r) e
    ∙ name_loop-labels ls packet (0 ∷ more) r (suc (rounds - length ls - 1)) h v jumps few short
    ∙ ap (λ s. continue_name s (λ r'. name_loop (rounds - length ls - 1) packet r'))
        (name_step-end packet more (after_labels r ls)
          (drop-labels ls packet (0 ∷ more) r.position h) jumps
          (omega (arith, length-append r.labels ls)))

-- Labels that end with a pointer to a whole name are read as one name, the labels before the
-- pointer first, and reading goes on behind the pointer. The labels have 1 to 63 bytes, 255 at most
-- with their lengths, and the pointer has fourteen bits.
pub read_dns_name-compressed :
    (from_utf8_lossy : List ℕ → Text) (before after : List (List ℕ)) (packet more behind : List ℕ)
    (offset p : ℕ)
    → drop offset packet ≡ encode_labels before ((192 + p / 256) ∷ (p % 256) ∷ more)
    → drop p packet ≡ encode_labels after (0 ∷ behind)
    → All IsLabel before
    → All IsLabel after
    → encoded_len before + encoded_len after ≤ 255
    → p < 16384
    → read_dns_name from_utf8_lossy packet offset
      ≡ some (join_labels (map from_utf8_lossy (before ++ after)), offset + encoded_len before + 2)
unfolding read_dns_name name_loop
read_dns_name-compressed from_utf8_lossy before after packet more behind offset p h k v w short
      small =
    ap (name_of from_utf8_lossy) (
      ap (λ n. name_loop n packet (start_name offset)) e
      ∙ name_loop-labels before packet ((192 + p / 256) ∷ (p % 256) ∷ more) (start_name offset)
          (suc (145 - length before)) h v (omega arith) (omega (arith, twice_count_le before v))
          (omega arith)
      ∙ ap (λ s. continue_name s (λ r'. name_loop (145 - length before) packet r'))
          (name_step-pointer packet more (after_labels (start_name offset) before) p
            (drop-labels before packet ((192 + p / 256) ∷ (p % 256) ∷ more) offset h) small inside
            (omega arith) (omega (arith, twice_count_le before v)))
      ∙ name_loop-plain after packet behind jumped (145 - length before) k w (omega arith)
          (omega (arith, twice_count_le before v, twice_count_le after w)) (omega arith)
          (omega (arith, twice_count_le before v, twice_count_le after w)))
  where
    e : 146 ≡ length before + suc (145 - length before)
    e = omega (arith, twice_count_le before v)

    inside : p < length packet
    inside =
        omega
          (arith, sym (length-drop p packet) ∙ ap length k, length-encode_labels after (0 ∷ behind))

    jumped : NameReader
    jumped = record {
      position = p;
      consumed_position = some (offset + encoded_len before + 2);
      labels = before;
      jumps = 1;
      expanded_len = 0 + encoded_len before;
    }

-- A whole name of labels is read as it was written, and reading goes on behind its zero byte. The
-- labels have 1 to 63 bytes, and 255 at most with their lengths.
pub read_dns_name-plain :
    (from_utf8_lossy : List ℕ → Text) (labels : List (List ℕ)) (packet more : List ℕ) (offset : ℕ)
    → drop offset packet ≡ encode_labels labels (0 ∷ more)
    → All IsLabel labels
    → encoded_len labels ≤ 255
    → read_dns_name from_utf8_lossy packet offset
      ≡ some (join_labels (map from_utf8_lossy labels), offset + encoded_len labels + 1)
unfolding read_dns_name
read_dns_name-plain from_utf8_lossy labels packet more offset h v short =
    ap (name_of from_utf8_lossy) (
      name_loop-plain labels packet more (start_name offset) name_rounds h v (omega arith)
        (omega (arith, twice_count_le labels v)) (omega arith)
        (omega (arith, twice_count_le labels v)))
