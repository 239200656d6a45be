-- ===== src/Dns/Store/Shape.antt =====
-- The table of queries and the order of their identifiers (bandix-plus/src/dns.rs).
use bandix_plus_lite.Base.{
  ℕ, zero, suc, ◌+◌, ◌-◌, ◌<◌, ◌≤◌, ◌≡◌, inl, inr, refl, sym, ap, ap₂, subst, ◌∙◌, List, [], ◌∷◌,
  ◌++◌, Option, some, none, Bool, true, false, ◌==◌, ltb, if◌then◌else◌, length, drop, last,
  last_all, subst₂, ltb→lt, arith, Bool-cases, ne→==, ==_self, ==_iff,
}
use bandix_plus_lite.Base.Map.{nat_eq, get, insert, remove}
use bandix_plus_lite.Dns.Key.{key_eq}
use bandix_plus_lite.Dns.Store.{
  DnsQueryRecord, TrackedQuery, DnsMonitor, Queries, evict, evict_front, evict_oldest, evict_while,
}

-- Identifiers that ascend, between two bounds.
abbrev pub Ascends : ℕ → List ℕ → ℕ → Type 0
Ascends lo [] hi = lo < hi
Ascends lo (id ∷ ids) hi = (lo < id) × Ascends id ids hi

abbrev pub keys : Queries → List ℕ
keys [] = []
keys ((id, q) ∷ records) = id ∷ keys records

pub Ascends-lt : (lo : ℕ) (ids : List ℕ) (hi : ℕ) → Ascends lo ids hi → lo < hi
Ascends-lt lo [] hi h = h
Ascends-lt lo (id ∷ ids) hi h = omega (arith, Ascends-lt id ids hi h.1)

pub Ascends-below :
    (lo lo' : ℕ) (ids : List ℕ) (hi : ℕ) → lo' ≤ lo → Ascends lo ids hi → Ascends lo' ids hi
Ascends-below lo lo' [] hi h v = omega arith
Ascends-below lo lo' (id ∷ ids) hi h v = (omega (arith, v.0), v.1)

pub Ascends-append :
    (lo : ℕ) (ids : List ℕ) (hi : ℕ) → Ascends lo ids hi → Ascends lo (ids ++ (hi ∷ [])) (hi + 1)
Ascends-append lo [] hi h = (h, omega arith)
Ascends-append lo (id ∷ ids) hi h = (h.0, Ascends-append id ids hi h.1)

pub get-absent :
    (lo : ℕ) (records : Queries) (hi id : ℕ)
    → Ascends lo (keys records) hi
    → id ≤ lo
    → get id records ≡ none
unfolding get
get-absent lo [] hi id h le = refl
get-absent lo ((j, q) ∷ records) hi id h le =
    rw (ne→== j id (λ e. omega (arith, e, h.0)))
      (get-absent j records hi id h.1 (omega (arith, h.0)))

remove-absent :
    (lo : ℕ) (records : Queries) (hi id : ℕ)
    → Ascends lo (keys records) hi
    → id ≤ lo
    → remove id records ≡ records
unfolding remove
remove-absent lo [] hi id h le = refl
remove-absent lo ((j, q) ∷ records) hi id h le =
    rw (ne→== j id (λ e. omega (arith, e, h.0)))
      (ap (λ t. (j, q) ∷ t) (remove-absent j records hi id h.1 (omega (arith, h.0))))

pub insert-last :
    (lo : ℕ) (records : Queries) (hi : ℕ) (q : TrackedQuery)
    → Ascends lo (keys records) hi
    → insert hi q records ≡ records ++ ((hi, q) ∷ [])
unfolding insert
insert-last lo [] hi q h = refl
insert-last lo ((j, r) ∷ records) hi q h =
    rw (ne→== j hi (λ e. omega (arith, e, Ascends-lt j (keys records) hi h.1)))
      (ap (λ t. (j, r) ∷ t) (insert-last j records hi q h.1))

pub keys-insert :
    (records : Queries) (id : ℕ) (q q' : TrackedQuery)
    → get id records ≡ some q'
    → keys (insert id q records) ≡ keys records
unfolding get insert
keys-insert [] id q q' h = cc
keys-insert ((j, r) ∷ records) id q q' h = elim (Bool-cases (j == id)) [
  | inl same ↦ rw same (ap (λ t. t ∷ keys records) (sym ((==_iff j id).0 same)))
  | inr other ↦
      let found : get id records ≡ some q' =
        sym (ap (λ t. if t then some r else get id records) other) ∙ h in
      rw other (ap (λ t. j ∷ t) (keys-insert records id q q' found))
]

pub keys-append :
    (records : Queries) (id : ℕ) (q : TrackedQuery)
    → keys (records ++ ((id, q) ∷ [])) ≡ keys records ++ (id ∷ [])
keys-append [] id q = refl
keys-append (r ∷ records) id q = ap (λ t. r.0 ∷ t) (keys-append records id q)

-- The order lists the identifiers of the table, which ascend and are below the next one.
pub record IsShaped (m : DnsMonitor) : Type 0 where
  pub listed : m.order ≡ keys m.records
  pub ascending : Ascends 0 (keys m.records) m.next_id

-- The records of the table, oldest first.
abbrev pub all_records : Queries → List DnsQueryRecord
all_records [] = []
all_records ((id, q) ∷ records) = q.tracked ∷ all_records records

evict_oldest-records :
    (m : DnsMonitor) (id : ℕ) (q : TrackedQuery) (rest : Queries)
    → IsShaped m
    → m.records ≡ (id, q) ∷ rest
    → ((evict_oldest m).records ≡ rest) × ((evict_oldest m).order ≡ keys rest)
unfolding evict_oldest evict_front evict get remove
evict_oldest-records m id q rest v e =
    let front : m.order ≡ id ∷ keys rest = v.listed ∙ ap keys e in
    let found : get id m.records ≡ some q = ap (get id) e ∙ rw (==_self id) refl in
    let shaped = subst (λ t. Ascends 0 (keys t) m.next_id) e v.ascending in
    (
      ap (λ o. (evict_front o m).records) front
          ∙ ap (λ o. (evict id o (record m { order = keys rest })).records) found
          ∙ ap (remove id) e
          ∙ removed shaped.1,
      ap (λ o. (evict_front o m).order) front
          ∙ ap (λ o. (evict id o (record m { order = keys rest })).order) found,
    )
  where
    removed : Ascends id (keys rest) m.next_id → remove id ((id, q) ∷ rest) ≡ rest
    removed h = rw (==_self id) (remove-absent id rest m.next_id id h (omega arith))

-- What an eviction leaves as it is.
pub record Kept (m m' : DnsMonitor) : Type 0 where
  pub same_max : m'.max_records ≡ m.max_records
  pub same_id : m'.next_id ≡ m.next_id
  pub same_seen : m'.recent_queries ≡ m.recent_queries

pub evict_oldest-Kept : (m : DnsMonitor) → Kept m (evict_oldest m)
unfolding evict_oldest evict_front evict
evict_oldest-Kept m =
    let k = front m.order in
    record { same_max = k.same_max; same_id = k.same_id; same_seen = k.same_seen }
  where
    evicted : (id : ℕ) (o : Option TrackedQuery) (m' : DnsMonitor) → Kept m' (evict id o m')
    evicted id none m' = record { same_max = refl; same_id = refl; same_seen = refl }
    evicted id (some q) m' = record { same_max = refl; same_id = refl; same_seen = refl }

    front : (order : List ℕ) → Kept m (evict_front order m)
    front [] = record { same_max = refl; same_id = refl; same_seen = refl }
    front (id ∷ rest) =
        let k = evicted id (get id m.records) (record m { order = rest }) in
        record { same_max = k.same_max; same_id = k.same_id; same_seen = k.same_seen }

Ascends-drop :
    (n : ℕ) (lo : ℕ) (records : Queries) (hi : ℕ)
    → Ascends lo (keys records) hi
    → Ascends lo (keys (drop n records)) hi
Ascends-drop zero lo records hi h = h
Ascends-drop (suc n) lo [] hi h = h
Ascends-drop (suc n) lo ((id, q) ∷ records) hi h =
    Ascends-below id lo (keys (drop n records)) hi (omega (arith, h.0))
      (Ascends-drop n id records hi h.1)

-- What the eviction leaves: the newest records, as many as there may be.
pub record Evicted (before after : DnsMonitor) : Type 0 where
  pub newest : after.records ≡ last before.max_records before.records
  pub shaped : IsShaped after
  pub same_max : after.max_records ≡ before.max_records
  pub same_id : after.next_id ≡ before.next_id

few-Evicted : (m : DnsMonitor) → IsShaped m → length m.records ≤ m.max_records → Evicted m m
few-Evicted m v few = record {
  newest = sym (last_all m.max_records m.records few);
  shaped = v;
  same_max = refl;
  same_id = refl;
}

last-cons :
    (n : ℕ) (x : ℕ × TrackedQuery) (records : Queries)
    → n ≤ length records
    → last n records ≡ last n (x ∷ records)
last-cons n x records h =
    let e : suc (length records - n) ≡ suc (length records) - n = omega arith in
    ap (λ k. drop k (x ∷ records)) e

-- One eviction more in front.
evict_oldest-Evicted :
    (m after : DnsMonitor)
    → IsShaped m
    → m.max_records < length m.records
    → (IsShaped (evict_oldest m)
        → suc (length (evict_oldest m).records) ≡ length m.records
        → Evicted (evict_oldest m) after)
    → Evicted m after
evict_oldest-Evicted m after v many more = split m.records refl
  where
    split : (records : Queries) → m.records ≡ records → Evicted m after
    split [] e = absurd (omega (arith, ap length e))
    split ((id, q) ∷ rest) e =
        let (records, order) = evict_oldest-records m id q rest v e in
        let kept = evict_oldest-Kept m in
        let shaped : Ascends 0 (keys ((id, q) ∷ rest)) m.next_id =
          subst (λ t. Ascends 0 (keys t) m.next_id) e v.ascending in
        let left : IsShaped (evict_oldest m) = record {
          listed = order ∙ ap keys (sym records);
          ascending =
              subst₂ (λ t n. Ascends 0 (keys t) n) (sym records) (sym kept.same_id)
                (Ascends-below id 0 (keys rest) m.next_id (omega arith) shaped.1);
        } in
        let size : suc (length (evict_oldest m).records) ≡ length m.records =
          ap suc (ap length records) ∙ sym (ap length e) in
        let ev = more left size in
        record {
          newest =
              ev.newest
              ∙ ap₂ last kept.same_max records
              ∙ last-cons m.max_records (id, q) rest (omega (arith, ap length e))
              ∙ ap (last m.max_records) (sym e);
          shaped = ev.shaped;
          same_max = ev.same_max ∙ kept.same_max;
          same_id = ev.same_id ∙ kept.same_id;
        }

pub evict_while-Evicted :
    (rounds : ℕ) (m : DnsMonitor)
    → IsShaped m
    → length m.records ≤ rounds
    → Evicted m (evict_while rounds m)
unfolding evict_while
evict_while-Evicted zero m v enough = few-Evicted m v (omega arith)
evict_while-Evicted (suc rounds) m v enough =
    elim (Bool-cases (ltb m.max_records (length m.records))) [
      | inl many ↦ subst (Evicted m) (chosen true many) (
          evict_oldest-Evicted m (evict_while rounds (evict_oldest m)) v (ltb→lt _ _ many)
            (λ shaped size.
              evict_while-Evicted rounds (evict_oldest m) shaped (omega (arith, size))))
      | inr few ↦ subst (Evicted m) (chosen false few) (few-Evicted m v (ground arith))
    ]
  where
    chosen :
        (t : Bool)
        → ltb m.max_records (length m.records) ≡ t
        → (if t then evict_while rounds (evict_oldest m) else m) ≡ evict_while (suc rounds) m
    chosen t e = ap (λ u. if u then evict_while rounds (evict_oldest m) else m) (sym e)
