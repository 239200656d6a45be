-- ===== src/Dns/Search/Pages.antt =====
-- The pages of the queries found (bandix-plus/src/dns.rs).
use native.Mathlib.Nat.{lt-div-mul-add}
use bandix_plus_lite.Base.{
  ℕ, zero, suc, ◌+◌, ◌-◌, ◌*◌, ◌/◌, ◌^◌, ◌<◌, ◌≤◌, ◌≡◌, min, max, refl, sym, ap, ap₂, ◌∙◌, List, [],
  ◌∷◌, ◌++◌, Option, some, length, take, drop, take_all, arith, drop_all, leb, if◌then◌else◌,
  Bool-cases, inl, inr, ◌≢◌, ◌⊎◌, ◌↔◌, some-injective, subst, none, Bool, true, ◌&&◌, ◌||◌,
  append-nil, append_assoc,
}
use bandix_plus_lite.Dns.Name.{Text, unwrap_or}
use bandix_plus_lite.Dns.Store.{
  DnsQueryRecord, TrackedQuery, DnsMonitor, Queries, tracked_list, records_of,
  records_for_persistence,
}
use bandix_plus_lite.Dns.Message.{to_ascii_lowercase}
use bandix_plus_lite.Base.Map.{nat_eq, get}
use bandix_plus_lite.Dns.Search.{
  Texts, DnsQueriesQuery, all_matches, queries, filtered, matches, accepts, map_text, wanted_result,
  unless_empty, to_ascii_uppercase, eq_ignore_ascii_case, result_matches, reversed,
}

-- The records of the first pages, page by page.
pub first_pages : Texts → DnsQueriesQuery → DnsMonitor → ℕ → List DnsQueryRecord
first_pages t q m zero = []
first_pages t q m (suc n) =
    first_pages t q m n ++ (queries t (record q { page = some (n + 1) }) m).found

take-add : (a b : ℕ) (xs : List DnsQueryRecord) → take (a + b) xs ≡ take a xs ++ take b (drop a xs)
take-add zero b xs = ap (λ n. take n xs) (omega arith)
take-add (suc a) b [] =
    let e : suc a + b ≡ suc (a + b) = omega arith in ap (λ n. take n none_left) e ∙ sym (take_nil b)
  where
    none_left : List DnsQueryRecord
    none_left = []

    take_nil : (n : ℕ) → take n none_left ≡ take (suc (a + b)) none_left
    take_nil zero = refl
    take_nil (suc n) = refl
take-add (suc a) b (x ∷ xs) =
    let e : suc a + b ≡ suc (a + b) = omega arith in
    ap (λ n. take n (x ∷ xs)) e ∙ ap (λ t. x ∷ t) (take-add a b xs)

-- An offset that saturates is behind the end either way.
drop-saturated :
    (k : ℕ) (xs : List DnsQueryRecord)
    → length xs < 2 ^ 64
    → drop (min k (2 ^ 64 - 1)) xs ≡ drop k xs
drop-saturated k xs few = elim (Bool-cases (leb k (2 ^ 64 - 1))) [
  | inl small ↦ let e : min k (2 ^ 64 - 1) ≡ k = ground (arith, small) in ap (λ n. drop n xs) e
  | inr large ↦
      drop_all xs (min k (2 ^ 64 - 1)) (ground (arith, large))
      ∙ sym (drop_all xs k (ground (arith, large)))
]

filtered-page :
    (t : Texts) (q : DnsQueriesQuery) (p : Option ℕ) (records : List DnsQueryRecord)
    → filtered t (record q { page = p }) records ≡ filtered t q records
unfolding matches
filtered-page t q p [] = refl
filtered-page t q p (r ∷ records) =
    ap (λ rest. if matches t q r then r ∷ rest else rest) (filtered-page t q p records)

-- What a query asks of a record: each filter that is given, the one on results only if it is not
-- blank.
pub record IsFound (t : Texts) (q : DnsQueriesQuery) (r : DnsQueryRecord) : Type 0 where
  pub domain :
      (n : Text)
      → q.domain ≡ some n
      → t.contains_text (to_ascii_lowercase r.domain) (to_ascii_lowercase n) ≡ true
  pub device :
      (n : Text)
      → q.device ≡ some n
      → (t.contains_text (to_ascii_lowercase r.device_mac) (to_ascii_lowercase n) ≡ true)
        ⊎ (t.contains_text (to_ascii_lowercase r.device_name) (to_ascii_lowercase n) ≡ true)
        ⊎ (t.contains_text (to_ascii_lowercase (t.ip_text r.source_ip)) (to_ascii_lowercase n)
            ≡ true)
  pub dns_server :
      (n : Text)
      → q.dns_server ≡ some n
      → t.contains_text (to_ascii_lowercase (t.ip_text r.destination_ip)) (to_ascii_lowercase n)
        ≡ true
  pub query_type :
      (n : Text)
      → q.query_type ≡ some n
      → eq_ignore_ascii_case (t.type_text r.query_type) (to_ascii_uppercase n) ≡ true
  pub result :
      (n : Text)
      → q.result ≡ some n
      → t.trim n ≢ []
      → result_matches t r (to_ascii_lowercase (t.trim n)) ≡ true
  pub iface :
      (n : Text) → q.iface ≡ some n → eq_ignore_ascii_case r.iface (to_ascii_lowercase n) ≡ true
  pub protocol :
      (n : Text)
      → q.protocol ≡ some n
      → eq_ignore_ascii_case (t.protocol_text r.protocol) (to_ascii_uppercase n) ≡ true

accepts_iff :
    (f : Text → Text) (o : Option Text) (p : Text → Bool)
    → (accepts (map_text f o) p ≡ true) ↔ ((n : Text) → o ≡ some n → p (f n) ≡ true)
accepts_iff f none p = ((λ h n e. absurd (cc e)), (λ h. refl))
accepts_iff f (some m) p =
    ((λ h n e. ap (λ k. p (f k)) (some-injective (sym e)) ∙ h), (λ h. h m refl))

accepts-wanted :
    (t : Texts) (o : Option Text) (p : Text → Bool)
    → (accepts (wanted_result t o) p ≡ true)
      ↔ ((n : Text) → o ≡ some n → t.trim n ≢ [] → p (to_ascii_lowercase (t.trim n)) ≡ true)
accepts-wanted t none p = ((λ h n e ne. absurd (cc e)), (λ h. refl))
accepts-wanted t (some m) p = (
  (λ h n e. some_needle (t.trim n) (
      subst (λ k. accepts (map_text to_ascii_lowercase (unless_empty (t.trim k))) p ≡ true)
        (some-injective e) h)),
  (λ h. any_needle (t.trim m) (h m refl)),
)
  where
    some_needle :
        (k : Text)
        → accepts (map_text to_ascii_lowercase (unless_empty k)) p ≡ true
        → k ≢ []
        → p (to_ascii_lowercase k) ≡ true
    some_needle [] h ne = absurd (ne refl)
    some_needle (b ∷ k) h ne = h

    any_needle :
        (k : Text)
        → (k ≢ [] → p (to_ascii_lowercase k) ≡ true)
        → accepts (map_text to_ascii_lowercase (unless_empty k)) p ≡ true
    any_needle [] h = refl
    any_needle (b ∷ k) h = h (λ e. cc e)

or_three : (a b c : Bool) → ((a || b || c) ≡ true) ↔ ((a ≡ true) ⊎ (b ≡ true) ⊎ (c ≡ true))
or_three a b c = ground arith

abbrev AllTrue : (a b c d e f g : Bool) → Type 0
AllTrue a b c d e f g =
    (a ≡ true) × (b ≡ true) × (c ≡ true) × (d ≡ true) × (e ≡ true) × (f ≡ true) × (g ≡ true)

all_seven :
    (a b c d e f g : Bool) → ((a && b && c && d && e && f && g) ≡ true) ↔ AllTrue a b c d e f g
all_seven a b c d e f g = ground arith

matches_iff :
    (t : Texts) (q : DnsQueriesQuery) (r : DnsQueryRecord) → (matches t q r ≡ true) ↔ IsFound t q r
unfolding matches
matches_iff t q r =
    let p1 : Text → Bool = λ n. t.contains_text (to_ascii_lowercase r.domain) n in
    let p2 : Text → Bool = λ n.
      t.contains_text (to_ascii_lowercase r.device_mac) n
      || t.contains_text (to_ascii_lowercase r.device_name) n
      || t.contains_text (to_ascii_lowercase (t.ip_text r.source_ip)) n in
    let p3 : Text → Bool =
      λ n. t.contains_text (to_ascii_lowercase (t.ip_text r.destination_ip)) n in
    let p4 : Text → Bool = λ n. eq_ignore_ascii_case (t.type_text r.query_type) n in
    let p6 : Text → Bool = λ n. eq_ignore_ascii_case r.iface n in
    let p7 : Text → Bool = λ n. eq_ignore_ascii_case (t.protocol_text r.protocol) n in
    let in_domain = accepts_iff to_ascii_lowercase q.domain p1 in
    let of_device = accepts_iff to_ascii_lowercase q.device p2 in
    let of_server = accepts_iff to_ascii_lowercase q.dns_server p3 in
    let of_type = accepts_iff to_ascii_uppercase q.query_type p4 in
    let with_result = accepts-wanted t q.result (result_matches t r) in
    let on_iface = accepts_iff to_ascii_lowercase q.iface p6 in
    let over_protocol = accepts_iff to_ascii_uppercase q.protocol p7 in
    let either = λ (n : Text).
      or_three (t.contains_text (to_ascii_lowercase r.device_mac) n)
        (t.contains_text (to_ascii_lowercase r.device_name) n)
        (t.contains_text (to_ascii_lowercase (t.ip_text r.source_ip)) n) in
    let seven =
      all_seven (accepts (map_text to_ascii_lowercase q.domain) p1)
        (accepts (map_text to_ascii_lowercase q.device) p2)
        (accepts (map_text to_ascii_lowercase q.dns_server) p3)
        (accepts (map_text to_ascii_uppercase q.query_type) p4)
        (accepts (wanted_result t q.result) (result_matches t r))
        (accepts (map_text to_ascii_lowercase q.iface) p6)
        (accepts (map_text to_ascii_uppercase q.protocol) p7) in
    (
      (λ h.
          let (a, b, c, d, e, f, g) = seven.0 h in
          record {
            domain = in_domain.0 a;
            device = λ n given. (either (to_ascii_lowercase n)).0 (of_device.0 b n given);
            dns_server = of_server.0 c;
            query_type = of_type.0 d;
            result = with_result.0 e;
            iface = on_iface.0 f;
            protocol = over_protocol.0 g;
          }),
      (λ v. seven.1 (
        in_domain.1 v.domain,
        of_device.1 (λ n given. (either (to_ascii_lowercase n)).1 (v.device n given)),
        of_server.1 v.dns_server,
        of_type.1 v.query_type,
        with_result.1 v.result,
        on_iface.1 v.iface,
        over_protocol.1 v.protocol,
      )),
    )

-- The records found of a list, the last ones first.
unfoldable pub newest_found : Texts → DnsQueriesQuery → List DnsQueryRecord → List DnsQueryRecord
newest_found t q [] = []
newest_found t q (r ∷ records) = newest_found t q records ++ (if matches t q r then r ∷ [] else [])

filtered-append :
    (t : Texts) (q : DnsQueriesQuery) (xs ys : List DnsQueryRecord)
    → filtered t q (xs ++ ys) ≡ filtered t q xs ++ filtered t q ys
filtered-append t q [] ys = refl
filtered-append t q (x ∷ xs) ys = elim (Bool-cases (matches t q x)) [
  | inl found ↦ rw found (ap (λ s. x ∷ s) (filtered-append t q xs ys))
  | inr other ↦ rw other (filtered-append t q xs ys)
]

newest_one :
    (t : Texts) (q : DnsQueriesQuery) (o : Option TrackedQuery) (rs : List DnsQueryRecord)
    → newest_found t q (tracked_list o ++ rs) ≡ newest_found t q rs ++ filtered t q (tracked_list o)
unfolding newest_found
newest_one t q none rs = sym (append-nil (newest_found t q rs))
newest_one t q (some query) rs = refl

filtered-reversed :
    (t : Texts) (q : DnsQueriesQuery) (order done : List ℕ) (records : Queries)
    → filtered t q (records_of (reversed order done) records)
      ≡ newest_found t q (records_of order records) ++ filtered t q (records_of done records)
unfolding newest_found
filtered-reversed t q [] done records = refl
filtered-reversed t q (id ∷ order) done records =
    filtered-reversed t q order (id ∷ done) records
    ∙ ap (λ s. newest_found t q (records_of order records) ++ s)
        (filtered-append t q (tracked_list (get id records)) (records_of done records))
    ∙ sym (
        append_assoc (newest_found t q (records_of order records))
          (filtered t q (tracked_list (get id records))) (filtered t q (records_of done records)))
    ∙ ap (λ s. s ++ filtered t q (records_of done records))
        (sym (newest_one t q (get id records) (records_of order records)))

all_matches-newest :
    (t : Texts) (q : DnsQueriesQuery) (m : DnsMonitor)
    → all_matches t q m ≡ newest_found t q (records_for_persistence m)
unfolding all_matches records_for_persistence
all_matches-newest t q m =
    filtered-reversed t q m.order [] m.records
    ∙ append-nil (newest_found t q (records_of m.order m.records))

-- The size of a page, after its bounds.
abbrev size_of : DnsQueriesQuery → ℕ
size_of q = min (max (unwrap_or q.page_size 20) 1) 100

module _ (t : Texts) (q : DnsQueriesQuery) (m : DnsMonitor)
    (few : length (all_matches t q m) < 2 ^ 64) where
  first_pages-take : (n : ℕ) → first_pages t q m n ≡ take (n * size_of q) (all_matches t q m)
  unfolding first_pages queries all_matches
  first_pages-take zero =
      let e : 0 ≡ 0 * size_of q = omega arith in ap (λ k. take k (all_matches t q m)) e
  first_pages-take (suc n) =
      let start : (max (n + 1) 1 - 1) * size_of q ≡ n * size_of q =
        ap (λ k. k * size_of q) (omega arith) in
      let same : all_matches t (record q { page = some (n + 1) }) m ≡ all_matches t q m =
        filtered-page t q (some (n + 1)) _ in
      let end : n * size_of q + size_of q ≡ suc n * size_of q = omega arith in
      ap₂ (λ front back. front ++ back) (first_pages-take n)
        (ap (λ xs. take (size_of q) (drop (min ((max (n + 1) 1 - 1) * size_of q) (2 ^ 64 - 1)) xs))
            same
          ∙ ap (take (size_of q)) (
              drop-saturated ((max (n + 1) 1 - 1) * size_of q) (all_matches t q m) few
              ∙ ap (λ k. drop k (all_matches t q m)) start))
      ∙ sym (take-add (n * size_of q) (size_of q) (all_matches t q m))
      ∙ ap (λ k. take k (all_matches t q m)) end

-- The pages that a query counts hold, one after the other, exactly the records that match, newest
-- first, each once, for fewer than 2 ^ 64 of them; and a record matches exactly if it passes each
-- filter that is given, by domain, device, server, type, result, interface and protocol, a blank
-- one on results aside.
pub queries-pages :
    (t : Texts) (q : DnsQueriesQuery) (m : DnsMonitor)
    → length (newest_found t q (records_for_persistence m)) < 2 ^ 64
    → (first_pages t q m (queries t q m).total_pages ≡ newest_found t q (records_for_persistence m))
      × ((r : DnsQueryRecord) → (matches t q r ≡ true) ↔ IsFound t q r)
unfolding queries
queries-pages t q m few =
    let all_few : length (all_matches t q m) < 2 ^ 64 =
      omega (arith, few, ap length (all_matches-newest t q m)) in
    (
      first_pages-take t q m all_few (queries t q m).total_pages
          ∙ take_all (all_matches t q m) _
              (enough (length (all_matches t q m)) (size_of q) (omega arith))
          ∙ all_matches-newest t q m,
      matches_iff t q,
    )
  where
    enough : (n s : ℕ) → 0 < s → n ≤ (n + s - 1) / s * s
    enough n s h = omega (arith, lt-div-mul-add {a = n + s - 1} h)
