-- ===== src/Dns/Store/Restored.antt =====
-- What `restore_records` makes of the records of a file (bandix-plus/src/dns.rs).
use bandix_plus_lite.Base.{
  Option, some, none, ℕ, ◌+◌, ◌-◌, ◌^◌, ◌<◌, ◌≡◌, max, refl, sym, ap, subst₂, ◌∙◌, List, [], ◌∷◌,
  ◌++◌, append-nil, append_assoc, Bool, length, length-append, length-drop, map, last, arith,
}
use bandix_plus_lite.Base.Map.{nat_eq, insert}
use bandix_plus_lite.Dns.Name.{Text}
use bandix_plus_lite.Dns.Message.{ResponseCode, no_response, to_ascii_lowercase}
use bandix_plus_lite.Dns.Store.{
  DnsQueryRecord, TrackedQuery, DnsMonitor, new, following_id, mark_unanswered, restore_record,
  restore_all, restore_records, records_for_persistence,
}
use bandix_plus_lite.Dns.Store.Shape.{
  Ascends, keys, IsShaped, all_records, Ascends-append, insert-last, keys-append,
}
use bandix_plus_lite.Dns.Store.Bounded.{IsWellFormed, new-IsWellFormed}
use bandix_plus_lite.Dns.Store.Newest.{records_for_persistence-IsShaped, all_records-append}

-- The code that a restored query has: one that was never answered gets NO_RESPONSE.
pub code_after : Option ℕ → Option ResponseCode → Option ResponseCode
code_after none none = some no_response
code_after none (some code) = some code
code_after (some time_ms) code = code

-- A record as it is restored: but for the code as it was.
pub marked : DnsQueryRecord → DnsQueryRecord
marked r = record r { response_code = code_after r.response_time_ms r.response_code }

mark-code_after :
    (r : DnsQueryRecord) (time_ms : Option ℕ) (code : Option ResponseCode)
    → r.response_code ≡ code
    → mark_unanswered r time_ms code ≡ record r { response_code = code_after time_ms code }
unfolding code_after
mark-code_after r none none e = refl
mark-code_after r none (some code) e = ap (λ c. record r { response_code = c }) e
mark-code_after r (some time_ms) code e = ap (λ c. record r { response_code = c }) e

mark-marked : (r : DnsQueryRecord) → mark_unanswered r r.response_time_ms r.response_code ≡ marked r
unfolding marked
mark-marked r = mark-code_after r r.response_time_ms r.response_code refl

abbrev restored_query : DnsQueryRecord → TrackedQuery
restored_query r = record {
  observed_ns = 0;
  query_key = record {
    client_ip = r.source_ip;
    client_port = r.source_port;
    transaction_id = r.transaction_id;
    domain = to_ascii_lowercase r.domain;
    query_type = r.query_type;
    protocol = r.protocol;
  };
  tracked = mark_unanswered r r.response_time_ms r.response_code;
}

record Restored (m m' : DnsMonitor) (records : List DnsQueryRecord) : Type 0 where
  shaped : IsShaped m'
  grown : all_records m'.records ≡ all_records m.records ++ map marked records
  count : length m'.records ≡ length m.records + length records
  limit : m'.max_records ≡ m.max_records

restore_record-Restored :
    (r : DnsQueryRecord) (m : DnsMonitor)
    → IsShaped m
    → m.next_id < 2 ^ 64 - 1
    → Restored m (restore_record r m) (r ∷ []) × ((restore_record r m).next_id ≡ m.next_id + 1)
unfolding restore_record
restore_record-Restored r m v room =
    let q = restored_query r in
    let appended : insert m.next_id q m.records ≡ m.records ++ ((m.next_id, q) ∷ []) =
      insert-last 0 m.records m.next_id q v.ascending in
    let ids : keys (insert m.next_id q m.records) ≡ keys m.records ++ (m.next_id ∷ []) =
      ap keys appended ∙ keys-append m.records m.next_id q in
    let next : m.next_id + 1 ≡ following_id m.next_id = omega arith in
    (
      record {
        shaped = record {
          listed = ap (λ o. o ++ (m.next_id ∷ [])) v.listed ∙ sym ids;
          ascending =
              subst₂ (λ k hi. Ascends 0 k hi) (sym ids) next
                (Ascends-append 0 (keys m.records) m.next_id v.ascending);
        };
        grown =
            ap all_records appended
            ∙ all_records-append m.records m.next_id q
            ∙ ap (λ t. all_records m.records ++ (t ∷ [])) (mark-marked r);
        count = ap length appended ∙ length-append m.records ((m.next_id, q) ∷ []);
        limit = refl;
      },
      sym next,
    )

restore_all-Restored :
    (records : List DnsQueryRecord) (m : DnsMonitor)
    → IsShaped m
    → m.next_id + length records < 2 ^ 64
    → Restored m (restore_all records m) records
unfolding restore_all
restore_all-Restored [] m v room = record {
  shaped = v;
  grown = sym (append-nil (all_records m.records));
  count = omega arith;
  limit = refl;
}
restore_all-Restored (r ∷ records) m v room =
    let (one, next) = restore_record-Restored r m v (omega arith) in
    let rest = restore_all-Restored records (restore_record r m) one.shaped (omega (arith, next)) in
    record {
      shaped = rest.shaped;
      grown =
          rest.grown
          ∙ ap (λ t. t ++ map marked records) one.grown
          ∙ append_assoc (all_records m.records) (marked r ∷ []) (map marked records);
      count = omega (arith, rest.count, one.count);
      limit = rest.limit ∙ one.limit;
    }

-- A new monitor restored from fewer than 2 ^ 64 - 1 records holds the newest of them, as many as
-- its limit allows, in their order and as they were, but that one without a response time and a
-- response code has the code NO_RESPONSE, and is well-formed.
pub restore_records-newest :
    (enabled persistence_enabled : Bool) (max_records : ℕ) (interfaces : List Text)
    (records : List DnsQueryRecord)
    → length records < 2 ^ 64 - 1
    → (records_for_persistence
          (restore_records records (new enabled persistence_enabled max_records interfaces))
        ≡ map marked (last (max max_records 1) records))
      × IsWellFormed
          (restore_records records (new enabled persistence_enabled max_records interfaces))
unfolding restore_records new
restore_records-newest enabled persistence_enabled max_records interfaces records few =
    let start = new enabled persistence_enabled max_records interfaces in
    let newest = last (max max_records 1) records in
    let size = length-drop (length records - max max_records 1) records in
    let r =
      restore_all-Restored newest start
        (new-IsWellFormed enabled persistence_enabled max_records interfaces).shape
        (omega (arith, size)) in
    (
      records_for_persistence-IsShaped (restore_all newest start) r.shaped ∙ r.grown,
      record {
        shape = record { listed = r.shaped.listed; ascending = r.shaped.ascending };
        bounded = omega (arith, size, r.count, r.limit);
      },
    )
