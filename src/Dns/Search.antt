-- ===== src/Dns/Search.antt =====
-- `queries` of `DnsMonitor` in bandix-plus/src/dns.rs, without the statistics that it attaches, and
-- the two functions that match results. How values are written as texts, `trim` of a text and the
-- search of a text in another are parameters.
pub mod Pages
mod Tests
use bandix_plus_lite.Base.{
  ℕ, zero, suc, ◌+◌, ◌-◌, ◌*◌, ◌/◌, ◌^◌, min, max, List, [], ◌∷◌, ◌++◌, map, Option, some, none,
  Bool, true, false, not, ◌&&◌, ◌||◌, ◌==◌, leb, if◌then◌else◌, length, take, drop,
}
use bandix_plus_lite.Base.Map.{Eq, nat_eq, get}
use bandix_plus_lite.Base.Equality.{decided_eq}
use bandix_plus_lite.Base.Addresses.{IpAddr}
use native.Mathlib.Decide.{ℕ_discrete}
use bandix_plus_lite.Dns.Name.{Text, unwrap_or}
use bandix_plus_lite.Dns.Message.{
  QueryType, ResponseCode, AnswerLine, ProtocolName, to_ascii_lowercase,
}
use bandix_plus_lite.Dns.Store.{
  DnsQueryRecord, TrackedQuery, DnsMonitor, Queries, tracked_list, records_of,
}

unfoldable pub Text-discrete : Discrete Text
Text-discrete = hlevel ℕ_discrete

instance abbrev pub text_eq : Eq Text
text_eq = decided_eq Text-discrete

-- Values as texts, and the library's functions on texts.
pub record Texts : Type 0 where
  pub ip_text : IpAddr → Text
  pub type_text : QueryType → Text
  pub code_text : ResponseCode → Text
  pub answer_text : AnswerLine → Text
  pub protocol_text : ProtocolName → Text
  pub trim : Text → Text
  -- The second text within the first.
  pub contains_text : Text → Text → Bool

abbrev pub upper_byte : ℕ → ℕ
upper_byte b = if leb 97 b && leb b 122 then b - 32 else b

abbrev pub to_ascii_uppercase : Text → Text
to_ascii_uppercase t = map upper_byte t

abbrev pub eq_ignore_ascii_case : Text → Text → Bool
eq_ignore_ascii_case a b = text_eq.beq (to_ascii_lowercase a) (to_ascii_lowercase b)

-- `split_once(':')`
abbrev pub split_head : ℕ → Option (Text × Text) → Option (Text × Text)
split_head b none = none
split_head b (some (kind, bytes)) = some (b ∷ kind, bytes)

unfoldable pub split_once_colon : Text → Option (Text × Text)
split_once_colon [] = none
split_once_colon (b ∷ t) =
    let rest = split_head b (split_once_colon t) in if b == b':' then some ([], t) else rest

-- "0.0.0.0" and "::"
abbrev pub any_v4 : Text
any_v4 = b'0' ∷ b'.' ∷ b'0' ∷ b'.' ∷ b'0' ∷ b'.' ∷ b'0' ∷ []

abbrev pub any_v6 : Text
any_v6 = b':' ∷ b':' ∷ []

abbrev pub is_any : (α : Type 0) → (α → Bool) → List α → Bool
is_any α p [] = false
is_any α p (x ∷ xs) = p x || is_any α p xs

pub record DnsQueriesQuery : Type 0 where
  pub domain : Option Text
  pub device : Option Text
  pub dns_server : Option Text
  pub query_type : Option Text
  pub result : Option Text
  pub iface : Option Text
  pub protocol : Option Text
  pub page : Option ℕ
  pub page_size : Option ℕ

-- A filter that is not given accepts everything.
abbrev pub accepts : Option Text → (Text → Bool) → Bool
accepts none test = true
accepts (some needle) test = test needle

abbrev pub map_text : (Text → Text) → Option Text → Option Text
map_text f none = none
map_text f (some t) = some (f t)

abbrev pub unless_empty : Text → Option Text
unless_empty [] = none
unless_empty (b ∷ t) = some (b ∷ t)

pub record DnsQueriesResponse : Type 0 where
  pub found : List DnsQueryRecord
  pub total : ℕ
  pub page : ℕ
  pub page_size : ℕ
  pub total_pages : ℕ

abbrev pub reversed : {A : Type 0} → List A → List A → List A
reversed [] done = done
reversed (x ∷ xs) done = reversed xs (x ∷ done)

module _ (t : Texts) where
  abbrev pub blocked_data : Option (Text × Text) → Bool
  blocked_data none = false
  blocked_data (some (kind, bytes)) =
      eq_ignore_ascii_case kind (b'A' ∷ []) && text_eq.beq (t.trim bytes) any_v4
      || eq_ignore_ascii_case kind (b'A' ∷ b'A' ∷ b'A' ∷ b'A' ∷ [])
        && text_eq.beq (t.trim bytes) any_v6

  unfoldable pub is_blocked_answer : Text → Bool
  is_blocked_answer value =
      let answer = t.trim value in
      text_eq.beq answer any_v4
      || text_eq.beq answer any_v6
      || blocked_data (split_once_colon answer)

  -- "blocked"
  abbrev pub blocked_word : Text
  blocked_word = b'b' ∷ b'l' ∷ b'o' ∷ b'c' ∷ b'k' ∷ b'e' ∷ b'd' ∷ []

  abbrev pub has_code : Option ResponseCode → Text → Bool
  has_code none needle = false
  has_code (some code) needle = t.contains_text (to_ascii_lowercase (t.code_text code)) needle

  unfoldable pub result_matches : DnsQueryRecord → Text → Bool
  result_matches r needle =
      if text_eq.beq needle blocked_word
      then is_any IpAddr (λ ip. is_blocked_answer (t.ip_text ip)) r.response_ips
        || is_any AnswerLine (λ line. is_blocked_answer (t.answer_text line)) r.response_records
      else has_code r.response_code needle
        || is_any IpAddr (λ ip. t.contains_text (to_ascii_lowercase (t.ip_text ip)) needle)
            r.response_ips
        || is_any AnswerLine
            (λ line. t.contains_text (to_ascii_lowercase (t.answer_text line)) needle)
            r.response_records

  abbrev pub wanted_result : Option Text → Option Text
  wanted_result none = none
  wanted_result (some needle) = map_text to_ascii_lowercase (unless_empty (t.trim needle))

  -- The closure of `filter`.
  unfoldable pub matches : DnsQueriesQuery → DnsQueryRecord → Bool
  matches q r =
      accepts (map_text to_ascii_lowercase q.domain)
        (λ needle. t.contains_text (to_ascii_lowercase r.domain) needle)
      && accepts (map_text to_ascii_lowercase q.device) (λ needle.
        t.contains_text (to_ascii_lowercase r.device_mac) needle
        || t.contains_text (to_ascii_lowercase r.device_name) needle
        || t.contains_text (to_ascii_lowercase (t.ip_text r.source_ip)) needle)
      && accepts (map_text to_ascii_lowercase q.dns_server)
          (λ needle. t.contains_text (to_ascii_lowercase (t.ip_text r.destination_ip)) needle)
      && accepts (map_text to_ascii_uppercase q.query_type)
          (λ wanted. eq_ignore_ascii_case (t.type_text r.query_type) wanted)
      && accepts (wanted_result q.result) (result_matches r)
      && accepts (map_text to_ascii_lowercase q.iface)
          (λ wanted. eq_ignore_ascii_case r.iface wanted)
      && accepts (map_text to_ascii_uppercase q.protocol)
          (λ wanted. eq_ignore_ascii_case (t.protocol_text r.protocol) wanted)

  abbrev pub filtered : DnsQueriesQuery → List DnsQueryRecord → List DnsQueryRecord
  filtered q [] = []
  filtered q (r ∷ records) = if matches q r then (r ∷ filtered q records) else filtered q records

  -- The newest first.
  unfoldable pub all_matches : DnsQueriesQuery → DnsMonitor → List DnsQueryRecord
  all_matches q m = filtered q (records_of (reversed m.order []) m.records)

  unfoldable pub queries : DnsQueriesQuery → DnsMonitor → DnsQueriesResponse
  queries q m =
      let page = max (unwrap_or q.page 1) 1 in
      let page_size = min (max (unwrap_or q.page_size 20) 1) 100 in
      let matching = all_matches q m in
      let total = length matching in
      let start = min ((page - 1) * page_size) (2 ^ 64 - 1) in
      record {
        found = take page_size (drop start matching);
        total = total;
        page = page;
        page_size = page_size;
        total_pages = (total + page_size - 1) / page_size;
      }
