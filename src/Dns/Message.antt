-- ===== src/Dns/Message.antt =====
-- `parse_dns_message`, `parse_dns_packet` and `match_key` of bandix-plus/src/dns.rs. The texts
-- that the code formats for types, response codes and answers are values that hold their parts.
pub mod Limits
pub mod Query
use bandix_plus_lite.Base.{
  ℕ, zero, suc, ◌+◌, ◌-◌, ◌*◌, ◌/◌, ◌%◌, ◌^◌, min, List, [], ◌∷◌, ◌++◌, Option, some, none, bind,
  Bool, true, false, not, ◌&&◌, ◌||◌, ◌==◌, ◌!=◌, ltb, leb, if◌then◌else◌, length, get_or, drop,
  take, map,
}
use bandix_plus_lite.Base.Bytes.{slice}
use bandix_plus_lite.Base.Addresses.{IpAddr, v4, v6}
use bandix_plus_lite.Dns.Name.{Text, read_u16, read_dns_name}
use bandix_plus_lite.Dns.Packet.{IpPacket, DnsSpan, parse_ip, span_of, message_of}

-- The name of a record type: `type_number n` is "TYPE" with the number.
pub data QueryType : Type 0 where
  type_a type_ns type_cname type_soa type_ptr type_mx type_txt type_aaaa type_srv type_svcb
        type_https :
      QueryType
  type_number : ℕ → QueryType

unfoldable pub dns_type_name : ℕ → QueryType
dns_type_name value =
    if value == 1
    then type_a
    else if value == 2
    then type_ns
    else if value == 5
    then type_cname
    else if value == 6
    then type_soa
    else if value == 12
    then type_ptr
    else if value == 15
    then type_mx
    else if value == 16
    then type_txt
    else if value == 28
    then type_aaaa
    else if value == 33
    then type_srv
    else if value == 64
    then type_svcb
    else if value == 65
    then type_https
    else type_number value

-- `no_response` is the code that restored queries without an answer get.
pub data ResponseCode : Type 0 where
  noerror formerr servfail nxdomain notimp refused_code no_response : ResponseCode
  rcode : ℕ → ResponseCode

unfoldable pub dns_response_code : ℕ → ResponseCode
dns_response_code value =
    if value == 0
    then noerror
    else if value == 1
    then formerr
    else if value == 2
    then servfail
    else if value == 3
    then nxdomain
    else if value == 4
    then notimp
    else if value == 5
    then refused_code
    else rcode value

-- A line of `response_records`.
pub data AnswerLine : Type 0 where
  address_line : QueryType → IpAddr → AnswerLine
  name_line : QueryType → Text → AnswerLine
  mx_line : Text → ℕ → AnswerLine
  txt_line : List Text → AnswerLine
  bytes_line : QueryType → ℕ → AnswerLine

-- `to_ascii_lowercase` and `to_ascii_uppercase` of a text, by bytes.
abbrev pub lower_byte : ℕ → ℕ
lower_byte b = if leb 65 b && leb b 90 then b + 32 else b

abbrev pub to_ascii_lowercase : Text → Text
to_ascii_lowercase t = map lower_byte t

-- The loop over the strings of a TXT record, from the bytes that are left.
unfoldable pub text_parts : ℕ → (List ℕ → Text) → List ℕ → List Text
text_parts zero from_utf8_lossy bytes = []
text_parts (suc rounds) from_utf8_lossy [] = []
text_parts (suc rounds) from_utf8_lossy (size ∷ rest) =
    if ltb (length rest) size
    then []
    else (from_utf8_lossy (take size rest) ∷ text_parts rounds from_utf8_lossy (drop size rest))

-- "UDP" and "TCP".
pub data ProtocolName : Type 0 where
  udp tcp : ProtocolName

pub record ParsedDnsMessage : Type 0 where
  pub is_query : Bool
  pub source_ip : IpAddr
  pub destination_ip : IpAddr
  pub source_port : ℕ
  pub destination_port : ℕ
  pub transaction_id : ℕ
  pub domain : Text
  pub query_type : QueryType
  pub protocol : ProtocolName
  pub response_code : Option ResponseCode
  pub response_ips : List IpAddr
  pub response_records : List AnswerLine

-- The variables of the loop over the answers.
pub record Answers : Type 0 where
  pub cursor : ℕ
  pub ips : List IpAddr
  pub lines : List AnswerLine

abbrev pub push_address : QueryType → IpAddr → Answers → Answers
push_address kind ip s = record s {
  ips = s.ips ++ (ip ∷ []);
  lines = s.lines ++ (address_line kind ip ∷ []);
}

abbrev pub push_line : AnswerLine → Answers → Answers
push_line line s = record s { lines = s.lines ++ (line ∷ []) }

-- A line from a name, when the name can be read.
abbrev pub push_name : (Text → AnswerLine) → Option (Text × ℕ) → Answers → Answers
push_name line none s = s
push_name line (some (name, next)) s = push_line (line name) s

-- The arms of `match rr_type`: the bytes of the record and where they begin.
unfoldable pub push_answer : (List ℕ → Text) → List ℕ → ℕ → List ℕ → ℕ → Answers → Answers
unfolding dns_type_name
push_answer from_utf8_lossy dns rr_type bytes data_start s =
    if rr_type == 1 && length bytes == 4
    then push_address type_a (v4 bytes) s
    else if rr_type == 28 && length bytes == 16
    then push_address type_aaaa (v6 bytes) s
    else if rr_type == 5 || rr_type == 2 || rr_type == 12
    then push_name (name_line (dns_type_name rr_type))
        (read_dns_name from_utf8_lossy dns data_start) s
    else if rr_type == 15 && leb 3 (length bytes)
    then push_name (λ exchange. mx_line exchange (get_or bytes 0 0 * 256 + get_or bytes 1 0))
        (read_dns_name from_utf8_lossy dns (data_start + 2)) s
    else if rr_type == 16
    then push_line (txt_line (text_parts (length bytes) from_utf8_lossy bytes)) s
    else push_line (bytes_line (dns_type_name rr_type) (length bytes)) s

-- One round of the loop over the answers.
unfoldable pub read_answer : (List ℕ → Text) → List ℕ → Answers → Option Answers
read_answer from_utf8_lossy dns s =
    bind (read_dns_name from_utf8_lossy dns s.cursor) λ (owner, next).
      if ltb (length dns) (next + 10)
      then none
      else bind (read_u16 dns next) λ rr_type. bind (read_u16 dns (next + 8)) λ data_len.
        if ltb (length dns) (next + 10 + data_len)
        then none
        else some
            (record (push_answer from_utf8_lossy dns rr_type (slice dns (next + 10) data_len)
              (next + 10) s) { cursor = next + 10 + data_len })

unfoldable pub read_answers : ℕ → (List ℕ → Text) → List ℕ → Answers → Option Answers
read_answers zero from_utf8_lossy dns s = some s
read_answers (suc n) from_utf8_lossy dns s =
    bind (read_answer from_utf8_lossy dns s) (λ s'. read_answers n from_utf8_lossy dns s')

-- The loop over the questions behind the first one.
unfoldable pub skip_questions : ℕ → (List ℕ → Text) → List ℕ → ℕ → Option ℕ
skip_questions zero from_utf8_lossy dns cursor = some cursor
skip_questions (suc n) from_utf8_lossy dns cursor =
    bind (read_dns_name from_utf8_lossy dns cursor) λ (name, next).
      if ltb (length dns) (next + 4) then none else skip_questions n from_utf8_lossy dns (next + 4)

-- What the caller knows of the packet that carries the message.
pub record Carrier : Type 0 where
  pub source_ip : IpAddr
  pub destination_ip : IpAddr
  pub source_port : ℕ
  pub destination_port : ℕ
  pub protocol : ProtocolName

-- `flags & 0x8000 == 0`
abbrev pub is_query_of : ℕ → Bool
is_query_of flags = flags / 2 ^ 15 % 2 == 0

abbrev pub max_dns_answers : ℕ
max_dns_answers = 64

-- The message, once the questions and the answers are read.
abbrev pub parsed_message : Carrier → ℕ → ℕ → Text → QueryType → Answers → ParsedDnsMessage
parsed_message c transaction_id flags domain query_type s = record {
  is_query = is_query_of flags;
  source_ip = c.source_ip;
  destination_ip = c.destination_ip;
  source_port = c.source_port;
  destination_port = c.destination_port;
  transaction_id = transaction_id;
  domain = to_ascii_lowercase domain;
  query_type = query_type;
  protocol = c.protocol;
  response_code = if is_query_of flags then none else some (dns_response_code (flags % 16));
  response_ips = s.ips;
  response_records = s.lines;
}

unfoldable pub parse_dns_message : (List ℕ → Text) → List ℕ → Carrier → Option ParsedDnsMessage
parse_dns_message from_utf8_lossy dns c =
    if ltb (length dns) 12
    then none
    else bind (read_u16 dns 0) λ transaction_id. bind (read_u16 dns 2) λ flags.
      bind (read_u16 dns 4) λ question_count.
        if question_count == 0 || ltb 16 question_count
        then none
        else bind (read_u16 dns 6) λ answer_count.
          bind (read_dns_name from_utf8_lossy dns 12) λ (domain, cursor).
            if ltb (length dns) (cursor + 4)
            then none
            else bind (read_u16 dns cursor) λ type_code.
              bind (skip_questions (question_count - 1) from_utf8_lossy dns (cursor + 4)) λ behind.
                bind
                  (read_answers (if is_query_of flags then 0 else min answer_count max_dns_answers)
                    from_utf8_lossy dns (record { cursor = behind; ips = []; lines = [] }))
                  λ s.
                    some (parsed_message c transaction_id flags domain (dns_type_name type_code) s)

unfoldable pub parse_dns_packet : (List ℕ → Text) → List ℕ → ℕ → ℕ → Option ParsedDnsMessage
parse_dns_packet from_utf8_lossy packet ip_offset ip_version =
    bind (parse_ip packet ip_offset ip_version) λ ip. bind (span_of packet ip) λ span.
      bind (message_of packet span) λ dns. parse_dns_message from_utf8_lossy dns (record {
        source_ip = ip.source;
        destination_ip = ip.destination;
        source_port = span.source_port;
        destination_port = span.destination_port;
        protocol = if ip.protocol == 17 then udp else tcp;
      })
