-- ===== src/Dns/Message/Query.antt =====
-- Messages with one question, as they are written, and what the parser makes of them
-- (bandix-plus/src/dns.rs).
use bandix_plus_lite.Base.{
  ℕ, ◌+◌, ◌-◌, ◌*◌, ◌/◌, ◌%◌, ◌≤◌, ◌≡◌, min, refl, List, [], ◌∷◌, ◌++◌, length, length-append,
  length-drop, ◌==◌, ltb, if◌then◌else◌, arith, ap, sym, ◌∙◌, some, none, bind, Bool, true, false,
  map, take, drop, drop-drop, take-append, drop-append, append_assoc, append-nil, All,
}
use bandix_plus_lite.Base.Bytes.{slice, from_be_acc}
use bandix_plus_lite.Base.Addresses.{v4}
use bandix_plus_lite.Dns.Name.{Text, read_u16, join_labels, read_dns_name}
use bandix_plus_lite.Dns.Name.Reading.{
  IsLabel, encode_labels, encoded_len, length-encode_labels, drop-labels, read_dns_name-plain,
  read_dns_name-compressed,
}
use bandix_plus_lite.Dns.Message.{
  Answers, AnswerLine, ParsedDnsMessage, Carrier, push_answer, push_address, read_answer,
  read_answers, skip_questions, parse_dns_message, parsed_message, is_query_of, max_dns_answers,
  dns_type_name, address_line, type_a, to_ascii_lowercase, dns_response_code,
}

-- An A record of the question's name, which a pointer names: type, class, time to live, address.
pub encode_answers : List (List ℕ) → List ℕ
encode_answers [] = []
encode_answers (ip ∷ ips) =
    192 ∷ 12 ∷ 0 ∷ 1 ∷ 0 ∷ 1 ∷ 0 ∷ 0 ∷ 0 ∷ 60 ∷ 0 ∷ 4 ∷ (ip ++ encode_answers ips)

-- The question behind its name.
abbrev pub encode_question : ℕ → ℕ → List ℕ → List ℕ
encode_question type_code class_code more =
    (type_code / 256) ∷ (type_code % 256) ∷ (class_code / 256) ∷ (class_code % 256) ∷ more

abbrev pub encode_header : ℕ → ℕ → ℕ → List ℕ → List ℕ
encode_header id flags answer_count more =
    (id / 256)
    ∷ (id % 256)
    ∷ (flags / 256)
    ∷ (flags % 256)
    ∷ 0
    ∷ 1
    ∷ (answer_count / 256)
    ∷ (answer_count % 256)
    ∷ 0
    ∷ 0
    ∷ 0
    ∷ 0
    ∷ more

pub encode_message : ℕ → ℕ → List (List ℕ) → ℕ → ℕ → List (List ℕ) → List ℕ
encode_message id flags labels type_code class_code ips =
    encode_header id flags (length ips)
      (encode_labels labels (0 ∷ encode_question type_code class_code (encode_answers ips)))

read_u16-at :
    (packet more : List ℕ) (o a b : ℕ)
    → drop o packet ≡ a ∷ b ∷ more
    → read_u16 packet o ≡ some (a * 256 + b)
unfolding read_u16
read_u16-at packet more o a b h =
    let size : length packet - o ≡ 2 + length more =
      omega (arith, sym (length-drop o packet) ∙ ap length h) in
    let inside : ltb (length packet) (o + 2) ≡ false = ground (arith, size) in
    let first : from_be_acc 0 (slice packet o 2) ≡ a * 256 + b =
      ap (λ t. from_be_acc 0 (take 2 t)) h ∙ omega arith in
    rw (inside, first) refl

drop-more :
    (o n : ℕ) (packet rest : List ℕ) → drop o packet ≡ rest → drop (o + n) packet ≡ drop n rest
drop-more o n packet rest h = sym (drop-drop n o packet) ∙ ap (drop n) h

-- The answers behind those that are there.
with_answers : Answers → List (List ℕ) → Answers
with_answers s [] = s
with_answers s (ip ∷ ips) =
    with_answers (record (push_address type_a (v4 ip) s) { cursor = s.cursor + 16 }) ips

abbrev pub a_line : List ℕ → AnswerLine
a_line ip = address_line type_a (v4 ip)

with_answers-ips :
    (ips : List (List ℕ)) (s : Answers) → (with_answers s ips).ips ≡ s.ips ++ map v4 ips
unfolding with_answers
with_answers-ips [] s = sym (append-nil s.ips)
with_answers-ips (ip ∷ ips) s =
    with_answers-ips ips (record (push_address type_a (v4 ip) s) { cursor = s.cursor + 16 })
    ∙ append_assoc s.ips (v4 ip ∷ []) (map v4 ips)

with_answers-lines :
    (ips : List (List ℕ)) (s : Answers) → (with_answers s ips).lines ≡ s.lines ++ map a_line ips
unfolding with_answers
with_answers-lines [] s = sym (append-nil s.lines)
with_answers-lines (ip ∷ ips) s =
    with_answers-lines ips (record (push_address type_a (v4 ip) s) { cursor = s.cursor + 16 })
    ∙ append_assoc s.lines (a_line ip ∷ []) (map a_line ips)

module _ (from_utf8_lossy : List ℕ → Text) (labels : List (List ℕ)) (dns behind : List ℕ)
    (named : drop 12 dns ≡ encode_labels labels (0 ∷ behind)) (v : All IsLabel labels)
    (short : encoded_len labels ≤ 255) where
  read_answer-encoded :
      (s : Answers) (ip : List ℕ) (ips : List (List ℕ))
      → drop s.cursor dns ≡ encode_answers (ip ∷ ips)
      → length ip ≡ 4
      → read_answer from_utf8_lossy dns s
        ≡ some (record (push_address type_a (v4 ip) s) { cursor = s.cursor + 16 })
  unfolding read_answer push_answer encode_answers encode_labels encoded_len
  read_answer-encoded s ip ips h four =
      let name : read_dns_name from_utf8_lossy dns s.cursor
          ≡ some (join_labels (map from_utf8_lossy labels), s.cursor + 2) =
        read_dns_name-compressed from_utf8_lossy [] labels dns fixed behind s.cursor 12 h named tt v
          (omega arith) (omega arith)
        ∙ ap (λ n. some (join_labels (map from_utf8_lossy labels), n)) (omega arith) in
      let rr_type : read_u16 dns (s.cursor + 2) ≡ some 1 =
        read_u16-at dns _ (s.cursor + 2) 0 1 (drop-more s.cursor 2 dns _ h) in
      let data_len : read_u16 dns (s.cursor + 2 + 8) ≡ some 4 =
        read_u16-at dns _ (s.cursor + 2 + 8) 0 4
          (behind_by 10 8 refl ∙ drop-more s.cursor 10 dns _ h) in
      let whole : drop (s.cursor + 2 + 10) dns ≡ ip ++ encode_answers ips =
        behind_by 12 10 refl ∙ drop-more s.cursor 12 dns _ h in
      let size : length dns - (s.cursor + 2 + 10) ≡ 4 + length (encode_answers ips) = omega (
        arith,
        sym (length-drop (s.cursor + 2 + 10) dns) ∙ ap length whole,
        length-append ip (encode_answers ips),
        four,
      ) in
      let room : ltb (length dns) (s.cursor + 2 + 10) ≡ false = ground (arith, size) in
      let fits : ltb (length dns) (s.cursor + 16) ≡ false = ground (arith, size) in
      let bytes : slice dns (s.cursor + 2 + 10) 4 ≡ ip =
        ap (take 4) whole ∙ take-append ip (encode_answers ips) 4 (sym four) in
      let is_four : (length ip == 4) ≡ true = ground arith in
      let end : s.cursor + 2 + 10 + 4 ≡ s.cursor + 16 = omega arith in
      simp (name, room, rr_type, data_len, fits, bytes, is_four, end)
    where
      fixed : List ℕ
      fixed = 0 ∷ 1 ∷ 0 ∷ 1 ∷ 0 ∷ 0 ∷ 0 ∷ 60 ∷ 0 ∷ 4 ∷ (ip ++ encode_answers ips)

      behind_by : (n m : ℕ) → n ≡ 2 + m → drop (s.cursor + 2 + m) dns ≡ drop (s.cursor + n) dns
      behind_by n m e = ap (λ k. drop k dns) (omega arith)

  read_answers-encoded :
      (ips : List (List ℕ)) (s : Answers)
      → drop s.cursor dns ≡ encode_answers ips
      → All (λ ip. length ip ≡ 4) ips
      → read_answers (length ips) from_utf8_lossy dns s ≡ some (with_answers s ips)
  unfolding read_answers encode_answers with_answers
  read_answers-encoded [] s h four = refl
  read_answers-encoded (ip ∷ ips) s h four =
      let s1 : Answers = record (push_address type_a (v4 ip) s) { cursor = s.cursor + 16 } in
      let rest : drop (s.cursor + 16) dns ≡ encode_answers ips =
        ap (λ k. drop k dns) (omega arith)
        ∙ drop-more (s.cursor + 12) 4 dns _ (drop-more s.cursor 12 dns _ h)
        ∙ drop-append ip (encode_answers ips) 4 (sym four.0) in
      ap (λ o. bind o (λ s'. read_answers (length ips) from_utf8_lossy dns s'))
        (read_answer-encoded s ip ips h four.0)
      ∙ read_answers-encoded ips s1 rest four.1

parse_dns_message-steps :
    (from_utf8_lossy : List ℕ → Text) (dns : List ℕ) (c : Carrier) (id flags count : ℕ)
    (domain : Text) (cursor type_code : ℕ) (s : Answers)
    → ltb (length dns) 12 ≡ false
    → read_u16 dns 0 ≡ some id
    → read_u16 dns 2 ≡ some flags
    → read_u16 dns 4 ≡ some 1
    → read_u16 dns 6 ≡ some count
    → read_dns_name from_utf8_lossy dns 12 ≡ some (domain, cursor)
    → ltb (length dns) (cursor + 4) ≡ false
    → read_u16 dns cursor ≡ some type_code
    → read_answers
        (if is_query_of flags then 0 else min count max_dns_answers)
        from_utf8_lossy
        dns
        (record { cursor = cursor + 4; ips = []; lines = [] })
      ≡ some s
    → parse_dns_message from_utf8_lossy dns c
      ≡ some (parsed_message c id flags domain (dns_type_name type_code) s)
unfolding parse_dns_message skip_questions
parse_dns_message-steps from_utf8_lossy dns c id flags count domain cursor type_code s h0 h1 h2 h3
      h4 h5 h6 h7 h8 =
    simp (h0, h1, h2, h3, h4, h5, h6, h7, h8)

answers_read :
    (query : Bool) (rounds : ℕ) (from_utf8_lossy : List ℕ → Text) (dns : List ℕ) (start s : Answers)
    → read_answers rounds from_utf8_lossy dns start ≡ some s
    → read_answers (if query then 0 else rounds) from_utf8_lossy dns start
      ≡ some (if query then start else s)
unfolding read_answers
answers_read true rounds from_utf8_lossy dns start s h = refl
answers_read false rounds from_utf8_lossy dns start s h = h

-- A message with one question is parsed into what was written: transaction, domain in lower case,
-- type and the packet's addresses and ports. A response with up to 64 A records of the question's
-- name gets their addresses in order and its response code, a query gets no answers. The labels of
-- the domain have 1 to 63 bytes, and 255 at most with their lengths.
pub parse_dns_message-encode_message :
    (from_utf8_lossy : List ℕ → Text) (id flags : ℕ) (labels : List (List ℕ))
    (type_code class_code : ℕ) (ips : List (List ℕ)) (c : Carrier)
    → All IsLabel labels
    → encoded_len labels ≤ 255
    → All (λ ip. length ip ≡ 4) ips
    → length ips ≤ 64
    → parse_dns_message from_utf8_lossy (encode_message id flags labels type_code class_code ips) c
      ≡ some (record {
        is_query = is_query_of flags;
        source_ip = c.source_ip;
        destination_ip = c.destination_ip;
        source_port = c.source_port;
        destination_port = c.destination_port;
        transaction_id = id;
        domain = to_ascii_lowercase (join_labels (map from_utf8_lossy labels));
        query_type = dns_type_name type_code;
        protocol = c.protocol;
        response_code = if is_query_of flags then none else some (dns_response_code (flags % 16));
        response_ips = if is_query_of flags then [] else map v4 ips;
        response_records = if is_query_of flags then [] else map a_line ips;
      })
unfolding encode_message
parse_dns_message-encode_message from_utf8_lossy id flags labels type_code class_code ips c v short
      four few =
    parse_dns_message-steps from_utf8_lossy dns c id flags (length ips)
      (join_labels (map from_utf8_lossy labels)) (12 + encoded_len labels + 1) type_code
      (if is_query_of flags then start else with_answers start ips) long read_id read_flags
      read_questions read_count read_name room read_type
      (answers_read (is_query_of flags) (min (length ips) 64) from_utf8_lossy dns start _
        (ap (λ n. read_answers n from_utf8_lossy dns start) all_of ∙ read_all))
    ∙ collected (is_query_of flags)
  where
    dns : List ℕ
    dns = encode_message id flags labels type_code class_code ips

    behind : List ℕ
    behind = encode_question type_code class_code (encode_answers ips)

    named : drop 12 dns ≡ encode_labels labels (0 ∷ behind)
    named = refl

    size : length dns ≡ 12 + (encoded_len labels + (1 + (4 + length (encode_answers ips))))
    size = omega (arith, length-encode_labels labels (0 ∷ behind))

    long : ltb (length dns) 12 ≡ false
    long = ground (arith, size)

    read_id : read_u16 dns 0 ≡ some id
    read_id = read_u16-at dns _ 0 (id / 256) (id % 256) refl ∙ ap some (omega arith)

    read_flags : read_u16 dns 2 ≡ some flags
    read_flags = read_u16-at dns _ 2 (flags / 256) (flags % 256) refl ∙ ap some (omega arith)

    read_questions : read_u16 dns 4 ≡ some 1
    read_questions = read_u16-at dns _ 4 0 1 refl

    read_count : read_u16 dns 6 ≡ some (length ips)
    read_count =
        read_u16-at dns _ 6 (length ips / 256) (length ips % 256) refl ∙ ap some (omega arith)

    read_name :
        read_dns_name from_utf8_lossy dns 12
        ≡ some (join_labels (map from_utf8_lossy labels), 12 + encoded_len labels + 1)
    read_name = read_dns_name-plain from_utf8_lossy labels dns behind 12 named v short

    at_type : drop (12 + encoded_len labels + 1) dns ≡ behind
    at_type =
        drop-more (12 + encoded_len labels) 1 dns _ (drop-labels labels dns (0 ∷ behind) 12 named)

    room : ltb (length dns) (12 + encoded_len labels + 1 + 4) ≡ false
    room = ground (arith, size)

    read_type : read_u16 dns (12 + encoded_len labels + 1) ≡ some type_code
    read_type =
        read_u16-at dns _ (12 + encoded_len labels + 1) (type_code / 256) (type_code % 256) at_type
        ∙ ap some (omega arith)

    start : Answers
    start = record { cursor = 12 + encoded_len labels + 1 + 4; ips = []; lines = [] }

    read_all : read_answers (length ips) from_utf8_lossy dns start ≡ some (with_answers start ips)
    read_all =
        read_answers-encoded from_utf8_lossy labels dns behind named v short ips start
          (drop-more (12 + encoded_len labels + 1) 4 dns _ at_type) four

    all_of : min (length ips) 64 ≡ length ips
    all_of = omega arith

    message_with : Bool → Answers → ParsedDnsMessage
    message_with query s = record {
      is_query = query;
      source_ip = c.source_ip;
      destination_ip = c.destination_ip;
      source_port = c.source_port;
      destination_port = c.destination_port;
      transaction_id = id;
      domain = to_ascii_lowercase (join_labels (map from_utf8_lossy labels));
      query_type = dns_type_name type_code;
      protocol = c.protocol;
      response_code = if query then none else some (dns_response_code (flags % 16));
      response_ips = s.ips;
      response_records = s.lines;
    }

    collected :
        (query : Bool)
        → some (message_with query (if query then start else with_answers start ips))
          ≡ some (record (message_with query start) {
            response_ips = if query then [] else map v4 ips;
            response_records = if query then [] else map a_line ips;
          })
    collected true = refl
    collected false = λ j. some (record (message_with false start) {
      response_ips = with_answers-ips ips start j;
      response_records = with_answers-lines ips start j;
    })
