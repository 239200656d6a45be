-- ===== src/Dns/Message/Limits.antt =====
-- What the answers of a message are bounded by (bandix-plus/src/dns.rs).
use bandix_plus_lite.Base.{
  ℕ, zero, suc, ◌+◌, ◌-◌, ◌≤◌, ◌≡◌, min, refl, List, [], ◌∷◌, length, length-append, Option, some,
  none, subst₂, some-injective, ap, sym, ◌∙◌, bind-eq-some, guard-eq-some, Bool, true, false, subst,
  subst₂, some-injective, ap, sym, ◌∙◌, ◌==◌, ◌&&◌, ◌||◌, ltb, leb, if◌then◌else◌, arith,
}
use bandix_plus_lite.Base.Bytes.{slice}
use bandix_plus_lite.Base.Addresses.{IpAddr, v4, v6}
use bandix_plus_lite.Dns.Name.{Text, read_u16, read_dns_name}
use bandix_plus_lite.Dns.Message.{
  Answers, AnswerLine, QueryType, ParsedDnsMessage, Carrier, push_answer, push_name, push_line,
  push_address, read_answer, read_answers, skip_questions, parse_dns_message, parsed_message,
  is_query_of, max_dns_answers, dns_type_name, address_line, address_line, address_line,
  address_line, type_a, type_aaaa,
}

-- No more than so many lines, and each address has a line.
pub record AnswersAreLimited (n : ℕ) (s : Answers) : Type 0 where
  pub few_lines : length s.lines ≤ n
  pub few_ips : length s.ips ≤ length s.lines

module _ (n : ℕ) (s : Answers) (v : AnswersAreLimited n s) where
  same-AnswersAreLimited : AnswersAreLimited (n + 1) s
  same-AnswersAreLimited = record { few_lines = omega (arith, v.few_lines); few_ips = v.few_ips }

  push_line-AnswersAreLimited : (line : AnswerLine) → AnswersAreLimited (n + 1) (push_line line s)
  push_line-AnswersAreLimited line = record {
    few_lines = omega (arith, length-append s.lines (line ∷ []), v.few_lines);
    few_ips = omega (arith, length-append s.lines (line ∷ []), v.few_ips);
  }

  push_address-AnswersAreLimited :
      (kind : QueryType) (ip : IpAddr) → AnswersAreLimited (n + 1) (push_address kind ip s)
  push_address-AnswersAreLimited kind ip = record {
    few_lines = omega (arith, length-append s.lines (address_line kind ip ∷ []), v.few_lines);
    few_ips = omega (
      arith,
      length-append s.lines (address_line kind ip ∷ []),
      length-append s.ips (ip ∷ []),
      v.few_ips,
    );
  }

  push_name-AnswersAreLimited :
      (line : Text → AnswerLine) (o : Option (Text × ℕ))
      → AnswersAreLimited (n + 1) (push_name line o s)
  push_name-AnswersAreLimited line none = same-AnswersAreLimited
  push_name-AnswersAreLimited line (some (name, next)) = push_line-AnswersAreLimited (line name)

  push_answer-AnswersAreLimited :
      (from_utf8_lossy : List ℕ → Text) (dns : List ℕ) (rr_type : ℕ) (bytes : List ℕ) (start : ℕ)
      → AnswersAreLimited (n + 1) (push_answer from_utf8_lossy dns rr_type bytes start s)
  unfolding push_answer
  push_answer-AnswersAreLimited from_utf8_lossy dns rr_type bytes start =
      either (rr_type == 1 && length bytes == 4) (push_address-AnswersAreLimited type_a (v4 bytes))
        (either (rr_type == 28 && length bytes == 16)
          (push_address-AnswersAreLimited type_aaaa (v6 bytes))
          (either (rr_type == 5 || rr_type == 2 || rr_type == 12) (push_name-AnswersAreLimited _ _)
            (either (rr_type == 15 && leb 3 (length bytes)) (push_name-AnswersAreLimited _ _) (
              either (rr_type == 16) (push_line-AnswersAreLimited _)
                (push_line-AnswersAreLimited _)))))
    where
      either :
          (b : Bool) {x y : Answers}
          → AnswersAreLimited (n + 1) x
          → AnswersAreLimited (n + 1) y
          → AnswersAreLimited (n + 1) (if b then x else y)
      either true vx vy = vx
      either false vx vy = vy

  read_answer-AnswersAreLimited :
      (from_utf8_lossy : List ℕ → Text) (dns : List ℕ) (s' : Answers)
      → read_answer from_utf8_lossy dns s ≡ some s'
      → AnswersAreLimited (n + 1) s'
  unfolding read_answer
  read_answer-AnswersAreLimited from_utf8_lossy dns s' h =
      let (owner, e0, h0) = bind-eq-some (read_dns_name from_utf8_lossy dns s.cursor) _ h in
      let next = owner.1 in
      let h1 = (guard-eq-some (ltb (length dns) (next + 10)) _ h0).1 in
      let (rr_type, e1, h2) = bind-eq-some (read_u16 dns next) _ h1 in
      let (data_len, e2, h3) = bind-eq-some (read_u16 dns (next + 8)) _ h2 in
      let (fits, h4) = guard-eq-some (ltb (length dns) (next + 10 + data_len)) _ h3 in
      let a =
        push_answer-AnswersAreLimited from_utf8_lossy dns rr_type (slice dns (next + 10) data_len)
          (next + 10) in
      subst (AnswersAreLimited (n + 1)) (some-injective h4)
        (record { few_lines = a.few_lines; few_ips = a.few_ips })

read_answers-AnswersAreLimited :
    (k n : ℕ) (from_utf8_lossy : List ℕ → Text) (dns : List ℕ) (s s' : Answers)
    → AnswersAreLimited n s
    → read_answers k from_utf8_lossy dns s ≡ some s'
    → AnswersAreLimited (n + k) s'
unfolding read_answers
read_answers-AnswersAreLimited zero n from_utf8_lossy dns s s' v h =
    let none_more : n ≡ n + 0 = omega arith in
    subst₂ AnswersAreLimited none_more (some-injective h) v
read_answers-AnswersAreLimited (suc k) n from_utf8_lossy dns s s' v h =
    let (s1, e, rest) =
      bind-eq-some (read_answer from_utf8_lossy dns s) (read_answers k from_utf8_lossy dns) h in
    let more : n + 1 + k ≡ n + suc k = omega arith in
    subst (λ m. AnswersAreLimited m s') more
      (read_answers-AnswersAreLimited k (n + 1) from_utf8_lossy dns s1 s'
        (read_answer-AnswersAreLimited n s v from_utf8_lossy dns s1 e) rest)

abbrev MessageIsLimited : ParsedDnsMessage → Type 0
MessageIsLimited m =
    (length m.response_records ≤ 64)
    × (length m.response_ips ≤ length m.response_records)
    × (m.is_query ≡ true → (m.response_code ≡ none) × (m.response_records ≡ []))

parsed-MessageIsLimited :
    (from_utf8_lossy : List ℕ → Text) (dns : List ℕ) (c : Carrier)
    (transaction_id flags answer_count : ℕ) (domain : Text) (type_code behind : ℕ) (s : Answers)
    → read_answers
        (if is_query_of flags then 0 else min answer_count max_dns_answers)
        from_utf8_lossy
        dns
        (record { cursor = behind; ips = []; lines = [] })
      ≡ some s
    → MessageIsLimited (parsed_message c transaction_id flags domain (dns_type_name type_code) s)
unfolding read_answers
parsed-MessageIsLimited from_utf8_lossy dns c transaction_id flags answer_count domain type_code
      behind s e =
    let rounds = (if is_query_of flags then 0 else min answer_count max_dns_answers) in
    let start : Answers = record { cursor = behind; ips = []; lines = [] } in
    let v =
      read_answers-AnswersAreLimited rounds 0 from_utf8_lossy dns start s
        (record { few_lines = omega arith; few_ips = omega arith }) e in
    let few : rounds ≤ 64 = ground arith in
    (
      omega (arith, v.few_lines, few),
      v.few_ips,
      λ q.
          let no_rounds : read_answers rounds from_utf8_lossy dns start ≡ some start = rw q refl in
          (rw q refl, ap (λ (t : Answers). t.lines) (sym (some-injective (sym no_rounds ∙ e)))),
    )

-- A message that is parsed names at most 64 answer lines and no more addresses than lines, and a
-- query among them has no answers and no response code.
pub parse_dns_message-limits :
    (from_utf8_lossy : List ℕ → Text) (dns : List ℕ) (c : Carrier) (m : ParsedDnsMessage)
    → parse_dns_message from_utf8_lossy dns c ≡ some m
    → (length m.response_records ≤ 64)
      × (length m.response_ips ≤ length m.response_records)
      × (m.is_query ≡ true → (m.response_code ≡ none) × (m.response_records ≡ []))
unfolding parse_dns_message
parse_dns_message-limits from_utf8_lossy dns c m h =
    let (short, h0) = guard-eq-some (ltb (length dns) 12) _ h in
    let (transaction_id, e0, h1) = bind-eq-some (read_u16 dns 0) _ h0 in
    let (flags, e1, h2) = bind-eq-some (read_u16 dns 2) _ h1 in
    let (question_count, e2, h3) = bind-eq-some (read_u16 dns 4) _ h2 in
    let (few, h4) = guard-eq-some (question_count == 0 || ltb 16 question_count) _ h3 in
    let (answer_count, e3, h5) = bind-eq-some (read_u16 dns 6) _ h4 in
    let (domain, e4, h6) = bind-eq-some (read_dns_name from_utf8_lossy dns 12) _ h5 in
    let cursor = domain.1 in
    let (inside, h7) = guard-eq-some (ltb (length dns) (cursor + 4)) _ h6 in
    let (type_code, e5, h8) = bind-eq-some (read_u16 dns cursor) _ h7 in
    let (behind, e6, h9) =
      bind-eq-some (skip_questions (question_count - 1) from_utf8_lossy dns (cursor + 4)) _ h8 in
    let (s, e7, h10) =
      bind-eq-some
        (read_answers (if is_query_of flags then 0 else min answer_count max_dns_answers)
          from_utf8_lossy dns (record { cursor = behind; ips = []; lines = [] }))
        _ h9 in
    subst MessageIsLimited (some-injective h10) (
      parsed-MessageIsLimited from_utf8_lossy dns c transaction_id flags answer_count domain.0
        type_code behind s e7)
