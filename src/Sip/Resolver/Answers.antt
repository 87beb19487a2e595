-- ===== src/Sip/Resolver/Answers.antt =====
-- What the DNS server answers to well-formed requests.
use smoke_tester.Prelude.{
  ℕ, ◌+◌, ◌-◌, ◌<◌, ◌≡◌, refl, sym, ap, ◌∙◌, false, Option, none, some, List, [], ◌∷◌, ◌++◌, arith,
  ltb, length, take, All, length-append,
}
use smoke_tester.Prelude.Text.{Text, is_empty, trim_suffix}
use mathlib.Core.List.{append_assoc}
use smoke_tester.Prelude.{take-length-append, drop-length-append}
use smoke_tester.Prelude.Bytes.{Bytes, be16, read_be16, read_be16-be16}
use smoke_tester.Prelude.Dict.{Dict, lookup}
use smoke_tester.Sip.Resolver.{
  Ip, question_at, parse_question, question_at, labels, read_labels, a_record, own_answer,
  or_forwarded, answer_question, forwarded, handle,
}
use smoke_tester.Sip.Resolver.Names.{encode_name, dotted, IsLabel, read_labels-encode_name}

-- A question in wire form.
abbrev pub question_bytes : List Bytes → ℕ → ℕ → Bytes
question_bytes ls qtype qclass = encode_name ls ++ (be16 qtype ++ be16 qclass)

length-le-encode_name : (ls : List Bytes) → length ls < length (encode_name ls)
length-le-encode_name [] = omega arith
length-le-encode_name (l ∷ ls) =
    omega (arith, length-append l (encode_name ls), length-le-encode_name ls)

question_at-labels :
    (pre name rest : Bytes) (qtype qclass : ℕ)
    → qtype < 65536
    → question_at (pre ++ (be16 qtype ++ (be16 qclass ++ rest))) (labels name (length pre))
      ≡ record { name = name; qtype = qtype; end = length pre + 4 }
unfolding question_at
question_at-labels pre name rest qtype qclass h =
    let n = length-append pre (be16 qtype ++ (be16 qclass ++ rest)) in
    let fits : ltb (length (pre ++ (be16 qtype ++ (be16 qclass ++ rest)))) (length pre + 4)
        ≡ false =
      ground arith in
    rw (fits, drop-length-append pre (be16 qtype ++ (be16 qclass ++ rest)))
      (ap (λ t. record { name = name; qtype = t; end = length pre + 4 })
        (read_be16-be16 qtype (be16 qclass ++ rest) h))

-- Behind any prefix a question of non-empty labels is read back: its dotted name, its type and the
-- offset behind it.
pub parse_question-question_bytes :
    (pre : Bytes) (ls : List Bytes) (qtype qclass : ℕ) (rest : Bytes)
    → All IsLabel ls
    → qtype < 65536
    → parse_question (pre ++ (question_bytes ls qtype qclass ++ rest)) (length pre) ≡ record {
      name = dotted ls;
      qtype = qtype;
      end = length pre + length (question_bytes ls qtype qclass);
    }
unfolding parse_question
parse_question-question_bytes pre ls qtype qclass rest p h =
    let numbers : Bytes = be16 qtype ++ (be16 qclass ++ rest) in
    let req : Bytes = pre ++ (question_bytes ls qtype qclass ++ rest) in
    let before : Bytes = pre ++ encode_name ls in
    let flat : req ≡ pre ++ (encode_name ls ++ numbers) = simp append_assoc in
    let flat' : req ≡ before ++ numbers = simp append_assoc in
    let n : length before ≡ length pre + length (encode_name ls) =
      length-append pre (encode_name ls) in
    let enough : length ls < length req + 1 = omega (
      arith,
      length-le-encode_name ls,
      length-append pre (question_bytes ls qtype qclass ++ rest),
      length-append (question_bytes ls qtype qclass) rest,
      length-append (encode_name ls) (be16 qtype ++ be16 qclass),
    ) in
    ap (λ r. question_at req (read_labels (length req + 1) r (length pre) [])) flat
    ∙ (ap (question_at req) (read_labels-encode_name ls (length req + 1) pre numbers [] p enough)
        ∙ (ap (λ k. question_at req (labels (dotted ls) k)) (sym n)
            ∙ (ap (λ r. question_at r (labels (dotted ls) (length before))) flat'
                ∙ (question_at-labels before (dotted ls) rest qtype qclass h
                    ∙ ap (λ k. record { name = dotted ls; qtype = qtype; end = k })
                        (omega (
                          arith,
                          n,
                          length-append (encode_name ls) (be16 qtype ++ be16 qclass),
                        ))))))

-- A request: the id, the flags, one question and three other counts, and what follows.
abbrev pub request : ℕ → ℕ → ℕ → ℕ → ℕ → Bytes → Bytes
request id flags an ns ar rest =
    be16 id ++ (be16 flags ++ (be16 1 ++ (be16 an ++ (be16 ns ++ (be16 ar ++ rest)))))

is_empty-dotted : (l : Bytes) (ls : List Bytes) → 0 < length l → is_empty (dotted (l ∷ ls)) ≡ false
is_empty-dotted [] ls h = elim h [ ]
is_empty-dotted (c ∷ l) ls h = refl

-- A well-formed request is answered from the table of hosts, or else by the system resolver.
handle-request :
    (to_lower : Text → Text) (hosts : Dict (Option Bytes)) (lookup_ip : Text → Option (List Ip))
    (id flags an ns ar qtype qclass : ℕ) (l : Bytes) (ls : List Bytes) (rest : Bytes)
    → id < 65536
    → qtype < 65536
    → All IsLabel (l ∷ ls)
    → let low = to_lower (trim_suffix b'.' (dotted (l ∷ ls))) in
      let question = question_bytes (l ∷ ls) qtype qclass in
      handle to_lower hosts lookup_ip (request id flags an ns ar (question ++ rest))
      ≡ some (
          or_forwarded
            (own_answer (lookup low hosts) qtype id question)
            (forwarded (lookup_ip low) qtype id question))
unfolding handle answer_question
handle-request to_lower hosts lookup_ip id flags an ns ar qtype qclass l ls rest i q p =
    let question : Bytes = question_bytes (l ∷ ls) qtype qclass in
    let req : Bytes = request id flags an ns ar (question ++ rest) in
    let low : Text = to_lower (trim_suffix b'.' (dotted (l ∷ ls))) in
    let whole : ltb (length req) 12 ≡ false = ground arith in
    let minus : 12 + length question - 12 ≡ length question = omega arith in
    let slice : take (12 + length question - 12) (question ++ rest) ≡ question =
      ap (λ n. take n (question ++ rest)) minus ∙ take-length-append question rest in
    let same_id : read_be16 req ≡ id =
      read_be16-be16 id
        (be16 flags ++ (be16 1 ++ (be16 an ++ (be16 ns ++ (be16 ar ++ (question ++ rest)))))) i in
    rw whole (
      ap (answer_question to_lower hosts lookup_ip req) (
        parse_question-question_bytes (request id flags an ns ar []) (l ∷ ls) qtype qclass rest p q)
      ∙ rw (is_empty-dotted l ls p.0) (
          ap
            (λ k. some (
              or_forwarded
                (own_answer (lookup low hosts) qtype k
                  (take (12 + length question - 12) (question ++ rest)))
                (forwarded (lookup_ip low) qtype k
                  (take (12 + length question - 12) (question ++ rest)))))
            same_id
          ∙ ap
              (λ x. some (
                or_forwarded (own_answer (lookup low hosts) qtype id x)
                  (forwarded (lookup_ip low) qtype id x)))
              slice))

module _ (to_lower : Text → Text) (hosts : Dict (Option Bytes))
    (lookup_ip : Text → Option (List Ip)) (id flags an ns ar qclass : ℕ) (l : Bytes)
    (ls : List Bytes) (rest : Bytes) (small : id < 65536) (names : All IsLabel (l ∷ ls)) where
  -- A well-formed A query for a host of the table, in any case, is answered with the one A record
  -- of its address, under the query's id and question; the system resolver has no say.
  pub handle-a_query :
      (ip : Bytes)
      → lookup (to_lower (trim_suffix b'.' (dotted (l ∷ ls)))) hosts ≡ some (some ip)
      → let question = question_bytes (l ∷ ls) 1 qclass in
        handle to_lower hosts lookup_ip (request id flags an ns ar (question ++ rest))
        ≡ some (be16 id ++ (0x81 ∷ 0x80 ∷ 0 ∷ 1 ∷ 0 ∷ 1 ∷ 0 ∷ 0 ∷ 0 ∷ 0 ∷ question) ++ a_record ip)
  unfolding own_answer or_forwarded
  handle-a_query ip known =
      let question : Bytes = question_bytes (l ∷ ls) 1 qclass in
      let other : Bytes =
        forwarded (lookup_ip (to_lower (trim_suffix b'.' (dotted (l ∷ ls))))) 1 id question in
      handle-request to_lower hosts lookup_ip id flags an ns ar 1 qclass l ls rest small
        (omega arith) names
      ∙ ap (λ o. some (or_forwarded (own_answer o 1 id question) other)) known

  -- A well-formed AAAA query for a host of the table is answered with NOERROR and no record, so
  -- that the client goes on to ask for the A record.
  pub handle-aaaa_query :
      (ip : Option Bytes)
      → lookup (to_lower (trim_suffix b'.' (dotted (l ∷ ls)))) hosts ≡ some ip
      → let question = question_bytes (l ∷ ls) 28 qclass in
        handle to_lower hosts lookup_ip (request id flags an ns ar (question ++ rest))
        ≡ some (be16 id ++ (0x81 ∷ 0x80 ∷ 0 ∷ 1 ∷ 0 ∷ 0 ∷ 0 ∷ 0 ∷ 0 ∷ 0 ∷ question))
  unfolding own_answer or_forwarded
  handle-aaaa_query ip known =
      let question : Bytes = question_bytes (l ∷ ls) 28 qclass in
      let other : Bytes =
        forwarded (lookup_ip (to_lower (trim_suffix b'.' (dotted (l ∷ ls))))) 28 id question in
      handle-request to_lower hosts lookup_ip id flags an ns ar 28 qclass l ls rest small
        (omega arith) names
      ∙ (ap (λ o. some (or_forwarded (own_answer o 28 id question) other)) known
          ∙ empty ip question other)
    where
      empty :
          (o : Option Bytes) (question other : Bytes)
          → some (or_forwarded (own_answer (some o) 28 id question) other)
            ≡ some (be16 id ++ (0x81 ∷ 0x80 ∷ 0 ∷ 1 ∷ 0 ∷ 0 ∷ 0 ∷ 0 ∷ 0 ∷ 0 ∷ question))
      empty none question other = refl
      empty (some ip) question other = refl
