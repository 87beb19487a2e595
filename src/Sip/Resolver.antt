-- ===== src/Sip/Resolver.antt =====
-- internal/sip/resolver.go: the DNS server that answers for the synthetic SIP realms. A request and
-- a response are byte strings; the system resolver (net.LookupIP) is an argument.
pub mod Names
pub mod Answers
use smoke_tester.Prelude.{
  ℕ, zero, suc, ◌+◌, ◌-◌, ◌%◌, ◌^◌, not, ◌||◌, Option, none, some, List, [], ◌∷◌, ◌++◌, ltb, ◌==◌,
  if◌then◌else◌, length, take, drop,
}
use smoke_tester.Prelude.Text.{Text, is_empty, trim_suffix}
use Prim.Native.Nat.{bit_or}
use smoke_tester.Prelude.Bytes.{Bytes, be16, read_be16}
use smoke_tester.Prelude.Dict.{Dict, lookup, insert}

-- An address that net.LookupIP returns: To4 gives four bytes, or nil and To16 sixteen.
pub data Ip : Type 0 where
  v4 v6 : Bytes → Ip

-- NewStaticResolver: the hosts under their lower-case names. A name is a string of bytes, and
-- `to_lower` is strings.ToLower on such strings. `parse_ip` is net.ParseIP followed by
-- To4: `none` for a text that is no address, `some none` for one that is not IPv4.
unfoldable pub static_hosts :
    (Text → Text)
    → (Text → Option (Option Bytes))
    → List (Text × Text)
    → Option (Dict (Option Bytes))
unfolding insert trim_suffix
static_hosts to_lower parse_ip [] = some []
static_hosts to_lower parse_ip ((h, ip) ∷ hs) = elim (parse_ip ip) [
  | none ↦ none
  | some p ↦ elim (static_hosts to_lower parse_ip hs) [
    | none ↦ none
    | some m ↦ some (insert (to_lower (trim_suffix b'.' h)) p m)
  ]
]

-- req[i], 0 behind the end; the callers compare `i` with the length.
abbrev pub byte_at : Bytes → ℕ → ℕ
byte_at [] i = 0
byte_at (b ∷ bs) zero = b
byte_at (b ∷ bs) (suc i) = byte_at bs i

-- What the loop over the labels leaves: the name so far and the offset behind it, or the early
-- return. `out_of_fuel` is the model's own.
pub data Labels : Type 0 where
  labels : Text → ℕ → Labels
  truncated out_of_fuel : Labels

-- One round at `off`: the request ends, the zero byte, a label longer than what is left, or the
-- offset behind a label and the label.
pub data Round : Type 0 where
  request_ends zero_byte too_long : Round
  label : ℕ → Bytes → Round

unfoldable pub next_label : Bytes → ℕ → Round
next_label req off =
    let l = byte_at req off in
    if not (ltb off (length req))
    then request_ends
    else if l == 0
    then zero_byte
    else if ltb (length req) (off + 1 + l)
    then too_long
    else label (off + 1 + l) (take l (drop (off + 1) req))

unfoldable pub read_labels : ℕ → Bytes → ℕ → Text → Labels
unfolding next_label
read_labels zero req off name = out_of_fuel
read_labels (suc fuel) req off name = elim (next_label req off) [
  | request_ends ↦ labels name off
  | zero_byte ↦ labels name (off + 1)
  | too_long ↦ truncated
  | label at l ↦ read_labels fuel req at (name ++ (l ++ b'.' ∷ []))
]

-- The name, the type and the offset behind the question.
pub record Question : Type 0 where
  pub name : Text
  pub qtype : ℕ
  pub end : ℕ

abbrev pub no_question : Question
no_question = record { name = []; qtype = 0; end = 0 }

-- Behind the loop.
unfoldable pub question_at : Bytes → Labels → Question
question_at req (labels name at) =
    if ltb (length req) (at + 4)
    then no_question
    else record { name = name; qtype = read_be16 (drop at req); end = at + 4 }
question_at req truncated = no_question
question_at req out_of_fuel = no_question

unfoldable pub parse_question : Bytes → ℕ → Question
unfolding read_labels question_at
parse_question req off = question_at req (read_labels (length req + 1) req off [])

-- buildResponse, with the given RCODE and ANCOUNT written into its header.
unfoldable pub response_with : ℕ → ℕ → ℕ → Bytes → Bytes
response_with rcode ancount id question =
    be16 id ++ (0x81 ∷ bit_or 0x80 rcode ∷ 0 ∷ 1 ∷ (be16 ancount ++ 0 ∷ 0 ∷ 0 ∷ 0 ∷ question))

abbrev pub build_response : ℕ → Bytes → Bytes
build_response = response_with 0 0

-- appendARecord and appendAAAARecord, what they append: pointer, TYPE, CLASS, TTL, RDLENGTH, data.
abbrev pub a_record : Bytes → Bytes
a_record ip = 0xc0 ∷ 0x0c ∷ 0 ∷ 1 ∷ 0 ∷ 1 ∷ 0 ∷ 0 ∷ 0 ∷ 0x3c ∷ 0 ∷ 4 ∷ ip

abbrev pub aaaa_record : Bytes → Bytes
aaaa_record ip = 0xc0 ∷ 0x0c ∷ 0 ∷ 0x1c ∷ 0 ∷ 1 ∷ 0 ∷ 0 ∷ 0 ∷ 0x3c ∷ 0 ∷ 0x10 ∷ ip

-- The answers for the addresses of the system resolver that match the question's type.
unfoldable pub matching_records : ℕ → List Ip → List Bytes
matching_records qtype [] = []
matching_records qtype (v4 ip ∷ ips) =
    let rest = matching_records qtype ips in if qtype == 1 then a_record ip ∷ rest else rest
matching_records qtype (v6 ip ∷ ips) =
    let rest = matching_records qtype ips in if qtype == 28 then aaaa_record ip ∷ rest else rest

abbrev pub flatten : List Bytes → Bytes
flatten [] = []
flatten (x ∷ xs) = x ++ flatten xs

-- What is forwarded to the system resolver: its answers, or NXDOMAIN.
unfoldable pub forwarded : Option (List Ip) → ℕ → ℕ → Bytes → Bytes
unfolding matching_records response_with
forwarded none qtype id question = response_with 3 0 id question
forwarded (some ips) qtype id question =
    let found = matching_records qtype ips in
    response_with 0 (length found % 2 ^ 16) id question ++ flatten found

-- The answer for a host of ours, `none` if the question is to be forwarded.
unfoldable pub own_answer : Option (Option Bytes) → ℕ → ℕ → Bytes → Option Bytes
unfolding response_with
own_answer none qtype id question = none
own_answer (some none) qtype id question =
    if qtype == 28 then some (build_response id question) else none
own_answer (some (some ip)) qtype id question =
    if qtype == 1
    then some (response_with 0 1 id question ++ a_record ip)
    else if qtype == 28
    then some (build_response id question)
    else none

or_forwarded : Option Bytes → Bytes → Bytes
or_forwarded (some b) _ = b
or_forwarded none f = f

-- `handle` behind the parsed question; a request with an empty name is dropped.
unfoldable pub answer_question :
    (Text → Text)
    → Dict (Option Bytes)
    → (Text → Option (List Ip))
    → Bytes
    → Question
    → Option Bytes
unfolding own_answer forwarded or_forwarded trim_suffix
answer_question to_lower hosts lookup_ip req q =
    if is_empty q.name
    then none
    else let low = to_lower (trim_suffix b'.' q.name) in
      let id = read_be16 req in
      let question = take (q.end - 12) (drop 12 req) in
      some (
        or_forwarded (own_answer (lookup low hosts) q.qtype id question)
          (forwarded (lookup_ip low) q.qtype id question))

-- `handle`: the response that is written, `none` if the request is dropped.
unfoldable pub handle :
    (Text → Text) → Dict (Option Bytes) → (Text → Option (List Ip)) → Bytes → Option Bytes
unfolding answer_question parse_question
handle to_lower hosts lookup_ip req =
    if ltb (length req) 12 || read_be16 (drop 4 req) == 0
    then none
    else answer_question to_lower hosts lookup_ip req (parse_question req 12)
