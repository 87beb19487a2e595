-- ===== src/Provision/Api/Request.antt =====
-- What a successful request shows, and which of the attempted requests were sent.
use mathlib.Core.List.{Memᴰ}
use smoke_tester.Prelude.{
  sym, ap, ℕ, ◌≡◌, ◌⊎◌, inl, inr, refl, ◌&&◌, not, Bool-cases, Option, none, [], ◌∷◌, List, subst,
  arith, ◌==◌, if◌then◌else◌,
}
use smoke_tester.Prelude.Text.{Text, is_empty}
use smoke_tester.Prelude.Bytes.{Bytes}
use smoke_tester.Prelude.Result.{ok}
use smoke_tester.Provision.Api.{
  Api, Client, Method, Body, HttpRequest, Response, failed, response, exchange, leaves, sent,
  check_schema, read_response, request,
}

check_schema-ok :
    (validate : Text → Bytes → Option Text) (path : Text) (b body : Bytes)
    → check_schema validate path b ≡ ok body
    → (validate path b ≡ none) × (b ≡ body)
unfolding check_schema
check_schema-ok validate path b body h = ground arith

passed :
    (validate : Text → Bytes → Option Text) (path : Text) (b body : Bytes)
    → (if not (is_empty path) && not (is_empty b) then check_schema validate path b else ok b)
      ≡ ok body
    → (b ≡ body) × ((path ≡ []) ⊎ ((body ≡ []) ⊎ (validate path body ≡ none)))
passed validate [] b body h = (cc, inl refl)
passed validate (p ∷ ps) [] body h = (cc, inr (inl (cc)))
passed validate (p ∷ ps) (x ∷ xs) body h =
    let (v, e) = check_schema-ok validate (p ∷ ps) (x ∷ xs) body h in
    (e, inr (inr (subst (λ b. validate (p ∷ ps) b ≡ none) e v)))

checked :
    (validate : Text → Bytes → Option Text) (r : Response) (path : Text) (expect : ℕ) (body : Bytes)
    → read_response validate r path expect ≡ ok body
    → (msg : Option Text) × (r ≡ response expect body msg)
      × ((path ≡ []) ⊎ ((body ≡ []) ⊎ (validate path body ≡ none)))
unfolding read_response
checked validate (failed e) path expect body h = cc
checked validate (response status b msg) path expect body h = elim (Bool-cases (status == expect)) [
  | inl same ↦
      let p = passed validate path b body (rw (same, read_response) at h) in
      (msg, ground (arith, p.0), p.1)
  | inr other ↦ absurd (ground arith)
]

-- A request that succeeds left and was answered with the expected status and the body that it
-- returns, and the body passed the schema if one was named and there was a body. The request is put
-- on record, with the client's token, whatever comes of it.
pub request-ok :
    (api : Api) (c : Client) (method : Method) (path : Text) (sent : Body) (schema_path : Text)
    (expect : ℕ) (log : List HttpRequest) (body : Bytes)
    → let r = request api c method path sent schema_path expect log in
      r.0 ≡ ok body
      → (msg : Option Text) × (exchange (api.departure r.1) (api.server r.1)
          ≡ response expect body msg)
        × ((schema_path ≡ []) ⊎ ((body ≡ []) ⊎ (api.validate schema_path body ≡ none)))
        × (r.1 ≡ record { token = c.api_key; method = method; path = path; body = sent } ∷ log)
unfolding request
request-ok api c method path sent schema_path expect log body h =
    let log' : List HttpRequest =
      record { token = c.api_key; method = method; path = path; body = sent } ∷ log in
    let p =
      checked api.validate (exchange (api.departure log') (api.server log')) schema_path expect body
        h in
    (p.0, p.1, p.2, refl)

-- No context runs out and every request can be built.
abbrev pub IsInTime : Api → Type 0
IsInTime api = (log : List HttpRequest) → api.departure log ≡ leaves

-- Then all that was attempted was sent.
pub sent-IsInTime : (api : Api) → IsInTime api → (log : List HttpRequest) → sent api log ≡ log
unfolding sent
sent-IsInTime api h [] = refl
sent-IsInTime api h (q ∷ log) = rw (h (q ∷ log), sent) (ap (q ∷◌) (sent-IsInTime api h log))

-- A request that was attempted, and sent if nothing ran out of time.
abbrev pub IsTried : Api → HttpRequest → List HttpRequest → Type 0
IsTried api q log = Memᴰ q log × (IsInTime api → Memᴰ q (sent api log))

pub IsTried-Memᴰ :
    (api : Api) (q : HttpRequest) (log : List HttpRequest) → Memᴰ q log → IsTried api q log
IsTried-Memᴰ api q log m = (m, λ h. subst (Memᴰ q) (sym (sent-IsInTime api h log)) m)
