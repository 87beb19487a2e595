-- ===== src/Sip/Call/Reinvite/Acks.antt =====
-- Which messages a re-INVITE leaves on record.
use smoke_tester.Prelude.{
  ◌≤◌, ◌<◌, ◌↔◌, ◌⊎◌, false, ◌≡◌, inl, inr, refl, Bool, true, false, Option, none, some, [], ◌∷◌,
  ◌++◌, arith, Bool-cases, ap, ◌∙◌,
}
use mathlib.Core.List.{append_assoc}
use smoke_tester.Prelude.Text.{Text}
use smoke_tester.Sip.Call.{Call, Net, set_state, during}
use smoke_tester.Sip.Call.Dialog.{Exchange, exchanged, record_response}
use smoke_tester.Sip.Call.Reinvite.{
  Reinvite, is_2xx, on_response, after_do, reinvited, send_reinvite, send_reinvite_with_sdp,
}
use smoke_tester.Sip.Message.{Message}
use smoke_tester.Sip.State.{
  Direction, inbound, outbound, State, answered, is_state, is_inbound, CallError,
}

sent-during : (n : Net) (c : Call) → (during n c).sent ≡ c.sent
unfolding during set_state
sent-during n c = ground arith

sent-exchanged : (x : Exchange) (c : Call) → (exchanged x c).sent ≡ c.sent ++ x.request ∷ []
unfolding exchanged record_response during
sent-exchanged x c = go x.response
  where
    asked : Call
    asked = during x.net (record c { sent = c.sent ++ x.request ∷ [] })

    go : (r : Option Message) → (record_response r asked).sent ≡ c.sent ++ x.request ∷ []
    go none = sent-during x.net (record c { sent = c.sent ++ x.request ∷ [] })
    go (some m) = sent-during x.net (record c { sent = c.sent ++ x.request ∷ [] })

-- The library reported no error, and the response is a 2xx.
abbrev pub IsAccepted : Reinvite → Type 0
IsAccepted x =
    (res : Message) × (x.exchange.net.failure ≡ none)
    × (x.exchange.response ≡ some res)
    × (200 ≤ res.status_code)
    × (res.status_code < 300)

-- The call is outbound and answered, the peer's contact is known, and there is an SDP to send.
abbrev pub IsReady : Reinvite → Call → Type 0
IsReady x c =
    (c.direction ≡ outbound) × (c.state ≡ answered) × (x.exchange.contact ≡ true) × (x.sdp ≡ true)

-- What a re-INVITE leaves on record.
abbrev pub Records : Reinvite → Call → Call → Type 0
Records x c c' =
    (¬ IsReady x c × (c' ≡ c))
    ⊎ (IsReady x c
        × ((IsAccepted x × (c'.sent ≡ c.sent ++ x.exchange.request ∷ x.ack ∷ []))
            ⊎ (¬ IsAccepted x × (c'.sent ≡ c.sent ++ x.exchange.request ∷ []))))

is_2xx_iff : (m : Message) → (is_2xx m ≡ true) ↔ ((200 ≤ m.status_code) × (m.status_code < 300))
unfolding is_2xx
is_2xx_iff m = (λ h. ground (arith, h), λ h. ground (arith, h))

sent-accepted :
    (strict : Bool) (x : Reinvite) (c : Call)
    → IsAccepted x
    → (reinvited strict x c).0.sent ≡ c.sent ++ x.exchange.request ∷ x.ack ∷ []
unfolding reinvited after_do on_response
sent-accepted strict x c (res, f, r, low, high) =
    let success : is_2xx res ≡ true = (is_2xx_iff res).1 (low, high) in
    ap (λ o. (after_do strict x o x.exchange.response (exchanged x.exchange c)).0.sent) f
    ∙ (ap (λ o. (after_do strict x none o (exchanged x.exchange c)).0.sent) r
        ∙ rw success (
            ap (λ ms. ms ++ x.ack ∷ []) (sent-exchanged x.exchange c)
            ∙ append_assoc c.sent (x.exchange.request ∷ []) (x.ack ∷ [])))

unanswered :
    (strict : Bool) (x : Reinvite) (c : Call) (f : Option Text) (r : Option Message)
    → x.exchange.net.failure ≡ f
    → x.exchange.response ≡ r
    → ¬ IsAccepted x
    → (after_do strict x f r c).0.sent ≡ c.sent
unfolding after_do on_response
unanswered strict x c (some e) r p q h = refl
unanswered strict x c none none p q h = refl
unanswered strict x c none (some res) p q h = elim (Bool-cases (is_2xx res)) [
  | inl success ↦
      absurd (h (res, p, q, ((is_2xx_iff res).0 success).0, ((is_2xx_iff res).0 success).1))
  | inr other ↦ rw other refl
]

sent-unaccepted :
    (strict : Bool) (x : Reinvite) (c : Call)
    → ¬ IsAccepted x
    → (reinvited strict x c).0.sent ≡ c.sent ++ x.exchange.request ∷ []
unfolding reinvited
sent-unaccepted strict x c h =
    unanswered strict x (exchanged x.exchange c) x.exchange.net.failure x.exchange.response refl
      refl h
    ∙ sent-exchanged x.exchange c

is_inbound-outbound : (d : Direction) → is_inbound d ≡ false → d ≡ outbound
is_inbound-outbound inbound h = cc
is_inbound-outbound outbound h = refl

is_state-answered : (s : State) → is_state s answered ≡ true → s ≡ answered
is_state-answered State.init h = cc
is_state-answered State.trying h = cc
is_state-answered State.ringing h = cc
is_state-answered State.answered h = refl
is_state-answered State.ended h = cc

IsReady-cases : (x : Reinvite) (c : Call) → IsReady x c ⊎ ¬ IsReady x c
IsReady-cases x c = elim (Bool-cases (is_inbound c.direction)) [
  | inl i ↦ inr (λ (d, a, known, sdp). cc (d, i))
  | inr o ↦ elim (Bool-cases (is_state c.state answered)) [
    | inr n ↦ inr (λ (d, a, known, sdp). cc (a, n))
    | inl a ↦ elim (Bool-cases x.exchange.contact) [
      | inr k ↦ inr (λ (d, a, known, sdp). cc (known, k))
      | inl k ↦ elim (Bool-cases x.sdp) [
        | inr p ↦ inr (λ (d, a, known, sdp). cc (sdp, p))
        | inl p ↦ inl (is_inbound-outbound c.direction o, is_state-answered c.state a, k, p)
      ]
    ]
  ]
]

IsAccepted-cases : (x : Reinvite) → IsAccepted x ⊎ ¬ IsAccepted x
IsAccepted-cases x = go x.exchange.net.failure x.exchange.response refl refl
  where
    go :
        (f : Option Text) (r : Option Message)
        → x.exchange.net.failure ≡ f
        → x.exchange.response ≡ r
        → IsAccepted x ⊎ ¬ IsAccepted x
    go (some e) r p q = inr (λ (m, worked, got, low, high). cc (p, worked))
    go none none p q = inr (λ (m, worked, got, low, high). cc (q, got))
    go none (some res) p q = elim (Bool-cases (is_2xx res)) [
      | inl success ↦
          inl (res, p, q, ((is_2xx_iff res).0 success).0, ((is_2xx_iff res).0 success).1)
      | inr other ↦ inr (λ (m, worked, got, low, high).
          let success : is_2xx m ≡ true = (is_2xx_iff m).1 (low, high) in
          cc (q, got, success, other))
    ]

-- Both methods check the same four things, in two orders.
gated :
    (strict : Bool) (x : Reinvite) (c : Call) (r : Call × Option CallError)
    → (¬ IsReady x c → r.0 ≡ c)
    → (IsReady x c → r ≡ reinvited strict x c)
    → Records x c r.0
gated strict x c r closed open_ = elim (IsReady-cases x c) [
  | inr h ↦ inl (h, closed h)
  | inl h ↦
      let same : r.0.sent ≡ (reinvited strict x c).0.sent = ap (λ p. p.0.sent) (open_ h) in
      inr (
        h,
        elim (IsAccepted-cases x) [
          | inl a ↦ inl (a, same ∙ sent-accepted strict x c a)
          | inr a ↦ inr (a, same ∙ sent-unaccepted strict x c a)
        ],
      )
]

send_reinvite-closed : (x : Reinvite) (c : Call) → ¬ IsReady x c → (send_reinvite x c).0 ≡ c
unfolding send_reinvite
send_reinvite-closed x c h = elim (Bool-cases (is_inbound c.direction)) [
  | inl i ↦ rw i refl
  | inr o ↦ elim (Bool-cases (is_state c.state answered)) [
    | inr n ↦ rw (o, n) refl
    | inl a ↦ elim (Bool-cases x.exchange.contact) [
      | inr k ↦ rw (o, a, k) refl
      | inl k ↦ elim (Bool-cases x.sdp) [
        | inr p ↦ rw (o, a, k, p) refl
        | inl p ↦ absurd (h (is_inbound-outbound c.direction o, is_state-answered c.state a, k, p))
      ]
    ]
  ]
]

send_reinvite_with_sdp-closed :
    (x : Reinvite) (c : Call) → ¬ IsReady x c → (send_reinvite_with_sdp x c).0 ≡ c
unfolding send_reinvite_with_sdp
send_reinvite_with_sdp-closed x c h = elim (Bool-cases (is_inbound c.direction)) [
  | inl i ↦ rw i refl
  | inr o ↦ elim (Bool-cases (is_state c.state answered)) [
    | inr n ↦ rw (o, n) refl
    | inl a ↦ elim (Bool-cases x.sdp) [
      | inr p ↦ rw (o, a, p) refl
      | inl p ↦ elim (Bool-cases x.exchange.contact) [
        | inr k ↦ rw (o, a, p, k) refl
        | inl k ↦ absurd (h (is_inbound-outbound c.direction o, is_state-answered c.state a, k, p))
      ]
    ]
  ]
]

-- A re-INVITE, be its SDP the call's own or the caller's, leaves the call as it is unless the call
-- is outbound and answered, the peer's contact is known and there is an SDP. If so, it puts the
-- INVITE on record, and behind it one ACK if the library reported no error and the status of the
-- response is at least 200 and below 300, and nothing else if not.
pub reinvite-acks :
    (x : Reinvite) (c : Call)
    → Records x c (send_reinvite x c).0 × Records x c (send_reinvite_with_sdp x c).0
unfolding send_reinvite send_reinvite_with_sdp
reinvite-acks x c = (
  gated true x c (send_reinvite x c) (send_reinvite-closed x c)
      (λ (out, up, known, sdp). ground (arith, out, up, known, sdp)),
  gated false x c (send_reinvite_with_sdp x c) (send_reinvite_with_sdp-closed x c)
      (λ (out, up, known, sdp). ground (arith, out, up, known, sdp)),
)
