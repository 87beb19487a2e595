-- ===== src/Webhook/Server/Isolation.antt =====
-- A hook changes no other session, and comes to the session of its test.
use smoke_tester.Prelude.{ℕ, ◌≡◌, refl, ap, ◌∙◌, false, Option, none, some, List, arith}
use smoke_tester.Prelude.Dict.{lookup}
use smoke_tester.Prelude.Text.{Text, is_empty}
use smoke_tester.Webhook.Registry.{Registry, new_registry, bind_call_sid, new_session}
use smoke_tester.Webhook.Server.{Codec, session_for, known_session}
use smoke_tester.Webhook.Server.Invariant.{
  heap_owner, session_for-IsWellFormed, registry-IsWellFormed,
}
use smoke_tester.Webhook.Server.Ops.{Op, run}
use smoke_tester.Webhook.Server.Routing.{new_session-of_test}

bind_call_sid-sessions : (c t : Text) (r : Registry) → (bind_call_sid c t r).sessions ≡ r.sessions
unfolding bind_call_sid
bind_call_sid-sessions c t r = ground arith

session_for-of_test :
    (t c : Text) (r : Registry)
    → is_empty t ≡ false
    → lookup t (session_for t c r).0.sessions ≡ some (session_for t c r).1
unfolding session_for known_session
session_for-of_test t c r named = rw named (given (lookup t r.sessions) refl)
  where
    given :
        (o : Option ℕ)
        → lookup t r.sessions ≡ o
        → lookup t (known_session o t c r).0.sessions ≡ some (known_session o t c r).1
    given (some p) e = ap (lookup t) (bind_call_sid-sessions c t r) ∙ e
    given none e =
        ap (lookup t) (bind_call_sid-sessions c t (new_session t r).0) ∙ new_session-of_test t r

-- In every state that hooks and tests lead to, a hook with a test id comes to a session that was
-- made for this test.
session_for-owner :
    (codec : Codec) (os : List Op) (t c : Text)
    → is_empty t ≡ false
    → let r = run codec os new_registry in
      heap_owner (session_for t c r).0.heap (session_for t c r).1 ≡ some t
session_for-owner codec os t c named =
    let r : Registry = run codec os new_registry in
    session_for-IsWellFormed t c r (registry-IsWellFormed codec os) t (session_for t c r).1
      (session_for-of_test t c r named)
