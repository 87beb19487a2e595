-- ===== src/Webhook/Server/Invariant.antt =====
-- The registry's map leads from a test to its own session, at all times.
use smoke_tester.Prelude.{
  ℕ, zero, suc, ◌||◌, ◌≡◌, inl, inr, refl, ap, ◌∙◌, Option, none, some, List, [], ◌∷◌, ◌++◌, arith,
  Bool-cases, length, get_elem?,
}
use smoke_tester.Prelude.Dict.{lookup, lookup-insert, lookup-delete}
use smoke_tester.Prelude.Text.{Text, text_eq, text_eq_iff, is_empty, codes}
use smoke_tester.Webhook.Registry.{
  Registry, Session, new_registry, bind_call_sid, lookup_by_call_sid, new_session, allocated,
  release, update, set_at, record_callback, script_call_hook, script_action_hook,
  script_action_hook_body, script_action_hook_body_func, received, wait_callback, wait_callback_for,
  fresh_session, anon,
}
use smoke_tester.Webhook.Server.{
  Codec, callback_of, session_for, known_session, bound_session, captured, handle_call_hook,
  handle_status_hook, handle_action_hook, verb_of,
}
use smoke_tester.Webhook.Callback.{Callback}
use smoke_tester.Webhook.Correlation.{Request, extract_test_id, extract_call_sid}
use smoke_tester.Webhook.Server.Ops.{
  TestOp, scripts_call, scripts_action, scripts_body, scripts_func, waits, waits_for, test_step, Op,
  new_op, release_op, at_session, call_hook, status_hook, action_hook, step, run,
}

-- Whose session stands at a position.
abbrev pub heap_owner : List Session → ℕ → Option Text
heap_owner [] p = none
heap_owner (s ∷ heap) zero = some s.id
heap_owner (s ∷ heap) (suc p) = heap_owner heap p

-- A test that the map knows is led to a session of its own.
abbrev pub IsWellFormed : Registry → Type 0
IsWellFormed r = (t : Text) (p : ℕ) → lookup t r.sessions ≡ some p → heap_owner r.heap p ≡ some t

heap_owner-append :
    (heap more : List Session) (p : ℕ) (t : Text)
    → heap_owner heap p ≡ some t
    → heap_owner (heap ++ more) p ≡ some t
heap_owner-append [] more p t h = cc
heap_owner-append (s ∷ heap) more zero t h = h
heap_owner-append (s ∷ heap) more (suc p) t h = heap_owner-append heap more p t h

heap_owner-last :
    (heap : List Session) (s : Session) → heap_owner (heap ++ s ∷ []) (length heap) ≡ some s.id
heap_owner-last [] s = refl
heap_owner-last (x ∷ heap) s = heap_owner-last heap s

abbrev pub KeepsId : (Session → Session) → Type 0
KeepsId f = (s : Session) → (f s).id ≡ s.id

head_owner :
    (s : Session) (heap : List Session) (p : ℕ) (f : Session → Session) (o : Option Session)
    → heap_owner (set_at (s ∷ heap) (suc p) f o) zero ≡ some s.id
unfolding set_at
head_owner s heap p f none = refl
head_owner s heap p f (some x) = refl

tail_owner :
    (s : Session) (heap : List Session) (p : ℕ) (f : Session → Session) (q : ℕ) (o : Option Session)
    → heap_owner (set_at (s ∷ heap) (suc p) f o) (suc q) ≡ heap_owner (set_at heap p f o) q
unfolding set_at
tail_owner s heap p f q none = refl
tail_owner s heap p f q (some x) = refl

heap_owner-set_at :
    (heap : List Session) (p : ℕ) (f : Session → Session) (q : ℕ)
    → KeepsId f
    → heap_owner (set_at heap p f (get_elem? heap p)) q ≡ heap_owner heap q
unfolding set_at
heap_owner-set_at [] p f q k = refl
heap_owner-set_at (s ∷ heap) zero f zero k = ap some (k s)
heap_owner-set_at (s ∷ heap) zero f (suc q) k = refl
heap_owner-set_at (s ∷ heap) (suc p) f zero k = head_owner s heap p f (get_elem? heap p)
heap_owner-set_at (s ∷ heap) (suc p) f (suc q) k =
    tail_owner s heap p f q (get_elem? heap p) ∙ heap_owner-set_at heap p f q k

update-IsWellFormed :
    (p : ℕ) (f : Session → Session) (r : Registry)
    → KeepsId f
    → IsWellFormed r
    → IsWellFormed (update p f r)
unfolding update
update-IsWellFormed p f r k h t q e = heap_owner-set_at r.heap p f q k ∙ h t q e

bind_call_sid-IsWellFormed :
    (c t : Text) (r : Registry) → IsWellFormed r → IsWellFormed (bind_call_sid c t r)
unfolding bind_call_sid
bind_call_sid-IsWellFormed c t r h u p e =
    elim (Bool-cases (is_empty c || is_empty t || text_eq t anon)) [
      | inl skip ↦ rw skip (h u p (rw skip at e))
      | inr bind ↦ rw bind (h u p (rw bind at e))
    ]

pub new_session-IsWellFormed :
    (t : Text) (r : Registry) → IsWellFormed r → IsWellFormed (new_session t r).0
unfolding new_session allocated
new_session-IsWellFormed t r h = go (lookup t r.sessions)
  where
    go : (o : Option ℕ) → IsWellFormed (allocated o t r).0
    go (some p) u q e = h u q e
    go none u p e = elim (Bool-cases (text_eq t u)) [
      | inl same ↦
          let at : p ≡ length r.heap =
            ground (arith, lookup-insert t u (length r.heap) r.sessions) in
          ap (heap_owner (r.heap ++ fresh_session t ∷ [])) at
          ∙ (heap_owner-last r.heap (fresh_session t) ∙ ap some ((text_eq_iff t u).0 same))
      | inr other ↦
          heap_owner-append r.heap (fresh_session t ∷ []) p u
            (h u p (ground (arith, lookup-insert t u (length r.heap) r.sessions)))
    ]

release-IsWellFormed : (t : Text) (r : Registry) → IsWellFormed r → IsWellFormed (release t r)
unfolding release
release-IsWellFormed t r h u p e = h u p (ground (arith, lookup-delete t u r.sessions))

pub session_for-IsWellFormed :
    (t c : Text) (r : Registry) → IsWellFormed r → IsWellFormed (session_for t c r).0
unfolding session_for bound_session known_session
session_for-IsWellFormed t c r h = elim (Bool-cases (is_empty t)) [
  | inl no_id ↦ rw no_id (bound (lookup_by_call_sid c r))
  | inr known ↦ rw known (given (lookup t r.sessions))
]
  where
    bound : (o : Option ℕ) → IsWellFormed (bound_session o r).0
    bound (some p) = h
    bound none = new_session-IsWellFormed anon r h

    given : (o : Option ℕ) → IsWellFormed (known_session o t c r).0
    given (some p) = bind_call_sid-IsWellFormed c t r h
    given none = bind_call_sid-IsWellFormed c t (new_session t r).0 (new_session-IsWellFormed t r h)

record_callback-KeepsId : (cb : Callback) → KeepsId (record_callback cb)
unfolding record_callback
record_callback-KeepsId cb s = ground arith

received-id : (cbs : List Callback) (s : Session) → (received cbs s).1.id ≡ s.id
unfolding received
received-id [] s = refl
received-id (cb ∷ more) s = refl

test_step-KeepsId : (o : TestOp) → KeepsId (test_step o)
unfolding test_step script_call_hook script_action_hook script_action_hook_body
    script_action_hook_body_func wait_callback wait_callback_for
test_step-KeepsId (scripts_call verbs) s = refl
test_step-KeepsId (scripts_action verb verbs) s = refl
test_step-KeepsId (scripts_body verb body) s = refl
test_step-KeepsId (scripts_func verb fn) s = refl
test_step-KeepsId waits s = received-id s.pending s
test_step-KeepsId (waits_for hook) s = refl

captured-IsWellFormed :
    (codec : Codec) (hook : Text) (q : Request) (r : Registry)
    → IsWellFormed r
    → IsWellFormed (captured codec hook q r).0
unfolding captured
captured-IsWellFormed codec hook q r h =
    let t : Text = extract_test_id codec.letters codec.decode q in
    let c : Text = extract_call_sid codec.decode q.body in
    let found : Registry × ℕ = session_for t c r in
    update-IsWellFormed found.1 (record_callback (callback_of codec hook q)) found.0
      (record_callback-KeepsId (callback_of codec hook q)) (session_for-IsWellFormed t c r h)

handle_action_hook-IsWellFormed :
    (codec : Codec) (q : Request) (r : Registry)
    → IsWellFormed r
    → IsWellFormed (handle_action_hook codec q r).0
unfolding handle_action_hook
handle_action_hook-IsWellFormed codec q r h = elim (Bool-cases (is_empty (verb_of q))) [
  | inl bad ↦ rw bad h
  | inr good ↦ rw good (captured-IsWellFormed codec (codes "action/" ++ verb_of q) q r h)
]

step-IsWellFormed :
    (codec : Codec) (o : Op) (r : Registry) → IsWellFormed r → IsWellFormed (step codec o r)
unfolding step handle_call_hook handle_status_hook handle_action_hook
step-IsWellFormed codec (new_op t) r h = new_session-IsWellFormed t r h
step-IsWellFormed codec (release_op t) r h = release-IsWellFormed t r h
step-IsWellFormed codec (at_session p o) r h =
    update-IsWellFormed p (test_step o) r (test_step-KeepsId o) h
step-IsWellFormed codec (call_hook q) r h = captured-IsWellFormed codec _ q r h
step-IsWellFormed codec (status_hook q) r h = captured-IsWellFormed codec _ q r h
step-IsWellFormed codec (action_hook q) r h = handle_action_hook-IsWellFormed codec q r h

-- Whatever hooks come in and whatever the tests do, the map leads each test that it knows to a
-- session that was made for that test.
pub registry-IsWellFormed :
    (codec : Codec) (os : List Op) → IsWellFormed (run codec os new_registry)
unfolding new_registry lookup run
registry-IsWellFormed codec os = go os new_registry (λ t p e. cc)
  where
    go : (os : List Op) (r : Registry) → IsWellFormed r → IsWellFormed (run codec os r)
    go [] r h = h
    go (o ∷ os) r h = go os (step codec o r) (step-IsWellFormed codec o r h)
