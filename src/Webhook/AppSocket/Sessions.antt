-- ===== src/Webhook/AppSocket/Sessions.antt =====
-- Which session an application socket belongs to.
use smoke_tester.Prelude.{
  ℕ, zero, suc, ◌≡◌, refl, ap, ◌∙◌, false, none, some, List, [], ◌∷◌, Bool-cases, Option-cases, inl,
  inr, get_elem?, All,
}
use smoke_tester.Prelude.Bytes.{Bytes}
use smoke_tester.Prelude.Dict.{lookup}
use smoke_tester.Prelude.Result.{Result, ok, err}
use smoke_tester.Prelude.Text.{Text, codes, is_empty, text_eq}
use smoke_tester.Webhook.AppSocket.{
  AppMsg, AppCodec, test_id_from_app_data, shared_path_id, resolve_app_session, resolve_by_frame,
  Loop, ack, write_ack, with_session, session_at, capture, reply, on_app_msg, AppFrame, text_in,
  other_in, on_decoded, on_frame, loop, path_session, resolved,
}
use smoke_tester.Webhook.Registry.{Registry, Session, bind_call_sid, new_session, update, anon}
use smoke_tester.Webhook.Server.{Codec, session_for, pointed}
use smoke_tester.Webhook.Server.Invariant.{heap_owner, IsWellFormed, new_session-IsWellFormed}
use smoke_tester.Webhook.Server.Ops.{Op, run}
use smoke_tester.Webhook.Server.Routing.{
  IsBound, Spares, bind_call_sid-binds, new_session-of_test, run-IsBound, IsBound-session_for,
}

-- A reply only writes.
record Same (l m : Loop) : Type 0 where
  registry : m.registry ≡ l.registry
  sess : m.sess ≡ l.sess
  conns : m.conns ≡ l.conns

write_ack-Same :
    (codec : AppCodec) (b : Result Text Bytes) (l : Loop) → Same l (write_ack codec b l)
unfolding write_ack
write_ack-Same codec (ok b) l = elim (Bool-cases (codec.write_fails l.written b)) [
  | inl lost ↦ rw lost (record { registry = refl; sess = refl; conns = refl })
  | inr fine ↦ rw fine (record { registry = refl; sess = refl; conns = refl })
]
write_ack-Same codec (err e) l = record { registry = refl; sess = refl; conns = refl }

reply-Same : (codec : AppCodec) (msg : AppMsg) (p : ℕ) (l : Loop) → Same l (reply codec msg p l)
unfolding reply ack
reply-Same codec msg p l = elim (Bool-cases (text_eq msg.kind (codes "session:new"))) [
  | inl first ↦ rw first (write_ack-Same codec _ l)
  | inr later ↦ rw later (elim (Bool-cases (text_eq msg.kind (codes "verb:hook"))) [
    | inl hook ↦ rw hook (write_ack-Same codec _ l)
    | inr other ↦ rw other (record { registry = refl; sess = refl; conns = refl })
  ])
]

id_at :
    (heap : List Session) (p : ℕ) (t : Text)
    → heap_owner heap p ≡ some t
    → (pointed (get_elem? heap p)).id ≡ t
id_at [] p t h = cc
id_at (s ∷ heap) zero t h = cc
id_at (s ∷ heap) (suc p) t h = id_at heap p t h

capture-IsBound :
    (codec : AppCodec) (path : Text) (raw : Bytes) (msg : AppMsg) (p : ℕ) (t : Text) (r : Registry)
    → is_empty t ≡ false
    → is_empty msg.call_sid ≡ false
    → text_eq t anon ≡ false
    → (session_at p r).id ≡ t
    → lookup t r.sessions ≡ some p
    → IsBound t msg.call_sid p (capture codec path raw msg p r)
unfolding capture update
capture-IsBound codec path raw msg p t r named full mine owner e =
    let b : IsBound t msg.call_sid p (bind_call_sid msg.call_sid (session_at p r).id r) =
      rw owner (bind_call_sid-binds t msg.call_sid p r named full mine e) in
    rw full (record { of_call = b.of_call; of_test = b.of_test })

resolve_app_session-shared :
    (codec : AppCodec) (msg : AppMsg) (r : Registry)
    → is_empty (test_id_from_app_data codec.decode msg.payload) ≡ false
    → resolve_app_session codec shared_path_id msg r
      ≡ new_session (test_id_from_app_data codec.decode msg.payload) r
unfolding resolve_app_session resolved path_session resolve_by_frame
resolve_app_session-shared codec msg r named = rw named refl

-- The loop once the session is known.
abbrev opened : AppCodec → Bytes → AppMsg → Registry × ℕ → Loop
opened app raw msg f = reply app msg f.1 (record {
  registry = capture app shared_path_id raw msg f.1 f.0;
  sess = some f.1;
  conns = f.1 ∷ [];
  written = [];
})

opened-follows :
    (app : AppCodec) (codec : Codec) (raw : Bytes) (msg : AppMsg) (t : Text) (f : Registry × ℕ)
    (os : List Op)
    → IsBound t msg.call_sid f.1 (capture app shared_path_id raw msg f.1 f.0)
    → is_empty msg.call_sid ≡ false
    → All (Spares t msg.call_sid f.1 codec) os
    → ((opened app raw msg f).sess ≡ some f.1)
      × ((session_for [] msg.call_sid (run codec os (opened app raw msg f).registry)).1 ≡ f.1)
opened-follows app codec raw msg t f os b full s =
    let same = reply-Same app msg f.1 (record {
      registry = capture app shared_path_id raw msg f.1 f.0;
      sess = some f.1;
      conns = f.1 ∷ [];
      written = [];
    }) in
    (
      same.sess,
      rw same.registry (
          ap (λ x. x.1)
            (IsBound-session_for t msg.call_sid f.1
              (run codec os (capture app shared_path_id raw msg f.1 f.0)) full
              (run-IsBound t msg.call_sid f.1 codec os (capture app shared_path_id raw msg f.1 f.0)
                s b))),
    )

-- A connection on the shared path whose first message names a test and a call: the connection takes
-- the session of that test, and a later HTTP hook of the call without a test id comes to the same
-- session after any sequence of HTTP hooks and operations of tests, as long as the test was not
-- released and no hook claimed the call for another test. Frames of application sockets in between
-- are not part of it.
pub on_app_msg-follows :
    (app : AppCodec) (codec : Codec) (raw : Bytes) (msg : AppMsg) (r : Registry) (os : List Op)
    → let t = test_id_from_app_data app.decode msg.payload in
      let l =
        on_app_msg app shared_path_id raw msg
          (record { registry = r; sess = none; conns = []; written = [] }) in
      is_empty t ≡ false
      → is_empty msg.call_sid ≡ false
      → text_eq t anon ≡ false
      → IsWellFormed r
      → All (Spares t msg.call_sid (new_session t r).1 codec) os
      → (l.sess ≡ some (new_session t r).1)
        × (session_for [] msg.call_sid (run codec os l.registry)).1 ≡ (new_session t r).1
unfolding on_app_msg with_session
on_app_msg-follows app codec raw msg r os named full mine h s =
    let t = test_id_from_app_data app.decode msg.payload in
    let f = new_session t r in
    let e = new_session-of_test t r in
    let owner = id_at f.0.heap f.1 t (new_session-IsWellFormed t r h t f.1 e) in
    rw (resolve_app_session-shared app msg r named) (
      opened-follows app codec raw msg t f os
        (capture-IsBound app shared_path_id raw msg f.1 t f.0 named full mine owner e) full s)

with_session-stays :
    (app : AppCodec) (path : Text) (raw : Bytes) (msg : AppMsg) (p : ℕ) (l : Loop)
    → l.sess ≡ some p
    → ((on_app_msg app path raw msg l).sess ≡ some p)
      × ((on_app_msg app path raw msg l).conns ≡ l.conns)
unfolding on_app_msg with_session
with_session-stays app path raw msg p l e =
    let same =
      reply-Same app msg p (record l { registry = capture app path raw msg p l.registry }) in
    rw (e, with_session) (same.sess ∙ e, same.conns)

on_frame-stays :
    (app : AppCodec) (path : Text) (f : AppFrame) (p : ℕ) (l : Loop)
    → l.sess ≡ some p
    → ((on_frame app path f l).sess ≡ some p) × ((on_frame app path f l).conns ≡ l.conns)
unfolding on_frame on_decoded
on_frame-stays app path (other_in b) p l e = (e, refl)
on_frame-stays app path (text_in b) p l e = elim (Option-cases (app.decode_msg b)) [
  | inl no_json ↦ rw no_json (e, refl)
  | inr (msg, given) ↦ rw given (with_session-stays app path b msg p l e)
]

-- A connection keeps the session to which its first message led, whatever the later messages say,
-- and is handed to no other.
pub loop-stays :
    (app : AppCodec) (path : Text) (fs : List AppFrame) (p : ℕ) (l : Loop)
    → l.sess ≡ some p
    → ((loop app path fs l).sess ≡ some p) × ((loop app path fs l).conns ≡ l.conns)
unfolding loop
loop-stays app path [] p l e = (e, refl)
loop-stays app path (f ∷ fs) p l e =
    let first = on_frame-stays app path f p l e in
    let rest = loop-stays app path fs p (on_frame app path f l) first.0 in
    (rest.0, rest.1 ∙ first.1)
