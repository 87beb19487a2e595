-- ===== src/Webhook/Socket/Panics.antt =====
-- When the server panics on a web socket.
use smoke_tester.Prelude.{
  ◌≡◌, ◌↔◌, refl, sym, ap, ◌∙◌, Bool, true, false, ◌||◌, ◌&&◌, Option, List, [], ◌∷◌, arith,
}
use smoke_tester.Prelude.Bytes.{Bytes}
use smoke_tester.Prelude.Result.{Result, ok, err, ◌>>=◌}
use smoke_tester.Webhook.Json.{Fields}
use smoke_tester.Webhook.Socket.{
  Socket, new_ws_session, Message, text_message, binary_message, other_message, Panic,
  send_on_closed, enqueue, stash, on_message, attach, detach, wait_ws_message, taken, Event,
  attached, sent, ended, read, step, run, text_frame, binary_frame, Frame,
}

abbrev pub is_data : Message → Bool
is_data (text_message b) = true
is_data (binary_message b) = true
is_data (other_message b) = false

-- Whether a text or binary message comes in after a connection has ended.
abbrev pub late_data : Bool → List Event → Bool
late_data over [] = false
late_data over (sent m ∷ es) = over && is_data m || late_data over es
late_data over (ended ∷ es) = late_data true es
late_data over (attached c ∷ es) = late_data over es
late_data over (read ∷ es) = late_data over es

abbrev panics : Result Panic Socket → Bool
panics (ok w) = false
panics (err e) = true

panics_iff : (r : Result Panic Socket) → (r ≡ err send_on_closed) ↔ (panics r ≡ true)
panics_iff (ok w) = (λ h. cc, λ h. cc)
panics_iff (err send_on_closed) = (λ h. refl, λ h. refl)

enqueue-closed : (f : Frame) (w w' : Socket) → enqueue f w ≡ ok w' → w'.closed ≡ w.closed
unfolding enqueue
enqueue-closed f w w' h = ground arith

panics-enqueue : (f : Frame) (w : Socket) → panics (enqueue f w) ≡ w.closed
unfolding enqueue
panics-enqueue f w = ground arith

taken-closed : (fs : List Frame) (w : Socket) → (taken fs w).1.closed ≡ w.closed
unfolding taken
taken-closed [] w = refl
taken-closed (f ∷ fs) w = refl

detach-closed : (w : Socket) → (detach w).closed ≡ true
unfolding detach
detach-closed w = ground arith

module _ (decode : Bytes → Option Fields) where
  -- A message of one connection, before the others.
  panics-bind :
      (f : Frame) (w v : Socket) (es : List Event)
      → v.closed ≡ w.closed
      → ((u : Socket) → panics (run decode es u) ≡ late_data u.closed es)
      → panics (enqueue f v >>= run decode es) ≡ (w.closed && true || late_data w.closed es)
  panics-bind f w v es same ih = go (enqueue f v) refl
    where
      go :
          (r : Result Panic Socket)
          → enqueue f v ≡ r
          → panics (r >>= run decode es) ≡ (w.closed && true || late_data w.closed es)
      go (ok u) e =
          let open_still : w.closed ≡ false = sym same ∙ (sym (panics-enqueue f v) ∙ ap panics e) in
          ih u ∙ rw (enqueue-closed f v u e ∙ same, open_still) refl
      go (err x) e =
          let over : w.closed ≡ true = sym same ∙ (sym (panics-enqueue f v) ∙ ap panics e) in
          rw over refl

  panics-run : (es : List Event) (w : Socket) → panics (run decode es w) ≡ late_data w.closed es
  unfolding run step attach on_message stash wait_ws_message
  panics-run [] w = refl
  panics-run (attached c ∷ es) w = panics-run es (attach c w)
  panics-run (sent (text_message b) ∷ es) w =
      panics-bind (text_frame b (decode b)) w (stash (decode b) w) es refl (panics-run es)
  panics-run (sent (binary_message b) ∷ es) w =
      panics-bind (binary_frame b) w w es refl (panics-run es)
  panics-run (sent (other_message b) ∷ es) w = panics-run es w ∙ ground arith
  panics-run (ended ∷ es) w =
      panics-run es (detach w) ∙ ap (λ over. late_data over es) (detach-closed w)
  panics-run (read ∷ es) w =
      panics-run es (wait_ws_message w).1
      ∙ ap (λ over. late_data over es) (taken-closed w.inbound w)

-- The server panics on the web socket of a session exactly when a text or binary message comes in
-- after the end of a connection to it: a second connection to a session whose first has ended
-- cannot send. No other sequence of connections, messages, ends and reads panics.
pub run-Panic :
    (decode : Bytes → Option Fields) (es : List Event)
    → (run decode es new_ws_session ≡ err send_on_closed) ↔ (late_data false es ≡ true)
unfolding new_ws_session
run-Panic decode es =
    let r = run decode es new_ws_session in
    let over = panics-run decode es new_ws_session in
    (λ h. sym over ∙ (panics_iff r).0 h, λ h. (panics_iff r).1 (over ∙ h))
