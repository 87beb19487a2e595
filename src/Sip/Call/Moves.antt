-- ===== src/Sip/Call/Moves.antt =====
-- Every operation of a call changes its control state by `setState` alone: the step relation.
use smoke_tester.Prelude.{
  ℕ, ◌≡◌, inl, inr, refl, Bool, true, false, not, ◌||◌, Option, none, some, arith, ltb,
  if◌then◌else◌, Bool-cases, Option-cases,
}
use smoke_tester.Prelude.Text.{Text}
use smoke_tester.Sip.Call.{
  Call, Net, EndReason, no_reason, set_state, during, then_state, with_codec, send_trying,
  send_ringing, send_early_media_183, answer, reject, remote_bye, is_final, local_hangup,
  hangup_err, rejected,
}
use smoke_tester.Sip.Call.Media.{Opened, stop_media, stop_recording, start_recording, send_silence}
use smoke_tester.Sip.Call.Dialog.{
  Exchange, hangup, do_in_dialog, exchanged, record_response, hangup_with_headers, error_text,
}
use smoke_tester.Sip.Call.Reinvite.{
  Reinvite, on_response, after_do, reinvited, send_reinvite, send_reinvite_with_sdp, send_refer,
}
use smoke_tester.Sip.Call.Steps.{
  Op, op_trying, op_ringing, op_early_media, op_answer, op_reject, op_start_recording,
  op_stop_recording, op_silence, op_hangup, op_in_dialog, op_reinvite, op_reinvite_sdp, op_refer,
  op_hangup_headers, dialog_ended, async_stop, record_sent, record_received, step,
}
use smoke_tester.Sip.Message.{Message}
use smoke_tester.Sip.State.{
  State, CallError, init, trying, ringing, answered, ended, is_state, is_inbound,
}

-- What setState writes.
pub record Control : Type 0 where
  pub state : State
  pub answered_at : Option ℕ
  pub ended_at : Option ℕ
  pub end_reason : EndReason
  pub done_closes : ℕ
  pub registered : Bool

abbrev pub control : Call → Control
control c = record {
  state = c.state;
  answered_at = c.answered_at;
  ended_at = c.ended_at;
  end_reason = c.end_reason;
  done_closes = c.done_closes;
  registered = c.registered;
}

infix 40 ◌⟶◌
pub data ◌⟶◌ (c : Call) : Call → Type 0 where
  here : c ⟶ c
  sets : {d : Call} (s : State) (r : EndReason) (now : ℕ) → c ⟶ d → c ⟶ set_state s r now d
  quiet : {d e : Call} → c ⟶ d → control e ≡ control d → c ⟶ e

during-⟶ : {c d : Call} (n : Net) → c ⟶ d → c ⟶ during n d
unfolding during
during-⟶ n m = elim (Bool-cases n.bye) [
  | inl bye ↦ rw (bye, during) (sets ended remote_bye n.now m)
  | inr calm ↦ rw (calm, during) m
]

if-⟶ {ℓ} :
    {c : Call} {A : Type ℓ} (b : Bool) (x y : Call × A)
    → c ⟶ x.0
    → c ⟶ y.0
    → c ⟶ (if b then x else y).0
if-⟶ true x y h k = h
if-⟶ false x y h k = k

then_state-⟶ :
    {c d : Call} (s : State) (r : EndReason) (n : Net) → c ⟶ d → c ⟶ (then_state s r n d).0
unfolding then_state
then_state-⟶ s r n m = elim (Option-cases n.failure) [
  | inl fine ↦ rw (fine, then_state) (sets s r n.now (during-⟶ n m))
  | inr (e, failed) ↦ rw (failed, then_state) (during-⟶ n m)
]

with_codec-⟶ :
    {c : Call} (codec : Text) (r : Call × Option CallError) → c ⟶ r.0 → c ⟶ (with_codec codec r).0
unfolding with_codec
with_codec-⟶ codec (d, none) m = quiet m refl
with_codec-⟶ codec (d, some e) m = m

pub control-stop_media :
    (hook stops : Bool) (c : Call) → control (stop_media hook stops c) ≡ control c
unfolding stop_media
control-stop_media hook stops c = ground arith

pub control-stop_recording : (hook : Bool) (c : Call) → control (stop_recording hook c) ≡ control c
unfolding stop_recording
control-stop_recording hook c = ground arith

pub control-start_recording :
    (path : Text) (how : Opened) (c : Call) → control (start_recording path how c).0 ≡ control c
unfolding start_recording
control-start_recording path how c = ground arith

pub control-send_silence :
    (failure : Option Text) (c : Call) → control (send_silence failure c).0 ≡ control c
unfolding send_silence
control-send_silence failure c = ground arith

control-record_response :
    (m : Option Message) (c : Call) → control (record_response m c) ≡ control c
unfolding record_response
control-record_response none c = refl
control-record_response (some m) c = refl

exchanged-⟶ : {c d : Call} (x : Exchange) → c ⟶ d → c ⟶ exchanged x d
unfolding exchanged
exchanged-⟶ x m = quiet (during-⟶ x.net (quiet m refl)) (control-record_response x.response _)

do_in_dialog-⟶ : {c d : Call} (x : Exchange) → c ⟶ d → c ⟶ (do_in_dialog x d).0
unfolding do_in_dialog
do_in_dialog-⟶ {d} x m =
    if-⟶ (not (is_state d.state answered)) _ _ m (if-⟶ (not x.contact) _ _ m (exchanged-⟶ x m))

control-after_do :
    (strict : Bool) (x : Reinvite) (e : Option Text) (res : Option Message) (c : Call)
    → control (after_do strict x e res c).0 ≡ control c
unfolding after_do on_response
control-after_do strict x e res c = ground arith

reinvited-⟶ : (strict : Bool) (x : Reinvite) (c : Call) → c ⟶ (reinvited strict x c).0
unfolding reinvited
reinvited-⟶ strict x c =
    quiet (exchanged-⟶ x.exchange here) (
      control-after_do strict x x.exchange.net.failure x.exchange.response (exchanged x.exchange c))

send_reinvite-⟶ : (x : Reinvite) (c : Call) → c ⟶ (send_reinvite x c).0
unfolding send_reinvite
send_reinvite-⟶ x c = if-⟶ (is_inbound c.direction) _ _ here (
    if-⟶ (not (is_state c.state answered)) _ _ here
      (if-⟶ (not x.exchange.contact) _ _ here (if-⟶ (not x.sdp) _ _ here (reinvited-⟶ true x c))))

send_reinvite_with_sdp-⟶ : (x : Reinvite) (c : Call) → c ⟶ (send_reinvite_with_sdp x c).0
unfolding send_reinvite_with_sdp
send_reinvite_with_sdp-⟶ x c = if-⟶ (is_inbound c.direction) _ _ here (
    if-⟶ (not (is_state c.state answered)) _ _ here
      (if-⟶ (not x.sdp) _ _ here (if-⟶ (not x.exchange.contact) _ _ here (reinvited-⟶ false x c))))

hangup-⟶ : (hook stops : Bool) (n : Net) (c : Call) → c ⟶ (hangup hook stops n c).0
unfolding hangup
hangup-⟶ hook stops n c =
    let stopped : c ⟶ during n (stop_media hook stops c) =
      during-⟶ n (quiet here (control-stop_media hook stops c)) in
    if-⟶ (is_state c.state ended) _ _ here (elim (Option-cases n.failure) [
      | inl fine ↦ rw fine (sets ended local_hangup n.now stopped)
      | inr (e, failed) ↦ rw failed (sets ended (hangup_err e) n.now stopped)
    ])

hangup_with_headers-⟶ :
    (hook stops : Bool) (x : Exchange) (c : Call) → c ⟶ (hangup_with_headers hook stops x c).0
unfolding hangup_with_headers
hangup_with_headers-⟶ hook stops x c =
    let r = do_in_dialog x (stop_media hook stops c) in
    let bye : c ⟶ r.0 = do_in_dialog-⟶ x (quiet here (control-stop_media hook stops c)) in
    if-⟶ (not (is_state c.state answered)) _ _ here (elim (Option-cases r.1) [
      | inl fine ↦ rw fine (sets ended local_hangup x.net.now bye)
      | inr (e, failed) ↦ rw failed (sets ended (hangup_err (error_text e)) x.net.now bye)
    ])

-- Every operation is a sequence of setState calls, as far as the control state goes.
pub step-⟶ : (c : Call) (o : Op) → c ⟶ (step c o).0
unfolding step send_trying send_ringing send_early_media_183 answer reject send_refer
step-⟶ c (op_trying n) =
    if-⟶ (not (is_inbound c.direction)) _ _ here
      (if-⟶ (not (is_state c.state init)) _ _ here (then_state-⟶ trying no_reason n here))
step-⟶ c (op_ringing n) =
    if-⟶ (not (is_inbound c.direction)) _ _ here
      (if-⟶ _ _ _ here (then_state-⟶ ringing no_reason n here))
step-⟶ c (op_early_media n) =
    if-⟶ (not (is_inbound c.direction)) _ _ here
      (if-⟶ _ _ _ here (then_state-⟶ ringing no_reason n here))
step-⟶ c (op_answer codec n) = if-⟶ (is_final c.state) _ _ here (
    if-⟶ (is_inbound c.direction) _ _
      (with_codec-⟶ codec _ (then_state-⟶ answered no_reason n here))
      (with_codec-⟶ codec (set_state answered no_reason n.now c, none)
        (sets answered no_reason n.now here)))
step-⟶ c (op_reject code reason n) = if-⟶ (not (is_inbound c.direction)) _ _ here (
    if-⟶ (ltb code 400 || ltb 699 code) _ _ here
      (if-⟶ (is_final c.state) _ _ here (then_state-⟶ ended (rejected code reason) n here)))
step-⟶ c (op_start_recording path how) = quiet here (control-start_recording path how c)
step-⟶ c (op_stop_recording hook) = quiet here (control-stop_recording hook c)
step-⟶ c (op_silence failure) = quiet here (control-send_silence failure c)
step-⟶ c (op_hangup hook stops n) = hangup-⟶ hook stops n c
step-⟶ c (op_in_dialog x) = do_in_dialog-⟶ x here
step-⟶ c (op_reinvite x) = send_reinvite-⟶ x c
step-⟶ c (op_reinvite_sdp x) = send_reinvite_with_sdp-⟶ x c
step-⟶ c (op_refer n) = if-⟶ (not (is_state c.state answered)) _ _ here (during-⟶ n here)
step-⟶ c (op_hangup_headers hook stops x) = hangup_with_headers-⟶ hook stops x c
step-⟶ c (dialog_ended now) = sets ended remote_bye now here
step-⟶ c (async_stop hook stops) = quiet here (stopped c.stop_pending)
  where
    stopped :
        (b : Bool)
        → control (if b then record (stop_media hook stops c) { stop_pending = false } else c)
          ≡ control c
    stopped true = control-stop_media hook stops c
    stopped false = refl
step-⟶ c (record_sent m) = quiet here refl
step-⟶ c (record_received m) = quiet here refl
