-- ===== src/Sip/Call/Archiving.antt =====
-- How often the recordings of a call are archived.
use smoke_tester.Prelude.{
  ◌+◌, length, ℕ, ◌≤◌, ◌≡◌, refl, ◌∙◌, Bool, true, false, Option, none, some, List, [], ◌∷◌, ◌++◌,
  arith,
}
use smoke_tester.Prelude.Text.{Text}
use smoke_tester.Sip.Call.{
  Recording, new_call, Call, Net, EndReason, no_reason, set_state, during, then_state, with_codec,
  send_trying, send_ringing, send_early_media_183, answer, reject, remote_bye, local_hangup,
  hangup_err, rejected,
}
use smoke_tester.Sip.Call.Dialog.{
  Exchange, hangup, do_in_dialog, exchanged, record_response, hangup_with_headers, error_text,
}
use smoke_tester.Sip.Call.Reinvite.{
  Reinvite, on_response, after_do, reinvited, send_reinvite, send_reinvite_with_sdp, send_refer,
}
use smoke_tester.Sip.Call.Steps.{
  Op, op_trying, op_ringing, op_early_media, op_answer, op_reject, op_start_recording,
  op_stop_recording, op_silence, op_hangup, op_in_dialog, op_reinvite, op_reinvite_sdp, op_refer,
  op_hangup_headers, dialog_ended, async_stop, record_sent, record_received, step, run,
}
use smoke_tester.Sip.Message.{Message}
use smoke_tester.Sip.State.{State, Direction, trying, ringing, answered, ended, CallError}
use smoke_tester.Sip.Call.Media.{
  Opened, stop_media, stop_recorded, finalize_recording, stop_recording, start_recording,
  send_silence,
}

-- The recordings that were archived, and the one that may still be.
abbrev is_running : Option Recording → ℕ
is_running none = 0
is_running (some _) = 1

abbrev pub recordings : Call → ℕ
recordings c = length c.archives + is_running c.recording

recordings-set_state :
    (s : State) (r : EndReason) (now : ℕ) (c : Call)
    → recordings (set_state s r now c) ≡ recordings c
unfolding set_state
recordings-set_state s r now c = ground arith

recordings-during : (n : Net) (c : Call) → recordings (during n c) ≡ recordings c
unfolding during
recordings-during n c = ground (arith, recordings-set_state ended remote_bye n.now c)

recordings-then_state :
    (s : State) (r : EndReason) (n : Net) (c : Call)
    → recordings (then_state s r n c).0 ≡ recordings c
unfolding then_state
recordings-then_state s r n c =
    ground (arith, recordings-during n c, recordings-set_state s r n.now (during n c))

recordings-with_codec :
    (codec : Text) (r : Call × Option CallError)
    → recordings (with_codec codec r).0 ≡ recordings r.0
unfolding with_codec
recordings-with_codec codec (c, none) = refl
recordings-with_codec codec (c, some e) = refl

recordings-trying : (n : Net) (c : Call) → recordings (send_trying n c).0 ≡ recordings c
unfolding send_trying
recordings-trying n c = ground (arith, recordings-then_state trying no_reason n c)

recordings-ringing : (n : Net) (c : Call) → recordings (send_ringing n c).0 ≡ recordings c
unfolding send_ringing
recordings-ringing n c = ground (arith, recordings-then_state ringing no_reason n c)

recordings-early : (n : Net) (c : Call) → recordings (send_early_media_183 n c).0 ≡ recordings c
unfolding send_early_media_183
recordings-early n c = ground (arith, recordings-then_state ringing no_reason n c)

recordings-answer :
    (codec : Text) (n : Net) (c : Call) → recordings (answer codec n c).0 ≡ recordings c
unfolding answer
recordings-answer codec n c = ground (
  arith,
  recordings-then_state answered no_reason n c,
  recordings-set_state answered no_reason n.now c,
  recordings-with_codec codec (then_state answered no_reason n c),
  recordings-with_codec codec (set_state answered no_reason n.now c, none),
)

recordings-reject :
    (code : ℕ) (reason : Text) (n : Net) (c : Call)
    → recordings (reject code reason n c).0 ≡ recordings c
unfolding reject
recordings-reject code reason n c =
    ground (arith, recordings-then_state ended (rejected code reason) n c)

-- Ending the media archives the recording once, or gives it up.
recordings-stop_media :
    (hook stops : Bool) (c : Call) → recordings (stop_media hook stops c) ≤ recordings c
unfolding stop_media stop_recorded finalize_recording
recordings-stop_media hook stops c = ground arith

recordings-stop_recording :
    (hook : Bool) (c : Call) → recordings (stop_recording hook c) ≤ recordings c
unfolding stop_recording stop_recorded finalize_recording
recordings-stop_recording hook c = ground arith

recordings-start_recording :
    (path : Text) (how : Opened) (c : Call)
    → recordings (start_recording path how c).0 ≤ recordings c + 1
unfolding start_recording
recordings-start_recording path how c = ground arith

recordings-send_silence :
    (failure : Option Text) (c : Call) → recordings (send_silence failure c).0 ≡ recordings c
unfolding send_silence
recordings-send_silence failure c = ground arith

recordings-exchanged : (x : Exchange) (c : Call) → recordings (exchanged x c) ≡ recordings c
unfolding exchanged record_response
recordings-exchanged x c =
    ground (arith, recordings-during x.net (record c { sent = c.sent ++ x.request ∷ [] }))

recordings-do_in_dialog : (x : Exchange) (c : Call) → recordings (do_in_dialog x c).0 ≡ recordings c
unfolding do_in_dialog
recordings-do_in_dialog x c = ground (arith, recordings-exchanged x c)

recordings-hangup :
    (hook stops : Bool) (n : Net) (c : Call) → recordings (hangup hook stops n c).0 ≤ recordings c
unfolding hangup
recordings-hangup hook stops n c =
    let c' : Call = during n (stop_media hook stops c) in
    ground (
      arith,
      recordings-stop_media hook stops c,
      recordings-during n (stop_media hook stops c),
      recordings-set_state ended local_hangup n.now c',
      λ (e : Text). recordings-set_state ended (hangup_err e) n.now c',
    )

recordings-hangup_with_headers :
    (hook stops : Bool) (x : Exchange) (c : Call)
    → recordings (hangup_with_headers hook stops x c).0 ≤ recordings c
unfolding hangup_with_headers
recordings-hangup_with_headers hook stops x c =
    let d : Call = (do_in_dialog x (stop_media hook stops c)).0 in
    ground (
      arith,
      recordings-stop_media hook stops c,
      recordings-do_in_dialog x (stop_media hook stops c),
      recordings-set_state ended local_hangup x.net.now d,
      λ (e : CallError). recordings-set_state ended (hangup_err (error_text e)) x.net.now d,
    )

recordings-after_do :
    (strict : Bool) (x : Reinvite) (e : Option Text) (res : Option Message) (c : Call)
    → recordings (after_do strict x e res c).0 ≡ recordings c
unfolding after_do on_response
recordings-after_do strict x e res c = ground arith

recordings-reinvited :
    (strict : Bool) (x : Reinvite) (c : Call) → recordings (reinvited strict x c).0 ≡ recordings c
unfolding reinvited
recordings-reinvited strict x c =
    recordings-after_do strict x x.exchange.net.failure x.exchange.response (exchanged x.exchange c)
    ∙ recordings-exchanged x.exchange c

recordings-send_reinvite :
    (x : Reinvite) (c : Call) → recordings (send_reinvite x c).0 ≡ recordings c
unfolding send_reinvite
recordings-send_reinvite x c = ground (arith, recordings-reinvited true x c)

recordings-send_reinvite_with_sdp :
    (x : Reinvite) (c : Call) → recordings (send_reinvite_with_sdp x c).0 ≡ recordings c
unfolding send_reinvite_with_sdp
recordings-send_reinvite_with_sdp x c = ground (arith, recordings-reinvited false x c)

recordings-send_refer : (n : Net) (c : Call) → recordings (send_refer n c).0 ≡ recordings c
unfolding send_refer
recordings-send_refer n c = ground (arith, recordings-during n c)

-- How often a recording was asked for.
abbrev pub starts : Op → ℕ
starts (op_start_recording path how) = 1
starts _ = 0

abbrev pub all_starts : List Op → ℕ
all_starts [] = 0
all_starts (o ∷ os) = starts o + all_starts os

recordings-step : (c : Call) (o : Op) → recordings (step c o).0 ≤ recordings c + starts o
unfolding step
recordings-step c (op_trying n) = omega (arith, recordings-trying n c)
recordings-step c (op_ringing n) = omega (arith, recordings-ringing n c)
recordings-step c (op_early_media n) = omega (arith, recordings-early n c)
recordings-step c (op_answer codec n) = omega (arith, recordings-answer codec n c)
recordings-step c (op_reject code reason n) = omega (arith, recordings-reject code reason n c)
recordings-step c (op_start_recording path how) = recordings-start_recording path how c
recordings-step c (op_stop_recording hook) = omega (arith, recordings-stop_recording hook c)
recordings-step c (op_silence failure) = omega (arith, recordings-send_silence failure c)
recordings-step c (op_hangup hook stops n) = omega (arith, recordings-hangup hook stops n c)
recordings-step c (op_in_dialog x) = omega (arith, recordings-do_in_dialog x c)
recordings-step c (op_reinvite x) = omega (arith, recordings-send_reinvite x c)
recordings-step c (op_reinvite_sdp x) = omega (arith, recordings-send_reinvite_with_sdp x c)
recordings-step c (op_refer n) = omega (arith, recordings-send_refer n c)
recordings-step c (op_hangup_headers hook stops x) =
    omega (arith, recordings-hangup_with_headers hook stops x c)
recordings-step c (dialog_ended now) = omega (arith, recordings-set_state ended remote_bye now c)
recordings-step c (async_stop hook stops) = ground (arith, recordings-stop_media hook stops c)
recordings-step c (record_sent m) = omega arith
recordings-step c (record_received m) = omega arith

run-recordings : (c : Call) (os : List Op) → recordings (run c os) ≤ recordings c + all_starts os
unfolding run
run-recordings c [] = omega arith
run-recordings c (o ∷ os) = omega (arith, recordings-step c o, run-recordings (step c o).0 os)

-- Under any sequence of operations, a new call archives at most as many recordings as StartRecording
-- was called, however hangups, ends by the peer and StopRecording follow one another.
pub archived_once :
    (d : Direction) (owner : Text) (invite : Message) (os : List Op)
    → length (run (new_call d owner invite) os).archives ≤ all_starts os
unfolding new_call
archived_once d owner invite os = omega (arith, run-recordings (new_call d owner invite) os)
