-- ===== src/Sip/Call/Steps.antt =====
-- The operations of a call as one step function, and their sequences. `dialog_ended` is the
-- library's OnState callback, `async_stop` the goroutine that setState starts.
use smoke_tester.Prelude.{ℕ, Bool, false, Option, none, List, [], ◌∷◌, ◌++◌, if◌then◌else◌}
use smoke_tester.Prelude.Text.{Text}
use smoke_tester.Sip.Call.{
  Call, Net, set_state, send_trying, send_ringing, send_early_media_183, answer, reject, remote_bye,
}
use smoke_tester.Sip.Call.Media.{Opened, stop_media, stop_recording, start_recording, send_silence}
use smoke_tester.Sip.Call.Dialog.{Exchange, hangup, do_in_dialog, hangup_with_headers}
use smoke_tester.Sip.Call.Reinvite.{Reinvite, send_reinvite, send_reinvite_with_sdp, send_refer}
use smoke_tester.Sip.Message.{Message}
use smoke_tester.Sip.State.{CallError, ended}

pub data Op : Type 0 where
  op_trying op_ringing op_early_media : Net → Op
  op_answer : Text → Net → Op
  op_reject : ℕ → Text → Net → Op
  op_start_recording : Text → Opened → Op
  op_stop_recording : Bool → Op
  op_silence : Option Text → Op
  op_hangup : Bool → Bool → Net → Op
  op_in_dialog : Exchange → Op
  op_reinvite op_reinvite_sdp : Reinvite → Op
  op_refer : Net → Op
  op_hangup_headers : Bool → Bool → Exchange → Op
  dialog_ended : ℕ → Op
  async_stop : Bool → Bool → Op
  record_sent record_received : Message → Op

unfoldable pub step : Call → Op → Call × Option CallError
unfolding set_state
step c (op_trying n) = send_trying n c
step c (op_ringing n) = send_ringing n c
step c (op_early_media n) = send_early_media_183 n c
step c (op_answer codec n) = answer codec n c
step c (op_reject code reason n) = reject code reason n c
step c (op_start_recording path how) = start_recording path how c
step c (op_stop_recording hook) = (stop_recording hook c, none)
step c (op_silence failure) = send_silence failure c
step c (op_hangup hook stops n) = hangup hook stops n c
step c (op_in_dialog x) = do_in_dialog x c
step c (op_reinvite x) = send_reinvite x c
step c (op_reinvite_sdp x) = send_reinvite_with_sdp x c
step c (op_refer n) = send_refer n c
step c (op_hangup_headers hook stops x) = hangup_with_headers hook stops x c
step c (dialog_ended now) = (set_state ended remote_bye now c, none)
step c (async_stop hook stops) =
    (if c.stop_pending then record (stop_media hook stops c) { stop_pending = false } else c, none)
step c (record_sent m) = (record c { sent = c.sent ++ m ∷ [] }, none)
step c (record_received m) = (record c { recv = c.recv ++ m ∷ [] }, none)

unfoldable pub run : Call → List Op → Call
unfolding step
run c [] = c
run c (o ∷ os) = run (step c o).0 os
