-- ===== src/Sip/Call/Order.antt =====
-- In which order the states of a call follow one another.
use smoke_tester.Prelude.{
  ℕ, ◌≤◌, ◌≡◌, ◌⊎◌, inl, inr, ap, refl, Bool, true, false, Option, none, some, List, [], ◌∷◌, ◌++◌,
  arith, All,
}
use smoke_tester.Prelude.Text.{Text}
use smoke_tester.Sip.Call.{
  Call, Net, EndReason, no_reason, set_state, during, then_state, with_codec, send_trying,
  send_ringing, send_early_media_183, answer, reject, remote_bye, local_hangup, hangup_err,
  rejected,
}
use smoke_tester.Sip.Call.Media.{stop_media}
use smoke_tester.Sip.Call.Dialog.{
  Exchange, hangup, do_in_dialog, exchanged, record_response, hangup_with_headers, error_text,
}
use smoke_tester.Sip.Call.Reinvite.{
  Reinvite, on_response, after_do, reinvited, send_reinvite, send_reinvite_with_sdp, send_refer,
}
use smoke_tester.Sip.Call.Moves.{
  Control, control-stop_media, control-stop_recording, control-start_recording,
  control-send_silence,
}
use smoke_tester.Sip.Call.Steps.{
  Op, op_trying, op_ringing, op_early_media, op_answer, op_reject, op_start_recording,
  op_stop_recording, op_silence, op_hangup, op_in_dialog, op_reinvite, op_reinvite_sdp, op_refer,
  op_hangup_headers, dialog_ended, async_stop, record_sent, record_received, step, run,
}
use smoke_tester.Sip.Message.{Message}
use smoke_tester.Sip.State.{State, init, trying, ringing, answered, ended, CallError}

abbrev pub rank : State → ℕ
rank init = 0
rank trying = 1
rank ringing = 2
rank answered = 3
rank ended = 4

-- No library call of the operation overlaps with the end of the dialog.
abbrev pub IsCalm : Op → Type 0
IsCalm (op_trying n) = n.bye ≡ false
IsCalm (op_ringing n) = n.bye ≡ false
IsCalm (op_early_media n) = n.bye ≡ false
IsCalm (op_answer codec n) = n.bye ≡ false
IsCalm _ = Unit

rank-set_state : (s : State) (r : EndReason) (now : ℕ) (c : Call) → (set_state s r now c).state ≡ s
unfolding set_state
rank-set_state s r now c = ground arith

state-then_state :
    (s : State) (r : EndReason) (n : Net) (c : Call)
    → n.bye ≡ false
    → ((then_state s r n c).0.state ≡ s) ⊎ ((then_state s r n c).0.state ≡ c.state)
unfolding then_state during
state-then_state s r n c calm = ground (arith, rank-set_state s r n.now c)

state-then_state_ended :
    (r : EndReason) (n : Net) (c : Call)
    → ((then_state ended r n c).0.state ≡ ended) ⊎ ((then_state ended r n c).0.state ≡ c.state)
unfolding then_state during
state-then_state_ended r n c = ground (
  arith,
  rank-set_state ended r n.now c,
  rank-set_state ended remote_bye n.now c,
  rank-set_state ended r n.now (set_state ended remote_bye n.now c),
)

-- The state changes leave the media alone, and stopMedia stops it.
abbrev IsQuiet : Call → Type 0
IsQuiet c = (c.recording ≡ none) × (c.silence ≡ false)

set_state-IsQuiet :
    (s : State) (r : EndReason) (now : ℕ) (c : Call) → IsQuiet c → IsQuiet (set_state s r now c)
unfolding set_state
set_state-IsQuiet s r now c h = ground arith

during-IsQuiet : (n : Net) (c : Call) → IsQuiet c → IsQuiet (during n c)
unfolding during
during-IsQuiet n c h = ground (arith, set_state-IsQuiet ended remote_bye n.now c h)

stop_media-IsQuiet : (hook stops : Bool) (c : Call) → IsQuiet (stop_media hook stops c)
unfolding stop_media
stop_media-IsQuiet hook stops c = ground arith

-- Hangup ends the call on every path, whatever the library reports, and reports no error; a call
-- that was live records and sends no longer.
pub hangup_ends :
    (hook stops : Bool) (n : Net) (c : Call)
    → let r = hangup hook stops n c in
      (r.0.state ≡ ended) × (r.1 ≡ none) × ((c.state ≡ ended) ⊎ IsQuiet r.0)
unfolding hangup
hangup_ends hook stops n c =
    let c' : Call = during n (stop_media hook stops c) in
    let q : IsQuiet c' =
      during-IsQuiet n (stop_media hook stops c) (stop_media-IsQuiet hook stops c) in
    ground (
      arith,
      rank-set_state ended local_hangup n.now c',
      set_state-IsQuiet ended local_hangup n.now c' q,
      λ (e : Text). rank-set_state ended (hangup_err e) n.now c',
      λ (e : Text). set_state-IsQuiet ended (hangup_err e) n.now c' q,
    )

step-trying : (c : Call) (n : Net) → n.bye ≡ false → rank c.state ≤ rank (send_trying n c).0.state
unfolding send_trying
step-trying c n calm = ground (arith, state-then_state trying no_reason n c calm)

step-ringing : (c : Call) (n : Net) → n.bye ≡ false → rank c.state ≤ rank (send_ringing n c).0.state
unfolding send_ringing
step-ringing c n calm = ground (arith, state-then_state ringing no_reason n c calm)

step-early_media :
    (c : Call) (n : Net) → n.bye ≡ false → rank c.state ≤ rank (send_early_media_183 n c).0.state
unfolding send_early_media_183
step-early_media c n calm = ground (arith, state-then_state ringing no_reason n c calm)

state-with_codec :
    (codec : Text) (r : Call × Option CallError) → (with_codec codec r).0.state ≡ r.0.state
unfolding with_codec
state-with_codec codec (c, none) = refl
state-with_codec codec (c, some e) = refl

step-answer :
    (c : Call) (codec : Text) (n : Net)
    → n.bye ≡ false
    → rank c.state ≤ rank (answer codec n c).0.state
unfolding answer
step-answer c codec n calm = ground (
  arith,
  state-then_state answered no_reason n c calm,
  rank-set_state answered no_reason n.now c,
  state-with_codec codec (then_state answered no_reason n c),
  state-with_codec codec (set_state answered no_reason n.now c, none),
)

step-reject :
    (c : Call) (code : ℕ) (reason : Text) (n : Net)
    → rank c.state ≤ rank (reject code reason n c).0.state
unfolding reject
step-reject c code reason n = ground (arith, state-then_state_ended (rejected code reason) n c)

-- Other operations keep the state or end the call.
abbrev KeepsOrEnds : Call → Call → Type 0
KeepsOrEnds c d = (d.state ≡ ended) ⊎ (d.state ≡ c.state)

rank-le : (c d : Call) → KeepsOrEnds c d → rank c.state ≤ rank d.state
rank-le c d (inl e) = ground arith
rank-le c d (inr e) = ground arith

during-KeepsOrEnds : (n : Net) (c : Call) → KeepsOrEnds c (during n c)
unfolding during
during-KeepsOrEnds n c = ground (arith, rank-set_state ended remote_bye n.now c)

exchanged-KeepsOrEnds : (x : Exchange) (c : Call) → KeepsOrEnds c (exchanged x c)
unfolding exchanged record_response
exchanged-KeepsOrEnds x c =
    ground (arith, during-KeepsOrEnds x.net (record c { sent = c.sent ++ x.request ∷ [] }))

do_in_dialog-KeepsOrEnds : (x : Exchange) (c : Call) → KeepsOrEnds c (do_in_dialog x c).0
unfolding do_in_dialog
do_in_dialog-KeepsOrEnds x c = ground (arith, exchanged-KeepsOrEnds x c)

state-after_do :
    (strict : Bool) (x : Reinvite) (e : Option Text) (res : Option Message) (c : Call)
    → (after_do strict x e res c).0.state ≡ c.state
unfolding after_do on_response
state-after_do strict x e res c = ground arith

reinvited-KeepsOrEnds :
    (strict : Bool) (x : Reinvite) (c : Call) → KeepsOrEnds c (reinvited strict x c).0
unfolding reinvited
reinvited-KeepsOrEnds strict x c = ground (
  arith,
  exchanged-KeepsOrEnds x.exchange c,
  state-after_do strict x x.exchange.net.failure x.exchange.response (exchanged x.exchange c),
)

send_reinvite-KeepsOrEnds : (x : Reinvite) (c : Call) → KeepsOrEnds c (send_reinvite x c).0
unfolding send_reinvite
send_reinvite-KeepsOrEnds x c = ground (arith, reinvited-KeepsOrEnds true x c)

send_reinvite_with_sdp-KeepsOrEnds :
    (x : Reinvite) (c : Call) → KeepsOrEnds c (send_reinvite_with_sdp x c).0
unfolding send_reinvite_with_sdp
send_reinvite_with_sdp-KeepsOrEnds x c = ground (arith, reinvited-KeepsOrEnds false x c)

send_refer-KeepsOrEnds : (n : Net) (c : Call) → KeepsOrEnds c (send_refer n c).0
unfolding send_refer
send_refer-KeepsOrEnds n c = ground (arith, during-KeepsOrEnds n c)

hangup_with_headers-KeepsOrEnds :
    (hook stops : Bool) (x : Exchange) (c : Call)
    → KeepsOrEnds c (hangup_with_headers hook stops x c).0
unfolding hangup_with_headers
hangup_with_headers-KeepsOrEnds hook stops x c =
    let d : Call = (do_in_dialog x (stop_media hook stops c)).0 in
    ground (
      arith,
      rank-set_state ended local_hangup x.net.now d,
      λ (e : CallError). rank-set_state ended (hangup_err (error_text e)) x.net.now d,
    )

step-rank : (c : Call) (o : Op) → IsCalm o → rank c.state ≤ rank (step c o).0.state
unfolding step
step-rank c (op_trying n) h = step-trying c n h
step-rank c (op_ringing n) h = step-ringing c n h
step-rank c (op_early_media n) h = step-early_media c n h
step-rank c (op_answer codec n) h = step-answer c codec n h
step-rank c (op_reject code reason n) h = step-reject c code reason n
step-rank c (op_start_recording path how) h =
    rank-le c (step c (op_start_recording path how)).0
      (inr (ap (λ (k : Control). k.state) (control-start_recording path how c)))
step-rank c (op_stop_recording hook) h =
    rank-le c (step c (op_stop_recording hook)).0
      (inr (ap (λ (k : Control). k.state) (control-stop_recording hook c)))
step-rank c (op_silence failure) h =
    rank-le c (step c (op_silence failure)).0
      (inr (ap (λ (k : Control). k.state) (control-send_silence failure c)))
step-rank c (op_hangup hook stops n) h =
    rank-le c (step c (op_hangup hook stops n)).0 (inl (hangup_ends hook stops n c).0)
step-rank c (op_in_dialog x) h =
    rank-le c (step c (op_in_dialog x)).0 (do_in_dialog-KeepsOrEnds x c)
step-rank c (op_reinvite x) h = rank-le c (step c (op_reinvite x)).0 (send_reinvite-KeepsOrEnds x c)
step-rank c (op_reinvite_sdp x) h =
    rank-le c (step c (op_reinvite_sdp x)).0 (send_reinvite_with_sdp-KeepsOrEnds x c)
step-rank c (op_refer n) h = rank-le c (step c (op_refer n)).0 (send_refer-KeepsOrEnds n c)
step-rank c (op_hangup_headers hook stops x) h =
    rank-le c (step c (op_hangup_headers hook stops x)).0
      (hangup_with_headers-KeepsOrEnds hook stops x c)
step-rank c (dialog_ended now) h =
    rank-le c (step c (dialog_ended now)).0 (inl (rank-set_state ended remote_bye now c))
step-rank c (async_stop hook stops) h =
    ground (arith, ap (λ (k : Control). k.state) (control-stop_media hook stops c))
step-rank c (record_sent m) h = omega arith
step-rank c (record_received m) h = omega arith

-- Along operations of which no Trying, Ringing, SendEarlyMedia183 or Answer overlaps with the end
-- of the dialog, the state only goes forward; an ended call stays ended.
pub run-rank : (c : Call) (os : List Op) → All IsCalm os → rank c.state ≤ rank (run c os).state
unfolding run
run-rank c [] h = omega arith
run-rank c (o ∷ os) h = omega (arith, step-rank c o h.0, run-rank (step c o).0 os h.1)
