-- ===== src/Sip/Call/Race.antt =====
-- A call that its peer ends while it is answered.
use smoke_tester.Prelude.{◌≡◌, true, false, none, arith}
use smoke_tester.Prelude.Text.{Text}
use smoke_tester.Sip.Call.{
  Call, Net, no_reason, set_state, during, then_state, with_codec, answer, remote_bye, is_final,
}
use smoke_tester.Sip.Call.Moves.{control}
use smoke_tester.Sip.Call.Invariant.{IsWellFormed}
use smoke_tester.Sip.State.{inbound, answered, ended}

set_state-ends :
    (c : Call) (n : Net)
    → IsWellFormed (control c)
    → is_final c.state ≡ false
    → let d = set_state ended remote_bye n.now c in
      (d.state ≡ ended) × (d.done_closes ≡ 1) × (d.registered ≡ false)
unfolding set_state
set_state-ends c n wf live = ground arith

set_state-revives :
    (d : Call) (n : Net)
    → d.state ≡ ended
    → let e = set_state answered no_reason n.now d in
      (e.state ≡ answered) × (e.done_closes ≡ d.done_closes) × (e.registered ≡ d.registered)
unfolding set_state
set_state-revives d n h = ground arith

-- The race: an inbound call whose peer hangs up while the library answers it, the library then
-- reporting success, is left answered, although its end was announced and the registry has
-- dropped it.
pub answer_revives :
    (c : Call) (codec : Text) (n : Net)
    → IsWellFormed (control c)
    → c.direction ≡ inbound
    → is_final c.state ≡ false
    → n.bye ≡ true
    → n.failure ≡ none
    → let r = answer codec n c in
      (r.1 ≡ none) × (r.0.state ≡ answered) × (r.0.done_closes ≡ 1) × (r.0.registered ≡ false)
unfolding answer then_state during with_codec
answer_revives c codec n wf dir live bye fine =
    let d : Call = set_state ended remote_bye n.now c in
    ground (arith, set_state-ends c n wf live, set_state-revives d n)
