-- ===== src/Sip/Inbound.antt =====
-- internal/sip/uas.go, dispatchInbound: an inbound call in the hands of the test's handler. What the
-- handler does with the call, and what happens to the call meanwhile, is a sequence of operations.
use smoke_tester.Prelude.{
  ◌≡◌, ◌≢◌, ◌⊎◌, inl, inr, refl, Bool, true, false, Option, none, some, List, arith, Bool-cases,
  Option-cases, if◌then◌else◌,
}
use smoke_tester.Prelude.Text.{Text, codes}
use smoke_tester.Sip.Call.{Call, Net, new_call, reject}
use smoke_tester.Sip.Call.Dialog.{hangup}
use smoke_tester.Sip.Call.Order.{hangup_ends}
use smoke_tester.Sip.Call.Steps.{Op, run}
use smoke_tester.Sip.Message.{Message}
use smoke_tester.Sip.State.{State, is_state, inbound, ended}

-- How the library's calls of the clean-up go.
pub record Cleanup : Type 0 where
  pub hook : Bool
  pub stops : Bool
  pub net : Net

hung_up : Cleanup → Call → Call
hung_up k c = if is_state c.state ended then c else (hangup k.hook k.stops k.net c).0

-- `none` is the nil handler.
unfoldable pub dispatch_inbound : Text → Message → Option (List Op) → Cleanup → Call
unfolding hung_up
dispatch_inbound owner invite none k =
    (reject 480 (codes "Temporarily Unavailable") k.net (new_call inbound owner invite)).0
dispatch_inbound owner invite (some handled) k =
    hung_up k (run (new_call inbound owner invite) handled)

is_state→eq : (s : State) → is_state s ended ≡ true → s ≡ ended
is_state→eq s h = ground arith

rejected_or_left :
    (n : Net) (owner : Text) (invite : Message) (reason : Text)
    → let c = (reject 480 reason n (new_call inbound owner invite)).0 in
      (c.state ≡ ended)
      ⊎ ((◌≡◌ {A = Option (List Op)} none none)
          × (n.bye ≡ false)
          × (n.failure ≢ none)
          × (c ≡ new_call inbound owner invite))
unfolding reject new_call
rejected_or_left n owner invite reason = elim (Bool-cases n.bye) [
  | inl gone ↦ inl (ground arith)
  | inr calm ↦ elim (Option-cases n.failure) [
    | inl fine ↦ inl (ground arith)
    | inr (e, failed) ↦ inr (refl, calm, (λ p. cc), ground arith)
  ]
]

-- When dispatchInbound returns, the call is ended, whatever the handler did with it and however the
-- library's calls went. Only where there is no handler, and the library fails to send the 480 and
-- reports no end of the dialog, is the call left behind, in its first state.
pub dispatch_inbound-ended :
    (owner : Text) (invite : Message) (handler : Option (List Op)) (k : Cleanup)
    → ((dispatch_inbound owner invite handler k).state ≡ ended)
      ⊎ ((handler ≡ none)
          × (k.net.bye ≡ false)
          × (k.net.failure ≢ none)
          × (dispatch_inbound owner invite handler k ≡ new_call inbound owner invite))
unfolding dispatch_inbound
dispatch_inbound-ended owner invite none k =
    rejected_or_left k.net owner invite (codes "Temporarily Unavailable")
dispatch_inbound-ended owner invite (some handled) k =
    let c = run (new_call inbound owner invite) handled in
    inl (elim (Bool-cases (is_state c.state ended)) [
      | inl over ↦ rw over (is_state→eq c.state over)
      | inr live ↦ rw live (hangup_ends k.hook k.stops k.net c).0
    ])
