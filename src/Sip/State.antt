-- ===== src/Sip/State.antt =====
-- internal/sip/state.go: the states and the direction of a call leg, and what its operations refuse.
use smoke_tester.Prelude.{ℕ, Bool, true, false, List}
use smoke_tester.Prelude.Text.{Text}

pub data State : Type 0 where
  init trying ringing answered ended : State

pub State-discrete : Discrete State
State-discrete = hlevel

pub data Direction : Type 0 where
  inbound outbound : Direction

-- `s == t` on states and on directions.
abbrev pub is_state : State → State → Bool
is_state init init = true
is_state trying trying = true
is_state ringing ringing = true
is_state answered answered = true
is_state ended ended = true
is_state _ _ = false

abbrev pub is_inbound : Direction → Bool
is_inbound inbound = true
is_inbound outbound = false

-- The errors of the methods on a call, without the name of the method that the texts begin with.
-- `invalid_state` is ErrInvalidState, `library` wraps an error of the SIP library.
pub data CallError : Type 0 where
  inbound_only outbound_only : CallError
  invalid_state : State → List State → CallError
  not_a_failure : ℕ → CallError
  library : Text → CallError
  already_recording no_contact no_sdp : CallError
  rejected_by_peer : ℕ → CallError
