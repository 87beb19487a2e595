-- ===== src/Sip/Call/Queries.antt =====
-- What a test asks a call for: the recorded messages, the answer, the state to wait for
-- (internal/sip/call.go).
pub mod Answer
use smoke_tester.Prelude.{
  ℕ, Bool, false, not, ◌&&◌, ◌||◌, Option, none, some, List, [], ◌∷◌, ltb, ◌==◌, if◌then◌else◌,
  select, find, map, reverse,
}
use smoke_tester.Prelude.Text.{Text, codes, text_eq, is_empty, equal_fold, Letters}
use smoke_tester.Sip.Call.{Call}
use smoke_tester.Sip.Message.{Message}
use smoke_tester.Sip.State.{State, ended, is_state, is_inbound, CallError, invalid_state}

unfoldable pub received_by_method : Text → Call → List Message
unfolding select text_eq
received_by_method method c = select (λ m. text_eq m.method method) c.recv

unfoldable pub sent_by_status : ℕ → Call → List Message
unfolding select
sent_by_status status c = select (λ m. m.status_code == status) c.sent

unfoldable pub received_by_status : ℕ → Call → List Message
unfolding select
received_by_status status c = select (λ m. m.status_code == status) c.recv

unfoldable pub methods_received : Call → List Text
unfolding select
methods_received c = map (λ m. m.method) (select (λ m. not (is_empty m.method)) c.recv)

-- The messages among which the answer to the INVITE is.
abbrev pub answers : Call → List Message
answers c = if is_inbound c.direction then c.sent else c.recv

unfoldable pub is_success : Message → Bool
unfolding text_eq
is_success m =
    not (ltb m.status_code 200) && ltb m.status_code 300 && text_eq m.method (codes "INVITE")

unfoldable pub is_ok : Message → Bool
unfolding text_eq
is_ok m = m.status_code == 200 && text_eq m.method (codes "INVITE")

abbrev pub status_of_found : Option Message → ℕ
status_of_found none = 0
status_of_found (some m) = m.status_code

-- The loops walk backwards.
unfoldable pub answered_status : Call → ℕ
unfolding find is_success
answered_status c = status_of_found (find is_success (reverse (answers c)))

unfoldable pub answered_response : Call → Option Message
unfolding find is_ok
answered_response c = find is_ok (reverse (answers c))

unfoldable pub one_of : Letters → List Text → Text → Bool
unfolding equal_fold
one_of u [] method = false
one_of u (x ∷ xs) method = equal_fold u method x || one_of u xs method

-- The match of AwaitReceivedRequest on what was received by now.
unfoldable pub matching_request : Letters → List Text → List Message → Option Message
unfolding find one_of
matching_request u methods recv = find (λ m. m.status_code == 0 && one_of u methods m.method) recv

-- AwaitReceivedRequest on the received messages as they are at the first look and at each tick;
-- `none` means that it waits until the context is done.
unfoldable pub await_received_request : Letters → List Text → List (List Message) → Option Message
unfolding matching_request
await_received_request u methods [] = none
await_received_request u methods (recv ∷ later) =
    let rest = await_received_request u methods later in
    elim (matching_request u methods recv) [ some m ↦ some m | none ↦ rest ]

-- WaitState on the states that it sees, one at each round; `none` means that it waits until the
-- context is done.
unfoldable pub wait_state : State → List State → Option (Option CallError)
wait_state target [] = none
wait_state target (s ∷ later) =
    let rest = wait_state target later in
    if is_state s target
    then some none
    else if is_state s ended && not (is_state target ended)
    then some (some (invalid_state s (target ∷ [])))
    else rest
