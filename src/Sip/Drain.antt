-- ===== src/Sip/Drain.antt =====
-- internal/sip/drain.go: hanging up every call that is still live, within time limits. What the
-- goroutines and timers do is a sequence of events; the slots of the results are independent.
pub mod Bounded
use smoke_tester.Prelude.{
  ℕ, Bool, true, false, ◌||◌, Option, none, some, List, [], ◌∷◌, ◌++◌, map, leb, if◌then◌else◌,
}
use smoke_tester.Prelude.Text.{Text, codes}

-- How Hangup goes: it returns an error or nil, or panics.
pub data HangupOutcome : Type 0 where
  returned : Option Text → HangupOutcome
  panicked : Text → HangupOutcome

-- A call as the drain meets it: whether its channel is closed at the first look, and at the look
-- behind a synchronous Hangup.
pub record Drainable : Type 0 where
  pub call_id : Text
  pub hangup : HangupOutcome
  pub done_before : Bool
  pub done_after : Bool

pub record DrainResult : Type 0 where
  pub call_id : Text
  pub hangup_err : Option Text
  pub ended : Bool

unfoldable pub safe_hangup : HangupOutcome → Option Text
safe_hangup (returned e) = e
safe_hangup (panicked r) = some (codes "hangup panicked: " ++ r)

-- What the `select` receives. The channel of the hangup holds one value, and a closed Done channel
-- is received once, since the variable is then nil.
pub data Event : Type 0 where
  hangup_returned : HangupOutcome → Event
  done_closed timer_fired deadline_passed : Event

-- The `for` loop; `none` means that it still waits when the events are used up.
unfoldable pub drain_loop : List Event → Bool → DrainResult → Option DrainResult
unfolding safe_hangup
drain_loop [] seen res = none
drain_loop (timer_fired ∷ es) seen res = some res
drain_loop (deadline_passed ∷ es) seen res = some res
drain_loop (hangup_returned o ∷ es) seen res =
    let res' : DrainResult = if seen then res else record res { hangup_err = safe_hangup o } in
    let rest = drain_loop es true res' in if res'.ended then some res' else rest
drain_loop (done_closed ∷ es) seen res =
    let res' : DrainResult = record res { ended = true } in
    let rest = drain_loop es seen res' in if seen then some res' else rest

unfoldable pub drain_one : Bool → Drainable → List Event → Option DrainResult
unfolding drain_loop
drain_one no_wait call events =
    let res : DrainResult = record { call_id = call.call_id; hangup_err = none; ended = false } in
    if call.done_before
    then some (record res { hangup_err = safe_hangup call.hangup; ended = true })
    else if no_wait
    then some (record res { hangup_err = safe_hangup call.hangup; ended = call.done_after })
    else drain_loop events false res

-- Each call with its own events; a limit of 0 or less means that nothing waits.
unfoldable pub drain_calls : List (Drainable × List Event) → ℕ → ℕ → List (Option DrainResult)
unfolding drain_one
drain_calls calls per_call total =
    map (λ c. drain_one (leb per_call 0 || leb total 0) c.0 c.1) calls
