-- ===== src/Sip/Stack.antt =====
-- The life of a stack, of internal/sip/uas.go: its calls, its registration and its end. The SIP
-- library's calls are arguments: how each attempt to register goes, and the de-registration.
pub mod Registration
pub mod Ending
use smoke_tester.Prelude.{
  ℕ, zero, suc, ◌+◌, Bool, true, false, not, Option, none, some, List, [], ◌∷◌, ◌++◌, select,
  if◌then◌else◌,
}
use smoke_tester.Prelude.Text.{Text}
use smoke_tester.Sip.Drain.{Drainable, DrainResult, Event, drain_calls}

-- registerOnce: success, a final answer of the registrar that is none, or another failure.
pub data Attempt : Type 0 where
  registered : Attempt
  rejected failed : Text → Attempt

abbrev pub register_attempts : ℕ
register_attempts = 3

-- The loop, with the attempts left, the number of this one and the error so far. `cancelled` says
-- whether the context is done behind an attempt.
unfoldable pub register_from : (ℕ → Attempt) → (ℕ → Bool) → ℕ → ℕ → Option Text → Option Text
register_from once cancelled zero attempt last = last
register_from once cancelled (suc left) attempt last = elim (once attempt) [
  | registered ↦ none
  | rejected e ↦ some e
  | failed e ↦ elim (cancelled attempt) [
    | true ↦ some e
    | false ↦ register_from once cancelled left (attempt + 1) (some e)
  ]
]

unfoldable pub register : (ℕ → Attempt) → (ℕ → Bool) → Option Text
unfolding register_from
register once cancelled = register_from once cancelled register_attempts 1 none

-- What Stop does, in its order.
pub data Effect : Type 0 where
  drained : List (Option DrainResult) → Effect
  unregistered : Effect
  serve_cancelled : Effect
  ua_closed : Effect

-- Stack, with each call as the drain would meet it, and what was done at its end so far.
pub record Stack : Type 0 where
  pub calls : List (Drainable × List Event)
  pub registers : Bool  -- regTx is not nil
  pub has_ua : Bool
  pub stopped : Bool  -- stopOnce was used
  pub effects : List Effect

unfoldable pub track : Option (Drainable × List Event) → Stack → Stack
track none s = s
track (some c) s = record s { calls = s.calls ++ c ∷ [] }

unfoldable pub live_calls : Stack → List (Drainable × List Event)
unfolding select
live_calls s = select (λ c. not c.0.done_before) s.calls

drain_effect : List (Drainable × List Event) → List Effect
unfolding drain_calls
drain_effect [] = []
drain_effect (c ∷ cs) = drained (drain_calls (c ∷ cs) 5 10) ∷ []

-- Stop; the limits of the drain are 5 and 10 seconds. An error of the de-registration is logged.
unfoldable pub stop : Stack → Stack
unfolding live_calls drain_effect
stop s = if s.stopped then s else record s {
  stopped = true;
  effects =
      s.effects
      ++ (drain_effect (live_calls s)
          ++ ((if s.registers then unregistered ∷ [] else [])
              ++ (serve_cancelled ∷ (if s.has_ua then ua_closed ∷ [] else []))));
}
