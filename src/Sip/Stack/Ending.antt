-- ===== src/Sip/Stack/Ending.antt =====
-- What Stop does, and that it does it once.
use smoke_tester.Prelude.{◌≡◌, refl, ap, ◌∙◌, true, false, Option, List, [], ◌∷◌, ◌++◌, arith}
use smoke_tester.Sip.Drain.{Drainable, Event, drain_calls}
use smoke_tester.Sip.Stack.{
  Stack, track, live_calls, stop, drain_effect, drained, unregistered, serve_cancelled, ua_closed,
}

pub data StackOp : Type 0 where
  tracks : Option (Drainable × List Event) → StackOp
  stops : StackOp

unfoldable pub run : List StackOp → Stack → Stack
run [] s = s
run (tracks c ∷ os) s = run os (track c s)
run (stops ∷ os) s = run os (stop s)

run-stopped : (os : List StackOp) (s : Stack) → s.stopped ≡ true → (run os s).effects ≡ s.effects
unfolding run track stop
run-stopped [] s h = refl
run-stopped (tracks Option.none ∷ os) s h = run-stopped os s h
run-stopped (tracks (Option.some c) ∷ os) s h =
    run-stopped os (record s { calls = s.calls ++ c ∷ [] }) h
run-stopped (stops ∷ os) s h =
    let e : stop s ≡ s = ground (arith, h) in
    ap (λ (t : Stack). (run os t).effects) e ∙ run-stopped os s h

-- The first Stop of a registered stack with live calls drains these calls, then de-registers, and
-- only then cancels the serve loop and closes the user agent; whatever is tracked or stopped
-- later, nothing more is done.
stop-effects :
    (s : Stack) (os : List StackOp) (c : Drainable × List Event)
    (cs : List (Drainable × List Event))
    → s.stopped ≡ false
    → live_calls s ≡ c ∷ cs
    → s.registers ≡ true
    → s.has_ua ≡ true
    → (run os (stop s)).effects
      ≡ s.effects
        ++ drained (drain_calls (c ∷ cs) 5 10) ∷ unregistered ∷ serve_cancelled ∷ ua_closed ∷ []
unfolding stop drain_effect
stop-effects s os c cs fresh live reg ua =
    let stopped : (stop s).stopped ≡ true = ground (arith, fresh) in
    run-stopped os (stop s) stopped ∙ rw (fresh, live, reg, ua) refl
