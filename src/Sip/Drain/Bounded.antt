-- ===== src/Sip/Drain/Bounded.antt =====
-- The drain ends at its limits and reports what it has seen by then.
use smoke_tester.Prelude.{
  ◌≡◌, refl, Bool, true, false, ◌&&◌, ◌||◌, Option, none, some, List, [], ◌∷◌, ◌++◌, arith,
  if◌then◌else◌, All,
}
use smoke_tester.Prelude.Text.{Text}
use smoke_tester.Sip.Drain.{
  Drainable, DrainResult, Event, hangup_returned, done_closed, timer_fired, deadline_passed,
  safe_hangup, drain_loop, drain_one,
}

abbrev pub IsProgress : Event → Type 0
IsProgress (hangup_returned _) = Unit
IsProgress done_closed = Unit
IsProgress _ = ⊥

abbrev pub IsLimit : Event → Type 0
IsLimit timer_fired = Unit
IsLimit deadline_passed = Unit
IsLimit _ = ⊥

abbrev pub has_done : List Event → Bool
has_done [] = false
has_done (done_closed ∷ es) = true
has_done (_ ∷ es) = has_done es

-- The error of the first hangup that came back, if one did.
abbrev pub first_hangup : List Event → Option Text → Option Text
first_hangup [] e = e
first_hangup (hangup_returned o ∷ es) e = safe_hangup o
first_hangup (_ ∷ es) e = first_hangup es e

abbrev summary : List Event → Bool → DrainResult → DrainResult
summary es seen res = record res {
  hangup_err = if seen then res.hangup_err else first_hangup es res.hangup_err;
  ended = res.ended || has_done es;
}

drain_loop-summary :
    (es : List Event) (limit : Event) (rest : List Event) (seen : Bool) (res : DrainResult)
    → All IsProgress es
    → IsLimit limit
    → seen && res.ended ≡ false
    → drain_loop (es ++ limit ∷ rest) seen res ≡ some (summary es seen res)
unfolding drain_loop
drain_loop-summary [] timer_fired rest seen res p l h = ground arith
drain_loop-summary [] deadline_passed rest seen res p l h = ground arith
drain_loop-summary [] (hangup_returned o) rest seen res p l h = absurd l
drain_loop-summary [] done_closed rest seen res p l h = absurd l
drain_loop-summary (hangup_returned o ∷ es) limit rest true res p l h =
    ground (arith, drain_loop-summary es limit rest true res p.1 l)
drain_loop-summary (hangup_returned o ∷ es) limit rest false res p l h =
    ground (
      arith,
      drain_loop-summary es limit rest true (record res { hangup_err = safe_hangup o }) p.1 l,
    )
drain_loop-summary (done_closed ∷ es) limit rest true res p l h = ground arith
drain_loop-summary (done_closed ∷ es) limit rest false res p l h =
    ground (arith, drain_loop-summary es limit rest false (record res { ended = true }) p.1 l)
drain_loop-summary (timer_fired ∷ es) limit rest seen res p l h = absurd p.0
drain_loop-summary (deadline_passed ∷ es) limit rest seen res p l h = absurd p.0

-- A drain of a live call returns at the first limit at the latest. It reports the call as ended
-- exactly if its channel was closed before that, and the error of the hangup if that was back (a
-- panic as an error), else none.
pub drain_one_bounded :
    (call : Drainable) (es : List Event) (limit : Event) (rest : List Event)
    → call.done_before ≡ false
    → All IsProgress es
    → IsLimit limit
    → drain_one false call (es ++ limit ∷ rest)
      ≡ some (record {
        call_id = call.call_id;
        hangup_err = first_hangup es none;
        ended = has_done es;
      })
unfolding drain_one
drain_one_bounded call es limit rest live p l =
    rw live (drain_loop-summary es limit rest false _ p l refl)
