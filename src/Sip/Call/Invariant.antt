-- ===== src/Sip/Call/Invariant.antt =====
-- What holds of a call between two operations: the end of a call is announced exactly once.
use smoke_tester.Prelude.{
  ℕ, ◌≡◌, refl, sym, subst, inr, ◌⊎◌, ◌&&◌, false, some, List, [], ◌∷◌, arith, if◌then◌else◌,
}
use smoke_tester.Prelude.Text.{Text}
use smoke_tester.Sip.Call.{Call, EndReason, no_reason, set_state, is_none, new_call}
use smoke_tester.Sip.Call.Moves.{Control, control, ◌⟶◌, here, sets, quiet, step-⟶}
use smoke_tester.Sip.Call.Steps.{Op, step, run}
use smoke_tester.Sip.Message.{Message}
use smoke_tester.Sip.State.{State, Direction, ended, is_state}

-- doneCh is closed exactly if the call has an end, the registry then has forgotten the call, and a
-- call without an end is in no final state and has no reason.
pub record IsWellFormed (c : Control) : Type 0 where
  pub closed_once : c.done_closes ≡ (if is_none c.ended_at then 0 else 1)
  pub in_registry : c.registered ≡ is_none c.ended_at
  pub live_state : is_none c.ended_at && is_state c.state ended ≡ false
  pub live_reason : (is_none c.ended_at ≡ false) ⊎ (c.end_reason ≡ no_reason)

set_state-IsWellFormed :
    (s : State) (r : EndReason) (now : ℕ) (c : Call)
    → IsWellFormed (control c)
    → IsWellFormed (control (set_state s r now c))
unfolding set_state
set_state-IsWellFormed s r now c h = ground arith

⟶-IsWellFormed : {c d : Call} → c ⟶ d → IsWellFormed (control c) → IsWellFormed (control d)
⟶-IsWellFormed here h = h
⟶-IsWellFormed (sets s r now m) h = set_state-IsWellFormed s r now _ (⟶-IsWellFormed m h)
⟶-IsWellFormed (quiet m e) h = subst IsWellFormed (sym e) (⟶-IsWellFormed m h)

run_from-IsWellFormed :
    (c : Call) (os : List Op) → IsWellFormed (control c) → IsWellFormed (control (run c os))
unfolding run
run_from-IsWellFormed c [] h = h
run_from-IsWellFormed c (o ∷ os) h =
    run_from-IsWellFormed (step c o).0 os (⟶-IsWellFormed (step-⟶ c o) h)

-- A call, new in either direction, stays well formed under any sequence of its operations, also
-- when the peer ends the dialog while one of them runs: doneCh is never closed twice.
pub run-IsWellFormed :
    (d : Direction) (owner : Text) (invite : Message) (os : List Op)
    → IsWellFormed (control (run (new_call d owner invite) os))
unfolding new_call
run-IsWellFormed d owner invite os =
    run_from-IsWellFormed (new_call d owner invite) os
      (record { closed_once = refl; in_registry = refl; live_state = refl; live_reason = inr refl })

-- The end as it was first seen.
pub record EndedAs (t : ℕ) (r : EndReason) (n : ℕ) (c : Control) : Type 0 where
  pub at : c.ended_at ≡ some t
  pub why : c.end_reason ≡ r
  pub closes : c.done_closes ≡ n

set_state-EndedAs :
    (t : ℕ) (r : EndReason) (n : ℕ) (s : State) (why : EndReason) (now : ℕ) (c : Call)
    → EndedAs t r n (control c)
    → EndedAs t r n (control (set_state s why now c))
unfolding set_state
set_state-EndedAs t r n s why now c h = ground arith

module _ {t : ℕ} {r : EndReason} {n : ℕ} where
  ⟶-EndedAs : {c d : Call} → c ⟶ d → EndedAs t r n (control c) → EndedAs t r n (control d)
  ⟶-EndedAs here h = h
  ⟶-EndedAs (sets s why now m) h = set_state-EndedAs t r n s why now _ (⟶-EndedAs m h)
  ⟶-EndedAs (quiet m e) h = subst (EndedAs t r n) (sym e) (⟶-EndedAs m h)

  run-EndedAs :
      (c : Call) (os : List Op) → EndedAs t r n (control c) → EndedAs t r n (control (run c os))
  unfolding run
  run-EndedAs c [] h = h
  run-EndedAs c (o ∷ os) h = run-EndedAs (step c o).0 os (⟶-EndedAs (step-⟶ c o) h)

-- The first end of a call wins: its time and its reason stay, and doneCh is not closed again,
-- whatever operations follow.
pub first_end_wins :
    (c : Call) (os : List Op) (t : ℕ)
    → c.ended_at ≡ some t
    → let d = run c os in
      (d.ended_at ≡ some t) × (d.end_reason ≡ c.end_reason) × (d.done_closes ≡ c.done_closes)
first_end_wins c os t e =
    let h = run-EndedAs c os (record { at = e; why = refl; closes = refl }) in
    (h.at, h.why, h.closes)
