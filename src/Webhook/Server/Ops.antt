-- ===== src/Webhook/Server/Ops.antt =====
-- The steps that change the registry: the hooks, and the calls that a test makes.
use smoke_tester.Prelude.{ℕ, List, [], ◌∷◌}
use smoke_tester.Prelude.Text.{Text}
use smoke_tester.Webhook.Callback.{Callback}
use smoke_tester.Webhook.Correlation.{Request}
use smoke_tester.Webhook.Json.{Json}
use smoke_tester.Prelude.{Option}
use smoke_tester.Prelude.Bytes.{Bytes}
use smoke_tester.Webhook.Registry.{
  Registry, Session, new_session, release, update, script_call_hook, script_action_hook,
  script_action_hook_body, script_action_hook_body_func, wait_callback, wait_callback_for,
}
use smoke_tester.Webhook.Server.{Codec, handle_call_hook, handle_status_hook, handle_action_hook}

-- What a test does with its session.
pub data TestOp : Type 0 where
  scripts_call : Option (List Json) → TestOp
  scripts_action : Text → Option (List Json) → TestOp
  scripts_body : Text → Bytes → TestOp
  scripts_func : Text → (Callback → Bytes) → TestOp
  waits : TestOp
  waits_for : Text → TestOp

unfoldable pub test_step : TestOp → Session → Session
unfolding script_call_hook script_action_hook script_action_hook_body script_action_hook_body_func
    wait_callback wait_callback_for
test_step (scripts_call verbs) s = script_call_hook verbs s
test_step (scripts_action verb verbs) s = script_action_hook verb verbs s
test_step (scripts_body verb body) s = script_action_hook_body verb body s
test_step (scripts_func verb fn) s = script_action_hook_body_func verb fn s
test_step waits s = (wait_callback s).1
test_step (waits_for hook) s = (wait_callback_for hook s).1

pub data Op : Type 0 where
  new_op release_op : Text → Op
  at_session : ℕ → TestOp → Op
  call_hook status_hook action_hook : Request → Op

unfoldable pub step : Codec → Op → Registry → Registry
unfolding new_session release update test_step handle_call_hook handle_status_hook
    handle_action_hook
step codec (new_op t) r = (new_session t r).0
step codec (release_op t) r = release t r
step codec (at_session p o) r = update p (test_step o) r
step codec (call_hook q) r = (handle_call_hook codec q r).0
step codec (status_hook q) r = (handle_status_hook codec q r).0
step codec (action_hook q) r = (handle_action_hook codec q r).0

unfoldable pub run : Codec → List Op → Registry → Registry
unfolding step
run codec [] r = r
run codec (o ∷ os) r = run codec os (step codec o r)
