-- ===== src/Webhook/Registry.antt =====
-- internal/webhook/registry.go: the sessions of the tests. A *Session is its position in `heap`, so
-- that a test keeps its session when the registry has forgotten it. Each method runs under its
-- mutex.
pub mod Queue
use smoke_tester.Prelude.{
  ℕ, ◌||◌, Option, none, some, List, [], ◌∷◌, ◌++◌, ltb, if◌then◌else◌, length, get_elem?, set,
}
use smoke_tester.Prelude.Bytes.{Bytes}
use smoke_tester.Prelude.Dict.{Dict, lookup, insert, delete}
use smoke_tester.Prelude.Text.{Text, codes, text_eq, is_empty}
use smoke_tester.Webhook.Callback.{Callback, HookOutcome}
use smoke_tester.Webhook.Json.{Json, object, text, field, no_fields}

-- Session, without its web sockets. `pending` is the channel, its oldest callback first.
pub record Session : Type 0 where
  pub id : Text
  pub call_hook : Option HookOutcome
  pub action_hooks : Dict HookOutcome
  pub pending : List Callback
  pub errs : List Text

pub record Registry : Type 0 where
  pub heap : List Session
  pub sessions : Dict ℕ
  pub call_sid_index : Dict Text

unfoldable pub new_registry : Registry
new_registry = record { heap = []; sessions = []; call_sid_index = [] }

abbrev pub anon : Text
anon = codes "_anon"

unfoldable pub bind_call_sid : Text → Text → Registry → Registry
unfolding insert text_eq
bind_call_sid call_sid test_id r =
    if is_empty call_sid || is_empty test_id || text_eq test_id anon
    then r
    else record r { call_sid_index = insert call_sid test_id r.call_sid_index }

unfoldable pub session_of_test : Registry → Option Text → Option ℕ
session_of_test r none = none
session_of_test r (some test_id) = lookup test_id r.sessions

unfoldable pub lookup_by_call_sid : Text → Registry → Option ℕ
unfolding session_of_test lookup
lookup_by_call_sid call_sid r =
    if is_empty call_sid then none else session_of_test r (lookup call_sid r.call_sid_index)

abbrev pub fresh_session : Text → Session
fresh_session test_id = record {
  id = test_id;
  call_hook = none;
  action_hooks = [];
  pending = [];
  errs = [];
}

-- New, behind the look into the map.
unfoldable pub allocated : Option ℕ → Text → Registry → Registry × ℕ
allocated (some p) test_id r = (r, p)
allocated none test_id r = (
  record r {
    heap = r.heap ++ fresh_session test_id ∷ [];
    sessions = insert test_id (length r.heap) r.sessions;
  },
  length r.heap,
)

unfoldable pub new_session : Text → Registry → Registry × ℕ
unfolding allocated lookup insert
new_session test_id r = allocated (lookup test_id r.sessions) test_id r

unfoldable pub release : Text → Registry → Registry
unfolding delete
release test_id r = record r { sessions = delete test_id r.sessions }

-- The methods of a session.

abbrev pub outcome : ℕ → Option (List Json) → Bytes → Option (Callback → Bytes) → HookOutcome
outcome status verbs body body_func = record {
  status = status;
  verbs = verbs;
  body = body;
  body_func = body_func;
}

unfoldable pub script_call_hook : Option (List Json) → Session → Session
script_call_hook verbs s = record s { call_hook = some (outcome 0 verbs [] none) }

unfoldable pub script_action_hook : Text → Option (List Json) → Session → Session
unfolding insert
script_action_hook verb verbs s = record s {
  action_hooks = insert verb (outcome 0 verbs [] none) s.action_hooks;
}

unfoldable pub script_action_hook_body : Text → Bytes → Session → Session
unfolding insert
script_action_hook_body verb body s = record s {
  action_hooks = insert verb (outcome 200 none body none) s.action_hooks;
}

unfoldable pub script_action_hook_body_func : Text → (Callback → Bytes) → Session → Session
unfolding insert
script_action_hook_body_func verb fn s = record s {
  action_hooks = insert verb (outcome 200 none [] (some fn)) s.action_hooks;
}

abbrev pub hangup_verb : Json
hangup_verb = object (field (codes "verb") (text (codes "hangup")) no_fields)

unfoldable pub outcome_for_call_hook : Session → HookOutcome
outcome_for_call_hook s = elim s.call_hook [
  | none ↦ outcome 0 (some (hangup_verb ∷ [])) [] none
  | some o ↦ o
]

unfoldable pub outcome_for_action_hook : Text → Session → HookOutcome
unfolding lookup
outcome_for_action_hook verb s = elim (lookup verb s.action_hooks) [
  | none ↦ outcome 200 none (codes "[]") none
  | some o ↦ o
]

-- The capacity of `pending`.
abbrev pub capacity : ℕ
capacity = 32

-- `record`.
unfoldable pub record_callback : Callback → Session → Session
record_callback cb s =
    if ltb (length s.pending) capacity
    then record s { pending = s.pending ++ cb ∷ [] }
    else record s { errs = s.errs ++ (codes "callback queue full, dropped " ++ cb.hook) ∷ [] }

unfoldable pub received : List Callback → Session → Option Callback × Session
received [] s = (none, s)
received (cb ∷ more) s = (some cb, record s { pending = more })

-- WaitCallback; `none` means that it waits until the context is done.
unfoldable pub wait_callback : Session → Option Callback × Session
unfolding received
wait_callback s = received s.pending s

-- The loop of WaitCallbackFor: the callbacks before the first of the hook are dropped.
unfoldable pub skip_to : Text → List Callback → Option Callback × List Callback
unfolding text_eq
skip_to hook [] = (none, [])
skip_to hook (cb ∷ more) =
    let rest = skip_to hook more in if text_eq cb.hook hook then (some cb, more) else rest

unfoldable pub wait_callback_for : Text → Session → Option Callback × Session
unfolding skip_to
wait_callback_for hook s = let r = skip_to hook s.pending in (r.0, record s { pending = r.1 })

-- A method of the session at `p`.
unfoldable pub set_at : List Session → ℕ → (Session → Session) → Option Session → List Session
set_at heap p f none = heap
set_at heap p f (some s) = set heap p (f s)

unfoldable pub update : ℕ → (Session → Session) → Registry → Registry
unfolding set_at
update p f r = record r { heap = set_at r.heap p f (get_elem? r.heap p) }
