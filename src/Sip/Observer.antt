-- ===== src/Sip/Observer.antt =====
-- internal/sip/observer.go: the registry of calls by Call-ID and the recording of what comes in for
-- them. A *Call is its position in `calls`.
pub mod Routing
mod Examples
use smoke_tester.Prelude.{
  ℕ, zero, suc, ◌&&◌, not, Option, none, some, List, [], ◌∷◌, ◌++◌, if◌then◌else◌, length,
  get_elem?,
}
use smoke_tester.Prelude.Dict.{Dict, lookup, insert, delete}
use smoke_tester.Prelude.Text.{Text, is_empty}
use smoke_tester.Sip.Call.{Call, new_call, set_state, remote_bye, is_none}
use smoke_tester.Sip.Message.{Message}
use smoke_tester.Sip.State.{Direction, ended, is_state}

-- A call with the result of its CallID().
pub record Dialog : Type 0 where
  pub call_id : Text
  pub call : Call

pub record Wire : Type 0 where
  pub calls : List Dialog
  pub registry : Dict ℕ

unfoldable pub register : Text → ℕ → Dict ℕ → Dict ℕ
unfolding insert
register call_id c m = if is_empty call_id then m else insert call_id c m

unfoldable pub unregister : Text → Dict ℕ → Dict ℕ
unfolding delete
unregister call_id m = if is_empty call_id then m else delete call_id m

-- A method of the call at a position.
unfoldable pub amend : (Call → Call) → List Dialog → ℕ → List Dialog
amend f [] p = []
amend f (d ∷ ds) zero = record d { call = f d.call } ∷ ds
amend f (d ∷ ds) (suc p) = d ∷ amend f ds p

-- newInboundCall and newOutboundCall, with the registration.
unfoldable pub open_call : Direction → Text → Message → Wire → Wire
unfolding register
open_call direction owner invite w = record {
  calls =
      w.calls ++ record { call_id = invite.call_id; call = new_call direction owner invite } ∷ [];
  registry = register invite.call_id (length w.calls) w.registry;
}

abbrev pub record_received : Message → Call → Call
record_received m c = record c { recv = c.recv ++ m ∷ [] }

abbrev pub record_sent : Message → Call → Call
record_sent m c = record c { sent = c.sent ++ m ∷ [] }

-- A method of the call that the registry has found, if any.
unfoldable pub on_found : (Call → Call) → Wire → Option ℕ → Wire
unfolding amend
on_found f w none = w
on_found f w (some p) = record w { calls = amend f w.calls p }

-- observeRequestMiddleware, before it calls the handler.
unfoldable pub observe_request : Message → Wire → Wire
unfolding lookup on_found
observe_request req w = on_found (record_received req) w (lookup req.call_id w.registry)

-- observedTx.Respond, on the transaction of a request with the given Call-ID.
unfoldable pub respond : Text → Message → Wire → Wire
unfolding lookup on_found
respond call_id res w = on_found (record_sent res) w (lookup call_id w.registry)

-- The end of the dialog: setState(StateEnded, "remote-bye").
unfoldable pub dialog_over : ℕ → Wire → Option Dialog → ℕ → Wire
unfolding amend unregister set_state
dialog_over p w none now = w
dialog_over p w (some d) now = record {
  calls = amend (set_state ended remote_bye now) w.calls p;
  registry =
      if not (is_state d.call.state ended) && is_none d.call.ended_at
      then unregister d.call_id w.registry
      else w.registry;
}

unfoldable pub end_dialog : ℕ → ℕ → Wire → Wire
unfolding dialog_over
end_dialog p now w = dialog_over p w (get_elem? w.calls p) now

pub data Event : Type 0 where
  opens : Direction → Text → Message → Event
  requested : Message → Event
  responded : Text → Message → Event
  ends : ℕ → ℕ → Event

unfoldable pub observe : Event → Wire → Wire
unfolding open_call observe_request respond end_dialog
observe (opens direction owner invite) w = open_call direction owner invite w
observe (requested req) w = observe_request req w
observe (responded call_id res) w = respond call_id res w
observe (ends p now) w = end_dialog p now w

abbrev pub observe_all : List Event → Wire → Wire
observe_all [] w = w
observe_all (e ∷ es) w = observe_all es (observe e w)
