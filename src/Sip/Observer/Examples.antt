-- ===== src/Sip/Observer/Examples.antt =====
-- An inbound call that is re-invited and ends, beside a request that belongs to no call.
use smoke_tester.Prelude.{refl, List, [], ◌∷◌, ℕ, All}
use smoke_tester.Prelude.Text.{Text, codes}
use smoke_tester.Sip.Message.{Message, MessageDirection, msg_sent, msg_recv}
use smoke_tester.Sip.Observer.{Event, opens, requested, responded, ends, observe_all}
use smoke_tester.Sip.Observer.Routing.{IsOwn, observed-IsOwn}
use smoke_tester.Sip.State.{inbound}

abbrev message : MessageDirection → Text → ℕ → Message
message direction call_id status = record {
  direction = direction;
  method = codes "INVITE";
  status_code = status;
  reason = [];
  call_id = call_id;
  cseq = codes "2 INVITE";
  headers = [];
}

abbrev a1 : Text
a1 = codes "a1"

abbrev events : List Event
events =
    opens inbound (codes "TestDial") (message msg_recv a1 0)
    ∷ responded a1 (message msg_sent a1 200)
    ∷ requested (message msg_recv (codes "b2") 0)
    ∷ requested (message msg_recv a1 0)
    ∷ ends 0 7
    ∷ responded a1 (message msg_sent a1 200)
    ∷ []

observed-IsOwn_example : All IsOwn (observe_all events (record { calls = []; registry = [] })).calls
observed-IsOwn_example = observed-IsOwn events (tt, (refl, (tt, (tt, (tt, (refl, tt))))))
