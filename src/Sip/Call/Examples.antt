-- ===== src/Sip/Call/Examples.antt =====
-- A re-INVITE that is accepted, and the answer of a call that was re-invited.
use smoke_tester.Prelude.{true, false, none, some, [], ◌∷◌, ℕ}
use smoke_tester.Prelude.Text.{Text, codes}
use smoke_tester.Sip.Call.{Call, new_call}
use smoke_tester.Sip.Call.Reinvite.{Reinvite, send_reinvite, send_reinvite_with_sdp}
use smoke_tester.Sip.Call.Reinvite.Acks.{Records, reinvite-acks}
use smoke_tester.Sip.Message.{Message, MessageDirection, msg_sent, msg_recv}
use smoke_tester.Sip.State.{outbound, answered}

abbrev message : MessageDirection → Text → ℕ → Message
message d method status = record {
  direction = d;
  method = method;
  status_code = status;
  reason = [];
  call_id = codes "a1";
  cseq = codes "1 INVITE";
  headers = [];
}

abbrev invite : Message
invite = message msg_sent (codes "INVITE") 0

abbrev accepted : Message
accepted = message msg_recv (codes "INVITE") 200

abbrev ringing : Message
ringing = message msg_recv (codes "INVITE") 180

abbrev up : Call
up = record (new_call outbound (codes "TestDial") invite) {
  state = answered;
  recv = ringing ∷ accepted ∷ message msg_recv (codes "BYE") 0 ∷ [];
}

abbrev refresh : Reinvite
refresh = record {
  exchange = record {
    net = record { bye = false; failure = none; now = 7 };
    contact = true;
    request = invite;
    response = some accepted;
  };
  sdp = true;
  ack = message msg_sent (codes "ACK") 0;
  ack_failure = none;
}

reinvite-acks_example :
    Records refresh up (send_reinvite refresh up).0
    × Records refresh up (send_reinvite_with_sdp refresh up).0
reinvite-acks_example = reinvite-acks refresh up
