-- ===== src/Sip/LegExamples.antt =====
-- An inbound call that its handler leaves, an INVITE that is refused, a short file of samples that
-- is played, and a Session-Expires header.
use smoke_tester.Prelude.{
  ℕ, zero, suc, ◌≡◌, ◌≢◌, ◌⊎◌, refl, true, false, Option, none, some, List, [], ◌∷◌, ◌++◌, arith,
}
use smoke_tester.Prelude.Bytes.{Bytes}
use smoke_tester.Prelude.Itoa.{itoa}
use smoke_tester.Prelude.Result.{ok}
use smoke_tester.Prelude.Text.{codes, ascii, lower, is_space}
use smoke_tester.Recording.Wav.{wrap_wav}
use smoke_tester.Sip.Call.{Call, Net, new_call}
use smoke_tester.Sip.Call.Steps.{Op, op_trying, op_answer}
use smoke_tester.Sip.Inbound.{Cleanup, dispatch_inbound, dispatch_inbound-ended}
use smoke_tester.Sip.Invite.{Defaults, InviteOptions, response, Agent, invite, invite_early_media}
use smoke_tester.Sip.Invite.Release.{Settles, SettlesEarly, invite-Settles}
use smoke_tester.Sip.Message.{Message, msg_recv}
use smoke_tester.Sip.SendWav.{Output, send_wav}
use smoke_tester.Sip.SendWav.Frames.{IsPlayed, send_wav-plays}
use smoke_tester.Sip.SessionExpires.{parse_session_expires}
use smoke_tester.Sip.SessionExpires.RoundTrip.{parse_session_expires-print}
use smoke_tester.Sip.State.{inbound, outbound, answered, ended}

abbrev invite_message : Message
invite_message = record {
  direction = msg_recv;
  method = codes "INVITE";
  status_code = 0;
  reason = [];
  call_id = codes "a1";
  cseq = codes "1 INVITE";
  headers = [];
}

abbrev fine : Net
fine = record { bye = false; failure = none; now = 5 }

abbrev cleanup : Cleanup
cleanup = record { hook = true; stops = true; net = fine }

abbrev handled : Option (List Op)
handled = some (op_trying fine ∷ op_answer (codes "PCMU") fine ∷ [])

dispatch_inbound-ended_example :
    ((dispatch_inbound (codes "TestDial") invite_message handled cleanup).state ≡ ended)
    ⊎ ((handled ≡ none)
        × (cleanup.net.bye ≡ false)
        × (cleanup.net.failure ≢ none)
        × (dispatch_inbound (codes "TestDial") invite_message handled cleanup
            ≡ new_call inbound (codes "TestDial") invite_message))
dispatch_inbound-ended_example =
    dispatch_inbound-ended (codes "TestDial") invite_message handled cleanup

abbrev agent : Agent
agent = record {
  uri_error = λ dest. none;
  dialog_error = λ dest o. none;
  invite_error = λ dest o.
      some (response (record { status_code = 486; reason = codes "Busy Here"; headers = [] }));
  ack_error = λ dest o. none;
  request = λ dest o. invite_message;
  answer = λ dest o. none;
  codec = λ dest o. codes "PCMU";
  bye_before = false;
  bye_after = true;
  now = 5;
}

abbrev defaults : Defaults
defaults = record { transport = []; user = codes "u"; pass = codes "p"; owner = codes "TestDial" }

abbrev options : InviteOptions
options = record {
  transport = [];
  username = [];
  password = [];
  headers = [];
  sdp_mode = codes "sendonly";
}

invite-Settles_example :
    Settles agent.bye_after (invite agent defaults (codes "sip:echo") options)
    × SettlesEarly (invite_early_media agent defaults (codes "sip:echo") options [])
invite-Settles_example = invite-Settles agent defaults (codes "sip:echo") options []

abbrev repeated : ℕ → Bytes
repeated zero = []
repeated (suc n) = 7 ∷ repeated n

abbrev samples : Bytes
samples = repeated 321

abbrev output : Output
output = record { encode = λ b. ok b; write_error = λ n. none; writer_error = none }

abbrev up : Call
up = record (new_call outbound (codes "TestDial") invite_message) {
  state = answered;
  silence = true;
}

send_wav-plays_example :
    (sent : List Bytes) × (send_wav output (ok (wrap_wav samples)) [] up
      ≡ (record up { silence = false }, (sent, none)))
    × IsPlayed (λ b. b) samples sent
send_wav-plays_example =
    send_wav-plays output (λ b. b) (λ f h. refl) (λ n. refl) samples [] up refl (omega arith) refl

parse_session_expires-print_example :
    parse_session_expires ascii (itoa 90 ++ (b';' ∷ (codes "refresher=" ++ codes "UAS")))
    ≡ some (90, lower ascii (codes "UAS"))
unfolding is_space
parse_session_expires-print_example =
    parse_session_expires-print ascii 90 (codes "UAS") (omega arith) (refl, (refl, (refl, tt)))
