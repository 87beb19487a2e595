-- ===== src/Sip/Examples.antt =====
-- The stack at concrete calls, requests and files.
use smoke_tester.Prelude.{
  ◌≤◌, ◌≡◌, ◌≢◌, inr, refl, true, false, Option, none, some, List, [], ◌∷◌, ◌++◌, arith, length,
}
use smoke_tester.Prelude.Bytes.{Bytes, be16}
use smoke_tester.Prelude.Text.{Text, codes, ascii, to_lower, lower, trim_suffix, text_eq}
use smoke_tester.Prelude.Dict.{Dict, lookup}
use smoke_tester.Prelude.Result.{ok, err}
use smoke_tester.Recording.Wav.{wrap_wav}
use smoke_tester.Sip.Call.{Call, Net, new_call, answer, remote_bye}
use smoke_tester.Sip.Call.Archiving.{archived_once, all_starts}
use smoke_tester.Sip.Call.Invariant.{IsWellFormed, run-IsWellFormed, first_end_wins}
use smoke_tester.Sip.Call.Media.{opened}
use smoke_tester.Sip.Call.Moves.{control}
use smoke_tester.Sip.Call.Order.{rank, run-rank}
use smoke_tester.Sip.Call.Race.{answer_revives}
use smoke_tester.Sip.Call.Steps.{
  Op, op_trying, op_answer, op_hangup, op_silence, op_start_recording, op_stop_recording,
  dialog_ended, async_stop, run,
}
use smoke_tester.Sip.Drain.{
  Drainable, hangup_returned, done_closed, timer_fired, panicked, drain_one, safe_hangup,
}
use smoke_tester.Sip.Drain.Bounded.{drain_one_bounded}
use smoke_tester.Sip.Message.{Message, msg_recv}
use smoke_tester.Sip.Resolver.{Ip, parse_question, handle, a_record}
use smoke_tester.Sip.Resolver.Answers.{
  question_bytes, parse_question-question_bytes, request, handle-a_query,
}
use smoke_tester.Sip.State.{inbound, answered, ended}
use smoke_tester.Sip.Wav.{read_telephony_wav, out_of_fuel}
use smoke_tester.Sip.Wav.Loop.{read_telephony_wav-ne-out_of_fuel}
use smoke_tester.Sip.Wav.RoundTrip.{read_telephony_wav-wrap_wav}

abbrev invite : Message
invite = record {
  direction = msg_recv;
  method = codes "INVITE";
  status_code = 0;
  reason = [];
  call_id = codes "a1";
  cseq = codes "1 INVITE";
  headers = [];
}

abbrev incoming : Call
incoming = new_call inbound (codes "TestDial") invite

abbrev fine : Net
fine = record { bye = false; failure = none; now = 5 }

abbrev overtaken : Net
overtaken = record { bye = true; failure = none; now = 5 }

abbrev ops : List Op
ops =
    op_trying fine
    ∷ op_answer (codes "PCMU") fine
    ∷ op_silence none
    ∷ op_hangup true true fine
    ∷ dialog_ended 9
    ∷ async_stop true true
    ∷ []

run-IsWellFormed_example :
    IsWellFormed (control (run (new_call inbound (codes "TestDial") invite) ops))
run-IsWellFormed_example = run-IsWellFormed inbound (codes "TestDial") invite ops

abbrev recorded_ops : List Op
recorded_ops =
    op_answer (codes "PCMU") fine
    ∷ op_start_recording (codes "a.pcm") (opened (codes "x"))
    ∷ op_stop_recording true
    ∷ async_stop true true
    ∷ op_hangup true true fine
    ∷ []

archived_once_example :
    length (run (new_call inbound (codes "TestDial") invite) recorded_ops).archives
    ≤ all_starts recorded_ops
archived_once_example = archived_once inbound (codes "TestDial") invite recorded_ops

abbrev over : Call
over = record incoming {
  state = ended;
  ended_at = some 7;
  end_reason = remote_bye;
  done_closes = 1;
}

first_end_wins_example :
    ((run over ops).ended_at ≡ some 7)
    × ((run over ops).end_reason ≡ remote_bye)
    × ((run over ops).done_closes ≡ 1)
first_end_wins_example = first_end_wins over ops 7 refl

run-rank_example : rank incoming.state ≤ rank (run incoming ops).state
run-rank_example = run-rank incoming ops (refl, (refl, (tt, (tt, (tt, (tt, tt))))))

answer_revives_example :
    ((answer (codes "PCMU") overtaken incoming).1 ≡ none)
    × ((answer (codes "PCMU") overtaken incoming).0.state ≡ answered)
    × ((answer (codes "PCMU") overtaken incoming).0.done_closes ≡ 1)
    × ((answer (codes "PCMU") overtaken incoming).0.registered ≡ false)
unfolding new_call
answer_revives_example =
    answer_revives incoming (codes "PCMU") overtaken
      (record { closed_once = refl; in_registry = refl; live_state = refl; live_reason = inr refl })
      refl refl refl refl

abbrev leg : Drainable
leg = record {
  call_id = codes "a1";
  hangup = panicked (codes "nil dialog");
  done_before = false;
  done_after = false;
}

drain_one_bounded_example :
    drain_one false leg
      ((hangup_returned (panicked (codes "nil")) ∷ []) ++ timer_fired ∷ done_closed ∷ [])
    ≡ some (record {
      call_id = codes "a1";
      hangup_err = some (codes "hangup panicked: nil");
      ended = false;
    })
unfolding safe_hangup
drain_one_bounded_example =
    drain_one_bounded leg (hangup_returned (panicked (codes "nil")) ∷ []) timer_fired
      (done_closed ∷ []) refl (tt, tt) tt

abbrev host : List Bytes
host = codes "A" ∷ codes "test" ∷ []

abbrev hosts : Dict (Option Bytes)
hosts = (codes "a.test", some (10 ∷ 0 ∷ 0 ∷ 1 ∷ [])) ∷ []

abbrev no_system : Text → Option (List Ip)
no_system _ = none

parse_question-question_bytes_example :
    parse_question ((1 ∷ 2 ∷ []) ++ (question_bytes host 1 1 ++ 7 ∷ [])) 2
    ≡ record { name = codes "A.test."; qtype = 1; end = 14 }
parse_question-question_bytes_example =
    parse_question-question_bytes (1 ∷ 2 ∷ []) host 1 1 (7 ∷ []) (omega arith, (omega arith, tt))
      (omega arith)

handle-a_query_example :
    handle (lower ascii) hosts no_system (request 513 256 0 0 0 (question_bytes host 1 1 ++ []))
    ≡ some (
        be16 513
        ++ (0x81 ∷ 0x80 ∷ 0 ∷ 1 ∷ 0 ∷ 1 ∷ 0 ∷ 0 ∷ 0 ∷ 0 ∷ question_bytes host 1 1)
        ++ a_record (10 ∷ 0 ∷ 0 ∷ 1 ∷ []))
unfolding lookup to_lower lower trim_suffix text_eq
handle-a_query_example =
    handle-a_query (lower ascii) hosts no_system 513 256 0 0 0 1 (codes "A") (codes "test" ∷ []) []
      (omega arith) (omega arith, (omega arith, tt)) (10 ∷ 0 ∷ 0 ∷ 1 ∷ []) refl

abbrev pcm : Bytes
pcm = 1 ∷ 2 ∷ 3 ∷ 4 ∷ []

read_telephony_wav-wrap_wav_example : read_telephony_wav (wrap_wav pcm) (9 ∷ 9 ∷ []) ≡ ok pcm
read_telephony_wav-wrap_wav_example = read_telephony_wav-wrap_wav pcm (9 ∷ 9 ∷ []) (omega arith)

read_telephony_wav-ne-out_of_fuel_example : read_telephony_wav (wrap_wav pcm) [] ≢ err out_of_fuel
read_telephony_wav-ne-out_of_fuel_example = read_telephony_wav-ne-out_of_fuel (wrap_wav pcm) []
