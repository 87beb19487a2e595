-- ===== src/Sip/Dtmf/Examples.antt =====
-- The digits "11#" as events of 250 ms.
use smoke_tester.Prelude.{◌*◌, ◌≡◌, true, none, map, arith}
use smoke_tester.Prelude.Text.{codes}
use smoke_tester.Sip.Dtmf.{send_dtmf_with_duration, dtmf_event_code, millisecond}
use smoke_tester.Sip.Dtmf.Heard.{heard, canonical, heard-send_dtmf}
use smoke_tester.Sip.State.{answered}

heard-send_dtmf_example :
    ((send_dtmf_with_duration answered true (λ _. none) (codes "11d") (250 * millisecond)).1 ≡ none)
    × (heard 4294967295 none
          (send_dtmf_with_duration answered true (λ _. none) (codes "11d") (250 * millisecond)).0
        ≡ map canonical (codes "11d"))
unfolding dtmf_event_code
heard-send_dtmf_example =
    heard-send_dtmf (codes "11d") (250 * millisecond) 4294967295 (λ e. cc, (λ e. cc, (λ e. cc, tt)))
      (omega arith) (omega arith)
