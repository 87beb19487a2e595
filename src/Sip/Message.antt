-- ===== src/Sip/Message.antt =====
-- internal/sip/messages.go: a captured SIP message, without its time stamp and raw references.
use smoke_tester.Prelude.{ℕ, none, some, List, [], ◌∷◌, ◌++◌, if◌then◌else◌}
use smoke_tester.Prelude.Text.{Text, codes, equal_fold, Letters}
use smoke_tester.Prelude.Dict.{Dict, lookup, insert}

pub data MessageDirection : Type 0 where
  msg_sent msg_recv : MessageDirection

pub record Message : Type 0 where
  pub direction : MessageDirection
  pub method : Text  -- of a response, the method of its CSeq
  pub status_code : ℕ  -- 0 for requests
  pub reason : Text
  pub call_id : Text
  pub cseq : Text
  pub headers : Dict Text

-- headerSliceToMap: repeated headers are joined by ", ".
unfoldable pub header_slice_to_map : Dict Text → List (Text × Text) → Dict Text
unfolding lookup insert
header_slice_to_map out [] = out
header_slice_to_map out ((k, v) ∷ hs) =
    header_slice_to_map
      (insert k (elim (lookup k out) [ some existing ↦ existing ++ codes ", " ++ v | none ↦ v ])
        out)
      hs

-- Message.Header on the headers in the order in which the map is walked.
unfoldable pub header : Letters → Text → List (Text × Text) → Text
unfolding equal_fold
header u name [] = []
header u name ((k, v) ∷ hs) = if equal_fold u k name then v else header u name hs
