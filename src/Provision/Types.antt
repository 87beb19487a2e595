-- ===== src/Provision/Types.antt =====
-- The resources of internal/provision that the sweeper and the suites read.
use smoke_tester.Prelude.{Bool, true, ◌||◌, if◌then◌else◌}
use smoke_tester.Prelude.Text.{Text, codes, text_eq, is_empty}

pub record Account : Type 0 where
  pub account_sid : Text
  pub name : Text
  pub created_at : Text
  pub sip_realm : Text

pub record SipClient : Type 0 where
  pub client_sid : Text
  pub account_sid : Text

pub record CallSummary : Type 0 where
  pub call_sid : Text
  pub call_status : Text

-- The keys of liveCallStatuses.
unfoldable pub is_live_status : Text → Bool
unfolding text_eq
is_live_status s =
    text_eq s (codes "trying")
    || text_eq s (codes "ringing")
    || text_eq s (codes "early-media")
    || text_eq s (codes "in-progress")
    || text_eq s (codes "queued")

-- CallSummary.IsLive.
unfoldable pub is_live : CallSummary → Bool
unfolding is_live_status
is_live c = if is_empty c.call_status then true else is_live_status c.call_status
