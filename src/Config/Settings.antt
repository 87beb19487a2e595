-- ===== src/Config/Settings.antt =====
-- internal/config/config.go: Settings, and which of the optional flows can run.
use smoke_tester.Prelude.{ℕ, Bool, ◌&&◌, not, [], ◌==◌, false}
use smoke_tester.Prelude.Bytes.{Bytes}
use smoke_tester.Prelude.Dict.{Dict}
use smoke_tester.Prelude.Text.{Text, codes, is_empty, trim_right, lower, Letters}
use smoke_tester.Config.{first_non_empty}
use smoke_tester.Config.Knobs.{getenv}

-- `sbc_public_ip` is empty for the nil address, and `orphan_ttl` a Duration.
pub record Settings : Type 0 where
  pub api_base_url : Text
  pub sp_api_key : Text
  pub sp_sid : Text
  pub sip_realm_zone : Text
  pub deepgram_api_key : Text
  pub deepseek_api_key : Text
  pub openai_api_key : Text
  pub murf_api_key : Text
  pub xai_api_key : Text
  pub gpt_live_api_key : Text
  pub gpt_live_model : Text
  pub gpt_live_host : Text
  pub gpt_live_path : Text
  pub gpt_live_delegation_model : Text
  pub speechmatics_api_key : Text
  pub speechmatics_stt_uri : Text
  pub speechmatics_agent_api_key : Text
  pub speechmatics_agent_profile : Text
  pub speechmatics_agent_host : Text
  pub dialogflow_project : Text
  pub dialogflow_ces_app : Text
  pub dialogflow_ces_deployment : Text
  pub dialogflow_ces_location : Text
  pub dialogflow_agent : Text
  pub dialogflow_region : Text
  pub dialogflow_lang : Text
  pub ngrok_auth_token : Text
  pub ngrok_domain : Text
  pub run_id : Text
  pub log_level : Text
  pub sbc_public_ip : Bytes
  pub gemini_service_key : Bytes
  pub dialogflow_service_key : Bytes
  pub orphan_ttl : ℕ
  pub contract_strict : Bool
  pub record_legs : Bool
  pub record_dir : Text

abbrev is_slash : ℕ → Bool
is_slash c = c == b'/'

-- The literal with which parse begins; the fields that it leaves out have Go's zero values.
unfoldable pub initial : Letters → Dict Text → Settings
unfolding getenv first_non_empty trim_right lower
initial u env = record {
  api_base_url = trim_right is_slash (getenv (codes "JAMBONZ_API_URL") env);
  sp_api_key = getenv (codes "JAMBONZ_SP_API_KEY") env;
  sp_sid = getenv (codes "JAMBONZ_SP_SID") env;
  sip_realm_zone =
      first_non_empty (getenv (codes "JAMBONZ_SIP_REALM_ZONE") env) (codes "smoke.test");
  deepgram_api_key = getenv (codes "DEEPGRAM_API_KEY") env;
  deepseek_api_key = getenv (codes "DEEPSEEK_API_KEY") env;
  openai_api_key = getenv (codes "OPENAI_API_KEY") env;
  murf_api_key = getenv (codes "MURF_API_KEY") env;
  xai_api_key = getenv (codes "XAI_API_KEY") env;
  gpt_live_api_key = getenv (codes "GPTLIVE_API_KEY") env;
  gpt_live_model =
      first_non_empty (getenv (codes "GPTLIVE_MODEL") env) (codes "gpt-live-1-boulder-alpha");
  gpt_live_host = getenv (codes "GPTLIVE_HOST") env;
  gpt_live_path = getenv (codes "GPTLIVE_PATH") env;
  gpt_live_delegation_model =
      first_non_empty (getenv (codes "GPTLIVE_DELEGATION_MODEL") env) (codes "gpt-5.5");
  speechmatics_api_key = getenv (codes "SPEECHMATICS_API_KEY") env;
  speechmatics_stt_uri =
      first_non_empty (getenv (codes "SPEECHMATICS_STT_URI") env) (codes "eu2.rt.speechmatics.com");
  speechmatics_agent_api_key = getenv (codes "SPEECHMATICS_AGENT_API_KEY") env;
  speechmatics_agent_profile =
      first_non_empty (getenv (codes "SPEECHMATICS_AGENT_PROFILE") env) (codes "smart");
  speechmatics_agent_host = getenv (codes "SPEECHMATICS_AGENT_HOST") env;
  dialogflow_project = getenv (codes "DIALOGFLOW_PROJECT") env;
  dialogflow_ces_app = getenv (codes "DIALOGFLOW_CES_APP") env;
  dialogflow_ces_deployment = getenv (codes "DIALOGFLOW_CES_DEPLOYMENT") env;
  dialogflow_ces_location =
      first_non_empty (getenv (codes "DIALOGFLOW_CES_LOCATION") env) (codes "us");
  dialogflow_agent = getenv (codes "DIALOGFLOW_AGENT") env;
  dialogflow_region =
      first_non_empty (getenv (codes "DIALOGFLOW_REGION") env) (codes "us-central1");
  dialogflow_lang = first_non_empty (getenv (codes "DIALOGFLOW_LANG") env) (codes "en-US");
  ngrok_auth_token = getenv (codes "NGROK_AUTHTOKEN") env;
  ngrok_domain = getenv (codes "NGROK_DOMAIN") env;
  run_id = getenv (codes "RUN_ID") env;
  log_level = lower u (first_non_empty (getenv (codes "LOG_LEVEL") env) (codes "info"));
  sbc_public_ip = [];
  gemini_service_key = [];
  dialogflow_service_key = [];
  orphan_ttl = 0;
  contract_strict = false;
  record_legs = false;
  record_dir = [];
}

-- HasDeepgram and the other tests of one key.
unfoldable pub has_deepgram : Settings → Bool
has_deepgram s = not (is_empty s.deepgram_api_key)

unfoldable pub has_deepseek : Settings → Bool
has_deepseek s = not (is_empty s.deepseek_api_key)

unfoldable pub has_openai : Settings → Bool
has_openai s = not (is_empty s.openai_api_key)

unfoldable pub has_murf : Settings → Bool
has_murf s = not (is_empty s.murf_api_key)

unfoldable pub has_xai : Settings → Bool
has_xai s = not (is_empty s.xai_api_key)

unfoldable pub has_gemini_stt : Settings → Bool
has_gemini_stt s = not (is_empty s.gemini_service_key)

unfoldable pub has_gpt_live : Settings → Bool
has_gpt_live s = not (is_empty s.gpt_live_api_key)

unfoldable pub has_speechmatics : Settings → Bool
has_speechmatics s = not (is_empty s.speechmatics_api_key)

unfoldable pub has_speechmatics_agent : Settings → Bool
has_speechmatics_agent s = not (is_empty s.speechmatics_agent_api_key)

unfoldable pub has_dialogflow : Settings → Bool
has_dialogflow s =
    not (is_empty s.dialogflow_service_key)
    && not (is_empty s.dialogflow_project)
    && not (is_empty s.dialogflow_agent)
    && not (is_empty s.dialogflow_region)

unfoldable pub has_dialogflow_ces : Settings → Bool
has_dialogflow_ces s =
    not (is_empty s.dialogflow_service_key)
    && not (is_empty s.dialogflow_project)
    && not (is_empty s.dialogflow_ces_app)
    && not (is_empty s.dialogflow_ces_location)
