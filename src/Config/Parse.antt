-- ===== src/Config/Parse.antt =====
-- internal/config/config.go: parse. What it calls of net, net/url and encoding/json, and the file
-- system, is the record Host.
pub mod Why
pub mod Outcome
use smoke_tester.Prelude.{Bool, Option, none, some, List, [], ◌∷◌, if◌then◌else◌}
use smoke_tester.Prelude.Bytes.{Bytes}
use smoke_tester.Prelude.Dict.{Dict}
use smoke_tester.Prelude.Result.{Result, ok, err, ◌>>=◌}
use smoke_tester.Prelude.Text.{Text, codes, Letters, is_empty, contains, has_prefix}
use smoke_tester.Config.{first_non_empty}
use smoke_tester.Config.Knobs.{
  ParseError, bad_url, bad_ip, missing, no_dot, unreadable, no_json, getenv, orphan_ttl,
  contract_strict, record_legs,
}
use smoke_tester.Config.Settings.{Settings, initial}

-- The tables of the package unicode, url.Parse (its error), net.ParseIP, os.ReadFile, json.Valid,
-- the module root that findRepoRoot finds, and filepath.Join.
pub record Host : Type 0 where
  pub letters : Letters
  pub url_error : Text → Option Text
  pub parse_ip : Text → Option Bytes
  pub read_file : Text → Result Text Bytes
  pub valid_json : Bytes → Bool
  pub repo_root : Option Text
  pub join : Text → Text → Text

-- The variables among these whose value is empty.
unfoldable pub absent : List (Text × Text) → List Text
absent [] = []
absent ((name, v) ∷ rest) = let more = absent rest in if is_empty v then name ∷ more else more

-- `missing`, when the checks have passed: the names with the values that are tested.
abbrev pub required : Host → Dict Text → List (Text × Text)
required h env =
    (codes "JAMBONZ_API_URL", (initial h.letters env).api_base_url)
    ∷ (codes "JAMBONZ_SP_API_KEY", (initial h.letters env).sp_api_key)
    ∷ (codes "JAMBONZ_SP_SID", (initial h.letters env).sp_sid)
    ∷ (codes "JAMBONZ_SBC_PUBLIC_IP", getenv (codes "JAMBONZ_SBC_PUBLIC_IP") env)
    ∷ (codes "DEEPGRAM_API_KEY", (initial h.letters env).deepgram_api_key)
    ∷ (codes "DEEPSEEK_API_KEY", (initial h.letters env).deepseek_api_key)
    ∷ (codes "NGROK_AUTHTOKEN", (initial h.letters env).ngrok_auth_token)
    ∷ []

refuse_url : Option Text → Result ParseError (Unit {0})
refuse_url none = ok tt
refuse_url (some e) = err (bad_url e)

unfoldable pub check_url : Host → Text → Result ParseError (Unit {0})
unfolding refuse_url
check_url h url = if is_empty url then ok tt else refuse_url (h.url_error url)

parsed_ip : Text → Option Bytes → Result ParseError Bytes
parsed_ip v none = err (bad_ip v)
parsed_ip v (some ip) = ok ip

unfoldable pub sbc_ip : Host → Text → Result ParseError Bytes
unfolding parsed_ip
sbc_ip h v = if is_empty v then ok [] else parsed_ip v (h.parse_ip v)

unfoldable pub check_missing : List Text → Result ParseError (Unit {0})
check_missing [] = ok tt
check_missing (name ∷ names) = err (missing (name ∷ names))

unfoldable pub check_zone : Text → Result ParseError (Unit {0})
unfolding contains
check_zone zone = if contains zone b'.' then ok tt else err (no_dot zone)

-- The content of a key file.
key_content : Host → Text → Text → Result Text Bytes → Result ParseError Bytes
key_content h name kf (err e) = err (unreadable name kf e)
key_content h name kf (ok b) = if h.valid_json b then ok b else err (no_json name kf)

unfoldable pub key_file : Host → Text → Text → Result ParseError Bytes
unfolding key_content
key_file h name kf = if is_empty kf then ok [] else key_content h name kf (h.read_file kf)

anchored : Host → Text → Option Text → Text
anchored h dir none = dir
anchored h dir (some root) = h.join root dir

-- RECORD_DIR, anchored at the module root unless it is absolute.
unfoldable pub record_dir : Host → Text → Text
unfolding anchored has_prefix
record_dir h dir = if has_prefix dir (codes "/") then dir else anchored h dir h.repo_root

unfoldable pub parse : Host → Dict Text → Result ParseError Settings
unfolding check_url sbc_ip check_missing absent check_zone key_file orphan_ttl contract_strict
    record_legs record_dir getenv first_non_empty initial
parse h env = do
  _ ← check_url h (initial h.letters env).api_base_url
  ip ← sbc_ip h (getenv (codes "JAMBONZ_SBC_PUBLIC_IP") env)
  _ ← check_missing (absent (required h env))
  _ ← check_zone (initial h.letters env).sip_realm_zone
  gemini ← key_file h (codes "GEMINI_KEYFILE") (getenv (codes "GEMINI_KEYFILE") env)
  dialogflow ← key_file h (codes "DIALOGFLOW_KEYFILE") (getenv (codes "DIALOGFLOW_KEYFILE") env)
  ttl ← orphan_ttl (getenv (codes "ORPHAN_TTL_HOURS") env)
  strict ← contract_strict (getenv (codes "CONTRACT_STRICT") env)
  legs ← record_legs h.letters (getenv (codes "RECORD_LEGS") env)
  ok (record (initial h.letters env) {
    sbc_public_ip = ip;
    gemini_service_key = gemini;
    dialogflow_service_key = dialogflow;
    orphan_ttl = ttl;
    contract_strict = strict;
    record_legs = legs;
    record_dir =
        record_dir h (first_non_empty (getenv (codes "RECORD_DIR") env) (codes "recordings"));
  })
