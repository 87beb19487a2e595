-- ===== src/Provision/Suite/Setup.antt =====
-- Setting up a suite's account: it is ready, or it is given up and deleted.
use smoke_tester.Prelude.{◌≡◌, true, List, ◌∷◌, ◌++◌}
use smoke_tester.Prelude.Text.{Text, equal_fold, lower}
use smoke_tester.Prelude.Result.{Result, ok, err}
use smoke_tester.Provision.Api.{Api, Client, HttpRequest, http, delete, no_body}
use smoke_tester.Provision.Api.Request.{IsTried}
use smoke_tester.Provision.Client.{account_path, get_account}
use smoke_tester.Provision.Suite.{SuiteAccount, SetupError}
use smoke_tester.Provision.Types.{Account}

-- The realm of the suite was read back from the server, and the account's client bears the token
-- that was minted for the account.
pub record IsReady (api : Api) (sp : Client) (account_name realm_zone sid : Text) (s : SuiteAccount)
    (final : List HttpRequest) : Type 0 where
  pub sid_kept : s.account_sid ≡ sid
  pub name_kept : s.account_name ≡ account_name
  pub realm : s.sip_realm ≡ lower api.letters account_name ++ (b'.' ∷ realm_zone)
  pub client : s.account_client ≡ record { api_key = s.token; account_sid = sid }
  pub read_back :
      (log : List HttpRequest) × (a : Account) × (get_account api sp sid log ≡ (ok a, final))
      × (equal_fold api.letters a.sip_realm s.sip_realm ≡ true)

pub data Outcome (api : Api) (sp : Client) (account_name realm_zone sid : Text)
    (out : Result SetupError SuiteAccount × List HttpRequest) : Type 0 where
  ready :
      (s : SuiteAccount)
      → out.0 ≡ ok s
      → IsReady api sp account_name realm_zone sid s out.1
      → Outcome api sp account_name realm_zone sid out
  cleaned_up :
      (e : SetupError)
      → out.0 ≡ err e
      → IsTried api (http sp delete (account_path sid) no_body) out.1
      → Outcome api sp account_name realm_zone sid out

module _ (api : Api) (sp : Client) (account_name realm_zone sid : Text) where
  module _ (key token : Text) where
    abbrev built : SuiteAccount
    built = record {
      account_sid = sid;
      account_name = account_name;
      api_key_sid = key;
      token = token;
      sip_realm = lower api.letters account_name ++ (b'.' ∷ realm_zone);
      account_client = record { api_key = token; account_sid = sid };
      sp_client = sp;
    }
