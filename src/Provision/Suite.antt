-- ===== src/Provision/Suite.antt =====
-- internal/provision/suite.go: the account of a test suite, its setup and its teardown. The contexts
-- with their time-outs show in `departure` of Api: a request that is attempted behind the end of its
-- context does not leave.
pub mod Setup
pub mod Teardown
pub mod Keeps
pub mod Complete
use smoke_tester.Prelude.{not, Option, none, some, List, [], ◌∷◌, ◌++◌, if◌then◌else◌}
use smoke_tester.Prelude.Text.{Text, text_eq, is_empty, lower, equal_fold}
use smoke_tester.Prelude.Result.{Result, ok, err}
use smoke_tester.Provision.Api.{Api, Client, M, return, ◌>>=◌, ◌>>◌, ApiError}
use smoke_tester.Provision.Client.{
  create_account, get_account, delete_account, set_sip_realm, create_api_key, delete_api_key,
  list_sip_clients_for_account, delete_sip_client, list_live_calls, hangup_call, delete_call,
}
use smoke_tester.Provision.Tags.{name}
use smoke_tester.Provision.Types.{Account, SipClient, CallSummary, is_live}

pub record SuiteAccount : Type 0 where
  pub account_sid : Text
  pub account_name : Text
  pub api_key_sid : Text
  pub token : Text
  pub sip_realm : Text
  pub account_client : Client
  pub sp_client : Client

-- The step of the setup that failed.
pub data SetupError : Type 0 where
  create_account_failed create_key_failed set_realm_failed verify_failed : ApiError → SetupError
  realm_not_persisted : SetupError

-- The loop of bestEffortDeleteAccount, which drops the errors; its attempts share a context of 30
-- seconds with the others of the function.
delete_each : Api → Client → List SipClient → M (Unit {0})
delete_each api sp [] = return tt
delete_each api sp (cl ∷ cls) = do delete_sip_client api sp cl.client_sid; delete_each api sp cls

abbrev found_clients : Result ApiError (List SipClient) → List SipClient
found_clients (ok cls) = cls
found_clients (err _) = []

unfoldable pub best_effort_delete_account : Api → Client → Text → M (Option ApiError)
unfolding delete_each
best_effort_delete_account api sp sid = do
  clients ← list_sip_clients_for_account api sp sid
  delete_each api sp (found_clients clients)
  delete_account api sp sid

-- The steps behind each other, from the last. Each is a `switch` on the error of the call before.
give_up : Api → Client → Text → SetupError → M (Result SetupError SuiteAccount)
unfolding best_effort_delete_account
give_up api sp sid e = do best_effort_delete_account api sp sid; return (err e)

verified : Api → SuiteAccount → Result ApiError Account → M (Result SetupError SuiteAccount)
unfolding give_up equal_fold
verified api s (err e) = give_up api s.sp_client s.account_sid (verify_failed e)
verified api s (ok a) =
    if not (equal_fold api.letters a.sip_realm s.sip_realm)
    then give_up api s.sp_client s.account_sid realm_not_persisted
    else return (ok s)

realm_set : Api → SuiteAccount → Option ApiError → M (Result SetupError SuiteAccount)
unfolding verified
realm_set api s (some e) = give_up api s.sp_client s.account_sid (set_realm_failed e)
realm_set api s none = do a ← get_account api s.sp_client s.account_sid; verified api s a

key_created :
    Api
    → Client
    → Text
    → Text
    → Text
    → Result ApiError (Text × Text)
    → M (Result SetupError SuiteAccount)
unfolding realm_set lower
key_created api sp name realm_zone sid (err e) = give_up api sp sid (create_key_failed e)
key_created api sp name realm_zone sid (ok (key, token)) =
    let acct : Client = record { api_key = token; account_sid = sid } in
    let s : SuiteAccount = record {
      account_sid = sid;
      account_name = name;
      api_key_sid = key;
      token = token;
      sip_realm = lower api.letters name ++ (b'.' ∷ realm_zone);
      account_client = acct;
      sp_client = sp;
    } in
    do e ← set_sip_realm api acct sid s.sip_realm; realm_set api s e

account_created :
    Api → Client → Text → Text → Result ApiError Text → M (Result SetupError SuiteAccount)
unfolding key_created
account_created api sp name realm_zone (err e) = return (err (create_account_failed e))
account_created api sp name realm_zone (ok sid) = do
  key ← create_api_key api sp sid
  key_created api sp name realm_zone sid key

-- SetupSuiteAccount; `run_id` is the run's id, of which the account's name is made.
unfoldable pub setup_suite_account :
    Api → Client → Text → Text → Text → Text → M (Result SetupError SuiteAccount)
unfolding account_created name
setup_suite_account api sp run_id sp_sid suffix realm_zone = do
  a ← create_account api sp (name run_id suffix) sp_sid
  account_created api sp (name run_id suffix) realm_zone a

abbrev add_error : Option ApiError → List ApiError → List ApiError
add_error none errs = errs
add_error (some e) errs = errs ++ e ∷ []

-- The live calls, hung up and deleted; the errors so far are passed along.
unfoldable pub end_calls : Api → Client → List ApiError → List CallSummary → M (List ApiError)
end_calls api acct errs [] = return errs
end_calls api acct errs (lc ∷ more) = if not (is_live lc) then end_calls api acct errs more else (do
  e ← hangup_call api acct lc.call_sid
  d ← delete_call api acct lc.call_sid
  end_calls api acct (add_error d (add_error e errs)) more)

unfoldable pub calls_listed : Api → Client → Result ApiError (List CallSummary) → M (List ApiError)
unfolding end_calls
calls_listed api acct (err e) = return (e ∷ [])
calls_listed api acct (ok live) = end_calls api acct [] live

unfoldable pub end_clients :
    Api → Client → Text → List ApiError → List SipClient → M (List ApiError)
unfolding text_eq
end_clients api sp sid errs [] = return errs
end_clients api sp sid errs (cl ∷ cls) =
    if not (text_eq cl.account_sid sid) then end_clients api sp sid errs cls else (do
      e ← delete_sip_client api sp cl.client_sid
      end_clients api sp sid (add_error e errs) cls)

unfoldable pub clients_listed :
    Api → Client → Text → List ApiError → Result ApiError (List SipClient) → M (List ApiError)
unfolding end_clients
clients_listed api sp sid errs (err e) = return (errs ++ e ∷ [])
clients_listed api sp sid errs (ok cls) = end_clients api sp sid errs cls

unfoldable pub drop_key : Api → Client → Text → M (Unit {0})
drop_key api sp key = if is_empty key then return tt else (do delete_api_key api sp key; return tt)

-- SuiteAccount.Teardown: the errors, in their order. The attempts on calls share a context of 20
-- seconds, and all attempts one of 60.
unfoldable pub teardown : Api → SuiteAccount → M (List ApiError)
unfolding calls_listed clients_listed drop_key
teardown api s = do
  live ← list_live_calls api s.account_client
  errs ← calls_listed api s.account_client live
  clients ← list_sip_clients_for_account api s.sp_client s.account_sid
  errs' ← clients_listed api s.sp_client s.account_sid errs clients
  drop_key api s.sp_client s.api_key_sid
  e ← delete_account api s.sp_client s.account_sid
  return (add_error e errs')
