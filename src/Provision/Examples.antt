-- ===== src/Provision/Examples.antt =====
-- The client, the sweeper and the suites against a server that answers with fixed responses.
use mathlib.Core.List.{Memᴰ}
use smoke_tester.Prelude.{ℕ, ◌≡◌, map, refl, Option, none, some, List, [], ◌∷◌, All}
use smoke_tester.Prelude.Text.{Text, ascii, codes}
use smoke_tester.Provision.Api.{
  Api, Client, HttpRequest, Response, response, exchange, leaves, Method, get, post, put, delete,
  no_body, request, read_response, decoded,
}
use smoke_tester.Provision.Api.Request.{IsTried}
use smoke_tester.Provision.Client.{list_accounts, list_sip_clients, list_live_calls}
use smoke_tester.Provision.Resources.Managed.{Managed, application, sip_client, ask, run_cleanups}
use smoke_tester.Provision.Resources.Managed.Cleanup.{deletion, onto, started, run_cleanups-onto}
use smoke_tester.Provision.Suite.{SuiteAccount, teardown}
use smoke_tester.Provision.Suite.Teardown.{
  IsTeardownRequest, calls_of, clients_of, teardown-IsTeardownRequest, hangup_request,
  delete_call_request,
}
use smoke_tester.Provision.Suite.Complete.{teardown-ends_calls}
use smoke_tester.Provision.Sweeper.{sweep, listed_clients}
use smoke_tester.Provision.Sweeper.Safety.{
  IsOrphan, IsSweepRequest, sweep-IsSweepRequest, listed_accounts,
}
use smoke_tester.Provision.Tags.{name, run_prefix}
use smoke_tester.Provision.Types.{Account, SipClient, CallSummary, is_live, is_live_status}

abbrev account : Account
account = record {
  account_sid = codes "s1";
  name = codes "it-r0-verbs";
  created_at = codes "7";
  sip_realm = codes "it-r1-verbs.smoke.test";
}

abbrev phone : SipClient
phone = record { client_sid = codes "c1"; account_sid = codes "s1" }

abbrev live_call : CallSummary
live_call = record { call_sid = codes "k1"; call_status = codes "in-progress" }

abbrev status_for : Method → ℕ
status_for get = 200
status_for post = 201
status_for put = 200
status_for delete = 204

abbrev answers : List HttpRequest → Response
answers [] = response 500 [] none
answers (r ∷ _) = response (status_for r.method) (codes "{}") none

abbrev api : Api
api = record {
  letters = ascii;
  departure = λ log. leaves;
  server = answers;
  validate = λ path body. none;
  decode_sid = λ b. some (codes "s1");
  decode_key = λ b. some (codes "k1", codes "t1");
  decode_account = λ b. some account;
  decode_accounts = λ b. some (account ∷ []);
  decode_clients = λ b. some (phone ∷ []);
  decode_calls = λ b. some (live_call ∷ []);
}

abbrev sp : Client
sp = record { api_key = codes "sp"; account_sid = [] }

abbrev suite : SuiteAccount
suite = record {
  account_sid = codes "s1";
  account_name = codes "it-r1-verbs";
  api_key_sid = codes "k1";
  token = codes "t1";
  sip_realm = codes "it-r1-verbs.smoke.test";
  account_client = record { api_key = codes "t1"; account_sid = codes "s1" };
  sp_client = sp;
}

abbrev seconds : Text → Option ℕ
seconds t = some 7

sweep-IsSweepRequest_example :
    All
      (IsSweepRequest sp
        (IsOrphan seconds (run_prefix (codes "r1")) 5 99)
        (listed_accounts (list_accounts api sp []).0)
        (listed_clients (list_sip_clients api sp (list_accounts api sp []).1).0))
      (sweep api sp seconds (codes "r1") 5 99 []).1
sweep-IsSweepRequest_example = sweep-IsSweepRequest api sp seconds (codes "r1") 5 99

teardown-IsTeardownRequest_example :
    All
      (IsTeardownRequest suite (calls_of api suite) (clients_of api suite))
      (teardown api suite []).1
teardown-IsTeardownRequest_example = teardown-IsTeardownRequest api suite

teardown-ends_calls_example :
    IsTried api (hangup_request suite.account_client live_call) (teardown api suite []).1
    × IsTried api (delete_call_request suite.account_client live_call) (teardown api suite []).1
unfolding is_live is_live_status list_live_calls request read_response exchange decoded
teardown-ends_calls_example = teardown-ends_calls api suite live_call refl refl (Memᴰ.head refl)

-- An application and a SIP client for one test.
abbrev wanted : List Managed
wanted = application no_body ∷ sip_client (codes "u1") (codes "p1") ∷ []

run_cleanups-onto_example :
    let t =
      ask api (record { api_key = codes "k"; account_sid = codes "s1" }) wanted (started []) in
    ((run_cleanups t.cleanups t.log).1
      ≡ onto
          (map (deletion (record { api_key = codes "k"; account_sid = codes "s1" })) t.made)
          t.log)
    × (t.failed ≡ none → map (λ p. p.0) t.made ≡ onto wanted [])
run_cleanups-onto_example =
    run_cleanups-onto api (record { api_key = codes "k"; account_sid = codes "s1" }) wanted []
