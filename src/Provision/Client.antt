-- ===== src/Provision/Client.antt =====
-- The methods of the client on accounts, API keys, SIP clients and live calls
-- (internal/provision/accounts.go, api_keys.go, sip_clients.go and calls.go).
pub mod Delete
use smoke_tester.Prelude.{
  Bool, true, false, Option, none, some, List, [], ◌∷◌, ◌++◌, ◌==◌, if◌then◌else◌, select,
}
use smoke_tester.Prelude.Text.{Text, codes, text_eq, is_empty}
use smoke_tester.Prelude.Bytes.{Bytes}
use smoke_tester.Prelude.Result.{Result, ok, err}
use smoke_tester.Provision.Types.{Account, SipClient, CallSummary}
use smoke_tester.Provision.Api.{
  Api, Client, M, return, ◌>>=◌, ◌>>◌, get, post, delete, no_body, object, ApiError, api_error,
  not_account_scoped, request, decoded, unless_status, status_of,
}

abbrev pub accounts_path : Text
accounts_path = codes "/Accounts"

abbrev pub account_path : Text → Text
account_path sid = codes "/Accounts/" ++ sid

abbrev pub clients_path : Text
clients_path = codes "/Clients"

abbrev pub client_path : Text → Text
client_path sid = codes "/Clients/" ++ sid

abbrev pub calls_path : Text → Text
calls_path account = account_path account ++ codes "/Calls"

abbrev pub call_path : Text → Text → Text
call_path account call = calls_path account ++ (b'/' ∷ call)

-- Accounts.

unfoldable pub create_account : Api → Client → Text → Text → M (Result ApiError Text)
unfolding decoded
create_account api c name sp_sid = do
  r ←
      request api c post accounts_path
        (object ((codes "name", name) ∷ (codes "service_provider_sid", sp_sid) ∷ []))
        (codes "rest/accounts/createAccount.response.201.json") 201
  return (decoded api.decode_sid r)

unfoldable pub get_account : Api → Client → Text → M (Result ApiError Account)
unfolding decoded
get_account api c sid = do
  r ←
      request api c get (account_path sid) no_body
        (codes "rest/accounts/getAccount.response.200.json") 200
  return (decoded api.decode_account r)

unfoldable pub list_accounts : Api → Client → M (Result ApiError (List Account))
unfolding decoded
list_accounts api c = do
  r ←
      request api c get accounts_path no_body (codes "rest/accounts/listAccounts.response.200.json")
        200
  return (decoded api.decode_accounts r)

unfoldable pub account_visible : Api → Client → Text → M Bool
account_visible api c sid = do
  r ← request api c get (account_path sid) no_body [] 200
  return (elim r [ ok _ ↦ true | err _ ↦ false ])

-- The `switch` on the status, behind a failed DELETE.
unfoldable pub delete_account_failed : Api → Client → Text → ApiError → M (Option ApiError)
unfolding account_visible status_of
delete_account_failed api c sid e =
    let status = status_of {A = Bytes} (err e) in
    if status == 404
    then return none
    else if status == 403
    then (do visible ← account_visible api c sid; return (if visible then some e else none))
    else return (some e)

after_delete : Api → Client → Text → Result ApiError Bytes → M (Option ApiError)
after_delete api c sid (ok _) = return none
after_delete api c sid (err e) = delete_account_failed api c sid e

unfoldable pub delete_account : Api → Client → Text → M (Option ApiError)
unfolding after_delete delete_account_failed
delete_account api c sid = do
  r ← request api c delete (account_path sid) no_body [] 204
  after_delete api c sid r

-- A 500 is taken for success.
unfoldable pub set_sip_realm : Api → Client → Text → Text → M (Option ApiError)
unfolding unless_status
set_sip_realm api c account realm = do
  r ← request api c post (account_path account ++ (codes "/SipRealms/" ++ realm)) no_body [] 204
  return (unless_status 500 r)

-- API keys: the SID and the token.

unfoldable pub create_api_key : Api → Client → Text → M (Result ApiError (Text × Text))
unfolding decoded
create_api_key api c account = do
  r ←
      request api c post (codes "/ApiKeys") (object ((codes "account_sid", account) ∷ []))
        (codes "rest/api_keys/createApikey.response.201.json") 201
  return (decoded api.decode_key r)

-- A 204 is taken for success too.
key_deleted : Option ApiError → Option ApiError
key_deleted (some (api_error status body msg)) =
    if status == 204 then none else some (api_error status body msg)
key_deleted e = e

unfoldable pub delete_api_key : Api → Client → Text → M (Option ApiError)
unfolding unless_status key_deleted
delete_api_key api c sid = do
  r ← request api c delete (codes "/ApiKeys/" ++ sid) no_body [] 200
  return (key_deleted (unless_status 404 r))

-- SIP clients.

unfoldable pub list_sip_clients : Api → Client → M (Result ApiError (List SipClient))
unfolding decoded
list_sip_clients api c = do
  r ← request api c get clients_path no_body [] 200
  return (decoded api.decode_clients r)

unfoldable pub list_sip_clients_for_account :
    Api → Client → Text → M (Result ApiError (List SipClient))
unfolding list_sip_clients select text_eq
list_sip_clients_for_account api c account = do
  r ← list_sip_clients api c
  return
      (elim r [ err e ↦ err e | ok all ↦ ok (select (λ cl. text_eq cl.account_sid account) all) ])

unfoldable pub delete_sip_client : Api → Client → Text → M (Option ApiError)
unfolding unless_status
delete_sip_client api c sid = do
  r ← request api c delete (client_path sid) no_body [] 204
  return (unless_status 404 r)

-- Calls. The methods refuse a client without an account.

unfoldable pub list_live_calls : Api → Client → M (Result ApiError (List CallSummary))
unfolding decoded
list_live_calls api c = if is_empty c.account_sid then return (err not_account_scoped) else do
  r ←
      request api c get (calls_path c.account_sid) no_body
        (codes "rest/calls/listCalls.response.200.json") 200
  return (decoded api.decode_calls r)

unfoldable pub update_call : Api → Client → Text → List (Text × Text) → M (Result ApiError Bytes)
update_call api c call body =
    if is_empty c.account_sid
    then return (err not_account_scoped)
    else request api c post (call_path c.account_sid call) (object body) [] 202

unfoldable pub hangup_call : Api → Client → Text → M (Option ApiError)
unfolding update_call unless_status
hangup_call api c call = do
  r ← update_call api c call ((codes "call_status", codes "completed") ∷ [])
  return (unless_status 404 r)

unfoldable pub delete_call : Api → Client → Text → M (Option ApiError)
unfolding unless_status
delete_call api c call = if is_empty c.account_sid then return (some not_account_scoped) else do
  r ← request api c delete (call_path c.account_sid call) no_body [] 204
  return (unless_status 404 r)
