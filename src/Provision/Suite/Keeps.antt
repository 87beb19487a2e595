-- ===== src/Provision/Suite/Keeps.antt =====
-- What a teardown has attempted stays on record.
use mathlib.Core.List.{Memᴰ}
use smoke_tester.Prelude.{inl, inr, List, [], ◌∷◌, Bool-cases}
use smoke_tester.Prelude.Text.{Text, text_eq, is_empty}
use smoke_tester.Prelude.Result.{Result, ok, err}
use smoke_tester.Provision.Api.{Api, Client, HttpRequest, ApiError, request}
use smoke_tester.Provision.Client.{
  list_sip_clients, list_sip_clients_for_account, update_call, hangup_call, delete_call,
  delete_sip_client, delete_api_key,
}
use smoke_tester.Provision.Suite.{add_error, end_calls, end_clients, clients_listed, drop_key}
use smoke_tester.Provision.Types.{SipClient, CallSummary, is_live}

-- A request on record stays on record.
module _ (api : Api) (q : HttpRequest) where
  hangup_call-keeps :
      (c : Client) (call : Text) (log : List HttpRequest)
      → Memᴰ q log
      → Memᴰ q (hangup_call api c call log).1
  unfolding hangup_call update_call request
  hangup_call-keeps c call log m = elim (Bool-cases (is_empty c.account_sid)) [
    | inl unscoped ↦ rw unscoped m
    | inr scoped ↦ rw scoped (Memᴰ.tail m)
  ]

  pub delete_call-keeps :
      (c : Client) (call : Text) (log : List HttpRequest)
      → Memᴰ q log
      → Memᴰ q (delete_call api c call log).1
  unfolding delete_call request
  delete_call-keeps c call log m = elim (Bool-cases (is_empty c.account_sid)) [
    | inl unscoped ↦ rw unscoped m
    | inr scoped ↦ rw scoped (Memᴰ.tail m)
  ]

  delete_sip_client-keeps :
      (c : Client) (sid : Text) (log : List HttpRequest)
      → Memᴰ q log
      → Memᴰ q (delete_sip_client api c sid log).1
  unfolding delete_sip_client request
  delete_sip_client-keeps c sid log m = Memᴰ.tail m

  pub end_calls-keeps :
      (c : Client) (errs : List ApiError) (calls : List CallSummary) (log : List HttpRequest)
      → Memᴰ q log
      → Memᴰ q (end_calls api c errs calls log).1
  unfolding end_calls
  end_calls-keeps c errs [] log m = m
  end_calls-keeps c errs (lc ∷ more) log m = elim (Bool-cases (is_live lc)) [
    | inl live ↦
        let hung = hangup_call api c lc.call_sid log in
        let gone = delete_call api c lc.call_sid hung.1 in
        rw live (
          end_calls-keeps c (add_error gone.0 (add_error hung.0 errs)) more gone.1
            (delete_call-keeps c lc.call_sid hung.1 (hangup_call-keeps c lc.call_sid log m)))
    | inr other ↦ rw other (end_calls-keeps c errs more log m)
  ]

  pub end_clients-keeps :
      (c : Client) (sid : Text) (errs : List ApiError) (clients : List SipClient)
      (log : List HttpRequest)
      → Memᴰ q log
      → Memᴰ q (end_clients api c sid errs clients log).1
  unfolding end_clients
  end_clients-keeps c sid errs [] log m = m
  end_clients-keeps c sid errs (cl ∷ cls) log m = elim (Bool-cases (text_eq cl.account_sid sid)) [
    | inl own ↦
        let gone = delete_sip_client api c cl.client_sid log in
        rw own (
          end_clients-keeps c sid (add_error gone.0 errs) cls gone.1
            (delete_sip_client-keeps c cl.client_sid log m))
    | inr other ↦ rw other (end_clients-keeps c sid errs cls log m)
  ]

  pub clients_listed-keeps :
      (c : Client) (sid : Text) (errs : List ApiError) (r : Result ApiError (List SipClient))
      (log : List HttpRequest)
      → Memᴰ q log
      → Memᴰ q (clients_listed api c sid errs r log).1
  unfolding clients_listed
  clients_listed-keeps c sid errs (ok cls) log m = end_clients-keeps c sid errs cls log m
  clients_listed-keeps c sid errs (err e) log m = m

  pub list_clients-keeps :
      (c : Client) (sid : Text) (log : List HttpRequest)
      → Memᴰ q log
      → Memᴰ q (list_sip_clients_for_account api c sid log).1
  unfolding list_sip_clients_for_account list_sip_clients request
  list_clients-keeps c sid log m = Memᴰ.tail m

  pub drop_key-keeps :
      (c : Client) (key : Text) (log : List HttpRequest)
      → Memᴰ q log
      → Memᴰ q (drop_key api c key log).1
  unfolding drop_key delete_api_key request
  drop_key-keeps c key log m = elim (Bool-cases (is_empty key)) [
    | inl unkeyed ↦ rw unkeyed m
    | inr keyed ↦ rw keyed (Memᴰ.tail m)
  ]
