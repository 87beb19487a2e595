-- ===== src/Provision/Suite/Teardown.antt =====
-- Tearing a suite down: which requests are made, and that none is left out.
use mathlib.Core.List.{Memᴰ}
use smoke_tester.Prelude.{◌≡◌, ◌⊎◌, inl, inr, refl, true, List, [], ◌∷◌, ◌++◌, Bool-cases, All}
use smoke_tester.Prelude.Text.{Text, codes, text_eq, text_eq_iff, is_empty}
use smoke_tester.Prelude.Result.{Result, ok, err}
use smoke_tester.Provision.Api.{
  Api, Client, HttpRequest, ApiError, http, get, post, delete, no_body, object, request,
}
use smoke_tester.Provision.Client.{
  account_path, calls_path, call_path, clients_path, client_path, list_live_calls, list_sip_clients,
  list_sip_clients_for_account, update_call, hangup_call, delete_call, delete_sip_client,
  delete_api_key,
}
use smoke_tester.Provision.Client.Delete.{All-delete_account, All-delete_sip_client}
use smoke_tester.Provision.Suite.{
  SuiteAccount, add_error, end_calls, calls_listed, end_clients, clients_listed, drop_key, teardown,
}
use smoke_tester.Provision.Sweeper.{listed_clients}
use smoke_tester.Provision.Types.{SipClient, CallSummary, is_live}

abbrev pub listed_calls : Result ApiError (List CallSummary) → List CallSummary
listed_calls (ok calls) = calls
listed_calls (err _) = []

abbrev pub hangup_request : Client → CallSummary → HttpRequest
hangup_request c lc =
    http c post (call_path c.account_sid lc.call_sid)
      (object ((codes "call_status", codes "completed") ∷ []))

abbrev pub delete_call_request : Client → CallSummary → HttpRequest
delete_call_request c lc = http c delete (call_path c.account_sid lc.call_sid) no_body

module _ {ℓ} (P : HttpRequest → Type ℓ) (api : Api) where
  All-hangup_call :
      (c : Client) (lc : CallSummary) (log : List HttpRequest)
      → P (hangup_request c lc)
      → All P log
      → All P (hangup_call api c lc.call_sid log).1
  unfolding hangup_call update_call request
  All-hangup_call c lc log p before = elim (Bool-cases (is_empty c.account_sid)) [
    | inl unscoped ↦ rw unscoped before
    | inr scoped ↦ rw scoped (p, before)
  ]

  All-delete_call :
      (c : Client) (lc : CallSummary) (log : List HttpRequest)
      → P (delete_call_request c lc)
      → All P log
      → All P (delete_call api c lc.call_sid log).1
  unfolding delete_call request
  All-delete_call c lc log p before = elim (Bool-cases (is_empty c.account_sid)) [
    | inl unscoped ↦ rw unscoped before
    | inr scoped ↦ rw scoped (p, before)
  ]

  All-end_calls :
      (c : Client) (errs : List ApiError) (calls : List CallSummary) (log : List HttpRequest)
      → ((lc : CallSummary)
          → Memᴰ lc calls
          → is_live lc ≡ true
          → P (hangup_request c lc) × P (delete_call_request c lc))
      → All P log
      → All P (end_calls api c errs calls log).1
  unfolding end_calls
  All-end_calls c errs [] log may before = before
  All-end_calls c errs (lc ∷ more) log may before = elim (Bool-cases (is_live lc)) [
    | inl live ↦
        let (h, d) = may lc (Memᴰ.head refl) live in
        let hung = hangup_call api c lc.call_sid log in
        let gone = delete_call api c lc.call_sid hung.1 in
        rw live (
          All-end_calls c (add_error gone.0 (add_error hung.0 errs)) more gone.1
            (λ x m e. may x (Memᴰ.tail m) e)
            (All-delete_call c lc hung.1 d (All-hangup_call c lc log h before)))
    | inr other ↦ rw other (All-end_calls c errs more log (λ x m e. may x (Memᴰ.tail m) e) before)
  ]

  All-end_clients :
      (c : Client) (sid : Text) (errs : List ApiError) (clients : List SipClient)
      (log : List HttpRequest)
      → ((cl : SipClient)
          → Memᴰ cl clients
          → cl.account_sid ≡ sid
          → P (http c delete (client_path cl.client_sid) no_body))
      → All P log
      → All P (end_clients api c sid errs clients log).1
  unfolding end_clients
  All-end_clients c sid errs [] log may before = before
  All-end_clients c sid errs (cl ∷ cls) log may before =
      elim (Bool-cases (text_eq cl.account_sid sid)) [
        | inl own ↦
            let gone = delete_sip_client api c cl.client_sid log in
            rw own (
              All-end_clients c sid (add_error gone.0 errs) cls gone.1
                (λ x m e. may x (Memᴰ.tail m) e)
                (All-delete_sip_client P api c cl.client_sid log before
                  (may cl (Memᴰ.head refl) ((text_eq_iff _ _).0 own))))
        | inr other ↦
            rw other (All-end_clients c sid errs cls log (λ x m e. may x (Memᴰ.tail m) e) before)
      ]

  All-calls_listed :
      (c : Client) (r : Result ApiError (List CallSummary)) (log : List HttpRequest)
      → ((lc : CallSummary)
          → Memᴰ lc (listed_calls r)
          → is_live lc ≡ true
          → P (hangup_request c lc) × P (delete_call_request c lc))
      → All P log
      → All P (calls_listed api c r log).1
  unfolding calls_listed
  All-calls_listed c (ok live) log may before = All-end_calls c [] live log may before
  All-calls_listed c (err e) log may before = before

  All-clients_listed :
      (c : Client) (sid : Text) (errs : List ApiError) (r : Result ApiError (List SipClient))
      (log : List HttpRequest)
      → ((cl : SipClient)
          → Memᴰ cl (listed_clients r)
          → cl.account_sid ≡ sid
          → P (http c delete (client_path cl.client_sid) no_body))
      → All P log
      → All P (clients_listed api c sid errs r log).1
  unfolding clients_listed
  All-clients_listed c sid errs (ok cls) log may before =
      All-end_clients c sid errs cls log may before
  All-clients_listed c sid errs (err e) log may before = before

  All-list_live_calls :
      (c : Client) (log : List HttpRequest)
      → P (http c get (calls_path c.account_sid) no_body)
      → All P log
      → All P (list_live_calls api c log).1
  unfolding list_live_calls request
  All-list_live_calls c log p before = elim (Bool-cases (is_empty c.account_sid)) [
    | inl unscoped ↦ rw unscoped before
    | inr scoped ↦ rw scoped (p, before)
  ]

  All-list_clients :
      (c : Client) (sid : Text) (log : List HttpRequest)
      → P (http c get clients_path no_body)
      → All P log
      → All P (list_sip_clients_for_account api c sid log).1
  unfolding list_sip_clients_for_account list_sip_clients request
  All-list_clients c sid log p before = (p, before)

  All-drop_key :
      (c : Client) (key : Text) (log : List HttpRequest)
      → P (http c delete (codes "/ApiKeys/" ++ key) no_body)
      → All P log
      → All P (drop_key api c key log).1
  unfolding drop_key delete_api_key request
  All-drop_key c key log p before = elim (Bool-cases (is_empty key)) [
    | inl unkeyed ↦ rw unkeyed before
    | inr keyed ↦ rw keyed (p, before)
  ]

-- The requests of a teardown, for the calls and clients that were listed.
pub data IsTeardownRequest (s : SuiteAccount) (calls : List CallSummary) (clients : List SipClient)
    (r : HttpRequest) : Type 0 where
  lists :
      (r ≡ http s.account_client get (calls_path s.account_client.account_sid) no_body)
        ⊎ (r ≡ http s.sp_client get clients_path no_body)
      → IsTeardownRequest s calls clients r
  of_call :
      (lc : CallSummary)
      → Memᴰ lc calls
      → is_live lc ≡ true
      → (r ≡ hangup_request s.account_client lc) ⊎ (r ≡ delete_call_request s.account_client lc)
      → IsTeardownRequest s calls clients r
  of_client :
      (cl : SipClient)
      → Memᴰ cl clients
      → cl.account_sid ≡ s.account_sid
      → r ≡ http s.sp_client delete (client_path cl.client_sid) no_body
      → IsTeardownRequest s calls clients r
  of_key :
      r ≡ http s.sp_client delete (codes "/ApiKeys/" ++ s.api_key_sid) no_body
      → IsTeardownRequest s calls clients r
  of_account :
      (r ≡ http s.sp_client delete (account_path s.account_sid) no_body)
        ⊎ (r ≡ http s.sp_client get (account_path s.account_sid) no_body)
      → IsTeardownRequest s calls clients r

-- The live calls and the clients that a teardown is told of.
abbrev pub calls_of : Api → SuiteAccount → List CallSummary
calls_of api s = listed_calls (list_live_calls api s.account_client []).0

abbrev pub clients_of : Api → SuiteAccount → List SipClient
clients_of api s =
    let live = list_live_calls api s.account_client [] in
    let errs = calls_listed api s.account_client live.0 live.1 in
    listed_clients (list_sip_clients_for_account api s.sp_client s.account_sid errs.1).0

-- A teardown stays within its suite, whatever the server answers: beyond the two lists, its
-- requests end listed calls that are live, delete listed clients of the suite's account, delete
-- the suite's API key, and delete the suite's account or read it behind a failed deletion.
pub teardown-IsTeardownRequest :
    (api : Api) (s : SuiteAccount)
    → All (IsTeardownRequest s (calls_of api s) (clients_of api s)) (teardown api s []).1
unfolding teardown
teardown-IsTeardownRequest api s =
    All-delete_account P api s.sp_client s.account_sid key.1
      (All-drop_key P api s.sp_client s.api_key_sid gone.1 (of_key refl) (
        All-clients_listed P api s.sp_client s.account_sid errs.0 clients.0 clients.1
          (λ cl m e. of_client cl m e refl)
          (All-list_clients P api s.sp_client s.account_sid errs.1 (lists (inr refl)) (
            All-calls_listed P api s.account_client live.0 live.1
              (λ lc m e. (of_call lc m e (inl refl), of_call lc m e (inr refl)))
              (All-list_live_calls P api s.account_client [] (lists (inl refl)) tt)))))
      (of_account (inl refl)) (of_account (inr refl))
  where
    live : Result ApiError (List CallSummary) × List HttpRequest
    live = list_live_calls api s.account_client []

    errs : List ApiError × List HttpRequest
    errs = calls_listed api s.account_client live.0 live.1

    clients : Result ApiError (List SipClient) × List HttpRequest
    clients = list_sip_clients_for_account api s.sp_client s.account_sid errs.1

    gone : List ApiError × List HttpRequest
    gone = clients_listed api s.sp_client s.account_sid errs.0 clients.0 clients.1

    key : Unit {0} × List HttpRequest
    key = drop_key api s.sp_client s.api_key_sid gone.1

    P : HttpRequest → Type 0
    P = IsTeardownRequest s (calls_of api s) (clients_of api s)
