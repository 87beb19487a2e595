-- ===== src/Provision/Suite/Complete.antt =====
-- Tearing a suite down: nothing that was listed is left out.
use mathlib.Core.List.{Memᴰ}
use mathlib.Core.List.Memᴰ
use smoke_tester.Prelude.{◌≡◌, inl, inr, refl, subst, false, true, List, [], ◌∷◌, Bool-cases}
use smoke_tester.Prelude.Text.{Text, is_empty}
use smoke_tester.Prelude.Result.{Result, ok, err}
use smoke_tester.Provision.Api.{Api, Client, HttpRequest, ApiError, request}
use smoke_tester.Provision.Api.Request.{IsTried, IsTried-Memᴰ}
use smoke_tester.Provision.Client.{
  list_live_calls, list_sip_clients_for_account, update_call, hangup_call, delete_call,
}
use smoke_tester.Provision.Client.Delete.{delete_account-keeps}
use smoke_tester.Provision.Suite.{
  SuiteAccount, add_error, end_calls, calls_listed, clients_listed, drop_key, teardown,
}
use smoke_tester.Provision.Suite.Keeps.{
  delete_call-keeps, end_calls-keeps, clients_listed-keeps, list_clients-keeps, drop_key-keeps,
}
use smoke_tester.Provision.Suite.Teardown.{
  listed_calls, hangup_request, delete_call_request, calls_of,
}
use smoke_tester.Provision.Types.{SipClient, CallSummary, is_live}

abbrev Ended : Client → CallSummary → List HttpRequest → Type 0
Ended c lc log = Memᴰ (hangup_request c lc) log × Memᴰ (delete_call_request c lc) log

hangup_call-sends :
    (api : Api) (c : Client) (lc : CallSummary) (log : List HttpRequest)
    → is_empty c.account_sid ≡ false
    → Memᴰ (hangup_request c lc) (hangup_call api c lc.call_sid log).1
unfolding hangup_call update_call request
hangup_call-sends api c lc log scoped = rw scoped (Memᴰ.head refl)

delete_call-sends :
    (api : Api) (c : Client) (lc : CallSummary) (log : List HttpRequest)
    → is_empty c.account_sid ≡ false
    → Memᴰ (delete_call_request c lc) (delete_call api c lc.call_sid log).1
unfolding delete_call request
delete_call-sends api c lc log scoped = rw scoped (Memᴰ.head refl)

module _ (api : Api) (c : Client) (scoped : is_empty c.account_sid ≡ false) (lc : CallSummary)
    (live : is_live lc ≡ true) where
  end_calls-first :
      (x : CallSummary) (errs : List ApiError) (more : List CallSummary) (log : List HttpRequest)
      → lc ≡ x
      → Ended c lc (end_calls api c errs (x ∷ more) log).1
  unfolding end_calls
  end_calls-first x errs more log e =
      let hung = hangup_call api c lc.call_sid log in
      let gone = delete_call api c lc.call_sid hung.1 in
      let all = add_error gone.0 (add_error hung.0 errs) in
      subst (λ y. Ended c lc (end_calls api c errs (y ∷ more) log).1) e
        (rw live (
          end_calls-keeps api (hangup_request c lc) c all more gone.1 (
              delete_call-keeps api (hangup_request c lc) c lc.call_sid hung.1
                (hangup_call-sends api c lc log scoped)),
          end_calls-keeps api (delete_call_request c lc) c all more gone.1
              (delete_call-sends api c lc hung.1 scoped),
        ))

  end_calls-ends :
      (errs : List ApiError) (calls : List CallSummary) (log : List HttpRequest)
      → Memᴰ lc calls
      → Ended c lc (end_calls api c errs calls log).1
  unfolding end_calls
  end_calls-ends errs [] log m = absurd (Memᴰ.not-nil m)
  end_calls-ends errs (x ∷ more) log (Memᴰ.head e) = end_calls-first x errs more log e
  end_calls-ends errs (x ∷ more) log (Memᴰ.tail m) = elim (Bool-cases (is_live x)) [
    | inl alive ↦
        let hung = hangup_call api c x.call_sid log in
        let gone = delete_call api c x.call_sid hung.1 in
        rw alive (end_calls-ends (add_error gone.0 (add_error hung.0 errs)) more gone.1 m)
    | inr other ↦ rw other (end_calls-ends errs more log m)
  ]

  calls_listed-ends :
      (r : Result ApiError (List CallSummary)) (log : List HttpRequest)
      → Memᴰ lc (listed_calls r)
      → Ended c lc (calls_listed api c r log).1
  unfolding calls_listed
  calls_listed-ends (ok calls) log m = end_calls-ends [] calls log m
  calls_listed-ends (err e) log m = absurd (Memᴰ.not-nil m)

module _ (api : Api) (s : SuiteAccount) where
  listed : Result ApiError (List CallSummary) × List HttpRequest
  listed = list_live_calls api s.account_client []

  ended : List ApiError × List HttpRequest
  ended = calls_listed api s.account_client listed.0 listed.1

  found : Result ApiError (List SipClient) × List HttpRequest
  found = list_sip_clients_for_account api s.sp_client s.account_sid ended.1

  gone : List ApiError × List HttpRequest
  gone = clients_listed api s.sp_client s.account_sid ended.0 found.0 found.1

  key_dropped : Unit {0} × List HttpRequest
  key_dropped = drop_key api s.sp_client s.api_key_sid gone.1

  teardown-keeps : (q : HttpRequest) → Memᴰ q gone.1 → Memᴰ q (teardown api s []).1
  unfolding teardown key_dropped gone found ended listed
  teardown-keeps q m =
      delete_account-keeps api s.sp_client s.account_sid q key_dropped.1
        (drop_key-keeps api q s.sp_client s.api_key_sid gone.1 m)

  gone-keeps : (q : HttpRequest) → Memᴰ q ended.1 → Memᴰ q gone.1
  unfolding gone found
  gone-keeps q m =
      clients_listed-keeps api q s.sp_client s.account_sid ended.0 found.0 found.1
        (list_clients-keeps api q s.sp_client s.account_sid ended.1 m)

-- A teardown by a client with an account attempts to hang up and to delete each live call that it
-- was told of, whatever the attempts before came to. Both requests are sent as long as every request
-- can be built and no context runs out, neither the one of the teardown nor the shorter one of the
-- calls.
pub teardown-ends_calls :
    (api : Api) (s : SuiteAccount) (lc : CallSummary)
    → is_empty s.account_client.account_sid ≡ false
    → is_live lc ≡ true
    → Memᴰ lc (calls_of api s)
    → IsTried api (hangup_request s.account_client lc) (teardown api s []).1
      × IsTried api (delete_call_request s.account_client lc) (teardown api s []).1
unfolding listed ended
teardown-ends_calls api s lc scoped alive m =
    let e =
      calls_listed-ends api s.account_client scoped lc alive (listed api s).0 (listed api s).1 m in
    (
      IsTried-Memᴰ api _ _ (teardown-keeps api s _ (gone-keeps api s _ e.0)),
      IsTried-Memᴰ api _ _ (teardown-keeps api s _ (gone-keeps api s _ e.1)),
    )
