-- ===== src/Provision/Resources/Managed/Cleanup.antt =====
-- The end of a test deletes what the test was given.
use smoke_tester.Prelude.{◌≡◌, refl, sym, subst, ap, ◌∙◌, Option, none, some, List, [], ◌∷◌, map}
use smoke_tester.Prelude.Result.{Result, ok, err}
use smoke_tester.Prelude.Text.{Text}
use smoke_tester.Provision.Api.{
  Api, Client, M, HttpRequest, ApiError, request, http, delete, no_body,
}
use smoke_tester.Provision.Client.{client_path, delete_sip_client}
use smoke_tester.Provision.Resources.{
  create_application, create_voip_carrier, application_path, voip_carrier_path, removed,
  delete_application, delete_voip_carrier,
}
use smoke_tester.Provision.Resources.Trunks.{
  provision_phone_number, create_sip_gateway, create_lcr, create_ms_teams_tenant, phone_number_path,
  sip_gateway_path, lcr_path, ms_teams_tenant_path, delete_phone_number, delete_sip_gateway,
  delete_lcr, delete_ms_teams_tenant,
}
use smoke_tester.Provision.Resources.Credentials.{
  create_account_speech_credential, create_sip_client, credential_path,
  delete_account_speech_credential,
}
use smoke_tester.Provision.Resources.Managed.{
  client_body, managed_application, managed_voip_carrier, managed_phone_number, managed_sip_gateway,
  managed_lcr, managed_ms_teams_tenant, managed_account_speech_credential, managed_sip_client,
  Managed, application, voip_carrier, phone_number, sip_gateway, lcr, ms_teams_tenant,
  speech_credential, sip_client, Test, register, manage, ask, run_cleanups,
}

-- Where a resource lives.
path_of : Managed → Text → Text
path_of (application b) sid = application_path sid
path_of (voip_carrier b) sid = voip_carrier_path sid
path_of (phone_number b) sid = phone_number_path sid
path_of (sip_gateway b) sid = sip_gateway_path sid
path_of (lcr b) sid = lcr_path sid
path_of (ms_teams_tenant b) sid = ms_teams_tenant_path sid
path_of (speech_credential account b) sid = credential_path account sid
path_of (sip_client user password) sid = client_path sid

-- The request that creates a resource and the clean-up of a SID.
create : Api → Client → Managed → M (Result ApiError Text)
unfolding create_application create_voip_carrier provision_phone_number create_sip_gateway
    create_lcr create_ms_teams_tenant create_account_speech_credential create_sip_client
create api c (application b) = create_application api c b
create api c (voip_carrier b) = create_voip_carrier api c b
create api c (phone_number b) = provision_phone_number api c b
create api c (sip_gateway b) = create_sip_gateway api c b
create api c (lcr b) = create_lcr api c b
create api c (ms_teams_tenant b) = create_ms_teams_tenant api c b
create api c (speech_credential account b) = create_account_speech_credential api c account b
create api c (sip_client user password) = create_sip_client api c (client_body c user password)

-- The clean-up that is registered for a SID.
clean_up : Api → Client → Managed → Text → M (Option ApiError)
unfolding delete_application delete_voip_carrier delete_phone_number delete_sip_gateway delete_lcr
    delete_ms_teams_tenant delete_account_speech_credential delete_sip_client
clean_up api c (application b) sid = delete_application api c sid
clean_up api c (voip_carrier b) sid = delete_voip_carrier api c sid
clean_up api c (phone_number b) sid = delete_phone_number api c sid
clean_up api c (sip_gateway b) sid = delete_sip_gateway api c sid
clean_up api c (lcr b) sid = delete_lcr api c sid
clean_up api c (ms_teams_tenant b) sid = delete_ms_teams_tenant api c sid
clean_up api c (speech_credential account b) sid =
    delete_account_speech_credential api c account sid
clean_up api c (sip_client user password) sid = delete_sip_client api c sid

unfoldable pub deletion : Client → Managed × Text → HttpRequest
unfolding path_of
deletion c (m, sid) = http c delete (path_of m sid) no_body

-- The elements one by one in front of a list.
unfoldable pub onto {ℓ} : {A : Type ℓ} → List A → List A → List A
onto [] acc = acc
onto (x ∷ xs) acc = onto xs (x ∷ acc)

abbrev pub started : List HttpRequest → Test
started log = record { log = log; cleanups = []; made = []; failed = none }

manage-register :
    (api : Api) (c : Client) (m : Managed) (t : Test)
    → manage api c m t ≡ register (clean_up api c m) m t (create api c m t.log)
unfolding manage create clean_up managed_application managed_voip_carrier managed_phone_number
    managed_sip_gateway managed_lcr managed_ms_teams_tenant managed_account_speech_credential
    managed_sip_client
manage-register api c (application b) t = refl
manage-register api c (voip_carrier b) t = refl
manage-register api c (phone_number b) t = refl
manage-register api c (sip_gateway b) t = refl
manage-register api c (lcr b) t = refl
manage-register api c (ms_teams_tenant b) t = refl
manage-register api c (speech_credential account b) t = refl
manage-register api c (sip_client user password) t = refl

clean_up-sends :
    (api : Api) (c : Client) (m : Managed) (sid : Text) (log : List HttpRequest)
    → (clean_up api c m sid log).1 ≡ deletion c (m, sid) ∷ log
unfolding clean_up deletion path_of removed request delete_application delete_voip_carrier
    delete_phone_number delete_sip_gateway delete_lcr delete_ms_teams_tenant
    delete_account_speech_credential delete_sip_client
clean_up-sends api c (application b) sid log = refl
clean_up-sends api c (voip_carrier b) sid log = refl
clean_up-sends api c (phone_number b) sid log = refl
clean_up-sends api c (sip_gateway b) sid log = refl
clean_up-sends api c (lcr b) sid log = refl
clean_up-sends api c (ms_teams_tenant b) sid log = refl
clean_up-sends api c (speech_credential account b) sid log = refl
clean_up-sends api c (sip_client user password) sid log = refl

module _ (api : Api) (c : Client) where
  cleanups_of : List (Managed × Text) → List (M (Option ApiError))
  cleanups_of made = map (λ p. clean_up api c p.0 p.1) made

  run_cleanups-sends :
      (made : List (Managed × Text)) (log : List HttpRequest)
      → (run_cleanups (cleanups_of made) log).1 ≡ onto (map (deletion c) made) log
  unfolding run_cleanups cleanups_of onto
  run_cleanups-sends [] log = refl
  run_cleanups-sends ((m, sid) ∷ more) log =
      run_cleanups-sends more (clean_up api c m sid log).1
      ∙ ap (onto (map (deletion c) more)) (clean_up-sends api c m sid log)

  -- What each step keeps: a clean-up for each SID, in the same order.
  abbrev IsCovered : Test → Type 0
  IsCovered t = t.cleanups ≡ cleanups_of t.made

  register-IsCovered :
      (m : Managed) (t : Test) (r : Result ApiError Text × List HttpRequest)
      → IsCovered t
      → IsCovered (register (clean_up api c m) m t r)
  unfolding register cleanups_of
  register-IsCovered m t (err e, log) h = h
  register-IsCovered m t (ok sid, log) h = ap (clean_up api c m sid ∷◌) h

  asked-IsCovered :
      (ms : List Managed) (t : Test) (f : Option ApiError)
      → ((t : Test) → IsCovered t → IsCovered (ask api c ms t))
      → (m : Managed) → IsCovered t
      → IsCovered (elim f [ some e ↦ t | none ↦ ask api c ms (manage api c m t) ])
  asked-IsCovered ms t none rest m h = rest (manage api c m t) (
      subst IsCovered (sym (manage-register api c m t))
        (register-IsCovered m t (create api c m t.log) h))
  asked-IsCovered ms t (some e) rest m h = h

  ask-IsCovered : (ms : List Managed) (t : Test) → IsCovered t → IsCovered (ask api c ms t)
  unfolding ask
  ask-IsCovered [] t h = h
  ask-IsCovered (m ∷ ms) t h = asked-IsCovered ms t t.failed (ask-IsCovered ms) m h

  -- A test that failed asks for nothing more.
  ask-failed :
      (ms : List Managed) (t : Test) (e : ApiError) → t.failed ≡ some e → ask api c ms t ≡ t
  unfolding ask
  ask-failed [] t e h = refl
  ask-failed (m ∷ ms) t e h =
      ap (λ f. elim f [ some e ↦ t | none ↦ ask api c ms (manage api c m t) ]) h

  -- Of a test that did not fail, what it was given is what it asked for.
  IsGiven : List Managed → Test → Type 0
  IsGiven ms t =
      (ask api c ms t).failed ≡ none
      → map (λ p. p.0) (ask api c ms t).made ≡ onto ms (map (λ p. p.0) t.made)

  IsGivenBy : Managed → List Managed → Test → Test → Type 0
  IsGivenBy m ms t v =
      (ask api c ms v).failed ≡ none
      → map (λ p. p.0) (ask api c ms v).made ≡ onto ms (m ∷ map (λ p. p.0) t.made)

  registered-IsGiven :
      (m : Managed) (ms : List Managed) (t : Test) (r : Result ApiError Text × List HttpRequest)
      → ((t : Test) → t.failed ≡ none → IsGiven ms t)
      → t.failed ≡ none
      → (ask api c ms (register (clean_up api c m) m t r)).failed ≡ none
      → map (λ p. p.0) (ask api c ms (register (clean_up api c m) m t r)).made
        ≡ onto ms (m ∷ map (λ p. p.0) t.made)
  unfolding register IsGiven IsGivenBy
  registered-IsGiven m ms t (err e, log) rest h k =
      absurd
        (cc (ap Test.failed (ask-failed ms (record t { log = log; failed = some e }) e refl), k))
  registered-IsGiven m ms t (ok sid, log) rest h k =
      rest (register (clean_up api c m) m t (ok sid, log)) h k

  ask-IsGiven : (ms : List Managed) (t : Test) → t.failed ≡ none → IsGiven ms t
  unfolding ask onto IsGiven IsGivenBy
  ask-IsGiven [] t h = λ k. refl
  ask-IsGiven (m ∷ ms) t h =
      subst
        (λ f.
          let u : Test = elim f [ some e ↦ t | none ↦ ask api c ms (manage api c m t) ] in
          u.failed ≡ none → map (λ p. p.0) u.made ≡ onto ms (m ∷ map (λ p. p.0) t.made))
        (sym h)
        (subst (IsGivenBy m ms t) (sym (manage-register api c m t))
          (registered-IsGiven m ms t (create api c m t.log) (ask-IsGiven ms) h))

  -- A test that asks one client for applications, carriers, phone numbers, gateways, LCRs, Teams
  -- tenants, speech credentials and SIP clients through their Managed methods, up to the first that
  -- cannot be had: its end attempts one DELETE, with the client's token, for each SID that the test
  -- was given, the last one first, and no other request; a DELETE that fails does not keep the
  -- others from being attempted. If none failed, the test was given what it asked for.
  pub run_cleanups-onto :
      (ms : List Managed) (log : List HttpRequest)
      → let t = ask api c ms (started log) in
        ((run_cleanups t.cleanups t.log).1 ≡ onto (map (deletion c) t.made) t.log)
        × (t.failed ≡ none → map (λ p. p.0) t.made ≡ onto ms [])
  unfolding cleanups_of IsGiven
  run_cleanups-onto ms log =
      let t : Test = ask api c ms (started log) in
      (
        ap (λ fs. (run_cleanups fs t.log).1) (ask-IsCovered ms (started log) refl)
            ∙ run_cleanups-sends t.made t.log,
        ask-IsGiven ms (started log) refl,
      )
