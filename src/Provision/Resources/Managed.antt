-- ===== src/Provision/Resources/Managed.antt =====
-- The Managed methods of internal/provision, which create a resource for a test and delete it at its
-- end. testing.T is its list of clean-ups, the last one first; it runs them in this order.
pub mod Cleanup
use smoke_tester.Prelude.{Option, none, some, List, [], ◌∷◌}
use smoke_tester.Prelude.Result.{Result, ok, err}
use smoke_tester.Prelude.Text.{Text, codes}
use smoke_tester.Provision.Api.{Api, Client, M, HttpRequest, Body, object, ApiError}
use smoke_tester.Provision.Client.{delete_sip_client}
use smoke_tester.Provision.Resources.{
  create_application, delete_application, create_voip_carrier, delete_voip_carrier,
}
use smoke_tester.Provision.Resources.Trunks.{
  provision_phone_number, delete_phone_number, create_sip_gateway, delete_sip_gateway, create_lcr,
  delete_lcr, create_ms_teams_tenant, delete_ms_teams_tenant,
}
use smoke_tester.Provision.Resources.Credentials.{
  create_account_speech_credential, delete_account_speech_credential, create_sip_client,
}

-- What a test asks for: the resource, and its body as encoding/json writes it. The user and the
-- password of a SIP client are drawn by the method, here they are given.
pub data Managed : Type 0 where
  application voip_carrier phone_number sip_gateway lcr ms_teams_tenant : Body → Managed
  speech_credential : Text → Body → Managed
  sip_client : Text → Text → Managed

-- A test: the requests, the clean-ups, the SIDs that the Managed methods gave, the last one first,
-- and whether t.Fatalf ended it.
pub record Test : Type 0 where
  pub log : List HttpRequest
  pub cleanups : List (M (Option ApiError))
  pub made : List (Managed × Text)
  pub failed : Option ApiError

-- The steps that the methods share: the clean-up of a SID, or the end of the test.
unfoldable pub register :
    (Text → M (Option ApiError)) → Managed → Test → Result ApiError Text × List HttpRequest → Test
register clean_up m t (err e, log) = record t { log = log; failed = some e }
register clean_up m t (ok sid, log) = record t {
  log = log;
  cleanups = clean_up sid ∷ t.cleanups;
  made = (m, sid) ∷ t.made;
}

unfoldable pub managed_application : Api → Client → Body → Test → Test
unfolding register create_application delete_application
managed_application api c b t =
    register (delete_application api c) (application b) t (create_application api c b t.log)

unfoldable pub managed_voip_carrier : Api → Client → Body → Test → Test
unfolding register create_voip_carrier delete_voip_carrier
managed_voip_carrier api c b t =
    register (delete_voip_carrier api c) (voip_carrier b) t (create_voip_carrier api c b t.log)

unfoldable pub managed_phone_number : Api → Client → Body → Test → Test
unfolding register provision_phone_number delete_phone_number
managed_phone_number api c b t =
    register (delete_phone_number api c) (phone_number b) t (provision_phone_number api c b t.log)

unfoldable pub managed_sip_gateway : Api → Client → Body → Test → Test
unfolding register create_sip_gateway delete_sip_gateway
managed_sip_gateway api c b t =
    register (delete_sip_gateway api c) (sip_gateway b) t (create_sip_gateway api c b t.log)

unfoldable pub managed_lcr : Api → Client → Body → Test → Test
unfolding register create_lcr delete_lcr
managed_lcr api c b t = register (delete_lcr api c) (lcr b) t (create_lcr api c b t.log)

unfoldable pub managed_ms_teams_tenant : Api → Client → Body → Test → Test
unfolding register create_ms_teams_tenant delete_ms_teams_tenant
managed_ms_teams_tenant api c b t =
    register (delete_ms_teams_tenant api c) (ms_teams_tenant b) t
      (create_ms_teams_tenant api c b t.log)

unfoldable pub managed_account_speech_credential : Api → Client → Text → Body → Test → Test
unfolding register create_account_speech_credential delete_account_speech_credential
managed_account_speech_credential api c account b t =
    register (delete_account_speech_credential api c account) (speech_credential account b) t
      (create_account_speech_credential api c account b t.log)

-- The body of CreateSIPClient with the fields that are set.
unfoldable pub client_body : Client → Text → Text → Body
client_body c user password = object (
    (codes "account_sid", c.account_sid)
    ∷ (codes "username", user)
    ∷ (codes "password", password)
    ∷ (codes "is_active", codes "1")
    ∷ [])

unfoldable pub managed_sip_client : Api → Client → Text → Text → Test → Test
unfolding register create_sip_client client_body delete_sip_client
managed_sip_client api c user password t =
    register (delete_sip_client api c) (sip_client user password) t
      (create_sip_client api c (client_body c user password) t.log)

unfoldable pub manage : Api → Client → Managed → Test → Test
unfolding managed_application managed_voip_carrier managed_phone_number managed_sip_gateway
    managed_lcr managed_ms_teams_tenant managed_account_speech_credential managed_sip_client
manage api c (application b) t = managed_application api c b t
manage api c (voip_carrier b) t = managed_voip_carrier api c b t
manage api c (phone_number b) t = managed_phone_number api c b t
manage api c (sip_gateway b) t = managed_sip_gateway api c b t
manage api c (lcr b) t = managed_lcr api c b t
manage api c (ms_teams_tenant b) t = managed_ms_teams_tenant api c b t
manage api c (speech_credential account b) t = managed_account_speech_credential api c account b t
manage api c (sip_client user password) t = managed_sip_client api c user password t

-- A test that asks for one resource after another, up to the first that cannot be had.
unfoldable pub ask : Api → Client → List Managed → Test → Test
unfolding manage
ask api c [] t = t
ask api c (m ∷ ms) t = elim t.failed [ some e ↦ t | none ↦ ask api c ms (manage api c m t) ]

-- The end of the test: each clean-up runs, and its error is only logged.
unfoldable pub run_cleanups : List (M (Option ApiError)) → M (List ApiError)
run_cleanups [] log = ([], log)
run_cleanups (f ∷ fs) log =
    let r = f log in
    let rest = run_cleanups fs r.1 in (elim r.0 [ some e ↦ e ∷ rest.0 | none ↦ rest.0 ], rest.1)
