-- ===== src/Provision/Resources/Credentials.antt =====
-- speech_credentials.go of internal/provision, and the creation in sip_clients.go.
use smoke_tester.Prelude.{Option, none, some, [], ◌∷◌, ◌++◌, if◌then◌else◌}
use smoke_tester.Prelude.Bytes.{Bytes}
use smoke_tester.Prelude.Result.{Result, ok, err}
use smoke_tester.Prelude.Text.{Text, codes, text_eq}
use smoke_tester.Provision.Api.{Api, Client, M, return, ◌>>=◌, Body, ApiError, unless_status}
use smoke_tester.Provision.Client.{account_path, clients_path}
use smoke_tester.Provision.Resources.{created, fetched, removed}

-- Speech credentials of an account.
abbrev pub credentials_path : Text → Text
credentials_path account = account_path account ++ codes "/SpeechCredentials"

abbrev pub credential_path : Text → Text → Text
credential_path account sid = credentials_path account ++ (b'/' ∷ sid)

unfoldable pub create_account_speech_credential :
    Api → Client → Text → Body → M (Result ApiError Text)
unfolding created
create_account_speech_credential api c account body =
    created api c (credentials_path account) body
      (codes "rest/speech_credentials/createSpeechCredential.response.201.json")

-- The status that is returned, and the error beside it: of the request, or the test's reason.
unfoldable pub credential_result :
    Result ApiError (Text × Text) → Text × Option (Result ApiError Text)
unfolding text_eq
credential_result (err e) = ([], some (err e))
credential_result (ok (status, reason)) =
    if text_eq status (codes "ok") then (status, none) else (status, some (ok reason))

unfoldable pub test_account_speech_credential :
    Api
    → Client
    → (Bytes → Option (Text × Text))
    → Text
    → Text
    → M (Text × Option (Result ApiError Text))
unfolding fetched credential_result
test_account_speech_credential api c decoder account sid = do
  r ← fetched api c decoder (credential_path account sid ++ codes "/test") []
  return (credential_result r)

-- 404 and 401 both count as deleted.
gone : Option ApiError → Option ApiError
gone none = none
gone (some e) = unless_status {A = Bytes} 401 (err e)

unfoldable pub delete_account_speech_credential : Api → Client → Text → Text → M (Option ApiError)
unfolding removed gone
delete_account_speech_credential api c account sid = do
  e ← removed api c (credential_path account sid)
  return (gone e)

-- The body of CreateSIPClient with the fields that ManagedSIPClient sets.
unfoldable pub create_sip_client : Api → Client → Body → M (Result ApiError Text)
unfolding created
create_sip_client api c body =
    created api c clients_path body (codes "rest/clients/createClient.response.201.json")
