-- ===== src/Provision/Resources.antt =====
-- The methods on the resources that a test provisions: the steps that they share, applications.go
-- and voip_carriers.go of internal/provision. What encoding/json makes of a request is an argument,
-- and so are the decoders and url.Values.Encode.
pub mod Trunks
pub mod Credentials
pub mod Managed
use smoke_tester.Prelude.{Option, [], ◌++◌}
use smoke_tester.Prelude.Bytes.{Bytes}
use smoke_tester.Prelude.Result.{Result}
use smoke_tester.Prelude.Text.{Text, codes}
use smoke_tester.Provision.Api.{
  Api, Client, M, return, ◌>>=◌, get, post, put, delete, no_body, Body, ApiError, request, decoded,
  unless_status, error_of,
}

-- The steps that the methods share: one request, and what is made of its result.
unfoldable pub created : Api → Client → Text → Body → Text → M (Result ApiError Text)
unfolding decoded request
created api c path body schema_path = do
  r ← request api c post path body schema_path 201
  return (decoded api.decode_sid r)

unfoldable pub fetched {ℓ} :
    {A : Type ℓ} → Api → Client → (Bytes → Option A) → Text → Text → M (Result ApiError A)
unfolding decoded request
fetched api c decoder path schema_path = do
  r ← request api c get path no_body schema_path 200
  return (decoded decoder r)

unfoldable pub replaced : Api → Client → Text → Body → M (Option ApiError)
unfolding request
replaced api c path body = do r ← request api c put path body [] 204; return (error_of r)

-- A resource that is gone counts as deleted.
unfoldable pub removed : Api → Client → Text → M (Option ApiError)
unfolding unless_status request
removed api c path = do r ← request api c delete path no_body [] 204; return (unless_status 404 r)

abbrev pub applications_path : Text
applications_path = codes "/Applications"

abbrev pub application_path : Text → Text
application_path sid = codes "/Applications/" ++ sid

unfoldable pub create_application : Api → Client → Body → M (Result ApiError Text)
unfolding created
create_application api c body =
    created api c applications_path body
      (codes "rest/applications/createApplication.response.201.json")

unfoldable pub get_application {ℓ} :
    {A : Type ℓ} → Api → Client → (Bytes → Option A) → Text → M (Result ApiError A)
unfolding fetched
get_application api c decoder sid =
    fetched api c decoder (application_path sid)
      (codes "rest/applications/getApplication.response.200.json")

unfoldable pub list_applications {ℓ} :
    {A : Type ℓ} → Api → Client → (Bytes → Option A) → M (Result ApiError A)
unfolding fetched
list_applications api c decoder =
    fetched api c decoder applications_path
      (codes "rest/applications/listApplications.response.200.json")

unfoldable pub update_application : Api → Client → Text → Body → M (Option ApiError)
unfolding replaced
update_application api c sid body = replaced api c (application_path sid) body

unfoldable pub delete_application : Api → Client → Text → M (Option ApiError)
unfolding removed
delete_application api c sid = removed api c (application_path sid)

abbrev pub voip_carriers_path : Text
voip_carriers_path = codes "/VoipCarriers"

abbrev pub voip_carrier_path : Text → Text
voip_carrier_path sid = codes "/VoipCarriers/" ++ sid

unfoldable pub create_voip_carrier : Api → Client → Body → M (Result ApiError Text)
unfolding created
create_voip_carrier api c body =
    created api c voip_carriers_path body
      (codes "rest/voip_carriers/createVoipCarrier.response.201.json")

unfoldable pub get_voip_carrier {ℓ} :
    {A : Type ℓ} → Api → Client → (Bytes → Option A) → Text → M (Result ApiError A)
unfolding fetched
get_voip_carrier api c decoder sid =
    fetched api c decoder (voip_carrier_path sid)
      (codes "rest/voip_carriers/getVoipCarrier.response.200.json")

unfoldable pub list_voip_carriers {ℓ} :
    {A : Type ℓ} → Api → Client → (Bytes → Option A) → M (Result ApiError A)
unfolding fetched
list_voip_carriers api c decoder =
    fetched api c decoder voip_carriers_path
      (codes "rest/voip_carriers/listVoipCarriers.response.200.json")

unfoldable pub update_voip_carrier : Api → Client → Text → Body → M (Option ApiError)
unfolding replaced
update_voip_carrier api c sid body = replaced api c (voip_carrier_path sid) body

unfoldable pub delete_voip_carrier : Api → Client → Text → M (Option ApiError)
unfolding removed
delete_voip_carrier api c sid = removed api c (voip_carrier_path sid)

abbrev carriers_of : Text → Text
carriers_of sp = codes "/ServiceProviders/" ++ (sp ++ codes "/VoipCarriers")

unfoldable pub create_voip_carrier_under_sp : Api → Client → Text → Body → M (Result ApiError Text)
unfolding created
create_voip_carrier_under_sp api c sp body =
    created api c (carriers_of sp) body
      (codes "rest/voip_carriers/createCarrierForServiceProvider.response.201.json")

unfoldable pub list_voip_carriers_under_sp {ℓ} :
    {A : Type ℓ} → Api → Client → (Bytes → Option A) → Text → M (Result ApiError A)
unfolding fetched
list_voip_carriers_under_sp api c decoder sp =
    fetched api c decoder (carriers_of sp)
      (codes "rest/voip_carriers/getServiceProviderCarriers.response.200.json")
