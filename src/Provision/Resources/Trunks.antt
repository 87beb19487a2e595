-- ===== src/Provision/Resources/Trunks.antt =====
-- phone_numbers.go, sip_gateways.go, lcrs.go and ms_teams_tenants.go of internal/provision.
use smoke_tester.Prelude.{Option, List, [], ◌∷◌, ◌++◌}
use smoke_tester.Prelude.Bytes.{Bytes}
use smoke_tester.Prelude.Result.{Result}
use smoke_tester.Prelude.Text.{Text, codes}
use smoke_tester.Provision.Api.{Api, Client, M, Body, ApiError}
use smoke_tester.Provision.Resources.{created, fetched, removed}

abbrev pub phone_numbers_path : Text
phone_numbers_path = codes "/PhoneNumbers"

abbrev pub phone_number_path : Text → Text
phone_number_path sid = codes "/PhoneNumbers/" ++ sid

unfoldable pub provision_phone_number : Api → Client → Body → M (Result ApiError Text)
unfolding created
provision_phone_number api c body =
    created api c phone_numbers_path body
      (codes "rest/phone_numbers/provisionPhoneNumber.response.201.json")

unfoldable pub get_phone_number {ℓ} :
    {A : Type ℓ} → Api → Client → (Bytes → Option A) → Text → M (Result ApiError A)
unfolding fetched
get_phone_number api c decoder sid =
    fetched api c decoder (phone_number_path sid)
      (codes "rest/phone_numbers/getPhoneNumber.response.200.json")

unfoldable pub list_phone_numbers {ℓ} :
    {A : Type ℓ} → Api → Client → (Bytes → Option A) → M (Result ApiError A)
unfolding fetched
list_phone_numbers api c decoder =
    fetched api c decoder phone_numbers_path
      (codes "rest/phone_numbers/listProvisionedPhoneNumbers.response.200.json")

unfoldable pub delete_phone_number : Api → Client → Text → M (Option ApiError)
unfolding removed
delete_phone_number api c sid = removed api c (phone_number_path sid)

abbrev pub sip_gateways_path : Text
sip_gateways_path = codes "/SipGateways"

abbrev pub sip_gateway_path : Text → Text
sip_gateway_path sid = codes "/SipGateways/" ++ sid

unfoldable pub create_sip_gateway : Api → Client → Body → M (Result ApiError Text)
unfolding created
create_sip_gateway api c body =
    created api c sip_gateways_path body
      (codes "rest/sip_gateways/createSipGateway.response.201.json")

unfoldable pub get_sip_gateway {ℓ} :
    {A : Type ℓ} → Api → Client → (Bytes → Option A) → Text → M (Result ApiError A)
unfolding fetched
get_sip_gateway api c decoder sid =
    fetched api c decoder (sip_gateway_path sid)
      (codes "rest/sip_gateways/getSipGateway.response.200.json")

-- url.Values.Encode is an argument.
unfoldable pub list_sip_gateways {ℓ} :
    {A : Type ℓ}
    → Api
    → Client
    → (List (Text × Text) → Text)
    → (Bytes → Option A)
    → Text
    → M (Result ApiError A)
unfolding fetched
list_sip_gateways api c encode decoder carrier =
    fetched api c decoder
      (sip_gateways_path ++ (codes "?" ++ encode ((codes "voip_carrier_sid", carrier) ∷ [])))
      (codes "rest/sip_gateways/listSipGateways.response.200.json")

unfoldable pub delete_sip_gateway : Api → Client → Text → M (Option ApiError)
unfolding removed
delete_sip_gateway api c sid = removed api c (sip_gateway_path sid)

abbrev pub lcrs_path : Text
lcrs_path = codes "/Lcrs"

abbrev pub lcr_path : Text → Text
lcr_path sid = codes "/Lcrs/" ++ sid

unfoldable pub create_lcr : Api → Client → Body → M (Result ApiError Text)
unfolding created
create_lcr api c body = created api c lcrs_path body (codes "rest/lcrs/createLcr.response.201.json")

unfoldable pub get_lcr {ℓ} :
    {A : Type ℓ} → Api → Client → (Bytes → Option A) → Text → M (Result ApiError A)
unfolding fetched
get_lcr api c decoder sid =
    fetched api c decoder (lcr_path sid) (codes "rest/lcrs/getLcr.response.200.json")

unfoldable pub list_lcrs {ℓ} :
    {A : Type ℓ} → Api → Client → (Bytes → Option A) → M (Result ApiError A)
unfolding fetched
list_lcrs api c decoder =
    fetched api c decoder lcrs_path (codes "rest/lcrs/listLcrs.response.200.json")

unfoldable pub delete_lcr : Api → Client → Text → M (Option ApiError)
unfolding removed
delete_lcr api c sid = removed api c (lcr_path sid)

abbrev pub ms_teams_tenants_path : Text
ms_teams_tenants_path = codes "/MicrosoftTeamsTenants"

abbrev pub ms_teams_tenant_path : Text → Text
ms_teams_tenant_path sid = codes "/MicrosoftTeamsTenants/" ++ sid

unfoldable pub create_ms_teams_tenant : Api → Client → Body → M (Result ApiError Text)
unfolding created
create_ms_teams_tenant api c body =
    created api c ms_teams_tenants_path body
      (codes "rest/ms_teams_tenants/createMsTeamsTenant.response.201.json")

unfoldable pub list_ms_teams_tenants {ℓ} :
    {A : Type ℓ} → Api → Client → (Bytes → Option A) → M (Result ApiError A)
unfolding fetched
list_ms_teams_tenants api c decoder =
    fetched api c decoder ms_teams_tenants_path
      (codes "rest/ms_teams_tenants/listMsTeamsTenants.response.200.json")

unfoldable pub delete_ms_teams_tenant : Api → Client → Text → M (Option ApiError)
unfolding removed
delete_ms_teams_tenant api c sid = removed api c (ms_teams_tenant_path sid)
