-- ===== src/Provision/Reads.antt =====
-- The methods of internal/provision that only read: service_providers.go, sbcs.go, alerts.go,
-- recent_calls.go, availability.go, registered_sip_users.go and webhook_secret.go. The decoders and
-- url.Values.Encode are arguments.
use smoke_tester.Prelude.{◌≡◌, refl, ℕ, Bool, true, Option, List, [], ◌∷◌, ◌++◌, leb, if◌then◌else◌}
use smoke_tester.Prelude.Bytes.{Bytes}
use smoke_tester.Prelude.Itoa.{itoa}
use smoke_tester.Prelude.Result.{Result, err}
use smoke_tester.Prelude.Text.{Text, codes, is_empty}
use smoke_tester.Provision.Api.{Api, Client, HttpRequest, M, return, ApiError, not_account_scoped}
use smoke_tester.Provision.Client.{account_path}
use smoke_tester.Provision.Resources.{fetched}

abbrev Query : Type 0
Query = List (Text × Text)

set_number : Text → ℕ → Query → Query
set_number k n q = if leb 1 n then (k, itoa n) ∷ q else q

set_text : Text → Text → Query → Query
set_text k v q = if is_empty v then q else (k, v) ∷ q

-- AlertsQuery and RecentCallsQuery, with natural numbers for page, count and days.
pub record AlertsQuery : Type 0 where
  pub page : ℕ
  pub count : ℕ
  pub days : ℕ
  pub start : Text
  pub end : Text
  pub alert_type : Text

pub record RecentCallsQuery : Type 0 where
  pub page : ℕ
  pub count : ℕ
  pub days : ℕ
  pub start : Text
  pub end : Text
  pub direction : Text
  pub answered : Text
  pub filter : Text

unfoldable pub alerts_query : AlertsQuery → Query
unfolding set_number set_text
alerts_query q =
    (codes "page", itoa q.page)
    ∷ (codes "count", itoa q.count)
    ∷ set_number (codes "days") q.days (
        set_text (codes "start") q.start
          (set_text (codes "end") q.end (set_text (codes "alert_type") q.alert_type [])))

-- RecentCallsQuery.encode, before url.Values.Encode.
unfoldable pub recent_calls_query : RecentCallsQuery → Query
unfolding set_number set_text
recent_calls_query q =
    (codes "page", itoa q.page)
    ∷ (codes "count", itoa q.count)
    ∷ set_number (codes "days") q.days (
        set_text (codes "start") q.start (
          set_text (codes "end") q.end (
            set_text (codes "direction") q.direction
              (set_text (codes "answered") q.answered (set_text (codes "filter") q.filter [])))))

module _ {ℓ} {A : Type ℓ} (api : Api) (c : Client) (decoder : Bytes → Option A) where
  unfoldable pub list_service_providers : M (Result ApiError A)
  unfolding fetched
  list_service_providers =
      fetched api c decoder (codes "/ServiceProviders")
        (codes "rest/service_providers/listServiceProviders.response.200.json")

  unfoldable pub get_service_provider : Text → M (Result ApiError A)
  unfolding fetched
  get_service_provider sid =
      fetched api c decoder (codes "/ServiceProviders/" ++ sid)
        (codes "rest/service_providers/getServiceProvider.response.200.json")

  unfoldable pub list_sbcs : M (Result ApiError A)
  unfolding fetched
  list_sbcs = fetched api c decoder (codes "/Sbcs") (codes "rest/sbcs/listSbcs.response.200.json")

  -- The methods that refuse a client without an account.
  unfoldable pub scoped : M (Result ApiError A) → M (Result ApiError A)
  scoped m = if is_empty c.account_sid then return (err not_account_scoped) else m

  unfoldable pub list_registered_sip_users : M (Result ApiError A)
  unfolding fetched scoped
  list_registered_sip_users = scoped (
      fetched api c decoder (account_path c.account_sid ++ codes "/RegisteredSipUsers")
        (codes "rest/registered_sip_users/listRegisteredSipUsers.response.200.json"))

  unfoldable pub get_webhook_secret : Bool → M (Result ApiError A)
  unfolding fetched scoped
  get_webhook_secret regenerate = scoped (
      fetched api c decoder
        (account_path c.account_sid
          ++ (codes "/WebhookSecret" ++ (if regenerate then codes "?regenerate=true" else [])))
        (codes "rest/webhook_secret/getWebhookSecret.response.200.json"))

  unfoldable pub list_alerts : (Query → Text) → AlertsQuery → M (Result ApiError A)
  unfolding fetched scoped alerts_query
  list_alerts encode q = scoped (
      fetched api c decoder
        (account_path c.account_sid ++ (codes "/Alerts?" ++ encode (alerts_query q)))
        (codes "rest/alerts/listAlertsByAccount.response.200.json"))

  unfoldable pub list_recent_calls : (Query → Text) → RecentCallsQuery → M (Result ApiError A)
  unfolding fetched scoped recent_calls_query
  list_recent_calls encode q = scoped (
      fetched api c decoder
        (account_path c.account_sid ++ (codes "/RecentCalls?" ++ encode (recent_calls_query q)))
        (codes "rest/recent_calls/listRecentCalls.response.200.json"))

  unfoldable pub list_recent_calls_by_sp :
      Text → (Query → Text) → RecentCallsQuery → M (Result ApiError A)
  unfolding fetched recent_calls_query
  list_recent_calls_by_sp sp encode q =
      fetched api c decoder
        (codes "/ServiceProviders/"
          ++ (sp ++ (codes "/RecentCalls?" ++ encode (recent_calls_query q))))
        (codes "rest/recent_calls/listRecentCallsBySP.response.200.json")

  unfoldable pub check_availability : (Query → Text) → Text → Text → M (Result ApiError A)
  unfolding fetched
  check_availability encode type_ value =
      fetched api c decoder
        (codes "/Availability?" ++ encode ((codes "type", type_) ∷ (codes "value", value) ∷ []))
        (codes "rest/availability/checkAvailability.response.200.json")

-- A client without an account sends nothing when it is asked for what belongs to an account.
no_account {ℓ} :
    {A : Type ℓ} (api : Api) (c : Client) (decoder : Bytes → Option A) (encode : Query → Text)
    (a : AlertsQuery) (r : RecentCallsQuery) (b : Bool) (log : List HttpRequest)
    → is_empty c.account_sid ≡ true
    → let refused : Result ApiError A × List HttpRequest = (err not_account_scoped, log) in
      (list_registered_sip_users api c decoder log ≡ refused)
      × (get_webhook_secret api c decoder b log ≡ refused)
      × (list_alerts api c decoder encode a log ≡ refused)
      × (list_recent_calls api c decoder encode r log ≡ refused)
unfolding list_registered_sip_users get_webhook_secret list_alerts list_recent_calls scoped
no_account api c decoder encode a r b log h = rw h (refl, refl, refl, refl)
