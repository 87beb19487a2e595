-- ===== src/Provision/Sweeper.antt =====
-- internal/provision/sweeper_accounts.go: deleting the accounts that crashed runs left behind.
-- time.Parse is an argument, and times are numbers.
pub mod Safety
use smoke_tester.Prelude.{
  ℕ, suc, ◌+◌, Bool, true, false, not, Option, none, some, List, [], ◌∷◌, ltb, if◌then◌else◌,
}
use smoke_tester.Prelude.Text.{Text, text_eq, has_prefix}
use smoke_tester.Prelude.Result.{Result, ok, err}
use smoke_tester.Provision.Api.{Api, Client, M, return, ◌>>=◌, ◌>>◌, ApiError}
use smoke_tester.Provision.Client.{
  list_accounts, list_sip_clients, delete_sip_client, delete_account,
}
use smoke_tester.Provision.Tags.{name_prefix, run_prefix}
use smoke_tester.Provision.Types.{Account, SipClient}

-- parseAPITime: RFC 3339, else the plain MySQL layout.
unfoldable pub parse_api_time : (Text → Option ℕ) → (Text → Option ℕ) → Text → Option ℕ
parse_api_time rfc3339 mysql s = elim (rfc3339 s) [ some t ↦ some t | none ↦ mysql s ]

-- !(now.Sub(created) < minAge), with the sum on the other side.
abbrev old_enough : ℕ → ℕ → Option ℕ → Bool
old_enough min_age now none = false
old_enough min_age now (some created) = not (ltb now (created + min_age))

-- The first argument is the parsed creation time.
unfoldable pub should_sweep : (Text → Option ℕ) → Account → Text → ℕ → ℕ → Bool
unfolding has_prefix
should_sweep parse_time a current_prefix min_age now =
    if not (has_prefix a.name name_prefix)
    then false
    else if has_prefix a.name current_prefix
    then false
    else if ltb 0 min_age
    then old_enough min_age now (parse_time a.created_at)
    else true

-- The inner loop: the clients of one account, each deleted, whatever comes of it.
unfoldable pub delete_clients : Api → Client → Text → List SipClient → M (Unit {0})
unfolding text_eq
delete_clients api c sid [] = return tt
delete_clients api c sid (cl ∷ cls) =
    let rest = delete_clients api c sid cls in
    if not (text_eq cl.account_sid sid)
    then rest
    else (do delete_sip_client api c cl.client_sid; rest)

count_deleted : Option ApiError → ℕ → ℕ
count_deleted none n = suc n
count_deleted (some _) n = n

-- The outer loop, with the number of accounts deleted so far.
unfoldable pub sweep_accounts :
    Api → Client → (Account → Bool) → List SipClient → ℕ → List Account → M ℕ
unfolding delete_clients count_deleted
sweep_accounts api c sweeps clients swept [] = return swept
sweep_accounts api c sweeps clients swept (a ∷ more) =
    if not (sweeps a) then sweep_accounts api c sweeps clients swept more else (do
      delete_clients api c a.account_sid clients
      e ← delete_account api c a.account_sid
      sweep_accounts api c sweeps clients (count_deleted e swept) more)

abbrev pub listed_clients : Result ApiError (List SipClient) → List SipClient
listed_clients (ok cls) = cls
listed_clients (err _) = []

sweep_listed :
    Api → Client → (Account → Bool) → Result ApiError (List Account) → M (Result ApiError ℕ)
unfolding sweep_accounts
sweep_listed api c sweeps (err e) = return (err e)
sweep_listed api c sweeps (ok accts) = do
  clients ← list_sip_clients api c
  n ← sweep_accounts api c sweeps (listed_clients clients) 0 accts
  return (ok n)

-- Sweep: how many accounts were deleted.
unfoldable pub sweep : Api → Client → (Text → Option ℕ) → Text → ℕ → ℕ → M (Result ApiError ℕ)
unfolding sweep_listed
sweep api c parse_time protect_run_id min_age now = do
  accts ← list_accounts api c
  sweep_listed api c (λ a. should_sweep parse_time a (run_prefix protect_run_id) min_age now) accts
