-- ===== src/Provision/Sweeper/Safety.antt =====
-- What the sweeper deletes, and what it never touches.
use mathlib.Core.List.{Memᴰ}
use smoke_tester.Prelude.{
  ℕ, ◌+◌, ◌≤◌, ◌≡◌, ◌⊎◌, inl, inr, refl, ap, ◌∙◌, Bool, true, false, Option, none, some, List, [],
  ◌∷◌, ◌++◌, arith, ltb, if◌then◌else◌, Bool-cases, All,
}
use smoke_tester.Prelude.Text.{Text, text_eq, text_eq_iff, has_prefix}
use smoke_tester.Prelude.Result.{Result, ok, err}
use smoke_tester.Provision.Api.{
  Api, Client, HttpRequest, ApiError, http, get, delete, no_body, request,
}
use smoke_tester.Provision.Client.{
  account_path, accounts_path, clients_path, client_path, list_accounts, list_sip_clients,
  delete_account,
}
use smoke_tester.Provision.Client.Delete.{All-delete_account, All-delete_sip_client}
use smoke_tester.Provision.Sweeper.{
  should_sweep, old_enough, delete_clients, count_deleted, sweep_accounts, sweep_listed,
  listed_clients, sweep,
}
use smoke_tester.Provision.Tags.{name_prefix, run_prefix, name}
use smoke_tester.Provision.Types.{Account, SipClient}

-- What a swept account is: named by the harness, not of the current run, and, under an age gate,
-- with a creation time that is readable and at least so long ago.
pub record IsOrphan (parse_time : Text → Option ℕ) (current_prefix : Text) (min_age now : ℕ)
    (a : Account) : Type 0 where
  pub prefixed : has_prefix a.name name_prefix ≡ true
  pub other_run : has_prefix a.name current_prefix ≡ false
  pub aged : (min_age ≡ 0) ⊎ ((t : ℕ) × (parse_time a.created_at ≡ some t) × (t + min_age ≤ now))

aged_of :
    (min_age now : ℕ) (o : Option ℕ)
    → (if ltb 0 min_age then old_enough min_age now o else true) ≡ true
    → (min_age ≡ 0) ⊎ ((t : ℕ) × (o ≡ some t) × (t + min_age ≤ now))
aged_of min_age now o h = elim (Bool-cases (ltb 0 min_age)) [
  | inr no_gate ↦ inl (ground arith)
  | inl gate ↦ inr (old o (ground arith))
]
  where
    old :
        (o : Option ℕ)
        → old_enough min_age now o ≡ true
        → (t : ℕ) × (o ≡ some t) × (t + min_age ≤ now)
    old none h = cc
    old (some t) h = (t, refl, ground arith)

pub should_sweep-IsOrphan :
    (parse_time : Text → Option ℕ) (a : Account) (current_prefix : Text) (min_age now : ℕ)
    → should_sweep parse_time a current_prefix min_age now ≡ true
    → IsOrphan parse_time current_prefix min_age now a
unfolding should_sweep
should_sweep-IsOrphan parse_time a current_prefix min_age now h = record {
  prefixed = ground arith;
  other_run = ground arith;
  aged = aged_of min_age now (parse_time a.created_at) (ground arith);
}

has_prefix-own : (p q s : Text) → has_prefix (p ++ (q ++ (b'-' ∷ s))) (p ++ (q ++ b'-' ∷ [])) ≡ true
unfolding has_prefix
has_prefix-own [] [] s = refl
has_prefix-own [] (x ∷ q) s = ground (arith, has_prefix-own [] q s)
has_prefix-own (x ∷ p) q s = ground (arith, has_prefix-own p q s)

-- Whatever its age, an account that bears a name of the protected run is not swept.
pub should_sweep-own :
    (parse_time : Text → Option ℕ) (a : Account) (id suffix : Text) (min_age now : ℕ)
    → a.name ≡ name id suffix
    → should_sweep parse_time a (run_prefix id) min_age now ≡ false
unfolding should_sweep name run_prefix
should_sweep-own parse_time a id suffix min_age now e =
    let own : has_prefix a.name (run_prefix id) ≡ true =
      ap (λ n. has_prefix n (run_prefix id)) e ∙ has_prefix-own name_prefix id suffix in
    ground (arith, own)

abbrev pub listed_accounts : Result ApiError (List Account) → List Account
listed_accounts (ok accts) = accts
listed_accounts (err _) = []

-- The requests that may be made for an account that is swept.
record Permits {ℓ} (P : HttpRequest → Type ℓ) (c : Client) (clients : List SipClient) (sid : Text)
    : Type ℓ where
  deletes : P (http c delete (account_path sid) no_body)
  reads : P (http c get (account_path sid) no_body)
  deletes_client :
      (cl : SipClient)
      → Memᴰ cl clients
      → cl.account_sid ≡ sid
      → P (http c delete (client_path cl.client_sid) no_body)

module _ {ℓ} (P : HttpRequest → Type ℓ) (api : Api) (c : Client) where
  All-delete_clients :
      (sid : Text) (clients : List SipClient) (log : List HttpRequest)
      → ((cl : SipClient)
          → Memᴰ cl clients
          → cl.account_sid ≡ sid
          → P (http c delete (client_path cl.client_sid) no_body))
      → All P log
      → All P (delete_clients api c sid clients log).1
  unfolding delete_clients
  All-delete_clients sid [] log may before = before
  All-delete_clients sid (cl ∷ cls) log may before =
      elim (Bool-cases (text_eq cl.account_sid sid)) [
        | inl own ↦ rw own (
            All-delete_clients sid cls _ (λ x m e. may x (Memᴰ.tail m) e)
              (All-delete_sip_client P api c cl.client_sid log before
                (may cl (Memᴰ.head refl) ((text_eq_iff _ _).0 own))))
        | inr other ↦
            rw other (All-delete_clients sid cls log (λ x m e. may x (Memᴰ.tail m) e) before)
      ]

  All-sweep_accounts :
      (sweeps : Account → Bool) (clients : List SipClient) (n : ℕ) (accts : List Account)
      (log : List HttpRequest)
      → ((a : Account) → Memᴰ a accts → sweeps a ≡ true → Permits P c clients a.account_sid)
      → All P log
      → All P (sweep_accounts api c sweeps clients n accts log).1
  unfolding sweep_accounts
  All-sweep_accounts sweeps clients n [] log may before = before
  All-sweep_accounts sweeps clients n (a ∷ more) log may before = elim (Bool-cases (sweeps a)) [
    | inl orphan ↦
        let permits = may a (Memᴰ.head refl) orphan in
        let cleared = delete_clients api c a.account_sid clients log in
        let deleted = delete_account api c a.account_sid cleared.1 in
        rw orphan (
          All-sweep_accounts sweeps clients (count_deleted deleted.0 n) more deleted.1
            (λ x m e. may x (Memᴰ.tail m) e)
            (All-delete_account P api c a.account_sid cleared.1
              (All-delete_clients a.account_sid clients log permits.deletes_client before)
              permits.deletes permits.reads))
    | inr kept ↦
        rw kept
          (All-sweep_accounts sweeps clients n more log (λ x m e. may x (Memᴰ.tail m) e) before)
  ]

  All-list_accounts :
      (log : List HttpRequest)
      → All P log
      → P (http c get accounts_path no_body)
      → All P (list_accounts api c log).1
  unfolding list_accounts request
  All-list_accounts log before g = (g, before)

  All-list_sip_clients :
      (log : List HttpRequest)
      → All P log
      → P (http c get clients_path no_body)
      → All P (list_sip_clients api c log).1
  unfolding list_sip_clients request
  All-list_sip_clients log before g = (g, before)

  All-sweep_listed :
      (sweeps : Account → Bool) (r : Result ApiError (List Account)) (log : List HttpRequest)
      → All P log
      → P (http c get clients_path no_body)
      → ((a : Account)
          → Memᴰ a (listed_accounts r)
          → sweeps a ≡ true
          → Permits P c (listed_clients (list_sip_clients api c log).0) a.account_sid)
      → All P (sweep_listed api c sweeps r log).1
  unfolding sweep_listed
  All-sweep_listed sweeps (err e) log before g may = before
  All-sweep_listed sweeps (ok accts) log before g may =
      let clients = list_sip_clients api c log in
      All-sweep_accounts sweeps (listed_clients clients.0) 0 accts clients.1 may
        (All-list_sip_clients log before g)

-- The requests of a sweep over the accounts and clients that were listed.
pub data IsSweepRequest (c : Client) (Orphan : Account → Type 0) (accts : List Account)
    (clients : List SipClient) (r : HttpRequest) : Type 0 where
  lists :
      (r ≡ http c get accounts_path no_body) ⊎ (r ≡ http c get clients_path no_body)
      → IsSweepRequest c Orphan accts clients r
  of_account :
      (a : Account)
      → Memᴰ a accts
      → Orphan a
      → (r ≡ http c delete (account_path a.account_sid) no_body)
        ⊎ (r ≡ http c get (account_path a.account_sid) no_body)
      → IsSweepRequest c Orphan accts clients r
  of_client :
      (a : Account) (cl : SipClient)
      → Memᴰ a accts
      → Orphan a
      → Memᴰ cl clients
      → cl.account_sid ≡ a.account_sid
      → r ≡ http c delete (client_path cl.client_sid) no_body
      → IsSweepRequest c Orphan accts clients r

-- A sweep that begins a run asks for the two lists, and beyond that deletes only orphans: each
-- account that it deletes, or reads behind a failed deletion, was listed, is named by the harness,
-- is not of the protected run and is old enough; each client that it deletes was listed for such
-- an account. This holds whatever the server answers.
pub sweep-IsSweepRequest :
    (api : Api) (c : Client) (parse_time : Text → Option ℕ) (run_id : Text) (min_age now : ℕ)
    → let first = list_accounts api c [] in
      let second = list_sip_clients api c first.1 in
      All
        (IsSweepRequest c
          (IsOrphan parse_time (run_prefix run_id) min_age now)
          (listed_accounts first.0)
          (listed_clients second.0))
        (sweep api c parse_time run_id min_age now []).1
unfolding sweep
sweep-IsSweepRequest api c parse_time run_id min_age now =
    All-sweep_listed P api c (λ a. should_sweep parse_time a (run_prefix run_id) min_age now)
      first.0 first.1 (All-list_accounts P api c [] tt (lists (inl refl))) (lists (inr refl))
      (λ a m sweeps.
        let orphan = should_sweep-IsOrphan parse_time a (run_prefix run_id) min_age now sweeps in
        record {
          deletes = of_account a m orphan (inl refl);
          reads = of_account a m orphan (inr refl);
          deletes_client = λ cl k e. of_client a cl m orphan k e refl;
        })
  where
    first : Result ApiError (List Account) × List HttpRequest
    first = list_accounts api c []

    P : HttpRequest → Type 0
    P =
        IsSweepRequest c (IsOrphan parse_time (run_prefix run_id) min_age now)
          (listed_accounts first.0) (listed_clients (list_sip_clients api c first.1).0)
