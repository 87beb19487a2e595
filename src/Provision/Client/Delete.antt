-- ===== src/Provision/Client/Delete.antt =====
-- Deleting an account or a client: the requests that are made, and when the deletion counts as
-- done.
use mathlib.Core.List.{Memᴰ}
use smoke_tester.Prelude.{
  ◌≡◌, ◌⊎◌, ◌↔◌, inl, inr, refl, Bool, true, false, none, some, List, [], arith, ◌==◌,
  if◌then◌else◌, ==_iff, Bool-cases, All,
}
use smoke_tester.Prelude.Text.{Text}
use smoke_tester.Prelude.Bytes.{Bytes}
use smoke_tester.Prelude.Result.{Result, ok, err}
use smoke_tester.Provision.Api.{
  Api, Client, HttpRequest, ApiError, http, get, delete, no_body, request, status_of, error_of,
}
use smoke_tester.Provision.Client.{
  account_path, client_path, account_visible, delete_account_failed, after_delete, delete_account,
  delete_sip_client,
}

module _ {ℓ} (P : HttpRequest → Type ℓ) (api : Api) (c : Client) (sid : Text) where
  pub All-delete_sip_client :
      (log : List HttpRequest)
      → All P log
      → P (http c delete (client_path sid) no_body)
      → All P (delete_sip_client api c sid log).1
  unfolding delete_sip_client request
  All-delete_sip_client log before h = (h, before)

  All-after_delete :
      (r : Result ApiError Bytes) (log : List HttpRequest)
      → All P log
      → P (http c get (account_path sid) no_body)
      → All P (after_delete api c sid r log).1
  unfolding after_delete delete_account_failed account_visible request
  All-after_delete (ok b) log before g = before
  All-after_delete (err e) log before g = elim (Bool-cases (status_of {A = Bytes} (err e) == 404)) [
    | inl gone ↦ rw gone before
    | inr other ↦ elim (Bool-cases (status_of {A = Bytes} (err e) == 403)) [
      | inl denied ↦ rw (other, denied) (g, before)
      | inr rest ↦ rw (other, rest) before
    ]
  ]

  pub All-delete_account :
      (log : List HttpRequest)
      → All P log
      → P (http c delete (account_path sid) no_body)
      → P (http c get (account_path sid) no_body)
      → All P (delete_account api c sid log).1
  unfolding delete_account request
  All-delete_account log before d g =
      let r = request api c delete (account_path sid) no_body [] 204 log in
      All-after_delete r.0 r.1 (d, before) g

abbrev failed_read : Result ApiError Bytes → Bool
failed_read (ok _) = false
failed_read (err _) = true

-- When a deletion counts as done: the DELETE went well, or was answered with 404, or with 403 by a
-- server at which the account can then no longer be read.
abbrev pub IsDeleted : Result ApiError Bytes → Result ApiError Bytes → Type 0
IsDeleted deleted read =
    (error_of deleted ≡ none)
    ⊎ ((status_of deleted ≡ 404) ⊎ ((status_of deleted ≡ 403) × (failed_read read ≡ true)))

after_delete-none :
    (api : Api) (c : Client) (sid : Text) (r : Result ApiError Bytes) (log : List HttpRequest)
    → ((after_delete api c sid r log).0 ≡ none)
      ↔ IsDeleted r (request api c get (account_path sid) no_body [] 200 log).0
unfolding after_delete delete_account_failed account_visible
after_delete-none api c sid (ok b) log = (λ _. inl refl, λ _. refl)
after_delete-none api c sid (err e) log = elim (Bool-cases (status_of {A = Bytes} (err e) == 404)) [
  | inl gone ↦ rw gone (λ _. inr (inl ((==_iff _ _).0 gone)), λ _. refl)
  | inr other ↦ elim (Bool-cases (status_of {A = Bytes} (err e) == 403)) [
    | inl denied ↦
        rw (other, denied)
          (visible (request api c get (account_path sid) no_body [] 200 log).0
            ((==_iff _ _).0 denied) other)
    | inr rest ↦ rw (other, rest) (λ p. absurd (cc), ground arith)
  ]
]
  where
    visible :
        (read : Result ApiError Bytes)
        → status_of {A = Bytes} (err e) ≡ 403
        → (status_of {A = Bytes} (err e) == 404) ≡ false
        → ((if elim read [ ok _ ↦ true | err _ ↦ false ] then some e else none) ≡ none)
          ↔ IsDeleted (err e) read
    visible (ok b) d o = (λ p. absurd (cc), ground arith)
    visible (err x) d o = (λ _. inr (inr (d, refl)), λ _. refl)

-- Deleting an account reports no error exactly if the DELETE went well, or was answered with 404,
-- or with 403 while a following GET of the account fails.
pub delete_account-none :
    (api : Api) (c : Client) (sid : Text) (log : List HttpRequest)
    → let deleted = request api c delete (account_path sid) no_body [] 204 log in
      let read = request api c get (account_path sid) no_body [] 200 deleted.1 in
      ((delete_account api c sid log).0 ≡ none) ↔ IsDeleted deleted.0 read.0
unfolding delete_account
delete_account-none api c sid log = after_delete-none api c sid _ _

after_delete-keeps :
    (api : Api) (c : Client) (sid : Text) (q : HttpRequest) (r : Result ApiError Bytes)
    (log : List HttpRequest)
    → Memᴰ q log
    → Memᴰ q (after_delete api c sid r log).1
unfolding after_delete delete_account_failed account_visible request
after_delete-keeps api c sid q (ok b) log m = m
after_delete-keeps api c sid q (err e) log m =
    elim (Bool-cases (status_of {A = Bytes} (err e) == 404)) [
      | inl gone ↦ rw gone m
      | inr other ↦ elim (Bool-cases (status_of {A = Bytes} (err e) == 403)) [
        | inl denied ↦ rw (other, denied) (Memᴰ.tail m)
        | inr rest ↦ rw (other, rest) m
      ]
    ]

pub delete_account-sends :
    (api : Api) (c : Client) (sid : Text) (log : List HttpRequest)
    → Memᴰ (http c delete (account_path sid) no_body) (delete_account api c sid log).1
unfolding delete_account request
delete_account-sends api c sid log =
    let r = request api c delete (account_path sid) no_body [] 204 log in
    after_delete-keeps api c sid (http c delete (account_path sid) no_body) r.0 r.1 (Memᴰ.head refl)

pub delete_account-keeps :
    (api : Api) (c : Client) (sid : Text) (q : HttpRequest) (log : List HttpRequest)
    → Memᴰ q log
    → Memᴰ q (delete_account api c sid log).1
unfolding delete_account request
delete_account-keeps api c sid q log m =
    let r = request api c delete (account_path sid) no_body [] 204 log in
    after_delete-keeps api c sid q r.0 r.1 (Memᴰ.tail m)
