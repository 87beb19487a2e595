-- ===== src/Sip/Call/Queries/Answer.antt =====
-- The answer of a call is the last one.
use smoke_tester.Prelude.{
  ◌≡◌, refl, ap, ◌∙◌, Bool, true, false, none, some, List, [], ◌∷◌, ◌++◌, arith, find, reverse, All,
}
use mathlib.Core.List.{reverse-append, reverse-cons, reverse_aux, append_assoc}
use smoke_tester.Sip.Call.{Call}
use smoke_tester.Sip.Call.Queries.{
  answers, is_success, is_ok, status_of_found, answered_status, answered_response,
}
use smoke_tester.Sip.Message.{Message}

find-none : {A : Type 0} (p : A → Bool) (xs : List A) → All (λ x. p x ≡ false) xs → find p xs ≡ none
unfolding find
find-none p [] h = refl
find-none p (x ∷ xs) h = rw (h.0, find) (find-none p xs h.1)

find-append :
    {A : Type 0} (p : A → Bool) (xs : List A) (y : A) (ys : List A)
    → All (λ x. p x ≡ false) xs
    → p y ≡ true
    → find p (xs ++ y ∷ ys) ≡ some y
unfolding find
find-append p [] y ys h k = rw (k, find) refl
find-append p (x ∷ xs) y ys h k = rw (h.0, find) (find-append p xs y ys h.1 k)

All-reverse_aux :
    {A : Type 0} (P : A → Type 0) (xs ys : List A) → All P xs → All P ys → All P (reverse_aux xs ys)
All-reverse_aux P [] ys h k = k
All-reverse_aux P (x ∷ xs) ys h k = All-reverse_aux P xs (x ∷ ys) h.1 (h.0, k)

find-reverse :
    {A : Type 0} (p : A → Bool) (pre : List A) (x : A) (post : List A)
    → All (λ y. p y ≡ false) post
    → p x ≡ true
    → find p (reverse (pre ++ x ∷ post)) ≡ some x
find-reverse p pre x post h k =
    let e : reverse (pre ++ x ∷ post) ≡ reverse post ++ x ∷ reverse pre =
      reverse-append pre (x ∷ post)
      ∙ (ap (λ zs. zs ++ reverse pre) (reverse-cons x post)
          ∙ append_assoc (reverse post) (x ∷ []) (reverse pre)) in
    ap (find p) e
    ∙ find-append p (reverse post) x (reverse pre) (All-reverse_aux (λ y. p y ≡ false) post [] h tt)
        k

is_ok-is_success : (m : Message) → is_ok m ≡ true → is_success m ≡ true
unfolding is_ok is_success
is_ok-is_success m h = ground arith

not_ok : (m : Message) → is_success m ≡ false → is_ok m ≡ false
not_ok m h = ground (arith, h, is_ok-is_success m)

All-not_ok :
    (ms : List Message) → All (λ m. is_success m ≡ false) ms → All (λ m. is_ok m ≡ false) ms
All-not_ok [] h = tt
All-not_ok (m ∷ ms) h = (not_ok m h.0, All-not_ok ms h.1)

status-is_ok : (m : Message) → is_ok m ≡ true → m.status_code ≡ 200
unfolding is_ok
status-is_ok m h = ground arith

-- If the last success among the recorded responses to INVITEs is a 200, received on an outbound
-- call or sent on an inbound one, then it is the answer: AnsweredStatus is 200 and AnsweredResponse
-- that very message, whatever answers came before.
pub answered-last :
    (c : Call) (pre : List Message) (m : Message) (post : List Message)
    → answers c ≡ pre ++ m ∷ post
    → is_ok m ≡ true
    → All (λ x. is_success x ≡ false) post
    → (answered_status c ≡ 200) × (answered_response c ≡ some m)
unfolding answered_status answered_response
answered-last c pre m post e good last = (
  ap (λ ms. status_of_found (find is_success (reverse ms))) e
      ∙ (ap status_of_found (find-reverse is_success pre m post last (is_ok-is_success m good))
          ∙ status-is_ok m good),
  ap (λ ms. find is_ok (reverse ms)) e ∙ find-reverse is_ok pre m post (All-not_ok post last) good,
)
