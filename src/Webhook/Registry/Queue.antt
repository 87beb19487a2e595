-- ===== src/Webhook/Registry/Queue.antt =====
-- The queue of a session: what is recorded comes out in its order, or is counted as lost.
use smoke_tester.Prelude.{
  ℕ, suc, ◌≤◌, ◌≡◌, ◌≢◌, inl, inr, refl, sym, ap, ◌∙◌, subst, Option, none, some, List, [], ◌∷◌,
  ◌++◌, arith, ltb, Bool-cases, length, length-append, All,
}
use mathlib.Core.List.{append_assoc, append-nil}
use smoke_tester.Prelude.Text.{Text, text_eq, text_eq_iff}
use smoke_tester.Webhook.Callback.{Callback}
use smoke_tester.Webhook.Registry.{
  Session, fresh_session, record_callback, received, wait_callback, skip_to, wait_callback_for,
  capacity,
}

-- The first list is the second, in its order, less as many elements as the number says.
pub data IsLess {ℓ} {A : Type ℓ} : ℕ → List A → List A → Type ℓ where
  done : IsLess 0 [] []
  keep : {n : ℕ} {xs ys : List A} (x : A) → IsLess n xs ys → IsLess n (x ∷ xs) (x ∷ ys)
  lose : {n : ℕ} {xs ys : List A} (x : A) → IsLess n xs ys → IsLess (suc n) xs (x ∷ ys)

module _ {ℓ} {A : Type ℓ} where
  pub keep-last :
      {n : ℕ} {xs ys : List A} (x : A) → IsLess n xs ys → IsLess n (xs ++ x ∷ []) (ys ++ x ∷ [])
  keep-last x done = keep x done
  keep-last x (keep y h) = keep y (keep-last x h)
  keep-last x (lose y h) = lose y (keep-last x h)

  pub lose-last :
      {n : ℕ} {xs ys : List A} (x : A) → IsLess n xs ys → IsLess (suc n) xs (ys ++ x ∷ [])
  lose-last x done = lose x done
  lose-last x (keep y h) = keep y (lose-last x h)
  lose-last x (lose y h) = lose y (lose-last x h)

-- What happens to a queue: the server records a callback, or the test takes one.
pub data QueueOp : Type 0 where
  records : Callback → QueueOp
  takes : QueueOp

-- The callbacks that were recorded, and those that were taken, with the session behind them.
abbrev pub recorded : List QueueOp → List Callback
recorded [] = []
recorded (records cb ∷ os) = cb ∷ recorded os
recorded (takes ∷ os) = recorded os

abbrev taken : Option Callback → List Callback
taken none = []
taken (some cb) = cb ∷ []

unfoldable pub queue_run : List QueueOp → Session → List Callback × Session
queue_run [] s = ([], s)
queue_run (records cb ∷ os) s = queue_run os (record_callback cb s)
queue_run (takes ∷ os) s =
    let r = wait_callback s in let rest = queue_run os r.1 in (taken r.0 ++ rest.0, rest.1)

-- Of the callbacks `before`, `gone` were taken; what is not pending was lost, with an error each.
record IsFair (before gone : List Callback) (s : Session) : Type 0 where
  ordered : IsLess (length s.errs) (gone ++ s.pending) before
  bounded : length s.pending ≤ capacity

record_callback-IsFair :
    (before gone : List Callback) (cb : Callback) (s : Session)
    → IsFair before gone s
    → IsFair (before ++ cb ∷ []) gone (record_callback cb s)
unfolding record_callback
record_callback-IsFair before gone cb s h = elim (Bool-cases (ltb (length s.pending) capacity)) [
  | inl room ↦ rw room (record {
    ordered =
        subst (λ xs. IsLess (length s.errs) xs (before ++ cb ∷ []))
          (append_assoc gone s.pending (cb ∷ [])) (keep-last cb h.ordered);
    bounded = ground (arith, room, length-append s.pending (cb ∷ []));
  })
  | inr full ↦ rw full (record {
    ordered =
        subst (λ n. IsLess n (gone ++ s.pending) (before ++ cb ∷ []))
          (omega (arith, length-append s.errs (_ ∷ []))) (lose-last cb h.ordered);
    bounded = h.bounded;
  })
]

wait_callback-IsFair :
    (before gone : List Callback) (s : Session)
    → IsFair before gone s
    → IsFair before (gone ++ taken (wait_callback s).0) (wait_callback s).1
unfolding wait_callback
wait_callback-IsFair before gone s h = go s.pending refl
  where
    go :
        (cbs : List Callback)
        → s.pending ≡ cbs
        → IsFair before (gone ++ taken (received cbs s).0) (received cbs s).1
    go [] e = record {
      ordered =
          subst (λ xs. IsLess (length s.errs) (xs ++ s.pending) before) (sym (append-nil gone))
            h.ordered;
      bounded = h.bounded;
    }
    go (cb ∷ more) e = record {
      ordered =
          subst (λ xs. IsLess (length s.errs) xs before)
            (ap (λ xs. gone ++ xs) e ∙ sym (append_assoc gone (cb ∷ []) more)) h.ordered;
      bounded = omega (arith, h.bounded, ap length e);
    }

run-IsFair :
    (before gone : List Callback) (os : List QueueOp) (s : Session)
    → IsFair before gone s
    → IsFair (before ++ recorded os) (gone ++ (queue_run os s).0) (queue_run os s).1
unfolding queue_run
run-IsFair before gone [] s h =
    subst (λ xs. IsFair xs (gone ++ []) s) (sym (append-nil before))
      (subst (λ xs. IsFair before xs s) (sym (append-nil gone)) h)
run-IsFair before gone (records cb ∷ os) s h =
    let r = queue_run os (record_callback cb s) in
    subst (λ xs. IsFair xs (gone ++ r.0) r.1) (append_assoc before (cb ∷ []) (recorded os))
      (run-IsFair (before ++ cb ∷ []) gone os (record_callback cb s)
        (record_callback-IsFair before gone cb s h))
run-IsFair before gone (takes ∷ os) s h =
    let w = wait_callback s in
    let r = queue_run os w.1 in
    subst (λ xs. IsFair (before ++ recorded os) xs r.1) (append_assoc gone (taken w.0) r.0)
      (run-IsFair before (gone ++ taken w.0) os w.1 (wait_callback-IsFair before gone s h))

-- The queue of a new session, under any sequence of callbacks and of waits: it never holds more
-- than 32; and what the test took, followed by what is pending, is what was recorded, in the order
-- in which it was, less exactly one callback for each error of the session.
pub queue_run-IsLess :
    (id : Text) (os : List QueueOp)
    → let r = queue_run os (fresh_session id) in
      IsLess (length r.1.errs) (r.0 ++ r.1.pending) (recorded os) × (length r.1.pending ≤ capacity)
queue_run-IsLess id os =
    let h =
      run-IsFair [] [] os (fresh_session id) (record { ordered = done; bounded = omega arith }) in
    (h.ordered, h.bounded)

-- What a wait for one hook does to the queue.
pub data IsSkip (hook : Text) (before : List Callback)
    : Option Callback × List Callback → Type 0 where
  found :
      (skipped after : List Callback) (cb : Callback)
      → before ≡ skipped ++ cb ∷ after
      → All (λ x. x.hook ≢ hook) skipped
      → cb.hook ≡ hook
      → IsSkip hook before (some cb, after)
  missing : All (λ x. x.hook ≢ hook) before → IsSkip hook before (none, [])

skip_to-cons :
    (hook : Text) (cb : Callback) (more : List Callback) (r : Option Callback × List Callback)
    → cb.hook ≢ hook
    → IsSkip hook more r
    → IsSkip hook (cb ∷ more) r
skip_to-cons hook cb more r other (found skipped after x e h k) =
    found (cb ∷ skipped) after x (ap (λ xs. cb ∷ xs) e) (other, h) k
skip_to-cons hook cb more r other (missing h) = missing (other, h)

skip_to-IsSkip : (hook : Text) (cbs : List Callback) → IsSkip hook cbs (skip_to hook cbs)
unfolding skip_to
skip_to-IsSkip hook [] = missing tt
skip_to-IsSkip hook (cb ∷ more) = elim (Bool-cases (text_eq cb.hook hook)) [
  | inl same ↦ rw same (found [] more cb refl tt ((text_eq_iff cb.hook hook).0 same))
  | inr other ↦ rw other (
      skip_to-cons hook cb more (skip_to hook more)
        (λ e. ground (arith, other, (text_eq_iff cb.hook hook).1 e)) (skip_to-IsSkip hook more))
]

-- A wait for one hook returns the first pending callback of that hook, drops the pending ones
-- before it and leaves those behind it; without one it drops all that is pending and goes on
-- waiting.
pub wait_callback_for-IsSkip :
    (hook : Text) (s : Session)
    → let r = wait_callback_for hook s in IsSkip hook s.pending (r.0, r.1.pending)
unfolding wait_callback_for
wait_callback_for-IsSkip hook s = skip_to-IsSkip hook s.pending
