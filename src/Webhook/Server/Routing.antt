-- ===== src/Webhook/Server/Routing.antt =====
-- Which session a hook comes to.
use smoke_tester.Prelude.{
  ℕ, ◌≡◌, ◌⊎◌, inl, inr, refl, ap, ◌∙◌, false, ◌||◌, Option, none, some, List, [], ◌∷◌, ◌++◌, arith,
  Bool-cases, length, All,
}
use smoke_tester.Prelude.Dict.{lookup, lookup-insert, lookup-delete}
use smoke_tester.Prelude.Text.{Text, text_eq, text_eq_iff, text_eq_refl, is_empty, codes}
use smoke_tester.Webhook.Correlation.{Request, extract_test_id, extract_call_sid}
use smoke_tester.Webhook.Registry.{
  Registry, bind_call_sid, lookup_by_call_sid, new_session, allocated, session_of_test, release,
  update, anon,
}
use smoke_tester.Webhook.Server.{
  Codec, session_for, known_session, bound_session, captured, handle_call_hook, handle_status_hook,
  handle_action_hook, verb_of,
}
use smoke_tester.Webhook.Server.Ops.{
  Op, new_op, release_op, at_session, call_hook, status_hook, action_hook, step, run,
}

-- The call is known to belong to the test, which has a session.
pub record IsBound (t c : Text) (p : ℕ) (r : Registry) : Type 0 where
  pub of_call : lookup c r.call_sid_index ≡ some t
  pub of_test : lookup t r.sessions ≡ some p

module _ (t c : Text) (p : ℕ) where
  bind_call_sid-IsBound :
      (c' t' : Text) (r : Registry)
      → (text_eq c' c ≡ false) ⊎ (t' ≡ t)
      → IsBound t c p r
      → IsBound t c p (bind_call_sid c' t' r)
  unfolding bind_call_sid
  bind_call_sid-IsBound c' t' r apart h =
      elim (Bool-cases (is_empty c' || is_empty t' || text_eq t' anon)) [
        | inl skip ↦ rw skip h
        | inr bind ↦ rw bind (record {
          of_call = ground (arith, apart, h.of_call, lookup-insert c' c t' r.call_sid_index);
          of_test = h.of_test;
        })
      ]

  new_session-IsBound :
      (u : Text) (r : Registry) → IsBound t c p r → IsBound t c p (new_session u r).0
  unfolding new_session allocated
  new_session-IsBound u r h = go (lookup u r.sessions) refl
    where
      go : (o : Option ℕ) → lookup u r.sessions ≡ o → IsBound t c p (allocated o u r).0
      go (some q) e = h
      go none e = record {
        of_call = h.of_call;
        of_test = ground (
          arith,
          e,
          h.of_test,
          text_eq_iff u t,
          lookup-insert u t (length r.heap) r.sessions,
          λ (s : u ≡ t). ap (λ x. lookup x r.sessions) s,
        );
      }

  session_for-IsBound :
      (t' c' : Text) (r : Registry)
      → (text_eq c' c ≡ false) ⊎ ((t' ≡ []) ⊎ (t' ≡ t))
      → IsBound t c p r
      → IsBound t c p (session_for t' c' r).0
  unfolding session_for bound_session known_session
  session_for-IsBound [] c' r apart h = bound (lookup_by_call_sid c' r)
    where
      bound : (o : Option ℕ) → IsBound t c p (bound_session o r).0
      bound (some q) = h
      bound none = new_session-IsBound anon r h
  session_for-IsBound (x ∷ xs) c' r apart h = given (lookup (x ∷ xs) r.sessions) (same apart)
    where
      same :
          (text_eq c' c ≡ false) ⊎ (((x ∷ xs) ≡ []) ⊎ ((x ∷ xs) ≡ t))
          → (text_eq c' c ≡ false) ⊎ ((x ∷ xs) ≡ t)
      same (inl e) = inl e
      same (inr (inl e)) = cc
      same (inr (inr e)) = inr e

      given :
          (o : Option ℕ)
          → (text_eq c' c ≡ false) ⊎ ((x ∷ xs) ≡ t)
          → IsBound t c p (known_session o (x ∷ xs) c' r).0
      given (some q) s = bind_call_sid-IsBound c' (x ∷ xs) r s h
      given none s =
          bind_call_sid-IsBound c' (x ∷ xs) (new_session (x ∷ xs) r).0 s
            (new_session-IsBound (x ∷ xs) r h)

  -- A hook does not claim the call for another test.
  abbrev pub SparesCall : Codec → Request → Type 0
  SparesCall codec q =
      (text_eq (extract_call_sid codec.decode q.body) c ≡ false)
      ⊎ ((extract_test_id codec.letters codec.decode q ≡ [])
          ⊎ (extract_test_id codec.letters codec.decode q ≡ t))

  -- Nor is the test released.
  abbrev pub Spares : Codec → Op → Type 0
  Spares codec (new_op u) = Unit
  Spares codec (release_op u) = text_eq u t ≡ false
  Spares codec (at_session q o) = Unit
  Spares codec (call_hook q) = SparesCall codec q
  Spares codec (status_hook q) = SparesCall codec q
  Spares codec (action_hook q) = SparesCall codec q

  captured-IsBound :
      (codec : Codec) (hook : Text) (q : Request) (r : Registry)
      → SparesCall codec q
      → IsBound t c p r
      → IsBound t c p (captured codec hook q r).0
  unfolding captured update
  captured-IsBound codec hook q r s h =
      let k =
        session_for-IsBound (extract_test_id codec.letters codec.decode q)
          (extract_call_sid codec.decode q.body) r s h in
      record { of_call = k.of_call; of_test = k.of_test }

  handle_action_hook-IsBound :
      (codec : Codec) (q : Request) (r : Registry)
      → SparesCall codec q
      → IsBound t c p r
      → IsBound t c p (handle_action_hook codec q r).0
  unfolding handle_action_hook
  handle_action_hook-IsBound codec q r s h = elim (Bool-cases (is_empty (verb_of q))) [
    | inl bad ↦ rw bad h
    | inr good ↦ rw good (captured-IsBound codec (codes "action/" ++ verb_of q) q r s h)
  ]

  step-IsBound :
      (codec : Codec) (o : Op) (r : Registry)
      → Spares codec o
      → IsBound t c p r
      → IsBound t c p (step codec o r)
  unfolding step release update handle_call_hook handle_status_hook
  step-IsBound codec (new_op u) r s h = new_session-IsBound u r h
  step-IsBound codec (release_op u) r s h = record {
    of_call = h.of_call;
    of_test = ground (arith, s, h.of_test, lookup-delete u t r.sessions);
  }
  step-IsBound codec (at_session q o) r s h = record { of_call = h.of_call; of_test = h.of_test }
  step-IsBound codec (call_hook q) r s h = captured-IsBound codec (codes "call_hook") q r s h
  step-IsBound codec (status_hook q) r s h =
      captured-IsBound codec (codes "call_status_hook") q r s h
  step-IsBound codec (action_hook q) r s h = handle_action_hook-IsBound codec q r s h

  pub run-IsBound :
      (codec : Codec) (os : List Op) (r : Registry)
      → All (Spares codec) os
      → IsBound t c p r
      → IsBound t c p (run codec os r)
  unfolding run
  run-IsBound codec [] r s h = h
  run-IsBound codec (o ∷ os) r s h =
      run-IsBound codec os (step codec o r) s.1 (step-IsBound codec o r s.0 h)

  pub IsBound-session_for :
      (r : Registry) → is_empty c ≡ false → IsBound t c p r → session_for [] c r ≡ (r, p)
  unfolding session_for lookup_by_call_sid session_of_test bound_session
  IsBound-session_for r full h = rw (full, h.of_call, h.of_test) refl

pub bind_call_sid-binds :
    (t c : Text) (p : ℕ) (r : Registry)
    → is_empty t ≡ false
    → is_empty c ≡ false
    → text_eq t anon ≡ false
    → lookup t r.sessions ≡ some p
    → IsBound t c p (bind_call_sid c t r)
unfolding bind_call_sid
bind_call_sid-binds t c p r named full mine e =
    rw (full, named, mine)
      (record {
        of_call = lookup-insert c c t r.call_sid_index ∙ rw (text_eq_refl c) refl;
        of_test = e;
      })

pub new_session-of_test :
    (t : Text) (r : Registry) → lookup t (new_session t r).0.sessions ≡ some (new_session t r).1
unfolding new_session allocated
new_session-of_test t r = go (lookup t r.sessions) refl
  where
    go :
        (o : Option ℕ)
        → lookup t r.sessions ≡ o
        → lookup t (allocated o t r).0.sessions ≡ some (allocated o t r).1
    go (some p) e = e
    go none e = lookup-insert t t (length r.heap) r.sessions ∙ rw (text_eq_refl t) refl
