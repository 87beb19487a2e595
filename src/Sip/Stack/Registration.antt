-- ===== src/Sip/Stack/Registration.antt =====
-- When a registration succeeds.
use smoke_tester.Prelude.{ℕ, ◌≡◌, ◌⊎◌, ◌↔◌, Bool, true, false, none, arith}
use smoke_tester.Sip.Stack.{Attempt, registered, failed, register_from, register}

abbrev pub is_failed : Attempt → Bool
is_failed (failed e) = true
is_failed _ = false

-- The attempt fails without an answer of the registrar, and the context is not done behind it.
abbrev pub Retries : (ℕ → Attempt) → (ℕ → Bool) → ℕ → Type 0
Retries once cancelled n = (is_failed (once n) ≡ true) × (cancelled n ≡ false)

-- Registering succeeds exactly if the first, the second or the third attempt does, and each attempt
-- before that one failed without an answer of the registrar, the context not being done behind it.
pub register-none :
    (once : ℕ → Attempt) (cancelled : ℕ → Bool)
    → (register once cancelled ≡ none) ↔ (
        (once 1 ≡ registered)
        ⊎ (Retries once cancelled 1
            × ((once 2 ≡ registered) ⊎ (Retries once cancelled 2 × (once 3 ≡ registered)))))
unfolding register register_from
register-none once cancelled = ground arith
