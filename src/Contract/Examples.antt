-- ===== src/Contract/Examples.antt =====
-- One validator on four uses: the second finds the compiler out of order and is judged by the schema
-- that the first got.
use smoke_tester.Contract.{
  Use, Judge, present, absent, no_schema, invalid, empty_body, validate_all, load, compiled,
  looked_up, cached, checked, validate_response, decoded, judged,
}
use smoke_tester.Contract.Cache.{verdicts, validate_all-verdicts}
use smoke_tester.Prelude.{ℕ, ◌≡◌, refl, none, some, List, [], ◌∷◌, if◌then◌else◌, length, leb}
use smoke_tester.Prelude.Bytes.{Bytes}
use smoke_tester.Prelude.Dict.{lookup, insert}
use smoke_tester.Prelude.Result.{ok, err}
use smoke_tester.Prelude.Text.{text_eq, codes}

-- A schema is the least length of a body.
abbrev judge : Judge ℕ Bytes
judge = record {
  decode = λ b. ok b;
  validate = λ n b. if leb n (length b) then none else some (codes "too short");
}

abbrev uses : List (Use ℕ)
uses =
    record { path = codes "a"; body = 1 ∷ 2 ∷ []; stat = present; compile = ok 2 }
    ∷ record { path = codes "a"; body = 1 ∷ []; stat = present; compile = err (codes "broken") }
    ∷ record { path = codes "b"; body = 1 ∷ []; stat = absent; compile = ok 0 }
    ∷ record { path = codes "a"; body = []; stat = absent; compile = ok 0 }
    ∷ []

judged_uses :
    validate_all judge uses []
    ≡ none
      ∷ some (invalid (codes "a") (codes "too short"))
      ∷ some (no_schema (codes "b"))
      ∷ some (empty_body (codes "a"))
      ∷ []
unfolding validate_all validate_response load cached looked_up compiled checked decoded judged
    lookup insert text_eq
judged_uses = refl

validate_all-verdicts_example : validate_all judge uses [] ≡ verdicts judge [] uses
validate_all-verdicts_example = validate_all-verdicts judge uses
