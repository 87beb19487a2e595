-- ===== src/Contract/Cache.antt =====
-- What the cache of schemas does to the verdicts.
use smoke_tester.Contract.{
  Use, Judge, Stat, present, absent, unreadable, ContractError, no_schema, stat_failed, not_json,
  invalid, empty_body, compile_failed, compiled, looked_up, cached, load, judged, decoded, checked,
  validate_response, validate_all,
}
use smoke_tester.Prelude.{
  ◌≡◌, refl, sym, ap, ◌∙◌, Option, none, some, List, [], ◌∷◌, arith, true, false, Bool-cases, inl,
  inr, if◌then◌else◌,
}
use smoke_tester.Prelude.Bytes.{Bytes}
use smoke_tester.Prelude.Dict.{Dict, lookup, lookup-insert}
use smoke_tester.Prelude.Result.{Result, ok, err, ◌>>=◌}
use smoke_tester.Prelude.Text.{Text, is_empty, text_eq, text_eq_iff}

-- The reference has no cache, only the uses so far, the last one first: a file is judged by the
-- first schema that one of them got for it.
made : {Schema : Type 0} → Stat → Result Text Schema → Option Schema
made present (ok s) = some s
made present (err e) = none
made absent r = none
made (unreadable e) r = none

unless_made : {Schema : Type 0} → Use Schema → Text → Option Schema → Option Schema
unfolding made
unless_made u path (some s) = some s
unless_made u path none = if text_eq u.path path then made u.stat u.compile else none

unfoldable pub first_schema : {Schema : Type 0} → List (Use Schema) → Text → Option Schema
unfolding unless_made
first_schema [] path = none
first_schema (u ∷ past) path = unless_made u path (first_schema past path)

-- One chain of steps, of which the first failure is the verdict.
on_disk : Text → Stat → Result {0, 0} ContractError Unit
on_disk path present = ok tt
on_disk path absent = err (no_schema path)
on_disk path (unreadable e) = err (stat_failed path e)

labelled : {A : Type 0} → (Text → ContractError) → Result Text A → Result ContractError A
labelled f (ok a) = ok a
labelled f (err e) = err (f e)

found : {Schema : Type 0} → Use Schema → Option Schema → Result ContractError Schema
unfolding on_disk labelled
found u (some s) = ok s
found u none = on_disk u.path u.stat >>= (λ _. labelled (compile_failed u.path) u.compile)

with_body : Text → Bytes → Result {0, 0} ContractError Unit
with_body path body = if is_empty body then err (empty_body path) else ok tt

accepts : Text → Option Text → Result {0, 0} ContractError Unit
accepts path none = ok tt
accepts path (some e) = err (invalid path e)

passes :
    {Schema Value : Type 0}
    → Judge Schema Value
    → Use Schema
    → Schema
    → Result {0, 0} ContractError Unit
unfolding labelled with_body accepts
passes j u s = do
  _ ← with_body u.path u.body
  v ← labelled (not_json u.path) (j.decode u.body)
  accepts u.path (j.validate s v)

verdict_of : Result {0, 0} ContractError Unit → Option ContractError
verdict_of (ok _) = none
verdict_of (err e) = some e

unfoldable pub verdicts :
    {Schema Value : Type 0}
    → Judge Schema Value
    → List (Use Schema)
    → List (Use Schema)
    → List (Option ContractError)
unfolding first_schema found passes verdict_of
verdicts j past [] = []
verdicts j past (u ∷ more) =
    verdict_of (found u (first_schema past u.path) >>= passes j u) ∷ verdicts j (u ∷ past) more

-- The steps one by one.
judged-accepts : (path : Text) (o : Option Text) → judged path o ≡ verdict_of (accepts path o)
unfolding judged accepts verdict_of
judged-accepts path none = refl
judged-accepts path (some e) = refl

module _ {Schema Value : Type 0} (j : Judge Schema Value) where
  decoded-labelled :
      (path : Text) (s : Schema) (r : Result Text Value)
      → decoded j path s r
        ≡ verdict_of (labelled (not_json path) r >>= (λ v. accepts path (j.validate s v)))
  unfolding decoded labelled verdict_of
  decoded-labelled path s (err e) = refl
  decoded-labelled path s (ok v) = judged-accepts path (j.validate s v)

  passed :
      (path : Text) (body : Bytes) (s : Schema)
      → checked j path body (ok s)
        ≡ verdict_of (
            with_body path body >>= (λ _.
              labelled (not_json path) (j.decode body) >>= (λ v. accepts path (j.validate s v))))
  unfolding checked with_body verdict_of
  passed path [] s = refl
  passed path (b ∷ bs) s = decoded-labelled path s (j.decode (b ∷ bs))

  checked-passes :
      (u : Use Schema) (r : Result ContractError Schema)
      → checked j u.path u.body r ≡ verdict_of (r >>= passes j u)
  unfolding passes checked verdict_of
  checked-passes u (err e) = refl
  checked-passes u (ok s) = passed u.path u.body s

module _ {Schema : Type 0} where
  -- What load gives is what the reference finds.
  looked_up-found :
      (u : Use Schema) (cache : Dict Schema) (st : Stat) (r : Result Text Schema)
      → u.stat ≡ st
      → u.compile ≡ r
      → (looked_up u cache st).1 ≡ (on_disk u.path st >>= (λ _. labelled (compile_failed u.path) r))
  unfolding looked_up compiled on_disk labelled
  looked_up-found u cache present (ok s) e f = rw (f, compiled) refl
  looked_up-found u cache present (err x) e f = rw (f, compiled) refl
  looked_up-found u cache absent r e f = refl
  looked_up-found u cache (unreadable x) r e f = refl

  cached-found :
      (u : Use Schema) (cache : Dict Schema) (o : Option Schema) → (cached u cache o).1 ≡ found u o
  unfolding cached found
  cached-found u cache (some s) = refl
  cached-found u cache none = looked_up-found u cache u.stat u.compile refl refl

  -- The cache holds what the reference remembers.
  abbrev IsMemory : List (Use Schema) → Dict Schema → Type 0
  IsMemory past cache = (path : Text) → lookup path cache ≡ first_schema past path

  kept-none :
      (u : Use Schema) (path : Text) (o : Option Schema)
      → made u.stat u.compile ≡ none
      → unless_made u path o ≡ o
  unfolding unless_made
  kept-none u path (some s) h = refl
  kept-none u path none h = ground (arith, h)

  kept-other :
      (u : Use Schema) (path : Text) (o : Option Schema)
      → text_eq u.path path ≡ false
      → unless_made u path o ≡ o
  unfolding unless_made
  kept-other u path (some s) h = refl
  kept-other u path none h = rw h refl

  kept-some :
      (u : Use Schema) (path : Text) (o : Option Schema) (s : Schema)
      → o ≡ some s
      → unless_made u path o ≡ o
  unfolding unless_made
  kept-some u path o s h = rw h refl

  first-made :
      (u : Use Schema) (path : Text) (s : Schema) {o : Option Schema}
      → o ≡ none
      → text_eq u.path path ≡ true
      → u.stat ≡ present
      → u.compile ≡ ok s
      → unless_made u path o ≡ some s
  unfolding unless_made made
  first-made u path s n t e f = rw (n, unless_made) (rw (t, e, f, made) refl)

  looked_up-IsMemory :
      (u : Use Schema) (past : List (Use Schema)) (cache : Dict Schema) (st : Stat)
      (r : Result Text Schema)
      → u.stat ≡ st
      → u.compile ≡ r
      → lookup u.path cache ≡ none
      → IsMemory past cache
      → IsMemory (u ∷ past) (looked_up u cache st).0
  unfolding looked_up compiled first_schema made
  looked_up-IsMemory u past cache present (ok s) e f new h path =
      elim (Bool-cases (text_eq u.path path)) [
        | inl same ↦
            let p : u.path ≡ path = (text_eq_iff u.path path).0 same in
            let none_yet : first_schema past path ≡ none =
              sym (h path) ∙ (ap (λ q. lookup q cache) (sym p) ∙ new) in
            ap (λ x. lookup path (compiled u.path cache x).0) f
            ∙ (lookup-insert u.path path s cache
                ∙ (rw same (sym (first-made u path s none_yet same e f))))
        | inr other ↦
            ap (λ x. lookup path (compiled u.path cache x).0) f
            ∙ (lookup-insert u.path path s cache
                ∙ (rw other (h path ∙ sym (kept-other u path (first_schema past path) other))))
      ]
  looked_up-IsMemory u past cache present (err x) e f new h path =
      ap (λ x. lookup path (compiled u.path cache x).0) f
      ∙ (h path ∙ sym (kept-none u path (first_schema past path) (rw (e, f, made) refl)))
  looked_up-IsMemory u past cache absent r e f new h path =
      h path ∙ sym (kept-none u path (first_schema past path) (rw (e, made) refl))
  looked_up-IsMemory u past cache (unreadable x) r e f new h path =
      h path ∙ sym (kept-none u path (first_schema past path) (rw (e, made) refl))

  cached-IsMemory :
      (u : Use Schema) (past : List (Use Schema)) (cache : Dict Schema) (o : Option Schema)
      → lookup u.path cache ≡ o
      → IsMemory past cache
      → IsMemory (u ∷ past) (cached u cache o).0
  unfolding cached first_schema
  cached-IsMemory u past cache none e h path =
      looked_up-IsMemory u past cache u.stat u.compile refl refl e h path
  cached-IsMemory u past cache (some s) e h path = elim (Bool-cases (text_eq u.path path)) [
    | inl same ↦
        let p : u.path ≡ path = (text_eq_iff u.path path).0 same in
        let known : first_schema past path ≡ some s =
          sym (h path) ∙ (ap (λ q. lookup q cache) (sym p) ∙ e) in
        h path ∙ sym (kept-some u path (first_schema past path) s known)
    | inr other ↦ h path ∙ sym (kept-other u path (first_schema past path) other)
  ]

module _ {Schema Value : Type 0} (j : Judge Schema Value) where
  validate_all-IsMemory :
      (us past : List (Use Schema)) (cache : Dict Schema)
      → IsMemory past cache
      → validate_all j us cache ≡ verdicts j past us
  unfolding validate_all validate_response verdicts load
  validate_all-IsMemory [] past cache h = refl
  validate_all-IsMemory (u ∷ more) past cache h =
      let o = lookup u.path cache in
      let c = cached u cache o in
      let first : checked j u.path u.body c.1
          ≡ verdict_of (found u (first_schema past u.path) >>= passes j u) =
        checked-passes j u c.1
        ∙ ap (λ r. verdict_of (r >>= passes j u))
            (cached-found u cache o ∙ ap (found u) (h u.path)) in
      let rest : validate_all j more c.0 ≡ verdicts j (u ∷ past) more =
        validate_all-IsMemory more (u ∷ past) c.0 (cached-IsMemory u past cache o refl h) in
      ap (λ v. v ∷ validate_all j more c.0) first
      ∙ ap (verdict_of (found u (first_schema past u.path) >>= passes j u) ∷◌) rest

  -- The verdicts of a new validator on a sequence of uses, each of which may find the file changed
  -- and the compiler in another state: a file is judged by the first schema that a use before got
  -- for it, or else by what the file and the compiler give now; the verdict is the first failure of
  -- the look at the file, the compiler, the empty body, the decoder and the schema, or none.
  pub validate_all-verdicts : (us : List (Use Schema)) → validate_all j us [] ≡ verdicts j [] us
  unfolding lookup first_schema
  validate_all-verdicts us = validate_all-IsMemory us [] [] (λ path. refl)
