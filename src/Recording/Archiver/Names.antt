-- ===== src/Recording/Archiver/Names.antt =====
-- The names that `reserve` hands out within a run.
use smoke_tester.Prelude.{
  ℕ, zero, suc, ◌+◌, ◌≤◌, ◌≡◌, ◌≢◌, inl, inr, refl, sym, ap, ◌∙◌, Bool, true, false, not, ◌&&◌,
  List, [], ◌∷◌, ◌++◌, arith, if◌then◌else◌, Bool-cases, length, length-append,
}
use smoke_tester.Prelude.Text.{Text, codes, text_eq, text_eq_iff, text_eq_refl}
use smoke_tester.Prelude.Dict.{lookup, insert, lookup-insert}
use smoke_tester.Prelude.Itoa.{itoa, itoa-injective}
use smoke_tester.Recording.Archiver.{Archiver, count_of, roles_of, flag, numbered, reserve}
use smoke_tester.Recording.Sanitize.{sanitize}

-- How often the role named `r` has been reserved within a test.
abbrev pub uses : Archiver → Text → Text → ℕ
uses a test r = count_of (lookup r (roles_of (lookup test a.used_role)))

-- A run: the reservations of tests and roles, in their order.
unfoldable pub reserve_all : Archiver → List (Text × Text) → Archiver
reserve_all a [] = a
reserve_all a ((test, role) ∷ more) = reserve_all (reserve a test role).archiver more

pub uses-reserve :
    (a : Archiver) (test role t r : Text)
    → uses (reserve a test role).archiver t r
      ≡ (if text_eq test t && text_eq (sanitize role) r then uses a t r + 1 else uses a t r)
unfolding reserve
uses-reserve a test role t r =
    rw
      (lookup-insert test t
        (insert (sanitize role) (uses a test (sanitize role) + 1)
          (roles_of (lookup test a.used_role)))
        a.used_role)
      (elim (Bool-cases (text_eq test t)) [
        | inl same ↦
            let e : test ≡ t = (text_eq_iff test t).0 same in
            rw (← e, text_eq_refl test)
              (ground (
                arith,
                text_eq_iff (sanitize role) r,
                lookup-insert (sanitize role) r (uses a test (sanitize role) + 1)
                    (roles_of (lookup test a.used_role)),
              ))
        | inr other ↦ rw other refl
      ])

uses-le-reserve_all :
    (a : Archiver) (run : List (Text × Text)) (t r : Text)
    → uses a t r ≤ uses (reserve_all a run) t r
unfolding reserve_all
uses-le-reserve_all a [] t r = omega arith
uses-le-reserve_all a ((test, role) ∷ more) t r = ground (
  arith,
  uses-reserve a test role t r,
  uses-le-reserve_all (reserve a test role).archiver more t r,
)

append-injective : (r s t : Text) → r ++ s ≡ r ++ t → s ≡ t
append-injective [] s t e = e
append-injective (c ∷ r) s t e = append-injective r s t (cc)

numbered-injective : (r : Text) (n m : ℕ) → numbered r n ≡ numbered r m → n ≡ m
numbered-injective r zero zero e = refl
numbered-injective r zero (suc m) e =
    absurd (omega (arith, ap length e, length-append r (b'-' ∷ itoa (suc m))))
numbered-injective r (suc n) zero e =
    absurd (omega (arith, ap length e, length-append r (b'-' ∷ itoa (suc n))))
numbered-injective r (suc n) (suc m) e =
    let d : (b'-' ∷ itoa (suc n)) ≡ (b'-' ∷ itoa (suc m)) =
      append-injective r (b'-' ∷ itoa (suc n)) (b'-' ∷ itoa (suc m)) e in
    itoa-injective (suc n) (suc m) (cc)

-- Within a run a role that is reserved again gets another name, whatever was reserved in between.
pub reserve-again :
    (a : Archiver) (test role : Text) (between : List (Text × Text)) (role' : Text)
    → sanitize role' ≡ sanitize role
    → (reserve a test role).name
      ≢ (reserve (reserve_all (reserve a test role).archiver between) test role').name
unfolding reserve
reserve-again a test role between role' same clash =
    let r : Text = sanitize role in
    let b : Archiver = reserve_all (reserve a test role).archiver between in
    let e : uses a test r ≡ uses b test r =
      numbered-injective r (uses a test r) (uses b test r)
        (clash ∙ ap (λ s. numbered s (uses b test s)) same) in
    ground (
      arith,
      uses-reserve a test role test r,
      uses-le-reserve_all (reserve a test role).archiver between test r,
      text_eq_refl test,
      text_eq_refl r,
    )

abbrev cleared : Archiver → Text → Bool
cleared a test = flag (lookup test a.cleared_test)

cleared-reserve_all :
    (a : Archiver) (run : List (Text × Text)) (t : Text)
    → cleared a t ≡ true
    → cleared (reserve_all a run) t ≡ true
unfolding reserve_all reserve
cleared-reserve_all a [] t h = h
cleared-reserve_all a ((test, role) ∷ more) t h =
    cleared-reserve_all (reserve a test role).archiver more t
      (ground (arith, lookup-insert test t true a.cleared_test))

-- The folder of a test is wiped at its first reservation of a run, and at no later one.
pub wipes_once :
    (a : Archiver) (test role : Text) (between : List (Text × Text)) (role' : Text)
    → (reserve (reserve_all (reserve a test role).archiver between) test role').wipes ≡ false
unfolding reserve
wipes_once a test role between role' = ap not (
    cleared-reserve_all (reserve a test role).archiver between test
      (ground (arith, lookup-insert test test true a.cleared_test, text_eq_refl test)))

-- Names of different roles can clash: the second use of a role takes the name of a first use of
-- the role that is spelled with the suffix.
pub reserve_collision :
    (a : Archiver) (test role other : Text)
    → uses a test (sanitize role) ≡ 1
    → sanitize other ≡ sanitize role ++ codes "-1"
    → uses a test (sanitize other) ≡ 0
    → (reserve a test role).name ≡ (reserve (reserve a test role).archiver test other).name
unfolding reserve itoa
reserve_collision a test role other used spelled fresh =
    let r : Text = sanitize role in
    let b : Archiver = (reserve a test role).archiver in
    let apart : length (sanitize other) ≢ length r =
      omega (arith, ap length spelled, length-append r (codes "-1")) in
    let kept : uses b test (sanitize other) ≡ 0 = ground (
      arith,
      uses-reserve a test role test (sanitize other),
      text_eq_iff r (sanitize other),
      λ (e : r ≡ sanitize other). apart (sym (ap length e)),
    ) in
    ap (numbered r) used ∙ (sym spelled ∙ sym (ap (numbered (sanitize other)) kept))
