-- ===== src/Contract.antt =====
-- internal/contract/contract.go: the validator of responses. What the file system and the compiler
-- of schemas give comes with each use.
pub mod Cache
mod Examples
use smoke_tester.Config.Root.{Dir, find_up}
use smoke_tester.Prelude.{
  Bool, not, Option, none, some, List, [], ◌∷◌, ◌⊎◌, inl, inr, if◌then◌else◌,
}
use smoke_tester.Prelude.Bytes.{Bytes}
use smoke_tester.Prelude.Dict.{Dict, lookup, insert}
use smoke_tester.Prelude.Result.{Result, ok, err, ◌>>=◌}
use smoke_tester.Prelude.Text.{Text, codes, is_empty}

-- os.Stat on a file.
pub data Stat : Type 0 where
  present absent : Stat
  unreadable : Text → Stat

-- A use of the validator: the path and the body, what os.Stat says of the file, and what the
-- compiler gives if it is called. The compiler belongs to a library and has a state of its own, so
-- two uses of one path may find different results.
pub record Use (Schema : Type 0) : Type 0 where
  pub path : Text
  pub body : Bytes
  pub stat : Stat
  pub compile : Result Text Schema

-- The decoder of JSON, and the verdict of a schema on decoded JSON.
pub record Judge (Schema Value : Type 0) : Type 0 where
  pub decode : Bytes → Result Text Value
  pub validate : Schema → Value → Option Text

pub data ContractError : Type 0 where
  no_schema : Text → ContractError
  stat_failed compile_failed not_json invalid : Text → Text → ContractError
  empty_body : Text → ContractError

-- New: the path that is no directory, or cannot be looked up, is refused.
pub data RootStat : Type 0 where
  directory plain_file : RootStat
  no_root : Text → RootStat

unfoldable pub check_root : Text → RootStat → Option Text
check_root root directory = none
check_root root plain_file = some (codes "not a directory")
check_root root (no_root e) = some e

-- The cache is filled by a success only.
unfoldable pub compiled :
    {Schema : Type 0}
    → Text
    → Dict Schema
    → Result Text Schema
    → Dict Schema × Result ContractError Schema
unfolding insert
compiled path cache (ok s) = (insert path s cache, ok s)
compiled path cache (err e) = (cache, err (compile_failed path e))

unfoldable pub judged : Text → Option Text → Option ContractError
judged path none = none
judged path (some e) = some (invalid path e)

module _ {Schema : Type 0} where
  unfoldable pub looked_up :
      Use Schema → Dict Schema → Stat → Dict Schema × Result ContractError Schema
  unfolding compiled
  looked_up u cache present = compiled u.path cache u.compile
  looked_up u cache absent = (cache, err (no_schema u.path))
  looked_up u cache (unreadable e) = (cache, err (stat_failed u.path e))

  unfoldable pub cached :
      Use Schema → Dict Schema → Option Schema → Dict Schema × Result ContractError Schema
  unfolding looked_up
  cached u cache (some s) = (cache, ok s)
  cached u cache none = looked_up u cache u.stat

  -- load: the cache behind it, and the schema or the error.
  unfoldable pub load : Use Schema → Dict Schema → Dict Schema × Result ContractError Schema
  unfolding cached lookup
  load u cache = cached u cache (lookup u.path cache)

module _ {Schema Value : Type 0} where
  unfoldable pub decoded :
      Judge Schema Value → Text → Schema → Result Text Value → Option ContractError
  unfolding judged
  decoded j path s (err e) = some (not_json path e)
  decoded j path s (ok v) = judged path (j.validate s v)

  unfoldable pub checked :
      Judge Schema Value → Text → Bytes → Result ContractError Schema → Option ContractError
  unfolding decoded
  checked j path body (err e) = some e
  checked j path body (ok s) =
      if is_empty body then some (empty_body path) else decoded j path s (j.decode body)

  -- ValidateResponse.
  unfoldable pub validate_response :
      Judge Schema Value → Use Schema → Dict Schema → Dict Schema × Option ContractError
  unfolding checked
  validate_response j u cache = let r = load u cache in (r.0, checked j u.path u.body r.1)

  -- The uses of one validator, with the verdicts.
  unfoldable pub validate_all :
      Judge Schema Value → List (Use Schema) → Dict Schema → List (Option ContractError)
  validate_all j [] cache = []
  validate_all j (u ∷ more) cache =
      let r = validate_response j u cache in r.1 ∷ validate_all j more r.0

-- ResolveSchemasRoot: the override, if it names something that is there, or else the first directory
-- on the walk up from the working directory that has a directory schemas/.
pub data RootError : Type 0 where
  override_failed no_working_directory : Text → RootError
  not_found : RootError

below : Option Dir → Result RootError (List Text)
below none = err not_found
below (some dir) = ok (codes "schemas" ∷ dir)

walked : (Dir → Text → Bool) → Result Text Dir → Result RootError (List Text)
unfolding below
walked is_dir (err e) = err (no_working_directory e)
walked is_dir (ok cwd) = below (find_up is_dir (codes "schemas") cwd)

overridden : Text → Option Text → Result RootError (List Text ⊎ Text)
overridden p none = ok (inr p)
overridden p (some e) = err (override_failed e)

unfoldable pub resolve_schemas_root :
    Text
    → (Text → Option Text)
    → (Dir → Text → Bool)
    → Result Text Dir
    → Result RootError (List Text ⊎ Text)
unfolding walked overridden
resolve_schemas_root override stat_error is_dir cwd =
    if not (is_empty override)
    then overridden override (stat_error override)
    else walked is_dir cwd >>= (λ d. ok (inl d))
