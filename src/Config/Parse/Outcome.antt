-- ===== src/Config/Parse/Outcome.antt =====
-- What the settings satisfy, and what each error of parse means.
use smoke_tester.Config.Knobs.{ParseError, getenv}
use smoke_tester.Config.Parse.{Host}
use smoke_tester.Config.Settings.{Settings, initial}
use smoke_tester.Prelude.Bytes.{Bytes}
use smoke_tester.Prelude.Dict.{Dict}
use smoke_tester.Prelude.Result.{Result, Ends}
use smoke_tester.Prelude.Text.{Text, codes}
use smoke_tester.Config.Parse.Why.{Why}

module _ (h : Host) (env : Dict Text) where
  -- A part that succeeds with a value for which P holds, or fails for a reason.
  abbrev Explains {ℓ} : {A : Type ℓ} → (A → Type 0) → Result ParseError A → Type 0
  Explains P m = Ends P (Why h env) m

  abbrev url : Text
  url = (initial h.letters env).api_base_url

  abbrev ip_value : Text
  ip_value = getenv (codes "JAMBONZ_SBC_PUBLIC_IP") env
