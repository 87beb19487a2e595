-- ===== src/Config/Parse/Why.antt =====
-- The reasons for which parse fails, and what the settings satisfy.
use smoke_tester.Config.Knobs.{
  ParseError, bad_url, bad_ip, missing, no_dot, unreadable, no_json, bad_ttl, bad_strict, bad_legs,
  getenv, atoi_nonneg, is_one_of, truths, falsehoods,
}
use smoke_tester.Config.Parse.{Host, absent}
use smoke_tester.Config.Settings.{Settings, initial}
use smoke_tester.Prelude.{
  ℕ, Bool, ◌==◌, ◌≡◌, ◌≢◌, ◌↔◌, ◌⊎◌, inl, inr, refl, true, false, none, some, List, [], ◌∷◌,
}
use smoke_tester.Prelude.Bytes.{Bytes}
use smoke_tester.Prelude.Dict.{Dict}
use smoke_tester.Prelude.Result.{ok, err}
use smoke_tester.Prelude.Text.{Text, codes, contains, trim_right}

-- The name stands in the list; it stands in the list with the empty value.
abbrev pub Listed : Text → List Text → Type 0
Listed n [] = ⊥
Listed n (m ∷ ms) = (m ≡ n) ⊎ Listed n ms

abbrev pub IsBlank : Text → List (Text × Text) → Type 0
IsBlank n [] = ⊥
IsBlank n (p ∷ ps) = ((p.0 ≡ n) × (p.1 ≡ [])) ⊎ IsBlank n ps

is_slash : ℕ → Bool
is_slash c = c == b'/'

-- The variables that a run needs, with what they have to say; the slashes at the end of the URL say
-- nothing.
unfoldable pub demanded : Dict Text → List (Text × Text)
unfolding is_slash trim_right
demanded env =
    (codes "JAMBONZ_API_URL", trim_right is_slash (getenv (codes "JAMBONZ_API_URL") env))
    ∷ (codes "JAMBONZ_SP_API_KEY", getenv (codes "JAMBONZ_SP_API_KEY") env)
    ∷ (codes "JAMBONZ_SP_SID", getenv (codes "JAMBONZ_SP_SID") env)
    ∷ (codes "JAMBONZ_SBC_PUBLIC_IP", getenv (codes "JAMBONZ_SBC_PUBLIC_IP") env)
    ∷ (codes "DEEPGRAM_API_KEY", getenv (codes "DEEPGRAM_API_KEY") env)
    ∷ (codes "DEEPSEEK_API_KEY", getenv (codes "DEEPSEEK_API_KEY") env)
    ∷ (codes "NGROK_AUTHTOKEN", getenv (codes "NGROK_AUTHTOKEN") env)
    ∷ []

-- What a key holds, if there is one.
abbrev pub IsJson : Host → Bytes → Type 0
IsJson h b = (b ≡ []) ⊎ (h.valid_json b ≡ true)

pub record IsUsable (h : Host) (env : Dict Text) (s : Settings) : Type 0 where
  pub complete : (n : Text) → ¬ IsBlank n (demanded env)
  pub url : h.url_error s.api_base_url ≡ none
  pub ip : h.parse_ip (getenv (codes "JAMBONZ_SBC_PUBLIC_IP") env) ≡ some s.sbc_public_ip
  pub zone : contains s.sip_realm_zone b'.' ≡ true
  pub gemini : IsJson h s.gemini_service_key
  pub dialogflow : IsJson h s.dialogflow_service_key

-- Why parse fails.
abbrev pub Why : Host → Dict Text → ParseError → Type 0
Why h env (bad_url e) = h.url_error (initial h.letters env).api_base_url ≡ some e
Why h env (bad_ip v) = (v ≡ getenv (codes "JAMBONZ_SBC_PUBLIC_IP") env) × (h.parse_ip v ≡ none)
Why h env (missing names) = (names ≢ []) × ((n : Text) → Listed n names ↔ IsBlank n (demanded env))
Why h env (no_dot zone) =
    (zone ≡ (initial h.letters env).sip_realm_zone) × (contains zone b'.' ≡ false)
Why h env (unreadable name kf e) = h.read_file (getenv name env) ≡ err e
Why h env (no_json name kf) =
    (b : Bytes) × (h.read_file (getenv name env) ≡ ok b) × (h.valid_json b ≡ false)
Why h env (bad_ttl v) = (v ≡ getenv (codes "ORPHAN_TTL_HOURS") env) × (atoi_nonneg v ≡ none)
Why h env (bad_strict v) =
    (v ≡ getenv (codes "CONTRACT_STRICT") env)
    × (is_one_of v truths ≡ false)
    × (is_one_of v falsehoods ≡ false)
Why h env (bad_legs v) =
    (v ≡ getenv (codes "RECORD_LEGS") env)
    × (is_one_of v truths ≡ false)
    × (is_one_of v falsehoods ≡ false)

pub absent-Listed : (xs : List (Text × Text)) (n : Text) → Listed n (absent xs) ↔ IsBlank n xs
unfolding absent
absent-Listed [] n = (λ h. h, λ h. h)
absent-Listed ((m, []) ∷ xs) n = (
  λ h. elim h [ inl e ↦ inl (e, refl) | inr k ↦ inr ((absent-Listed xs n).0 k) ],
  λ h. elim h [ inl e ↦ inl e.0 | inr k ↦ inr ((absent-Listed xs n).1 k) ],
)
absent-Listed ((m, c ∷ v) ∷ xs) n = (
  λ h. inr ((absent-Listed xs n).0 h),
  λ h. elim h [ inl e ↦ cc (e.1) | inr k ↦ (absent-Listed xs n).1 k ],
)
