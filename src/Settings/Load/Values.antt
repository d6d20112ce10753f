-- ===== src/Settings/Load/Values.antt =====
-- How apps/api/app/config.py reads single values of the environment.
use triage_assistant.Prelude.{
  ℕ, ◌==◌, String, Bool, true, false, ◌&&◌, Option, none, some, List, [], ◌∷◌, code, leb, str_eq,
  is_empty, if◌then◌else◌,
}
use triage_assistant.Runbooks.Markdown.{before_first}
use triage_assistant.Settings.{AppEnv, dev, test, prod}
use triage_assistant.Settings.Production.{◌>>=◌}

unfoldable pub within : ℕ → Option ℕ → ℕ → Bool
within low none n = leb low n
within low (some high) n = leb low n && leb n high

unfoldable pub in_bounds : ℕ → Option ℕ → Option ℕ → Option ℕ
unfolding within
in_bounds low high none = none
in_bounds low high (some n) = if within low high n then some n else none

unfoldable pub empty_as_none : String → Option String
empty_as_none s = if is_empty s then none else some s

-- `Field(default, ge=low, le=high)`
unfoldable pub number_or : (String → Option ℕ) → ℕ → ℕ → Option ℕ → Option String → Option ℕ
unfolding in_bounds
number_or number_of default low high none = some default
number_or number_of default low high (some s) = in_bounds low high (number_of s)

-- A number or none, where an empty text is none.
unfoldable pub number_if_any : (String → Option ℕ) → Option ℕ → Option String → Option (Option ℕ)
unfolding in_bounds
number_if_any number_of default none = some default
number_if_any number_of default (some s) =
    if is_empty s then some none else (in_bounds 1 none (number_of s) >>= (λ n. some (some n)))

unfoldable pub text_or : String → Option String → String
text_or default none = default
text_or default (some s) = s

unfoldable pub text_if_any : Option String → Option String
unfolding empty_as_none
text_if_any none = none
text_if_any (some s) = empty_as_none s

-- `Field(min_length=1)`
unfoldable pub not_empty : Option String → Option String
unfolding text_if_any
not_empty given = text_if_any given

unfoldable pub flag_or : (String → Option Bool) → Bool → Option String → Option Bool
flag_or bool_of default none = some default
flag_or bool_of default (some s) = bool_of s

unfoldable pub app_env_of : Option String → Option AppEnv
app_env_of none = some dev
app_env_of (some s) =
    if str_eq s "dev"
    then some dev
    else if str_eq s "test"
    then some test
    else if str_eq s "prod"
    then some prod
    else none

-- `_in_production`
unfoldable pub in_production : AppEnv → Bool
in_production dev = false
in_production test = false
in_production prod = true

unfoldable pub chat_mode_agent_of : Option String → Option Bool
chat_mode_agent_of none = some false
chat_mode_agent_of (some s) =
    if str_eq s "pipeline" then some false else if str_eq s "agent" then some true else none

-- `value.split(",")`
unfoldable pub split_commas : String → List String
unfolding before_first
split_commas String.[] = "" ∷ []
split_commas (String.◌∷◌ c s) =
    let rest = split_commas s in
    if code c == b',' then "" ∷ rest else before_first (String.◌∷◌ c "") rest
