-- ===== src/Config/Load.antt =====
-- src/config.rs: `Config::load` with `expand_tilde` and `validate_providers`. The file system, the
-- environment and the home directory are parameters.
use skipjack_mcp.Base.{
  Bool, false, Option, none, some, List, ◌++◌, map, if◌then◌else◌, is_empty, unwrap_or,
}
use skipjack_mcp.Base.Text.{Text, bytes, text_eq, starts_with, ends_with}
use skipjack_mcp.Base.Float.{F64}
use skipjack_mcp.Search.{Result, ok, err}
use skipjack_mcp.Config.Defs.{ProviderConfig, Config}
use skipjack_mcp.Config.Defaults.{config_default}
use skipjack_mcp.Config.Toml.{Toml, strip_prefix, apply_env_overrides}

-- `PathBuf::join`
abbrev pub path_join : Text → Text → Text
path_join base rest =
    if starts_with rest (bytes "/")
    then rest
    else if is_empty base
    then rest
    else if ends_with base (bytes "/")
    then base ++ rest
    else base ++ bytes "/" ++ rest

unfoldable pub expand_tilde : Option Text → Text → Text
unfolding strip_prefix
expand_tilde home path =
    if text_eq path (bytes "~")
    then unwrap_or home (bytes "~")
    else elim (strip_prefix (bytes "~/") path) [
      | none ↦ path
      | some rest ↦ elim home [ none ↦ path | some h ↦ path_join h rest ]
    ]

module _ {F : Type 0} where
  unfoldable pub normalize_paths : Option Text → Config F → Config F
  unfolding expand_tilde
  normalize_paths home config = record config {
    cache = record (config.cache) { db_path = expand_tilde home config.cache.db_path };
  }

  -- The body of the loop of `validate_providers`; `var` is `std::env::var`.
  unfoldable pub resolve_key : (Text → Option Text) → ProviderConfig F → ProviderConfig F
  resolve_key var provider = elim provider.api_key [
    | some key ↦ provider
    | none ↦ elim provider.api_key_env [
      | none ↦ provider
      | some env_var ↦ elim (var env_var) [
        | some key ↦ record provider { api_key = some key }
        | none ↦ record provider { enabled = false }
      ]
    ]
  ]

  unfoldable pub validate_providers : (Text → Option Text) → Config F → Config F
  unfolding resolve_key
  validate_providers var config = record config {
    providers = map (resolve_key var) config.providers;
  }

pub data LoadError : Type 0 where
  read_failed : (path : Text) → (cause : Text) → LoadError
  parse_failed : (path : Text) → (cause : Text) → LoadError
  override_failed : (cause : Text) → LoadError

-- What `load` finds: files, variables and the home directory.
pub record System : Type 0 where
  pub exists : Text → Bool
  pub read_to_string : Text → Result Text Text
  pub vars : List (Text × Text)
  pub var : Text → Option Text
  pub home : Option Text

module _ (f64 : F64) (toml : Toml (Config (f64.Carrier))) (system : System) where
  open system use {exists, read_to_string, vars, var, home}

  abbrev pub default_path : Text
  default_path = unwrap_or home (bytes ".") ++ bytes "/.config/skipjackd/config.toml"

  unfoldable pub read_config : Text → Result LoadError (Config (f64.Carrier))
  unfolding config_default
  read_config path =
      if exists path
      then elim (read_to_string path) [
        | err e ↦ err (read_failed path e)
        | ok content ↦ elim (toml.parse_config content) [
          | err e ↦ err (parse_failed path e)
          | ok config ↦ ok config
        ]
      ]
      else ok (config_default f64 home)

  unfoldable pub load : Option Text → Result LoadError (Config (f64.Carrier))
  unfolding read_config apply_env_overrides normalize_paths validate_providers
  load config_path = elim (read_config (unwrap_or config_path default_path)) [
    | err e ↦ err e
    | ok config ↦ elim (apply_env_overrides toml vars config) [
      | err e ↦ err (override_failed e)
      | ok overridden ↦ ok (validate_providers var (normalize_paths home overridden))
    ]
  ]
