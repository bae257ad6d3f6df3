-- ===== src/Config/Toml.antt =====
-- src/config.rs: `apply_env_overrides` and `parse_env_toml_value` on a table of the crate toml, whose
-- values other than tables are a parameter. `to_lowercase` is that of ASCII.
use skipjack_mcp.Base.{
  ℕ, true, false, ◌&&◌, Option, none, some, List, [], ◌∷◌, ◌++◌, ◌==◌, if◌then◌else◌, unwrap_or,
}
use skipjack_mcp.Base.Text.{Text, bytes, text_eq, to_lowercase}
use skipjack_mcp.Search.{Result, ok, err, ◌>>=◌}

mutual
  pub data Value (Leaf : Type 0) : Type 0 where
    leaf : Leaf → Value Leaf
    table : Table Leaf → Value Leaf

  pub data Table (Leaf : Type 0) : Type 0 where
    empty : Table Leaf
    entry : Text → Value Leaf → Table Leaf → Table Leaf

abbrev pub not_a_table : Text → Text → Text
not_a_table key part =
    bytes "Cannot apply env override '"
    ++ key
    ++ bytes "': '"
    ++ part
    ++ bytes "' is not a TOML table"

module _ {Leaf : Type 0} where
  unfoldable pub find : Text → Table Leaf → Option (Value Leaf)
  find key empty = none
  find key (entry k v t) = if text_eq k key then some v else find key t

  unfoldable pub insert : Text → Value Leaf → Table Leaf → Table Leaf
  insert key value empty = entry key value empty
  insert key value (entry k v t) =
      if text_eq k key then entry key value t else entry k v (insert key value t)

  -- The nested table, put back.
  abbrev pub attach : Text → Table Leaf → Result Text (Table Leaf) → Result Text (Table Leaf)
  attach part t (ok u) = ok (insert part (table u) t)
  attach part t (err e) = err e

  -- The walk along the parts of a key. There is at least one part.
  unfoldable pub set_path : Text → List Text → Value Leaf → Table Leaf → Result Text (Table Leaf)
  unfolding find insert
  set_path key [] value t = ok t
  set_path key (part ∷ []) value t = ok (insert (to_lowercase part) value t)
  set_path key (part ∷ next ∷ parts) value t = elim (find (to_lowercase part) t) [
    | none ↦ attach (to_lowercase part) t (set_path key (next ∷ parts) value empty)
    | some (table u) ↦ attach (to_lowercase part) t (set_path key (next ∷ parts) value u)
    | some (leaf l) ↦ err (not_a_table key (to_lowercase part))
  ]

-- A byte in front of the first piece.
abbrev push : ℕ → List Text → List Text
push c [] = (c ∷ []) ∷ []
push c (piece ∷ pieces) = (c ∷ piece) ∷ pieces

-- `suffix.split("__")`
unfoldable pub split_double : Text → List Text
split_double [] = [] ∷ []
split_double (c ∷ []) = (c ∷ []) ∷ []
split_double (c ∷ d ∷ s) = elim (c == b'_' && d == b'_') [
  | true ↦ [] ∷ split_double s
  | false ↦ push c (split_double (d ∷ s))
]

-- `s.strip_prefix(prefix)`
unfoldable pub strip_prefix : Text → Text → Option Text
strip_prefix [] s = some s
strip_prefix (p ∷ prefix) [] = none
strip_prefix (p ∷ prefix) (c ∷ s) =
    let rest = strip_prefix prefix s in if c == p then rest else none

-- The crate: `string` makes a value, and documents are parsed and printed.
pub record Toml (Config : Type 0) : Type 1 where
  pub Leaf : Type 0
  pub string : Text → Leaf
  pub parse_table : Text → Result Text (Table Leaf)
  pub print_table : Table Leaf → Result Text Text
  pub parse_config : Text → Result Text Config
  pub print_config : Config → Result Text Text

module _ {Config : Type 0} (toml : Toml Config) where
  open toml use {Leaf, string, parse_table, print_table, parse_config, print_config}

  unfoldable pub parse_env_toml_value : Text → Value Leaf
  unfolding find
  parse_env_toml_value s = elim (parse_table (bytes "v = " ++ s)) [
    | err e ↦ leaf (string s)
    | ok t ↦ unwrap_or (find (bytes "v") t) (leaf (string s))
  ]

  -- The loop over the variables of the environment.
  unfoldable pub override_all : List (Text × Text) → Table Leaf → Result Text (Table Leaf)
  unfolding strip_prefix split_double set_path parse_env_toml_value
  override_all [] root = ok root
  override_all ((key, value) ∷ vars) root = elim (strip_prefix (bytes "SKIPJACKD_") key) [
    | none ↦ override_all vars root
    | some suffix ↦ elim (set_path key (split_double suffix) (parse_env_toml_value value) root) [
      | err e ↦ err e
      | ok root' ↦ override_all vars root'
    ]
  ]

  unfoldable pub apply_env_overrides : List (Text × Text) → Config → Result Text Config
  unfolding override_all
  apply_env_overrides vars config = do
    config_str ← print_config config
    root ← parse_table config_str
    merged ← override_all vars root
    merged_str ← print_table merged
    parse_config merged_str
