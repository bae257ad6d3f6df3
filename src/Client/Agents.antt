-- ===== src/Client/Agents.antt =====
-- src/anti_blocking/agents.rs: `ua_pool` and `random_ua`. The text of ua_pool.txt and the choice of the
-- crate rand, an index, are parameters.
use skipjack_mcp.Base.{
  ℕ, not, Option, none, List, [], ◌∷◌, if◌then◌else◌, map, filter_by, is_empty, get_elem?, length,
}
use skipjack_mcp.Base.Text.{Text}
use skipjack_mcp.Url.Defs.{split}
use skipjack_mcp.Server.Trim.{trim}

-- `str::lines`: what follows the last newline is a line if it is not empty. The carriage return that
-- ends a line is left to `trim`, which takes it off.
abbrev drop_last_empty : List Text → List Text
drop_last_empty [] = []
drop_last_empty (line ∷ []) = if is_empty line then [] else line ∷ []
drop_last_empty (line ∷ next ∷ lines) = line ∷ drop_last_empty (next ∷ lines)

unfoldable pub ua_pool : Text → List Text
unfolding split trim
ua_pool text =
    filter_by (λ line. not (is_empty line)) (map trim (drop_last_empty (split b'\n' text)))

-- `none` stands for the panic on an empty pool.
unfoldable pub random_ua : Text → (ℕ → ℕ) → Option Text
unfolding ua_pool
random_ua text random =
    let pool = ua_pool text in if is_empty pool then none else get_elem? pool (random (length pool))
