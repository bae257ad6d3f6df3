-- ===== src/Cache/Clear.antt =====
-- src/cache/sqlite.rs. What `clear` removes for a provider.
use mathlib.Core.List.{Memᴰ, append_assoc}
use mathlib.Core.Path.{subst}
use skipjack_mcp.Base.{
  ◌≡◌, ◌≢◌, refl, sym, ap, ◌∙◌, Bool, true, not, none, some, List, [], ◌∷◌, ◌++◌, filter_by, All,
  arith, Bool-cases, inl, inr,
}
use skipjack_mcp.Base.Text.{Text, bytes, text_eq, text_eq_refl}
use skipjack_mcp.Base.Sort.{sort_by-perm, mem-perm}
use skipjack_mcp.Url.Defs.{join}
use skipjack_mcp.Cache.Keys.{sort, text_less, provider_list_string}
use skipjack_mcp.Cache.Defs.{Row, Cache, some_suffix, like, lists_provider, delete, clear}

some_suffix-here : (m : Text → Bool) (s : Text) → m s ≡ true → some_suffix m s ≡ true
some_suffix-here m [] h = h
some_suffix-here m (c ∷ s) h = ground (arith, h)

some_suffix-append : (m : Text → Bool) (r s : Text) → m s ≡ true → some_suffix m (r ++ s) ≡ true
some_suffix-append m [] s h = some_suffix-here m s h
some_suffix-append m (c ∷ r) s h = ground (arith, some_suffix-append m r s h)

-- A literal, wildcards among its characters included, matches itself.
like-literal :
    (literal pattern s : Text)
    → like pattern s ≡ true
    → like (literal ++ pattern) (literal ++ s) ≡ true
unfolding like
like-literal [] pattern s h = h
like-literal (p ∷ literal) pattern s h =
    let rest = like-literal literal pattern s h in
    let further = some_suffix-here (like (literal ++ pattern)) (literal ++ s) rest in
    ground (arith, rest, further)

like-any : (pattern r s : Text) → like pattern s ≡ true → like (b'%' ∷ pattern) (r ++ s) ≡ true
unfolding like
like-any pattern r s h = some_suffix-append (like pattern) r s h

like-rest : (s : Text) → like (bytes "%") s ≡ true
unfolding like
like-rest s = some_end s
  where
    some_end : (r : Text) → some_suffix (text_eq []) r ≡ true
    some_end [] = refl
    some_end (c ∷ r) = ground (arith, some_end r)

comma_rest : (s : Text) → like (bytes ",%") (b',' ∷ s) ≡ true
unfolding like
comma_rest s = ground (arith, like-rest s)

like_self : (s : Text) → like s s ≡ true
unfolding like
like_self [] = refl
like_self (c ∷ s) =
    let rest = like_self s in
    let further = some_suffix-here (like s) s rest in ground (arith, rest, further)

join-append :
    (b : Text) (before : List Text) (name : Text) (after : List Text)
    → join b',' ((b ∷ before) ++ name ∷ after)
      ≡ join b',' (b ∷ before) ++ b',' ∷ join b',' (name ∷ after)
unfolding join
join-append b [] name after = refl
join-append b (c ∷ before) name after =
    ap (λ s. b ++ b',' ∷ s) (join-append c before name after)
    ∙ sym (append_assoc b (b',' ∷ join b',' (c ∷ before)) (b',' ∷ join b',' (name ∷ after)))

listed :
    (before : List Text) (name : Text) (after : List Text)
    → lists_provider name (join b',' (before ++ name ∷ after)) ≡ true
unfolding lists_provider join
listed [] name [] = ground (arith, text_eq_refl name)
listed [] name (a ∷ after) =
    let rest = join b',' (a ∷ after) in
    let first = like-literal name (bytes ",%") (b',' ∷ rest) (comma_rest rest) in
    ground (arith, first)
listed (b ∷ before) name [] =
    let last =
      like-any (b',' ∷ name) (join b',' (b ∷ before)) (b',' ∷ name) (like_self (b',' ∷ name)) in
    subst (λ s. lists_provider name s ≡ true) (sym (join-append b before name []))
      (ground (arith, last))
listed (b ∷ before) name (a ∷ after) =
    let rest = join b',' (a ∷ after) in
    let middle =
      like-any (b',' ∷ name ++ bytes ",%") (join b',' (b ∷ before)) (b',' ∷ name ++ b',' ∷ rest)
        (like-literal (b',' ∷ name) (bytes ",%") (b',' ∷ rest) (comma_rest rest)) in
    subst (λ s. lists_provider name s ≡ true) (sym (join-append b before name (a ∷ after)))
      (ground (arith, middle))

split_mem :
    {A : Type 0} {x : A} {xs : List A}
    → Memᴰ x xs
    → (before : List A) × (after : List A) × (xs ≡ before ++ x ∷ after)
split_mem {xs = []} m = elim m [ ]
split_mem {x = x} {xs = y ∷ ys} (Memᴰ.head e) = ([], ys, ap (λ z. z ∷ ys) (sym e))
split_mem {xs = y ∷ ys} (Memᴰ.tail m) =
    let (before, after, e) = split_mem m in (y ∷ before, after, ap (◌∷◌ y) e)

lists_provider-mem :
    (ps : List Text) (name : Text)
    → Memᴰ name ps
    → lists_provider name (provider_list_string ps) ≡ true
unfolding provider_list_string sort
lists_provider-mem [] name m = elim m [ ]
lists_provider-mem (p ∷ ps) name m =
    let moved = mem-perm (sort_by-perm (λ x y. text_less y x) (p ∷ ps)) m in
    let (before, after, e) = split_mem moved in
    subst (λ s. lists_provider name (join b',' s) ≡ true) (sym e) (listed before name after)

All-filter_by :
    {A : Type 0} (P : A → Type 0) (p : A → Bool) (xs : List A)
    → ((x : A) → p x ≡ true → P x)
    → All P (filter_by p xs)
All-filter_by P p [] h = tt
All-filter_by P p (x ∷ xs) h = elim (Bool-cases (p x)) [
  | inl holds ↦ rw holds (h x holds, All-filter_by P p xs h)
  | inr fails ↦ rw fails (All-filter_by P p xs h)
]

-- After `clear` for a provider, no row is left that was stored for a given list of providers
-- with that provider among them; after `clear` without a provider no row is left.
pub clear-Forgets :
    (cache : Cache) (name : Text) (ps : List Text)
    → Memᴰ name ps
    → All (λ row. row.provider_list ≢ provider_list_string ps) (clear cache (some name)).0.rows
      × ((clear cache none).0.rows ≡ [])
unfolding clear delete
clear-Forgets cache name ps m = (
  All-filter_by _ (λ row. not (lists_provider name row.provider_list)) cache.rows
      (λ row kept e.
        let hit : lists_provider name row.provider_list ≡ true =
          subst (λ s. lists_provider name s ≡ true) (sym e) (lists_provider-mem ps name m) in
        ground (arith, kept, hit)),
  emptied cache.rows,
)
  where
    emptied : (rows : List Row) → filter_by (λ row. not true) rows ≡ []
    emptied [] = refl
    emptied (row ∷ rows) = emptied rows
