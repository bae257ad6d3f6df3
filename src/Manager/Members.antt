-- ===== src/Manager/Members.antt =====
-- src/daemon/manager.rs. Members of filtered and mapped lists.
use mathlib.Core.List.{Memᴰ}
use mathlib.Core.Path.{subst}
use skipjack_mcp.Base.{
  ◌≡◌, inl, inr, refl, sym, ap, Bool, true, List, [], ◌∷◌, map, filter_by, arith, Bool-cases,
}
use skipjack_mcp.Base.Text.{Text, text_eq_iff, contains}

module _ {A : Type 0} where
  put_back :
      (p : A → Bool) (y : A) (kept xs : List A) {x : A}
      → p y ≡ true
      → (Memᴰ x kept → Memᴰ x xs × (p x ≡ true))
      → Memᴰ x (y ∷ kept)
      → Memᴰ x (y ∷ xs) × (p x ≡ true)
  put_back p y kept xs holds later (Memᴰ.head e) =
      (Memᴰ.head e, subst (λ z. p z ≡ true) (sym e) holds)
  put_back p y kept xs holds later (Memᴰ.tail m) = let (n, h) = later m in (Memᴰ.tail n, h)

  pub mem-filter_by :
      (p : A → Bool) (xs : List A) {x : A} → Memᴰ x (filter_by p xs) → Memᴰ x xs × (p x ≡ true)
  mem-filter_by p [] m = elim m [ ]
  mem-filter_by p (y ∷ xs) {x} m =
      let later = mem-filter_by p xs {x = x} in
      elim (Bool-cases (p y)) [
        | inl holds ↦ put_back p y (filter_by p xs) xs holds later (rw holds at m)
        | inr fails ↦ let (n, h) = later (rw fails at m) in (Memᴰ.tail n, h)
      ]

  pub mem_filter_by :
      (p : A → Bool) (xs : List A) {x : A} → Memᴰ x xs → p x ≡ true → Memᴰ x (filter_by p xs)
  mem_filter_by p [] m h = elim m [ ]
  mem_filter_by p (y ∷ xs) (Memᴰ.head e) h =
      let holds : p y ≡ true = subst (λ z. p z ≡ true) e h in rw holds (Memᴰ.head e)
  mem_filter_by p (y ∷ xs) (Memᴰ.tail m) h =
      let later = mem_filter_by p xs m h in
      elim (Bool-cases (p y)) [
        | inl holds ↦ rw holds (Memᴰ.tail later)
        | inr fails ↦ rw fails later
      ]

module _ {A B : Type 0} (f : A → B) where
  pub mem-map : (xs : List A) {y : B} → Memᴰ y (map f xs) → (x : A) × Memᴰ x xs × (f x ≡ y)
  mem-map [] m = elim m [ ]
  mem-map (x ∷ xs) (Memᴰ.head e) = (x, Memᴰ.head refl, sym e)
  mem-map (x ∷ xs) (Memᴰ.tail m) = let (z, at_z, e) = mem-map xs m in (z, Memᴰ.tail at_z, e)

  pub mem_map : (xs : List A) {x : A} → Memᴰ x xs → Memᴰ (f x) (map f xs)
  mem_map [] m = elim m [ ]
  mem_map (y ∷ xs) (Memᴰ.head e) = Memᴰ.head (ap f e)
  mem_map (y ∷ xs) (Memᴰ.tail m) = Memᴰ.tail (mem_map xs m)

pub contains-mem : (names : List Text) {name : Text} → Memᴰ name names → contains names name ≡ true
contains-mem [] m = elim m [ ]
contains-mem (n ∷ names) {name} (Memᴰ.head e) = ground (arith, text_eq_iff n name, e)
contains-mem (n ∷ names) (Memᴰ.tail m) = ground (arith, contains-mem names m)
