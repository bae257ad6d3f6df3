-- ===== src/Base/Float.antt =====
-- `f64`: a parameter of the models, with the IEEE facts that the proofs use. `lt` is `<`, which is
-- false where an operand is NaN; `min` and `max` are Rust's, which prefer an operand that is a number.
use skipjack_mcp.Base.Tests.{ltb, if◌then◌else◌}
use Prim.Native.Nat.{ℕ, ◌+◌, ◌*◌, ◌/◌}
use mathlib.Core.Bool.{Bool, true, false}
use mathlib.Core.Path.{◌≡◌, refl}
use native.Mathlib.Omega.{arith}

pub record F64 : Type 1 where
  pub Carrier : Type 0
  pub of_ℕ : ℕ → Carrier
  pub add : Carrier → Carrier → Carrier
  pub mul : Carrier → Carrier → Carrier
  pub div : Carrier → Carrier → Carrier
  pub min_of : Carrier → Carrier → Carrier
  pub max_of : Carrier → Carrier → Carrier
  pub lt : Carrier → Carrier → Bool
  pub is_nan : Carrier → Bool
  pub lt_asym : (a b : Carrier) → lt a b ≡ true → lt b a ≡ false
  pub lt_cotrans :
      (a b c : Carrier) → is_nan b ≡ false → lt a b ≡ false → lt b c ≡ false → lt a c ≡ false
  pub of_ℕ_number : (n : ℕ) → is_nan (of_ℕ n) ≡ false
  pub min_number : (a b : Carrier) → is_nan b ≡ false → is_nan (min_of a b) ≡ false
  pub min_le_right : (a b : Carrier) → lt b (min_of a b) ≡ false
  pub min_nonneg :
      (a b : Carrier)
      → lt a (of_ℕ 0) ≡ false
      → lt b (of_ℕ 0) ≡ false
      → lt (min_of a b) (of_ℕ 0) ≡ false
  pub max_ge_right : (a b : Carrier) → lt (max_of a b) b ≡ false
  pub max_le : (a b c : Carrier) → lt c a ≡ false → lt c b ≡ false → lt c (max_of a b) ≡ false
  pub of_ℕ_nonneg : (n : ℕ) → lt (of_ℕ n) (of_ℕ 0) ≡ false
  pub mul_nonneg : (m n : ℕ) → lt (mul (of_ℕ m) (of_ℕ n)) (of_ℕ 0) ≡ false
  -- A factor in [0, 1) does not increase a number that is not negative.
  pub scale_le :
      (r x : Carrier)
      → lt r (of_ℕ 0) ≡ false
      → lt r (of_ℕ 1) ≡ true
      → lt x (of_ℕ 0) ≡ false
      → lt x (mul r x) ≡ false
  -- Nor does it make the number negative, or take it past a bound.
  pub scale_lt :
      (r x b : Carrier)
      → lt r (of_ℕ 0) ≡ false
      → lt r (of_ℕ 1) ≡ true
      → lt x (of_ℕ 0) ≡ false
      → lt x b ≡ true
      → (lt (mul r x) (of_ℕ 0) ≡ false) × (lt (mul r x) b ≡ true)
  pub min_lt : (a b c : Carrier) → lt b c ≡ true → lt (min_of a b) c ≡ true
  pub max_lt : (a b c : Carrier) → lt a c ≡ true → lt b c ≡ true → lt (max_of a b) c ≡ true

pub scaled : (r x : ℕ) → ltb r 0 ≡ false → ltb r 1 ≡ true → ltb x 0 ≡ false → ltb x (r * x) ≡ false
scaled r x h k l = let z : r ≡ 0 = ground arith in rw z (ground arith)

pub scaled-lt :
    (r x b : ℕ)
    → ltb r 0 ≡ false
    → ltb r 1 ≡ true
    → ltb x 0 ≡ false
    → ltb x b ≡ true
    → (ltb (r * x) 0 ≡ false) × (ltb (r * x) b ≡ true)
scaled-lt r x b h k l m = let z : r ≡ 0 = ground arith in rw z (ground arith, ground arith)

abbrev pub lesser : ℕ → ℕ → ℕ
lesser a b = if ltb b a then b else a

abbrev pub greater : ℕ → ℕ → ℕ
greater a b = if ltb a b then b else a

pub asym : (a b : ℕ) → ltb a b ≡ true → ltb b a ≡ false
asym a b h = ground arith

pub cotrans : (a b c : ℕ) → false ≡ false → ltb a b ≡ false → ltb b c ≡ false → ltb a c ≡ false
cotrans a b c n h k = ground arith

pub lesser-le : (a b : ℕ) → ltb b (lesser a b) ≡ false
lesser-le a b = ground arith

pub nonneg : (a : ℕ) → ltb a 0 ≡ false
nonneg a = ground arith

pub greater-ge : (a b : ℕ) → ltb (greater a b) b ≡ false
greater-ge a b = ground arith

pub greater-le : (a b c : ℕ) → ltb c a ≡ false → ltb c b ≡ false → ltb c (greater a b) ≡ false
greater-le a b c h k = ground arith

pub lesser-lt : (a b c : ℕ) → ltb b c ≡ true → ltb (lesser a b) c ≡ true
lesser-lt a b c h = ground arith

pub greater-lt : (a b c : ℕ) → ltb a c ≡ true → ltb b c ≡ true → ltb (greater a b) c ≡ true
greater-lt a b c h k = ground arith

-- Whole numbers meet the facts.
abbrev pub whole : F64
whole = record {
  Carrier = ℕ;
  of_ℕ = λ n. n;
  add = ◌+◌;
  mul = ◌*◌;
  div = ◌/◌;
  min_of = lesser;
  max_of = greater;
  lt = ltb;
  is_nan = λ n. false;
  lt_asym = asym;
  lt_cotrans = cotrans;
  of_ℕ_number = λ n. refl;
  min_number = λ a b h. refl;
  min_le_right = lesser-le;
  min_nonneg = λ a b h k. nonneg (lesser a b);
  max_ge_right = greater-ge;
  max_le = greater-le;
  of_ℕ_nonneg = nonneg;
  mul_nonneg = λ m n. nonneg (m * n);
  scale_le = scaled;
  scale_lt = scaled-lt;
  min_lt = lesser-lt;
  max_lt = greater-lt;
}
