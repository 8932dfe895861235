-- ===== src/Common/Outcome.antt =====
-- What a call of a Rust function that returns `Result` can do: return `Ok` or `Err`, panic on an
-- index or a range out of bounds, or, for a loop of the model, use up its fuel.
use Prim.Native.Nat.{ℕ, ◌-◌, ◌≤◌, ◌<◌}
use mathlib.Core.Path.{◌≡◌, refl, sym, subst}
use mathlib.Core.Bool.{Bool, true, false}
use mathlib.Core.Option.{Option, none, some}
use mathlib.Core.List.{List}
use mongodb_dam.Common.Tests.{if◌then◌else◌}
use mongodb_dam.Common.Lists.{
  length, get_elem?, get_elem?-is_some, take, drop, slice, slice-is_some, length-slice,
}

-- `P` of the value, where there is one.
abbrev pub OnSome {ℓ} : {A : Type ℓ} → (A → Type 0) → Option A → Type 0
OnSome P none = Unit
OnSome P (some a) = P a

pub data Outcome {ℓ κ} (E : Type ℓ) (A : Type κ) : Type (ℓ ⊔ κ) where
  ok : A → Outcome E A
  err : E → Outcome E A
  panic : Outcome E A
  spent : Outcome E A

module _ {ℓ κ μ} {E : Type ℓ} {A : Type κ} {B : Type μ} where
  infixl 5 ◌>>=◌
  abbrev pub ◌>>=◌ : Outcome E A → (A → Outcome E B) → Outcome E B
  ok a >>= f = f a
  err e >>= f = err e
  panic >>= f = panic
  spent >>= f = spent

  infixl 5 ◌>>◌
  abbrev pub ◌>>◌ : Outcome E A → Outcome E B → Outcome E B
  m >> n = m >>= (λ _. n)

module _ {ℓ κ} {E : Type ℓ} {A : Type κ} where
  -- `.ok_or(e)`
  abbrev pub ok_or : Option A → E → Outcome E A
  ok_or (some a) e = ok a
  ok_or none e = err e

  -- `.ok()` of a call that may also panic
  abbrev pub ok? : Outcome E A → Outcome E (Option A)
  ok? (ok a) = ok (some a)
  ok? (err e) = ok none
  ok? panic = panic
  ok? spent = spent

  -- `xs[i]`
  unfoldable pub index : List A → ℕ → Outcome E A
  index xs i = elim (get_elem? xs i) [ none ↦ panic | some x ↦ ok x ]

  -- `&xs[a..b]`
  unfoldable pub range : List A → ℕ → ℕ → Outcome E (List A)
  range xs a b = elim (slice xs a b) [ none ↦ panic | some ys ↦ ok ys ]

  -- Total correctness: the call returns, and a result that it returns satisfies `P`.
  abbrev pub Ensures : (A → Type 0) → Outcome E A → Type 0
  Ensures P (ok a) = P a
  Ensures P (err e) = Unit
  Ensures P panic = ⊥
  Ensures P spent = ⊥

  pub Ensures-mono :
      (P Q : A → Type 0) (m : Outcome E A) → ((a : A) → P a → Q a) → Ensures P m → Ensures Q m
  Ensures-mono P Q (ok a) k h = k a h
  Ensures-mono P Q (err e) k h = tt
  Ensures-mono P Q panic k h = h
  Ensures-mono P Q spent k h = h

module _ {ℓ κ μ} {E : Type ℓ} {A : Type κ} {B : Type μ} where
  pub Ensures-bind :
      (P : A → Type 0) (Q : B → Type 0) (m : Outcome E A) (f : A → Outcome E B)
      → Ensures P m
      → ((a : A) → P a → Ensures Q (f a))
      → Ensures Q (m >>= f)
  Ensures-bind P Q (ok a) f h k = k a h
  Ensures-bind P Q (err e) f h k = tt
  Ensures-bind P Q panic f h k = absurd h
  Ensures-bind P Q spent f h k = absurd h

  -- Both parts of a chain that returns `Ok` did so.
  pub >>=-ok :
      (again : A → Outcome E B) (result : B) (first : Outcome E A)
      → (first >>= again) ≡ ok result
      → (value : A) × (first ≡ ok value) × (again value ≡ ok result)
  >>=-ok again result (ok value) ran = (value, refl, ran)
  >>=-ok again result (err e) ran = cc
  >>=-ok again result panic ran = cc
  >>=-ok again result spent ran = cc

module _ {ℓ κ} {E : Type ℓ} {A : Type κ} where
  pub Ensures-if :
      (P : A → Type 0) (b : Bool) (m n : Outcome E A)
      → (b ≡ true → Ensures P m)
      → (b ≡ false → Ensures P n)
      → Ensures P (if b then m else n)
  Ensures-if P true m n h k = h refl
  Ensures-if P false m n h k = k refl

  pub Ensures-ok? :
      (P : A → Type 0) (m : Outcome E A)
      → Ensures P m
      → Ensures {A = Option A} (λ _. Unit {0}) (ok? m)
  Ensures-ok? P (ok a) h = tt
  Ensures-ok? P (err e) h = tt
  Ensures-ok? P panic h = h
  Ensures-ok? P spent h = h

  pub Ensures-ok?_some :
      (P : A → Type 0) (m : Outcome E A) → Ensures P m → Ensures (OnSome P) (ok? m)
  Ensures-ok?_some P (ok a) h = h
  Ensures-ok?_some P (err e) h = tt
  Ensures-ok?_some P panic h = h
  Ensures-ok?_some P spent h = h

-- What `&xs[i]` and `&xs[a..b]` need in order not to panic.
module _ {ℓ κ μ} {E : Type ℓ} {A : Type κ} {B : Type μ} where
  pub Ensures-index :
      (Q : B → Type 0) (xs : List A) (i : ℕ) (f : A → Outcome E B)
      → i < length xs
      → ((a : A) → Ensures Q (f a))
      → Ensures Q (index xs i >>= f)
  unfolding index
  Ensures-index Q xs i f h k =
      let (x, e) = get_elem?-is_some xs i h in
      subst
        (λ (o : Option A).
          Ensures Q ((elim o as (λ _. Outcome E A) [ none ↦ panic | some y ↦ ok y ]) >>= f))
        (sym e) (k x)

  pub Ensures-range :
      (Q : B → Type 0) (xs : List A) (a b : ℕ) (f : List A → Outcome E B)
      → a ≤ b
      → b ≤ length xs
      → ((ys : List A) → length ys ≡ b - a → Ensures Q (f ys))
      → Ensures Q (range xs a b >>= f)
  unfolding range
  Ensures-range Q xs a b f p q k =
      let e = slice-is_some xs a b p q in
      let (_, _, n) = length-slice xs a b e in
      subst
        (λ (o : Option (List A)).
          Ensures Q ((elim o as (λ _. Outcome E (List A)) [ none ↦ panic | some y ↦ ok y ]) >>= f))
        (sym e) (k (take (b - a) (drop a xs)) n)

-- Partial correctness: a result that is returned satisfies `P`.
module _ {ℓ} {E : Type ℓ} where
  abbrev pub Yields {κ} : {A : Type κ} → (A → Type 0) → Outcome E A → Type 0
  Yields P (ok a) = P a
  Yields P (err e) = Unit
  Yields P panic = Unit
  Yields P spent = Unit

  pub Yields-bind {κ μ} :
      {A : Type κ} {B : Type μ} (P : B → Type 0) (m : Outcome E A) (f : A → Outcome E B)
      → ((a : A) → m ≡ ok a → Yields P (f a))
      → Yields P (m >>= f)
  Yields-bind P (ok a) f k = k a refl
  Yields-bind P (err e) f k = tt
  Yields-bind P panic f k = tt
  Yields-bind P spent f k = tt

  pub Yields-if {κ} :
      {A : Type κ} (P : A → Type 0) (b : Bool) (m n : Outcome E A)
      → (b ≡ true → Yields P m)
      → (b ≡ false → Yields P n)
      → Yields P (if b then m else n)
  Yields-if P true m n h k = h refl
  Yields-if P false m n h k = k refl

  pub Yields-mono {κ} :
      {A : Type κ} (P Q : A → Type 0) (m : Outcome E A)
      → ((a : A) → P a → Q a)
      → Yields P m
      → Yields Q m
  Yields-mono P Q (ok a) k h = k a h
  Yields-mono P Q (err e) k h = tt
  Yields-mono P Q panic k h = tt
  Yields-mono P Q spent k h = tt

  -- A call that returns, and what its results satisfy.
  pub Ensures-Yields {κ} :
      {A : Type κ} (P Q : A → Type 0) (m : Outcome E A) → Ensures Q m → Yields P m → Ensures P m
  Ensures-Yields P Q (ok a) h k = k
  Ensures-Yields P Q (err e) h k = tt
  Ensures-Yields P Q panic h k = h
  Ensures-Yields P Q spent h k = h
