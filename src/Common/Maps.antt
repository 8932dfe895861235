-- ===== src/Common/Maps.antt =====
-- A map as the list of its entries, with a test of its keys for equality. The order of the list has
-- no meaning.
use Prim.Native.Nat.{◌≤◌, suc}
use mathlib.Core.Path.{◌≡◌, refl, subst}
use mathlib.Core.Logic.{inl, inr}
use mathlib.Core.Bool.{Bool, true, not}
use mathlib.Core.Option.{Option, none, some}
use mathlib.Core.List.{List, [], ◌∷◌}
use native.Mathlib.Omega.{arith}
use mongodb_dam.Common.Tests.{if◌then◌else◌, Bool-cases}
use mongodb_dam.Common.Lists.{length}

abbrev pub Entries : Type 0 → Type 0 → Type 0
Entries K V = List (K × V)

module _ {K V : Type 0} where
  -- `retain`
  unfoldable pub retain : (K → V → Bool) → Entries K V → Entries K V
  retain keep [] = []
  retain keep ((k, v) ∷ entries) =
      let rest = retain keep entries in if keep k v then (k, v) ∷ rest else rest

  -- Every entry of the map satisfies `P`.
  abbrev pub AllEntries : (K → V → Type 0) → Entries K V → Type 0
  AllEntries P [] = Unit
  AllEntries P ((k, v) ∷ entries) = P k v × AllEntries P entries

  pub length-retain :
      (keep : K → V → Bool) (entries : Entries K V) → length (retain keep entries) ≤ length entries
  unfolding retain
  length-retain keep [] = omega arith
  length-retain keep ((k, v) ∷ entries) = ground (arith, length-retain keep entries)

  pub retain-AllEntries :
      (P : K → V → Type 0) (keep : K → V → Bool) (entries : Entries K V)
      → AllEntries P entries
      → AllEntries P (retain keep entries)
  unfolding retain
  retain-AllEntries P keep [] all = tt
  retain-AllEntries P keep ((k, v) ∷ entries) (p, all) = elim (Bool-cases (keep k v)) [
    | inl kept ↦ rw kept (p, retain-AllEntries P keep entries all)
    | inr gone ↦ rw gone (retain-AllEntries P keep entries all)
  ]

  -- What `retain` leaves passed the test.
  pub retain-kept :
      (keep : K → V → Bool) (entries : Entries K V)
      → AllEntries (λ k v. keep k v ≡ true) (retain keep entries)
  unfolding retain
  retain-kept keep [] = tt
  retain-kept keep ((k, v) ∷ entries) = elim (Bool-cases (keep k v)) [
    | inl kept ↦ rw kept (kept, retain-kept keep entries)
    | inr gone ↦ rw gone (retain-kept keep entries)
  ]

  pub AllEntries-mono :
      (P Q : K → V → Type 0) (entries : Entries K V)
      → ((k : K) (v : V) → P k v → Q k v)
      → AllEntries P entries
      → AllEntries Q entries
  AllEntries-mono P Q [] f all = tt
  AllEntries-mono P Q ((k, v) ∷ entries) f (p, all) = (f k v p, AllEntries-mono P Q entries f all)

module _ {K V : Type 0} (same : K → K → Bool) where
  -- `get(&key).cloned()`
  unfoldable pub lookup : K → Entries K V → Option V
  lookup key [] = none
  lookup key ((k, v) ∷ entries) =
      let rest = lookup key entries in if same key k then some v else rest

  unfoldable pub remove : K → Entries K V → Entries K V
  unfolding retain
  remove key = retain (λ k _. not (same key k))

  unfoldable pub insert : K → V → Entries K V → Entries K V
  unfolding remove
  insert key value entries = (key, value) ∷ remove key entries

  pub length-remove :
      (key : K) (entries : Entries K V) → length (remove key entries) ≤ length entries
  unfolding remove
  length-remove key entries = length-retain (λ k _. not (same key k)) entries

  pub length-insert :
      (key : K) (value : V) (entries : Entries K V)
      → length (insert key value entries) ≤ suc (length entries)
  unfolding insert
  length-insert key value entries = omega (arith, length-remove key entries)

  pub remove-AllEntries :
      (P : K → V → Type 0) (key : K) (entries : Entries K V)
      → AllEntries P entries
      → AllEntries P (remove key entries)
  unfolding remove
  remove-AllEntries P key entries = retain-AllEntries P (λ k _. not (same key k)) entries

  pub insert-AllEntries :
      (P : K → V → Type 0) (key : K) (value : V) (entries : Entries K V)
      → P key value
      → AllEntries P entries
      → AllEntries P (insert key value entries)
  unfolding insert
  insert-AllEntries P key value entries p all = (p, remove-AllEntries P key entries all)

  -- A value that is found stands under a key that passes for the wanted one.
  pub lookup-AllEntries :
      (P : K → V → Type 0) (key : K) (entries : Entries K V) (v : V)
      → AllEntries P entries
      → lookup key entries ≡ some v
      → (k : K) × (same key k ≡ true) × P k v
  unfolding lookup
  lookup-AllEntries P key [] v all found = cc
  lookup-AllEntries P key ((k, w) ∷ entries) v (p, all) found = elim (Bool-cases (same key k)) [
    | inl e ↦ (k, e, subst (λ u. P k u) (ground arith) p)
    | inr e ↦ lookup-AllEntries P key entries v all (ground arith)
  ]

  -- The key of the first entry, and another key.
  pub length-remove_hit :
      (key k : K) (v : V) (entries : Entries K V)
      → same key k ≡ true
      → length (remove key ((k, v) ∷ entries)) ≤ length entries
  unfolding remove retain
  length-remove_hit key k v entries e = rw e (length-remove key entries)

  pub length-remove_cons :
      (key k : K) (v : V) (entries : Entries K V)
      → length (remove key ((k, v) ∷ entries)) ≤ suc (length (remove key entries))
  unfolding remove retain
  length-remove_cons key k v entries = ground arith

  -- Nothing is found under a key that is removed.
  pub lookup-remove : (key : K) (entries : Entries K V) → lookup key (remove key entries) ≡ none
  unfolding lookup remove retain
  lookup-remove key [] = refl
  lookup-remove key ((k, v) ∷ entries) = elim (Bool-cases (same key k)) [
    | inl e ↦ rw e (lookup-remove key entries)
    | inr e ↦ rw (e, e) (lookup-remove key entries)
  ]
