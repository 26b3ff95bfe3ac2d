-- ===== src/Prelude/Maps.antt =====
-- Go maps with string keys, as association lists with one entry a key.
use Prim.Native.Nat.{ℕ, suc, ◌≤◌}
use mathlib.Core.Path.{◌≡◌, refl}
use mathlib.Core.Bool.{Bool, true}
use mathlib.Core.Option.{Option, none, some}
use mathlib.Core.List.{List, [], ◌∷◌}
use native.Mathlib.Omega.{arith}
use mathlib.Core.Logic.{inl, inr}
use azath.Prelude.Tests.{if◌then◌else◌, Bool-cases}
use azath.Prelude.Lists.{length}
use azath.Prelude.Strings.{Text, text_eq, text_eq_iff}

abbrev pub Assoc {ℓ} : Type ℓ → Type ℓ
Assoc V = List (Text × V)

some_eq {ℓ} : {A : Type ℓ} {a b : A} → some a ≡ some b → a ≡ b
some_eq h = cc h

module _ {ℓ} {V : Type ℓ} where
  -- len(m)
  abbrev pub size : Assoc V → ℕ
  size = length

  -- m[k]
  unfoldable pub lookup : Text → Assoc V → Option V
  lookup k [] = none
  lookup k ((j, v) ∷ m) = if text_eq j k then some v else lookup k m

  -- delete(m, k)
  unfoldable pub remove : Text → Assoc V → Assoc V
  remove k [] = []
  remove k ((j, v) ∷ m) = let rest = remove k m in if text_eq j k then rest else (j, v) ∷ rest

  -- m[k] = v
  unfoldable pub insert : Text → V → Assoc V → Assoc V
  insert k v [] = (k, v) ∷ []
  insert k v ((j, w) ∷ m) =
      let rest = insert k v m in if text_eq j k then (k, v) ∷ m else (j, w) ∷ rest

  -- `for k, v := range m { if !p(v) { delete(m, k) } }`
  unfoldable pub keep : (V → Bool) → Assoc V → Assoc V
  keep p [] = []
  keep p ((j, v) ∷ m) = let rest = keep p m in if p v then (j, v) ∷ rest else rest

  pub lookup-insert :
      (k j : Text) (v : V) (m : Assoc V)
      → lookup j (insert k v m) ≡ (if text_eq k j then some v else lookup j m)
  unfolding lookup insert
  lookup-insert k j v [] = refl
  lookup-insert k j v ((i, w) ∷ m) =
      ground (arith, text_eq_iff k j, text_eq_iff i k, text_eq_iff i j, lookup-insert k j v m)

  pub lookup-remove :
      (k j : Text) (m : Assoc V)
      → lookup j (remove k m) ≡ (if text_eq k j then none else lookup j m)
  unfolding lookup remove
  lookup-remove k j [] = ground arith
  lookup-remove k j ((i, w) ∷ m) =
      ground (arith, text_eq_iff k j, text_eq_iff i k, text_eq_iff i j, lookup-remove k j m)

  pub length-remove-le : (k : Text) (m : Assoc V) → length (remove k m) ≤ length m
  unfolding remove
  length-remove-le k [] = omega arith
  length-remove-le k ((j, v) ∷ m) = ground (arith, length-remove-le k m)

  pub length-insert-le : (k : Text) (v : V) (m : Assoc V) → length (insert k v m) ≤ suc (length m)
  unfolding insert
  length-insert-le k v [] = omega arith
  length-insert-le k v ((j, w) ∷ m) = ground (arith, length-insert-le k v m)

  pub length-keep-le : (p : V → Bool) (m : Assoc V) → length (keep p m) ≤ length m
  unfolding keep
  length-keep-le p [] = omega arith
  length-keep-le p ((j, v) ∷ m) = ground (arith, length-keep-le p m)

  -- What a sweep leaves was there before and passes the test.
  pub lookup-keep :
      (p : V → Bool) (k : Text) (m : Assoc V) (v : V) → lookup k (keep p m) ≡ some v → p v ≡ true
  unfolding lookup keep
  lookup-keep p k [] v h = cc
  lookup-keep p k ((j, w) ∷ m) v h = ground (arith, lookup-keep p k m v)

-- A property of every entry.
abbrev pub Every {ℓ κ} : {V : Type ℓ} → (Text → V → Type κ) → Assoc V → Type κ
Every P [] = Unit
Every P ((k, v) ∷ m) = P k v × Every P m

module _ {ℓ κ} {V : Type ℓ} (P : Text → V → Type κ) where
  pub Every-keep : (p : V → Bool) (m : Assoc V) → Every P m → Every P (keep p m)
  unfolding keep
  Every-keep p [] h = tt
  Every-keep p ((k, v) ∷ m) h = elim (Bool-cases (p v)) [
    | inl y ↦ rw y (h.0, Every-keep p m h.1)
    | inr n ↦ rw n (Every-keep p m h.1)
  ]

  pub Every-insert : (k : Text) (v : V) (m : Assoc V) → P k v → Every P m → Every P (insert k v m)
  unfolding insert
  Every-insert k v [] p h = (p, tt)
  Every-insert k v ((j, w) ∷ m) p h = elim (Bool-cases (text_eq j k)) [
    | inl y ↦ rw y (p, h.1)
    | inr n ↦ rw n (h.0, Every-insert k v m p h.1)
  ]

  pub Every-lookup : (k : Text) (v : V) (m : Assoc V) → Every P m → lookup k m ≡ some v → P k v
  unfolding lookup
  Every-lookup k v [] h e = absurd (cc e)
  Every-lookup k v ((j, w) ∷ m) h e = elim (Bool-cases (text_eq j k)) [
    | inl y ↦ let e' : j ≡ k = (text_eq_iff j k).0 y in rw (← e', ← some_eq (rw y at e)) h.0
    | inr n ↦ Every-lookup k v m h.1 (rw n at e)
  ]

-- What holds of every entry stays true of more.
pub Every-mono {ℓ κ} :
    {V : Type ℓ} {P Q : Text → V → Type κ} (m : Assoc V)
    → ((k : Text) (v : V) → P k v → Q k v)
    → Every P m
    → Every Q m
Every-mono [] f h = tt
Every-mono ((k, v) ∷ m) f h = (f k v h.0, Every-mono m f h.1)
