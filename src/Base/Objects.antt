-- ===== src/Base/Objects.antt =====
-- A plain object with text keys (`Record<string, V>`) as an association list, and lists of texts.
use Prim.Native.Nat.{ℕ, suc, ◌≤◌, ◌<◌}
use Prim.Native.String.{String}
use mathlib.Core.Path.{◌≡◌, refl}
use mathlib.Core.Bool.{Bool, true, false, ◌||◌}
use mathlib.Core.Option.{Option, none, some}
use mathlib.Core.List.{List, [], ◌∷◌, ◌++◌}
use native.Mathlib.Omega.{arith}
use mattermost_plugin_openta.Base.Tests.{◌==◌, eq_iff, if◌then◌else◌}

abbrev pub Dict {ℓ} : Type ℓ → Type ℓ
Dict V = List (String × V)

module _ {ℓ} {V : Type ℓ} where
  -- `o[k]`
  abbrev pub lookup : String → Dict V → Option V
  lookup k [] = none
  lookup k ((j, v) ∷ d) = if j == k then some v else lookup k d

  -- `{...o, [k]: v}`, and `o[k] = v`
  abbrev pub insert : String → V → Dict V → Dict V
  insert k v [] = (k, v) ∷ []
  insert k v ((j, w) ∷ d) = if j == k then (k, v) ∷ d else (j, w) ∷ insert k v d

  -- `delete o[k]`
  abbrev pub erase : String → Dict V → Dict V
  erase k [] = []
  erase k ((j, w) ∷ d) = if j == k then erase k d else (j, w) ∷ erase k d

  -- `Object.keys(o).length`
  abbrev pub size : Dict V → ℕ
  size [] = 0
  size (e ∷ d) = suc (size d)

  pub size-erase : (k : String) (d : Dict V) → size (erase k d) ≤ size d
  size-erase k [] = omega arith
  size-erase k ((j, w) ∷ d) = ground (arith, size-erase k d)

  pub size-erase-lookup :
      (k : String) (v : V) (d : Dict V) → lookup k d ≡ some v → size (erase k d) < size d
  size-erase-lookup k v [] h = cc
  size-erase-lookup k v ((j, w) ∷ d) h = ground (arith, size-erase k d, size-erase-lookup k v d)

  pub lookup-insert :
      (k j : String) (v : V) (d : Dict V)
      → lookup j (insert k v d) ≡ (if k == j then some v else lookup j d)
  lookup-insert k j v [] = refl
  lookup-insert k j v ((i, w) ∷ d) =
      ground (arith, eq_iff k j, eq_iff i k, eq_iff i j, lookup-insert k j v d)

  pub lookup-erase :
      (k j : String) (d : Dict V) → lookup j (erase k d) ≡ (if k == j then none else lookup j d)
  lookup-erase k j [] = ground arith
  lookup-erase k j ((i, w) ∷ d) =
      ground (arith, eq_iff k j, eq_iff i k, eq_iff i j, lookup-erase k j d)

abbrev pub is_some {ℓ} : {A : Type ℓ} → Option A → Bool
is_some none = false
is_some (some a) = true

-- `xs.includes(x)`
abbrev pub contains : String → List String → Bool
contains x [] = false
contains x (y ∷ ys) = (y == x) || contains x ys

-- `xs.filter((y) => y !== x)`
abbrev pub remove : String → List String → List String
remove x [] = []
remove x (y ∷ ys) = if y == x then remove x ys else y ∷ remove x ys

-- No text stands twice.
abbrev pub Distinct : List String → Type 0
Distinct [] = Unit
Distinct (x ∷ xs) = (contains x xs ≡ false) × Distinct xs

pub contains-append_one :
    (x y : String) (xs : List String) → contains x (xs ++ y ∷ []) ≡ (contains x xs || (y == x))
contains-append_one x y [] = ground arith
contains-append_one x y (z ∷ xs) = ground (arith, contains-append_one x y xs)

pub contains-remove :
    (x y : String) (xs : List String)
    → contains x (remove y xs) ≡ (if y == x then false else contains x xs)
contains-remove x y [] = ground arith
contains-remove x y (z ∷ xs) =
    ground (arith, eq_iff y x, eq_iff z y, eq_iff z x, contains-remove x y xs)

pub remove-absent : (x : String) (xs : List String) → contains x xs ≡ false → remove x xs ≡ xs
remove-absent x [] h = refl
remove-absent x (y ∷ xs) h = ground (arith, remove-absent x xs)

pub Distinct-append_one :
    (y : String) (xs : List String) → Distinct xs → contains y xs ≡ false → Distinct (xs ++ y ∷ [])
Distinct-append_one y [] h n = (refl, tt)
Distinct-append_one y (x ∷ xs) h n =
    ground (arith, contains-append_one x y xs, eq_iff x y, eq_iff y x, Distinct-append_one y xs h.1)

pub Distinct-remove : (y : String) (xs : List String) → Distinct xs → Distinct (remove y xs)
Distinct-remove y [] h = tt
Distinct-remove y (x ∷ xs) h =
    ground (arith, contains-remove x y xs, eq_iff x y, eq_iff y x, Distinct-remove y xs h.1)
