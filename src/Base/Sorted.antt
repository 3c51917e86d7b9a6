-- ===== src/Base/Sorted.antt =====
-- `BTreeSet<u32>` as an ascending list, and `BTreeMap<u32, V>` as one of pairs, with the operations
-- that the engine calls.
use Prim.Native.Nat.{ℕ, ◌<◌}
use mathlib.Core.Bool.{Bool, false, ◌||◌}
use mathlib.Core.List.{List, [], ◌∷◌}
use mathlib.Core.Option.{Option, none, some}
use qubic_random_client.Base.Tests.{ltb, ◌==◌, if◌then◌else◌}

-- `BTreeSet::contains`.
abbrev pub contains : ℕ → List ℕ → Bool
contains t [] = false
contains t (x ∷ xs) = (x == t) || contains t xs

-- `BTreeSet::insert`, without its result.
abbrev pub insert : ℕ → List ℕ → List ℕ
insert t [] = t ∷ []
insert t (x ∷ xs) = if ltb t x then t ∷ x ∷ xs else if x == t then x ∷ xs else x ∷ insert t xs

-- `BTreeSet::remove`.
abbrev pub remove : ℕ → List ℕ → List ℕ
remove t [] = []
remove t (x ∷ xs) = if x == t then xs else x ∷ remove t xs

module _ {ℓ} {V : Type ℓ} where
  -- `BTreeMap::get`.
  abbrev pub lookup : ℕ → List (ℕ × V) → Option V
  lookup t [] = none
  lookup t ((k, v) ∷ m) = if k == t then some v else lookup t m

  -- `BTreeMap::insert`.
  abbrev pub insert_entry : ℕ → V → List (ℕ × V) → List (ℕ × V)
  insert_entry t v [] = (t, v) ∷ []
  insert_entry t v ((k, w) ∷ m) =
      if ltb t k
      then (t, v) ∷ (k, w) ∷ m
      else if k == t
      then (t, v) ∷ m
      else (k, w) ∷ insert_entry t v m

  -- `BTreeMap::remove`.
  abbrev pub remove_entry : ℕ → List (ℕ × V) → List (ℕ × V)
  remove_entry t [] = []
  remove_entry t ((k, v) ∷ m) = if k == t then m else (k, v) ∷ remove_entry t m

  -- Keys ascend, and lie above the bound.
  abbrev pub Above : ℕ → List (ℕ × V) → Type 0
  Above b [] = Unit {0}
  Above b ((k, v) ∷ m) = (b < k) × Above k m
