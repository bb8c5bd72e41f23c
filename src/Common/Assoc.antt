-- ===== src/Common/Assoc.antt =====
-- `std::unordered_map` with number keys as an association list. No code depends on its order.
use Prim.Native.Nat.{ℕ}
use mathlib.Core.Path.{◌≡◌, refl, ◌∙◌}
use mathlib.Core.Bool.{Bool}
use mathlib.Core.Option.{Option, none, some}
use mathlib.Core.List.{List, [], ◌∷◌}
use native.Mathlib.Omega.{arith}
use sponge_2021fall.Common.Tests.{◌==◌, if◌then◌else◌}

abbrev pub Assoc {ℓ} : Type ℓ → Type ℓ
Assoc V = List (ℕ × V)

module _ {ℓ} {V : Type ℓ} where
  -- `find`
  unfoldable pub find : ℕ → Assoc V → Option V
  find k [] = none
  find k ((j, v) ∷ m) = if j == k then some v else find k m

  -- `insert`, which leaves the map as it is where the key is there.
  unfoldable pub insert : ℕ → V → Assoc V → Assoc V
  insert k v [] = (k, v) ∷ []
  insert k v ((j, w) ∷ m) = if j == k then (j, w) ∷ m else (j, w) ∷ insert k v m

  -- A loop of `erase(it)` and `++it`.
  unfoldable pub erase_if : (V → Bool) → Assoc V → Assoc V
  erase_if p [] = []
  erase_if p ((j, v) ∷ m) = let rest = erase_if p m in if p v then rest else (j, v) ∷ rest

  abbrev pub or_else : Option V → Option V → Option V
  or_else none o = o
  or_else (some v) o = some v

  pub find-insert :
      (k j : ℕ) (v : V) (m : Assoc V)
      → find j (insert k v m) ≡ (if k == j then or_else (find j m) (some v) else find j m)
  unfolding find insert
  find-insert k j v [] = ground arith
  find-insert k j v ((i, w) ∷ m) = ground (arith, find-insert k j v m)

  pub find-insert_new :
      (k : ℕ) (v : V) (m : Assoc V) → find k m ≡ none → find k (insert k v m) ≡ some v
  find-insert_new k v m h = find-insert k k v m ∙ rw (h) (ground arith)

  -- Keys that occur once.
  abbrev pub IsMap : Assoc V → Type ℓ
  IsMap [] = Unit
  IsMap ((j, v) ∷ m) = (find j m ≡ none) × IsMap m

  abbrev pub unless : (V → Bool) → Option V → Option V
  unless p none = none
  unless p (some v) = if p v then none else some v

  find-erase_if-none :
      (p : V → Bool) (k : ℕ) (m : Assoc V) → find k m ≡ none → find k (erase_if p m) ≡ none
  unfolding find erase_if
  find-erase_if-none p k [] h = refl
  find-erase_if-none p k ((j, v) ∷ m) h = ground (arith, find-erase_if-none p k m)

  pub find-erase_if :
      (p : V → Bool) (k : ℕ) (m : Assoc V) → IsMap m → find k (erase_if p m) ≡ unless p (find k m)
  unfolding find erase_if
  find-erase_if p k [] h = refl
  find-erase_if p k ((j, v) ∷ m) h =
      ground (arith, find-erase_if p k m h.1, find-erase_if-none p j m h.0)

  pub insert-IsMap : (k : ℕ) (v : V) (m : Assoc V) → IsMap m → IsMap (insert k v m)
  unfolding find insert
  insert-IsMap k v [] h = (refl, tt)
  insert-IsMap k v ((j, w) ∷ m) h = ground (arith, find-insert k j v m, insert-IsMap k v m h.1)

  pub erase_if-IsMap : (p : V → Bool) (m : Assoc V) → IsMap m → IsMap (erase_if p m)
  unfolding find erase_if
  erase_if-IsMap p [] h = tt
  erase_if-IsMap p ((j, v) ∷ m) h =
      ground (arith, find-erase_if-none p j m h.0, erase_if-IsMap p m h.1)
