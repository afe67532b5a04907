-- ===== src/Prelude/Sums.antt =====
-- Dictionaries with distinct keys: how their size, and a sum over their values, change.
use rdows.Prelude.Lists.{length}
use rdows.Prelude.Dict.{Dict, lookup, insert, remove, lookup-insert, lookup-remove}
use Prim.Native.Nat.{ℕ, suc, ◌+◌, ◌≤◌}
use mathlib.Core.Path.{◌≡◌, refl}
use mathlib.Core.Option.{none, some}
use mathlib.Core.List.{[], ◌∷◌}
use native.Mathlib.Omega.{arith}

module _ {ℓ} {V : Type ℓ} where
  -- No key stands twice.
  abbrev pub IsDistinct : Dict V → Type ℓ
  IsDistinct [] = Unit
  IsDistinct ((k, v) ∷ d) = (lookup k d ≡ none) × IsDistinct d

  abbrev pub sum_by : (V → ℕ) → Dict V → ℕ
  sum_by w [] = 0
  sum_by w ((k, v) ∷ d) = w v + sum_by w d

  pub insert-IsDistinct : (k : ℕ) (v : V) (d : Dict V) → IsDistinct d → IsDistinct (insert k v d)
  unfolding lookup insert
  insert-IsDistinct k v [] h = (refl, tt)
  insert-IsDistinct k v ((j, w) ∷ d) h =
      ground (arith, insert-IsDistinct k v d h.1, lookup-insert k j v d)

  pub remove-IsDistinct : (k : ℕ) (d : Dict V) → IsDistinct d → IsDistinct (remove k d)
  unfolding remove
  remove-IsDistinct k [] h = tt
  remove-IsDistinct k ((j, w) ∷ d) h =
      ground (arith, remove-IsDistinct k d h.1, lookup-remove k j d)

  pub remove_absent : (k : ℕ) (d : Dict V) → lookup k d ≡ none → remove k d ≡ d
  unfolding lookup remove
  remove_absent k [] h = refl
  remove_absent k ((j, w) ∷ d) h = ground (arith, remove_absent k d)

  pub length-insert_new :
      (k : ℕ) (v : V) (d : Dict V) → lookup k d ≡ none → length (insert k v d) ≡ suc (length d)
  unfolding lookup insert
  length-insert_new k v [] h = refl
  length-insert_new k v ((j, w) ∷ d) h = ground (arith, length-insert_new k v d)

  pub length-insert_old :
      (k : ℕ) (v old : V) (d : Dict V) → lookup k d ≡ some old → length (insert k v d) ≡ length d
  unfolding lookup insert
  length-insert_old k v old [] h = cc
  length-insert_old k v old ((j, w) ∷ d) h = ground (arith, length-insert_old k v old d)

  pub length-remove : (k : ℕ) (d : Dict V) → length (remove k d) ≤ length d
  unfolding remove
  length-remove k [] = omega arith
  length-remove k ((j, w) ∷ d) = ground (arith, length-remove k d)

  module _ (f : V → ℕ) where
    pub sum_by-insert_new :
        (k : ℕ) (v : V) (d : Dict V)
        → lookup k d ≡ none
        → sum_by f (insert k v d) ≡ sum_by f d + f v
    unfolding lookup insert
    sum_by-insert_new k v [] h = omega arith
    sum_by-insert_new k v ((j, w) ∷ d) h = ground (arith, sum_by-insert_new k v d)

    pub sum_by-insert_old :
        (k : ℕ) (v old : V) (d : Dict V)
        → lookup k d ≡ some old
        → sum_by f (insert k v d) + f old ≡ sum_by f d + f v
    unfolding lookup insert
    sum_by-insert_old k v old [] h = cc
    sum_by-insert_old k v old ((j, w) ∷ d) h = ground (arith, sum_by-insert_old k v old d)

    pub sum_by-remove :
        (k : ℕ) (old : V) (d : Dict V)
        → IsDistinct d
        → lookup k d ≡ some old
        → sum_by f (remove k d) + f old ≡ sum_by f d
    unfolding lookup remove
    sum_by-remove k old [] u h = cc
    sum_by-remove k old ((j, w) ∷ d) u h =
        ground (arith, sum_by-remove k old d u.1, remove_absent k d)
