-- ===== src/Gtree/Entries.antt =====
-- What an ordered map of container/gtree promises: a list of entries in ascending order of keys.
pub mod Walk
pub mod Order
pub mod Laws
pub mod Upsert
use gf.Prelude.{ℕ, Ordering, ◌≡◌, List, [], ◌∷◌, Option, none, some}
use gf.Gtree.Comparator.{Comparator, sign}

-- 1 for a hit and 0 for a miss
abbrev pub found {κ} : {E : Type κ} → Option E → ℕ
found none = 0
found (some _) = 1

abbrev pub value_of {ℓ κ} : {K : Type ℓ} {V : Type κ} → Option (K × V) → Option V
value_of none = none
value_of (some (k, v)) = some v

module _ {ℓ κ} {K : Type ℓ} {V : Type κ} (cmp : Comparator K) where
  unfoldable pub lookup_entry : K → List (K × V) → Option (K × V)
  lookup_entry q [] = none
  lookup_entry q ((k, v) ∷ es) = elim (sign (cmp q k)) [
    | Ordering.lt ↦ none
    | Ordering.eq ↦ some (k, v)
    | Ordering.gt ↦ lookup_entry q es
  ]

  unfoldable pub insert_entry : K → V → List (K × V) → List (K × V)
  insert_entry q w [] = (q, w) ∷ []
  insert_entry q w ((k, v) ∷ es) = elim (sign (cmp q k)) [
    | Ordering.lt ↦ (q, w) ∷ (k, v) ∷ es
    | Ordering.eq ↦ (q, w) ∷ es
    | Ordering.gt ↦ (k, v) ∷ insert_entry q w es
  ]

  unfoldable pub erase_entry : K → List (K × V) → List (K × V)
  erase_entry q [] = []
  erase_entry q ((k, v) ∷ es) = elim (sign (cmp q k)) [
    | Ordering.lt ↦ (k, v) ∷ es
    | Ordering.eq ↦ es
    | Ordering.gt ↦ (k, v) ∷ erase_entry q es
  ]

  -- every key of the list is below, or above, `q`
  abbrev pub AllBelow : K → List (K × V) → Type 0
  AllBelow q [] = Unit
  AllBelow q ((k, v) ∷ es) = (sign (cmp q k) ≡ Ordering.gt) × AllBelow q es

  abbrev pub AllAbove : K → List (K × V) → Type 0
  AllAbove q [] = Unit
  AllAbove q ((k, v) ∷ es) = (sign (cmp q k) ≡ Ordering.lt) × AllAbove q es

  abbrev pub IsAscending : List (K × V) → Type 0
  IsAscending [] = Unit
  IsAscending ((k, v) ∷ es) = AllAbove k es × IsAscending es
