-- ===== src/Inventory/Quantity.antt =====
-- `InventoryService.quantity` (app/services/inventory.py): a line's quantity in the base unit.
use cestos_oversight.Base.{
  ℕ, Option, none, some, List, Bool, not, ◌&&◌, ◌||◌, ◌==◌, if◌then◌else◌, same_id, find,
}
use cestos_oversight.Base.Int.{ℤ, leb_ℤ, zero_ℤ}
use cestos_oversight.Base.Decimal.{Decimal, scaled, ◌*ᵈ◌, ◌=ᵈ◌, quantize}
use cestos_oversight.Base.Action.{Action, validation, pure, gets, or_raise, raise_if, ◌>>=◌, ◌>>◌}
use cestos_oversight.Inventory.Model.{Item, UnitConversion, Db}
use cestos_oversight.Inventory.References.{ref}

-- The conversions that the query selects, before its order.
is_candidate : Item → ℕ → Option ℕ → UnitConversion → Bool
is_candidate item unit_id owner c =
    c.is_active
    && (c.from_unit_id == unit_id)
    && (c.to_unit_id == item.base_unit_id)
    && same_id c.item_id owner

-- A conversion of the item itself comes before one for all items.
unfoldable pub conversion_for : Item → ℕ → List UnitConversion → Option UnitConversion
unfolding is_candidate
conversion_for item unit_id cs = elim (find (is_candidate item unit_id (some item.id)) cs) [
  | some c ↦ some c
  | none ↦ find (is_candidate item unit_id none) cs
]

-- The quantity times the factor of the conversion, where the unit is not the base unit.
unfoldable pub normalize : Item → ℕ → Decimal → Action Db Decimal
normalize item unit_id quantity = if unit_id == item.base_unit_id then pure quantity else (do
  found ← gets (λ db. conversion_for item unit_id db.conversions)
  conversion ← or_raise found (validation "No direct conversion to the item base unit")
  pure (quantity *ᵈ scaled 8 conversion.conversion_factor))

-- `quantity`: the normalized quantity, which is positive and a multiple of the base unit's
-- precision. A unit has at most 4 places, so the result is a count of 0.0001.
unfoldable pub base_quantity : Item → ℕ → Decimal → Action Db ℤ
unfolding normalize
base_quantity item unit_id quantity = do
  unit ← ref (λ db. db.units unit_id)
  raise_if (not unit.is_active) (validation "Unit is inactive")
  normalized ← normalize item unit_id quantity
  base ← ref (λ db. db.units item.base_unit_id)
  raise_if
      (leb_ℤ normalized.coefficient zero_ℤ
        || not (normalized =ᵈ scaled base.precision (quantize base.precision normalized)))
      (validation "Quantity exceeds base-unit precision")
  pure (quantize 4 normalized)
