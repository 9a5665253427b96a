-- ===== src/Inventory/Ledger/Projection.antt =====
-- Balances are projections of the ledger: the invariant, and what keeps it.
use cestos_oversight.Base.{
  ℕ, ◌≡◌, refl, Option, List, [], ◌∷◌, ◌++◌, true, false, if◌then◌else◌, same_id_iff, inl, inr,
  Bool-cases, arith,
}
use cestos_oversight.Base.Int.{ℤ, ◌+ℤ◌, ◌-ℤ◌, ◌≤ℤ◌, zero_ℤ, int_laws, +ℤ_parts, -ℤ_parts}
use cestos_oversight.Inventory.Model.{Key, same_key, Balance, Deltas, LedgerEntry, Db}
use cestos_oversight.Inventory.Ledger.{balance_at, put_balance, add_deltas, is_short}

-- The quantity columns of `BUCKET_FIELDS`.
pub data Field : Type 0 where
  on_hand reserved quarantined in_transit : Field

abbrev pub balance_field : Field → Balance → ℤ
balance_field on_hand b = b.quantity_on_hand
balance_field reserved b = b.quantity_reserved
balance_field quarantined b = b.quantity_quarantined
balance_field in_transit b = b.quantity_in_transit

abbrev pub delta_field : Field → Deltas → ℤ
delta_field on_hand d = d.quantity_on_hand
delta_field reserved d = d.quantity_reserved
delta_field quarantined d = d.quantity_quarantined
delta_field in_transit d = d.quantity_in_transit

-- What the ledger says of one column of one bucket.
unfoldable pub total : Field → Key → List LedgerEntry → ℤ
total f k [] = zero_ℤ
total f k (e ∷ es) =
    if same_key k e.key then delta_field f e.deltas +ℤ total f k es else total f k es

-- No column is negative, and what is reserved or quarantined is on hand.
pub record IsCovered (b : Balance) : Type 0 where
  pub on_hand_nonneg : zero_ℤ ≤ℤ b.quantity_on_hand
  pub reserved_nonneg : zero_ℤ ≤ℤ b.quantity_reserved
  pub quarantined_nonneg : zero_ℤ ≤ℤ b.quantity_quarantined
  pub in_transit_nonneg : zero_ℤ ≤ℤ b.quantity_in_transit
  pub available_nonneg : b.quantity_reserved +ℤ b.quantity_quarantined ≤ℤ b.quantity_on_hand

pub record IsProjection (balances : Key → Option Balance) (entries : List LedgerEntry)
    : Type 0 where
  pub covered : (k : Key) → IsCovered (balance_at balances k)
  pub projected :
      (f : Field) (k : Key) → balance_field f (balance_at balances k) ≡ total f k entries

-- The invariant of the service: every balance is covered, and each of its quantities is the sum of
-- its ledger entries.
abbrev pub IsConsistent : Db → Type 0
IsConsistent db = IsProjection db.balances db.entries

pub total-append :
    (f : Field) (k key : Key) (es : List LedgerEntry) (id : ℕ) (d : Deltas)
    → total f k (es ++ record { transaction_id = id; key = key; deltas = d } ∷ [])
      ≡ (if same_key k key then total f k es +ℤ delta_field f d else total f k es)
unfolding total
total-append f k key [] id d = elim (Bool-cases (same_key k key)) [
  | inl same ↦ rw same (omega int_laws)
  | inr other ↦ rw other
]
total-append f k key (e ∷ es) id d = elim (Bool-cases (same_key k key)) [
  | inl same ↦ elim (Bool-cases (same_key k e.key)) [
    | inl same' ↦ rw (same', total-append f k key es id d, same) (omega int_laws)
    | inr other' ↦ rw (other', total-append f k key es id d, same)
  ]
  | inr other ↦ elim (Bool-cases (same_key k e.key)) [
    | inl same' ↦ rw (same', total-append f k key es id d, other)
    | inr other' ↦ rw (other', total-append f k key es id d, other)
  ]
]

pub same_key→eq : (a b : Key) → same_key a b ≡ true → a ≡ b
unfolding same_key
same_key→eq a b h = ground (arith, same_id_iff a.bin_id b.bin_id, same_id_iff a.lot_id b.lot_id)

same_key_refl : (a : Key) → same_key a a ≡ true
unfolding same_key
same_key_refl a = ground (arith, same_id_iff a.bin_id a.bin_id, same_id_iff a.lot_id a.lot_id)

pub balance_at-put :
    (key k : Key) (b : Balance) (bs : Key → Option Balance)
    → balance_at (put_balance key b bs) k ≡ (if same_key k key then b else balance_at bs k)
unfolding balance_at put_balance
balance_at-put key k b bs = elim (Bool-cases (same_key k key)) [
  | inl same ↦ rw same
  | inr other ↦ rw other
]

pub add_deltas_field :
    (f : Field) (b : Balance) (d : Deltas)
    → balance_field f (add_deltas b d) ≡ balance_field f b +ℤ delta_field f d
unfolding add_deltas
add_deltas_field on_hand b d = refl
add_deltas_field reserved b d = refl
add_deltas_field quarantined b d = refl
add_deltas_field in_transit b d = refl

pub is_short-IsCovered : (b : Balance) → is_short b ≡ false → IsCovered b
unfolding is_short
is_short-IsCovered b h =
    let p = -ℤ_parts b.quantity_on_hand b.quantity_reserved in
    let q = -ℤ_parts (b.quantity_on_hand -ℤ b.quantity_reserved) b.quantity_quarantined in
    let r = +ℤ_parts b.quantity_reserved b.quantity_quarantined in
    record {
      on_hand_nonneg = ground arith;
      reserved_nonneg = ground arith;
      quarantined_nonneg = ground arith;
      in_transit_nonneg = ground arith;
      available_nonneg = ground arith;
    }
