-- ===== src/Inventory/Ledger/Kept.antt =====
-- The calls of the ledger keep every balance a covered projection.
use cestos_oversight.Base.{
  ℕ, ◌≡◌, Option, List, [], ◌∷◌, ◌++◌, Bool, false, String, inl, inr, Bool-cases,
}
use cestos_oversight.Base.Int.{ℤ}
use cestos_oversight.Base.Decimal.{Decimal}
use cestos_oversight.Base.Action.{raise_if, ◌>>=◌}
use cestos_oversight.Base.Keeps.{Keeps, keeps_rules, Keeps-modify}
use cestos_oversight.Inventory.Model.{
  Key, same_key, Balance, Deltas, LedgerEntry, Transaction, Movement, Db,
}
use cestos_oversight.Inventory.References.{
  Env, Refs, ref, check_ref, check_bin, check_item, check_date, validate_refs,
}
use cestos_oversight.Inventory.Ledger.{
  balance_at, put_balance, bucket, add_deltas, is_short, effect, audit, add_transaction, new_id,
  next_transaction_number, transaction, Origin, Moved,
}
use cestos_oversight.Inventory.Ledger.Projection.{
  IsConsistent, IsProjection, total-append, balance_at-put, same_key→eq, add_deltas_field,
  is_short-IsCovered,
}

module _ (key : Key) (bs : Key → Option Balance) (es : List LedgerEntry)
    (h : IsProjection bs es) where
  -- Writing a bucket's own row changes nothing.
  rewritten : (k : Key) → balance_at (put_balance key (balance_at bs key) bs) k ≡ balance_at bs k
  rewritten k = elim (Bool-cases (same_key k key)) [
    | inl same ↦ rw (balance_at-put, same, same_key→eq k key same)
    | inr other ↦ rw (balance_at-put, other)
  ]

  rewritten-IsProjection : IsProjection (put_balance key (balance_at bs key) bs) es
  rewritten-IsProjection = record {
    covered = λ k. rw (rewritten k) (h.covered k);
    projected = λ f k. rw (rewritten k) (h.projected f k);
  }

  -- An effect that is not short appends what it adds.
  effected-IsProjection :
      (id : ℕ) (d : Deltas)
      → is_short (add_deltas (balance_at bs key) d) ≡ false
      → IsProjection
          (put_balance key (add_deltas (balance_at bs key) d) bs)
          (es ++ record { transaction_id = id; key = key; deltas = d } ∷ [])
  effected-IsProjection id d enough = record {
    covered = λ k. elim (Bool-cases (same_key k key)) [
      | inl same ↦ rw (balance_at-put, same) (is_short-IsCovered _ enough)
      | inr other ↦ rw (balance_at-put, other) (h.covered k)
    ];
    projected = λ f k. elim (Bool-cases (same_key k key)) [
      | inl same ↦ rw (
        balance_at-put,
        total-append,
        same,
        add_deltas_field,
        ← h.projected f k,
        same_key→eq k key same,
      )
      | inr other ↦ rw (balance_at-put, total-append, other) (h.projected f k)
    ];
  }

pub bucket-Keeps : (key : Key) → Keeps IsConsistent (bucket key)
unfolding bucket ◌>>=◌
bucket-Keeps key = record { at = λ s h. rewritten-IsProjection key s.balances s.entries h }

pub effect-Keeps : (id : ℕ) (key : Key) (d : Deltas) → Keeps IsConsistent (effect id key d)
unfolding effect ◌>>=◌
effect-Keeps id key d = record {
  at = λ s h. elim (Bool-cases (is_short (add_deltas (balance_at s.balances key) d))) [
    | inl short ↦ rw (short, raise_if) tt
    | inr enough ↦
        rw (enough, raise_if) (effected-IsProjection key s.balances s.entries h id d enough)
  ];
}

-- A write to any other table.
pub ruleset frame_rules = (keeps_rules, Keeps-modify)

pub audit-Keeps : (action : List String) (id : ℕ) → Keeps IsConsistent (audit action id)
unfolding audit
audit-Keeps action id = search frame_rules

pub new_id-Keeps : Keeps IsConsistent new_id
unfolding new_id
new_id-Keeps = search frame_rules

pub next_transaction_number-Keeps : (env : Env) → Keeps IsConsistent (next_transaction_number env)
unfolding next_transaction_number
next_transaction_number-Keeps env = search frame_rules

pub add_transaction-Keeps : (t : Transaction) → Keeps IsConsistent (add_transaction t)
unfolding add_transaction
add_transaction-Keeps t = search frame_rules

pub ref-Keeps : {A : Type 0} (row : Db → Option A) → Keeps IsConsistent (ref row)
unfolding ref
ref-Keeps row = search frame_rules

pub transaction-Keeps :
    (column_8 : Decimal → Decimal) (env : Env) (doc : Origin) (line : Moved) (kind : Movement)
    (cost : Decimal) (q : ℤ)
    → Keeps IsConsistent (transaction column_8 env doc line kind cost q)
unfolding transaction
transaction-Keeps column_8 env doc line kind cost q =
    search
      (frame_rules, ref-Keeps, next_transaction_number-Keeps, new_id-Keeps, add_transaction-Keeps)
      depth 14

check_ref-Keeps :
    {A : Type 0} (row : ℕ → Db → Option A) (active : A → Bool) (message : String) (id : Option ℕ)
    → Keeps IsConsistent (check_ref row active message id)
unfolding check_ref
check_ref-Keeps row active message Option.none = search frame_rules
check_ref-Keeps row active message (Option.some id) = search (frame_rules, ref-Keeps)

check_bin-Keeps : (id parent : Option ℕ) → Keeps IsConsistent (check_bin id parent)
unfolding check_bin
check_bin-Keeps Option.none parent = search frame_rules
check_bin-Keeps (Option.some id) Option.none = search (frame_rules, ref-Keeps)
check_bin-Keeps (Option.some id) (Option.some store) = search (frame_rules, ref-Keeps)

check_item-Keeps :
    {A : Type 0} (row : ℕ → Db → Option A) (owner : A → ℕ) (id item : Option ℕ)
    → Keeps IsConsistent (check_item row owner id item)
unfolding check_item
check_item-Keeps row owner Option.none item = search frame_rules
check_item-Keeps row owner (Option.some id) Option.none = search frame_rules
check_item-Keeps row owner (Option.some id) (Option.some item) = search (frame_rules, ref-Keeps)

check_date-Keeps : (env : Env) (at : Option ℕ) → Keeps IsConsistent (check_date env at)
unfolding check_date
check_date-Keeps env Option.none = search frame_rules
check_date-Keeps env (Option.some at) = search frame_rules

pub validate_refs-Keeps : (env : Env) (d : Refs) → Keeps IsConsistent (validate_refs env d)
unfolding validate_refs
validate_refs-Keeps env d =
    search (frame_rules, check_ref-Keeps, check_bin-Keeps, check_item-Keeps, check_date-Keeps) depth
      60
