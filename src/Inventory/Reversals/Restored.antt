-- ===== src/Inventory/Reversals/Restored.antt =====
-- What a reversal does to the balances (`reverse` of app/services/inventory.py).
use mathlib.Core.Path.{subst}
use cestos_oversight.Base.{
  ℕ, ◌≡◌, refl, ap, ◌∙◌, sym, Option, none, some, List, [], ◌∷◌, ◌==◌, keep, Bool-cases, inl, inr,
  arith, if◌then◌else◌, String,
}
use cestos_oversight.Base.Int.{ℤ, ◌+ℤ◌, ◌-ℤ◌, neg_ℤ, int_laws}
use cestos_oversight.Base.Decimal.{Decimal}
use cestos_oversight.Base.Action.{ok, pure, gets, raise_if, ◌>>=◌}
use cestos_oversight.Base.Keeps.{Keeps, After, Keeps-raise_if, Keeps-gets}
use cestos_oversight.Base.Leads.{
  Leads, Leads-bind, Leads-rest, Leads-gets, Leads-weaken, Keeps-Leads,
}
use cestos_oversight.Inventory.Model.{Key, same_key, Serial, Deltas, LedgerEntry, Transaction, Db}
use cestos_oversight.Inventory.References.{Env, ref}
use cestos_oversight.Inventory.Ledger.{
  balance_at, bucket, effect, add_deltas, is_short, audit, add_transaction, new_id,
  next_transaction_number,
}
use cestos_oversight.Inventory.Posting.{write_serial}
use cestos_oversight.Inventory.Reversals.{
  check_issue, reversed_serial, reverse_entries, reverse_new, reverse_once, reverse, negated,
  transaction_row, reversal_row,
}
use cestos_oversight.Inventory.Ledger.Projection.{
  IsConsistent, Field, balance_field, delta_field, total, total-append,
}
use cestos_oversight.Inventory.Ledger.Kept.{frame_rules}
use cestos_oversight.Inventory.Kept.Reversed.{reverse-IsConsistent}

-- The calls that leave the ledger alone, for any condition on it.
module _ (R : List LedgerEntry → Type 0) where
  abbrev OnLedger : Db → Type 0
  OnLedger db = R db.entries

  ref-ledger : {A : Type 0} (row : Db → Option A) → Keeps OnLedger (ref row)
  unfolding ref
  ref-ledger row = search frame_rules

  write_serial-ledger :
      (s : Option Serial) (f : Serial → Serial) → Keeps OnLedger (write_serial s f)
  unfolding write_serial
  write_serial-ledger none f = search frame_rules
  write_serial-ledger (some s) f = search frame_rules

  bucket-ledger : (key : Key) → Keeps OnLedger (bucket key)
  unfolding bucket
  bucket-ledger key = search frame_rules

  new_id-ledger : Keeps OnLedger new_id
  unfolding new_id
  new_id-ledger = search frame_rules

  next_transaction_number-ledger : (env : Env) → Keeps OnLedger (next_transaction_number env)
  unfolding next_transaction_number
  next_transaction_number-ledger env = search frame_rules

  add_transaction-ledger : (t : Transaction) → Keeps OnLedger (add_transaction t)
  unfolding add_transaction
  add_transaction-ledger t = search frame_rules

  audit-ledger : (action : List String) (id : ℕ) → Keeps OnLedger (audit action id)
  unfolding audit
  audit-ledger action id = search frame_rules

  check_issue-ledger : (t : Transaction) → Keeps OnLedger (check_issue t)
  unfolding check_issue
  check_issue-ledger t = search (frame_rules, ref-ledger) depth 12

  reversed_serial-ledger : (t : Transaction) (id : Option ℕ) → Keeps OnLedger (reversed_serial t id)
  unfolding reversed_serial
  reversed_serial-ledger t none = search frame_rules
  reversed_serial-ledger t (some id) =
      search (frame_rules, ref-ledger, write_serial-ledger) depth 12

module _ (column_8 : Decimal → Decimal) (f : Field) (k : Key) where
  abbrev Totals : ℤ → Db → Type 0
  Totals c db = total f k db.entries ≡ c

  delta_field-negated : (d : Deltas) → delta_field f (negated column_8 d) ≡ neg_ℤ (delta_field f d)
  unfolding negated
  delta_field-negated d = negated_field f
    where
      negated_field : (g : Field) → delta_field g (negated column_8 d) ≡ neg_ℤ (delta_field g d)
      negated_field Field.on_hand = refl
      negated_field Field.reserved = refl
      negated_field Field.quarantined = refl
      negated_field Field.in_transit = refl

  effect-Totals :
      (id : ℕ) (key : Key) (d : Deltas) (c : ℤ)
      → Leads
          (Totals c)
          (Totals (if same_key k key then c +ℤ delta_field f d else c))
          (effect id key d)
  unfolding effect ◌>>=◌ raise_if
  effect-Totals id key d c = record {
    at = λ s h. elim (Bool-cases (is_short (add_deltas (balance_at s.balances key) d))) [
      | inl short ↦ rw short tt
      | inr enough ↦ rw enough (rw (total-append f k key s.entries id d, h))
    ];
  }

  shifted : (c d t : ℤ) → c +ℤ neg_ℤ d -ℤ t ≡ c -ℤ (d +ℤ t)
  shifted c d t = omega int_laws

  reverse_entries-Totals :
      (id : ℕ) (es : List LedgerEntry) (c : ℤ)
      → Leads (Totals c) (Totals (c -ℤ total f k es)) (reverse_entries column_8 id es)
  unfolding reverse_entries total pure
  reverse_entries-Totals id [] c = record { at = λ s h. h ∙ omega int_laws }
  reverse_entries-Totals id (e ∷ es) c =
      Leads-rest _ _ (bucket-ledger (λ l. total f k l ≡ c) e.key) (λ b.
        elim (Bool-cases (same_key k e.key)) [
          | inl same ↦ Leads-bind _ _ (effect-Totals id e.key (negated column_8 e.deltas) c) (λ u.
              rw same (
                rw
                  (
                    delta_field-negated e.deltas,
                    ← shifted c (delta_field f e.deltas) (total f k es),
                  )
                  (reverse_entries-Totals id es (c +ℤ neg_ℤ (delta_field f e.deltas)))))
          | inr other ↦
              Leads-bind _ _ (effect-Totals id e.key (negated column_8 e.deltas) c)
                (λ u. rw other (reverse_entries-Totals id es c))
        ])

-- The entries of a movement.
abbrev pub entries_of : ℕ → List LedgerEntry → List LedgerEntry
entries_of id entries = keep (λ (e : LedgerEntry). e.transaction_id == id) entries

module _ (column_8 : Decimal → Decimal) (f : Field) (k : Key) (original : Transaction)
    (E : List LedgerEntry) where
  abbrev IsBefore : List LedgerEntry → Type 0
  IsBefore l = l ≡ E

  abbrev IsAfter : List LedgerEntry → Type 0
  IsAfter l = total f k l ≡ total f k E -ℤ total f k (entries_of original.id E)

  ended :
      (row : Transaction)
      → Keeps (OnLedger IsAfter) (
          reversed_serial original original.serial_id >>= λ _.
          audit ("transaction_reversed" ∷ []) row.id >>= λ _. pure row)
  ended row = search (frame_rules, reversed_serial-ledger IsAfter, audit-ledger IsAfter)

  undone :
      (row : Transaction)
      → Leads (OnLedger IsBefore) (OnLedger IsAfter) (
          gets (λ db. entries_of original.id db.entries) >>= λ entries.
          reverse_entries column_8 row.id entries >>= λ _.
          reversed_serial original original.serial_id >>= λ _.
          audit ("transaction_reversed" ∷ []) row.id >>= λ _. pure row)
  undone row = Leads-gets _ _ (λ s h. rw h (
      Leads-bind _ _
        (Leads-weaken _ (λ t before. ap (total f k) before)
          (reverse_entries-Totals column_8 f k row.id (entries_of original.id E) (total f k E)))
        (λ _. Keeps-Leads _ (ended row))))

  reverse_new-Leads :
      (env : Env) → Leads (OnLedger IsBefore) (OnLedger IsAfter) (reverse_new column_8 env original)
  unfolding reverse_new
  reverse_new-Leads env = Leads-rest _ _ (Keeps-raise_if _ _) (λ _.
      Leads-rest _ _ (Keeps-gets _) (λ later. Leads-rest _ _ (Keeps-raise_if _ _) (λ _.
        Leads-rest _ _ (check_issue-ledger IsBefore original) (λ _.
          Leads-rest _ _ (next_transaction_number-ledger IsBefore env) (λ number.
            Leads-rest _ _ (new_id-ledger IsBefore)
              (λ id. Leads-rest _ _ (add_transaction-ledger IsBefore _) undone))))))

module _ (column_8 : Decimal → Decimal) (env : Env) where
  -- A reversal takes back exactly the quantities that its movement moved: on a database in which
  -- every balance is covered and each of its quantities is the sum of its ledger entries, the first
  -- reversal of a movement that succeeds lowers each quantity of each bucket by the sum of the
  -- movement's own entries there, which is zero for a bucket that the movement has no entry of.
  pub reverse_restores :
      (id : ℕ) (original row : Transaction) (db db' : Db) (f : Field) (k : Key)
      → IsConsistent db
      → transaction_row id db ≡ some original
      → reversal_row id db ≡ none
      → reverse column_8 env id db ≡ ok (row, db')
      → balance_field f (balance_at db'.balances k)
        ≡ balance_field f (balance_at db.balances k)
          -ℤ total f k (entries_of original.id db.entries)
  unfolding reverse reverse_once ref ◌>>=◌
  reverse_restores id original row db db' f k h found first e =
      let e' : reverse_new column_8 env original db ≡ ok (row, db') = ground arith in
      let T = total f k (entries_of original.id db.entries) in
      let after : total f k db'.entries ≡ total f k db.entries -ℤ T =
        subst (After (λ s. total f k s.entries ≡ total f k db.entries -ℤ T)) e'
          ((reverse_new-Leads column_8 f k original db.entries env).at db refl) in
      let kept : IsConsistent db' =
        subst (After IsConsistent) e (reverse-IsConsistent column_8 env id db h) in
      kept.projected f k ∙ after ∙ ap (λ t. t -ℤ T) (sym (h.projected f k))
