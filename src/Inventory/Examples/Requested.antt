-- ===== src/Inventory/Examples/Requested.antt =====
-- A sample issue of a request, of 4 bags where 10 are approved.
use cestos_oversight.Base.{◌≡◌, refl, some, none, [], ◌∷◌, ◌==◌, arith, inl, inr, Bool-cases}
use cestos_oversight.Base.Int.{pos, ◌+ℤ◌}
use cestos_oversight.Base.Decimal.{scaled}
use cestos_oversight.Base.Table.{put}
use cestos_oversight.Base.Action.{ok, ◌>>=◌}
use cestos_oversight.Inventory.Model.{Kind, Status, Document, Db, empty_balance}
use cestos_oversight.Inventory.References.{ref, document_row, same_kind}
use cestos_oversight.Inventory.Posting.{Posting}
use cestos_oversight.Inventory.Issues.{use_request, is_issuable, issue_line}
use cestos_oversight.Inventory.Issues.Within.{IsWithin, use_request-IsWithin}
use cestos_oversight.Inventory.Examples.{cement, bags, receipt, one, drafted, env}

abbrev request : Document
request = record receipt {
  kind = Kind.requests;
  status = Status.approved;
  lines = record bags { quantity_approved = some (pos 100000) } ∷ [];
}

abbrev requesting : Db
requesting = record drafted { documents = one 10 request }

abbrev four_bags : Posting
four_bags = record {
  env = env;
  item = cement;
  doc = record receipt { id = 12; kind = Kind.issues; request_id = some 10 };
  line = bags;
  source = 7;
  bin_id = none;
  balance = empty_balance;
  cost = scaled 0 (pos 0);
  q = pos 40000;
  serial = none;
}

abbrev requested : Db
requested = record requesting {
  documents = put 10 (issue_line 5 (pos 40000) request) requesting.documents;
}

requesting-IsWithin : IsWithin requesting
requesting-IsWithin id d row = elim (Bool-cases (id == 10)) [
  | inl hit ↦
      let eq : some request ≡ some d = ground arith in let eq' : request ≡ d = cc in rw (← eq') refl
  | inr miss ↦ ground arith
]

request_run : use_request four_bags (some 10) requesting ≡ ok (tt, requested)
unfolding use_request ref document_row same_kind is_issuable ◌>>=◌ ◌+ℤ◌
request_run = refl

use_request-IsWithin_example : IsWithin requested
use_request-IsWithin_example =
    use_request-IsWithin four_bags 10 requesting requested requesting-IsWithin request_run
