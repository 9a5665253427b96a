-- ===== src/Procurement/Service.antt =====
-- The requests on purchase orders (app/api/v1/endpoints/procurement.py), one transaction each.
use cestos_oversight.Base.{ℕ, Option, List, [], ◌∷◌}
use cestos_oversight.Base.Int.{ℤ}
use cestos_oversight.Base.Decimal.{Decimal}
use cestos_oversight.Base.Table.{Table}
use cestos_oversight.Base.Action.{Action, state_after}
use cestos_oversight.Procurement.Model.{
  PurchaseOrder, Db, PurchaseOrderCreate, PurchaseOrderUpdate, Actor,
}
use cestos_oversight.Procurement.Drafts.{create, update}
use cestos_oversight.Procurement.Goods.{receive_goods}
use cestos_oversight.Procurement.Approval.{submit, approve}

-- A request on an order that exists.
pub data Change : Type 0 where
  edited : PurchaseOrderUpdate → Change
  submitted : Actor → Change
  approved : Actor → ℕ → Change
  goods : Table Decimal → Change

pub data Request : Type 0 where
  ordered : Option ℕ → PurchaseOrderCreate → Request
  changed : ℕ → Change → Request

module _ (column_2 : Decimal → ℤ) (org : ℕ) where
  unfoldable pub change : ℕ → Change → Action Db PurchaseOrder
  unfolding update submit approve receive_goods
  change id (Change.edited p) = update column_2 org id p
  change id (Change.submitted actor) = submit actor id
  change id (Change.approved actor now) = approve actor now id
  change id (Change.goods receipts) = receive_goods column_2 id receipts

  unfoldable pub serve : Request → Action Db PurchaseOrder
  unfolding create change
  serve (Request.ordered actor_id p) = create column_2 org actor_id p
  serve (Request.changed id c) = change id c

  -- One request after another, the newest first in the list.
  unfoldable pub serve_all : List Request → Db → Db
  unfolding serve
  serve_all [] db = db
  serve_all (r ∷ rs) db = let before = serve_all rs db in state_after (serve r before) before
