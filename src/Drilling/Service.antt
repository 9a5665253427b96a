-- ===== src/Drilling/Service.antt =====
-- The requests on shift reports (app/api/v1/endpoints/drilling.py), one transaction each.
use cestos_oversight.Base.{ℕ, Option, some, List, [], ◌∷◌}
use cestos_oversight.Base.Int.{ℤ}
use cestos_oversight.Base.Decimal.{Decimal}
use cestos_oversight.Base.Text.{Text}
use cestos_oversight.Base.Action.{Action, pure, state_after, ◌>>◌}
use cestos_oversight.Drilling.Store.{Db}
use cestos_oversight.Drilling.Workflow.{submit, approve, send_back, delete}
use cestos_oversight.Drilling.Update.{ShiftReportUpdate, update}

-- A request of a user, at a time, on a report.
pub data Request : Type 0 where
  edited : ShiftReportUpdate → Request
  submitted : Option Text → Request
  approval : Option Text → Request
  returned : Text → Request
  deleted : Request

module _ (column_2 : Decimal → ℤ) (org : ℕ) where
  unfoldable pub serve : ℕ → ℕ → ℕ → Request → Action Db (Unit {0})
  unfolding update submit approve send_back delete
  serve user now id (Request.edited p) = update column_2 org (some user) id p >> pure tt
  serve user now id (Request.submitted notes) = submit user now id notes >> pure tt
  serve user now id (Request.approval notes) = approve column_2 org user now id notes >> pure tt
  serve user now id (Request.returned reason) = send_back id reason >> pure tt
  serve user now id Request.deleted = delete id >> pure tt

-- A request with its user, time and report.
pub record Call : Type 0 where
  pub user : ℕ
  pub now : ℕ
  pub id : ℕ
  pub request : Request

module _ (column_2 : Decimal → ℤ) (org : ℕ) where
  -- One request after another, the newest first in the list.
  unfoldable pub serve_all : List Call → Db → Db
  unfolding serve
  serve_all [] db = db
  serve_all (c ∷ cs) db =
      let before = serve_all cs db in
      state_after (serve column_2 org c.user c.now c.id c.request before) before
