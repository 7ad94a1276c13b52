-- ===== src/Store/Notices/Laws.antt =====
-- internal/storage/sqlite/automation.go: requests and notices leave the tables of jobs alone.
use code_maintainer.Base.{◌≡◌, refl, String, arith, Option-cases, inl, inr}
use code_maintainer.Automation.{ApprovalRequest, Notification}
use code_maintainer.Store.Ledger.Quiet.{Quiet, in_tx-Quiet, guarded-Quiet}
use code_maintainer.Store.JobOps.{get_job}
use code_maintainer.Store.Rows.{Job}
use code_maintainer.Store.Tx.{Env, Db, Result, ok, err}
use code_maintainer.Store.Tables.{append_audit}
use code_maintainer.Store.Notices.{
  request_body, request_known, new_request, create_approval_request, find_notification, read_notice,
  acknowledge_found, acknowledge_notification,
}

request_body-Quiet :
    (env : Env) (r q : ApprovalRequest) (db db' : Db)
    → request_body env r db ≡ ok (q, db')
    → Quiet db db'
unfolding request_body append_audit
request_body-Quiet env r q db db' h = (ground arith, ground arith, ground arith)

request_known-Quiet :
    (env : Env) (k kind by rationale : String) (db : Db) (found : Result Job)
    → Quiet db (request_known env k kind by rationale db found).1
unfolding request_known
request_known-Quiet env k kind by rationale db (err e) = (refl, refl, refl)
request_known-Quiet env k kind by rationale db (ok j) =
    let r = new_request env k kind by rationale in
    let ran =
      in_tx-Quiet env (request_body env r) db (λ q db' h. request_body-Quiet env r q db db' h) in
    search (guarded-Quiet, ran)

pub create_approval_request-Quiet :
    (env : Env) (k kind by rationale : String) (db : Db)
    → Quiet db (create_approval_request env k kind by rationale db).1
unfolding create_approval_request
create_approval_request-Quiet env k kind by rationale db =
    let ran = request_known-Quiet env k kind by rationale db (get_job env k db) in
    search (guarded-Quiet, ran)

read_notice-Quiet :
    (env : Env) (k actor : String) (n m : Notification) (db db' : Db)
    → read_notice env k actor n db ≡ ok (m, db')
    → Quiet db db'
unfolding read_notice append_audit
read_notice-Quiet env k actor n m db db' h = (ground arith, ground arith, ground arith)

acknowledge_found-Quiet :
    (env : Env) (k actor : String) (n : Notification) (db : Db)
    → Quiet db (acknowledge_found env k actor n db).1
unfolding acknowledge_found
acknowledge_found-Quiet env k actor n db =
    let ran =
      in_tx-Quiet env (read_notice env k actor n) db
        (λ m db' h. read_notice-Quiet env k actor n m db db' h) in
    search (guarded-Quiet, ran)

pub acknowledge_notification-Quiet :
    (env : Env) (k actor : String) (db : Db) → Quiet db (acknowledge_notification env k actor db).1
unfolding acknowledge_notification
acknowledge_notification-Quiet env k actor db =
    elim (Option-cases (find_notification k db.notifications)) [
      | inl missing ↦
          let same : Quiet db db = (refl, refl, refl) in rw missing (search (guarded-Quiet, same))
      | inr (n, found) ↦
          let ran = acknowledge_found-Quiet env k actor n db in
          rw found (search (guarded-Quiet, ran))
    ]
