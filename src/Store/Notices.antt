-- ===== src/Store/Notices.antt =====
-- internal/storage/sqlite/automation.go: requests for an approval, and the notices of the inbox,
-- which are delivered once and read once.
use code_maintainer.Base.{
  ℕ, String, Bool, true, false, not, ◌&&◌, ◌||◌, Option, none, some, List, [], ◌∷◌, any, keep, find,
  take, ◌==◌, ◌is◌, if◌then◌else◌,
}
use code_maintainer.Base.Int.{ℤ}
use code_maintainer.Base.Text.{is_blank, is_empty, trim_space, has_prefix, append}
use code_maintainer.Automation.{AutomationError, ApprovalRequest, Notification}
use code_maintainer.Scheduler.Types.{one_of}
use code_maintainer.Store.Rows.{Job}
use code_maintainer.Store.Schedules.{limit_or_hundred}
use code_maintainer.Store.Tx.{
  Env, Db, Call, StoreError, Result, ok, err, Tx, ◌>>=◌, ◌>>◌, pure, fail, reject_if, call, gets,
  modify, or_fail, in_tx,
}
use code_maintainer.Store.Tables.{append_audit, count_where, update_where}
use code_maintainer.Store.JobOps.{audit_of, get_job}
pub mod Laws

abbrev pub new_request : Env → String → String → String → String → ApprovalRequest
new_request env k kind by rationale = record {
  id = env.new_id "automationrequest";
  job_id = k;
  kind = kind;
  requested_by = by;
  rationale = trim_space rationale;
  created_at = env.now;
}

unfoldable pub request_body : Env → ApprovalRequest → Tx ApprovalRequest
request_body env r = do
  call env Call.insert_request
  taken ← gets (λ db. any (λ (q : ApprovalRequest). q.id is r.id) db.automation_requests)
  reject_if taken (StoreError.driver Call.insert_request)
  modify λ db. record db { automation_requests = r ∷ db.automation_requests }
  append_audit env
      (audit_of r.requested_by "service" (append "automation.request_" r.kind) "job" r.job_id "")
  pure r

-- The rest of CreateApprovalRequest, once the job is looked up.
unfoldable pub request_known :
    Env → String → String → String → String → Db → Result Job → Result ApprovalRequest × Db
request_known env k kind by rationale db (err e) = (err e, db)
request_known env k kind by rationale db (ok _) =
    if env.fault Call.random
    then (err (StoreError.driver Call.random), db)
    else in_tx env (request_body env (new_request env k kind by rationale)) db

-- CreateApprovalRequest
unfoldable pub create_approval_request :
    Env → String → String → String → String → Db → Result ApprovalRequest × Db
create_approval_request env k kind by rationale db =
    if not (one_of ("review" ∷ "publication_approval" ∷ []) kind)
      || is_empty by
      || is_blank rationale
    then (err (StoreError.automation AutomationError.invalid), db)
    else request_known env k kind by rationale db (get_job env k db)

-- ListApprovalRequests: the log is newest first.
unfoldable pub list_approval_requests : Env → ℤ → Db → Result (List ApprovalRequest)
list_approval_requests env limit db =
    if env.fault Call.read_notification
    then err (StoreError.driver Call.read_notification)
    else ok (take (limit_or_hundred limit) db.automation_requests)

-- ListNotifications: the table is newest first.
unfoldable pub list_notifications : Env → String → ℤ → Db → Result (List Notification)
list_notifications env state limit db =
    if not (one_of ("" ∷ "delivered" ∷ "read" ∷ []) state)
    then err (StoreError.automation AutomationError.invalid)
    else if env.fault Call.read_notification
    then err (StoreError.driver Call.read_notification)
    else ok (
        take (limit_or_hundred limit)
          (keep (λ (n : Notification). is_empty state || n.state is state) db.notifications))

-- `id = ? AND state = 'delivered'`
abbrev pub is_delivered : String → Notification → Bool
is_delivered k n = n.id is k && n.state is "delivered"

abbrev pub mark_read : Env → Notification → Notification
mark_read env n = record n { state = "read"; read_at = some env.now }

abbrev pub find_notification : String → List Notification → Option Notification
find_notification k ns = find (λ (n : Notification). n.id is k) ns

-- The update of a notice that is not read yet, and its event.
unfoldable pub read_notice : Env → String → String → Notification → Tx Notification
read_notice env k actor current = do
  call env Call.update_notification
  rows ← gets (λ db. count_where (is_delivered k) db.notifications)
  modify λ db. record db {
    notifications = update_where (is_delivered k) (mark_read env) db.notifications;
  }
  reject_if (not (rows == 1)) (StoreError.automation AutomationError.conflict)
  call env Call.insert_notification_event
  modify λ db. record db {
    notification_events =
        record { notification_id = k; action = "read"; actor_id = actor; created_at = env.now }
        ∷ db.notification_events;
  }
  append_audit env (audit_of actor "operator" "notification.read" "notification" k "")
  pure (mark_read env current)

unfoldable pub acknowledge_found :
    Env → String → String → Notification → Db → Result Notification × Db
acknowledge_found env k actor current db =
    if current.state is "read"
    then (ok current, db)
    else in_tx env (read_notice env k actor current) db

-- AcknowledgeNotification. A notice that is read already is returned and the transaction dropped;
-- the row is read in the transaction, so BeginTx comes first.
unfoldable pub acknowledge_notification : Env → String → String → Db → Result Notification × Db
acknowledge_notification env k actor db =
    if not (has_prefix k "notification-") || is_blank actor
    then (err (StoreError.automation AutomationError.invalid), db)
    else if env.fault Call.begin
    then (err (StoreError.driver Call.begin), db)
    else if env.fault Call.read_notification
    then (err (StoreError.driver Call.read_notification), db)
    else elim (find_notification k db.notifications) [
      | none ↦ (err (StoreError.automation AutomationError.not_found), db)
      | some n ↦ acknowledge_found env k actor n db
    ]
