-- ===== src/Store/Tables.antt =====
-- The SQL statements of internal/storage/sqlite as functions on the tables.
pub mod Counts
use code_maintainer.Base.{
  ℕ, suc, String, Bool, ◌&&◌, Option, none, some, List, [], ◌∷◌, any, keep, length, ◌==◌, ◌is◌,
  if◌then◌else◌,
}
use code_maintainer.Base.Int.{ℤ, pos, pos_part, ltb_ℤ, leb_ℤ}
use code_maintainer.Base.Text.{is_blank, is_empty}
use code_maintainer.Store.Rows.{Job, Transition, AuditEvent, AppendRequest}
use code_maintainer.Store.Tx.{
  Env, Call, StoreError, Tx, ◌>>=◌, ◌>>◌, reject_if, call, gets, modify, or_fail,
}

unfoldable pub normalize_json : Env → String → String
normalize_json env value =
    if is_empty value then "{}" else if env.json_valid value then value else "{}"

unfoldable pub required : String → String → String
required value fallback = if is_blank value then fallback else value

-- SELECT ... FROM jobs WHERE id = ?
abbrev pub find_job : String → List Job → Option Job
find_job k [] = none
find_job k (j ∷ js) = if j.id is k then some j else find_job k js

-- UPDATE jobs SET ... WHERE id = ? AND version = ?
abbrev pub update_job : String → ℕ → (Job → Job) → List Job → List Job
update_job k v f [] = []
update_job k v f (j ∷ js) = (if j.id is k && j.version == v then f j else j) ∷ update_job k v f js

-- The rows that the update affects.
abbrev pub affected : String → ℕ → List Job → ℕ
affected k v [] = 0
affected k v (j ∷ js) =
    if j.id is k && j.version == v then suc (affected k v js) else affected k v js

-- `UPDATE ... SET ... WHERE p`
abbrev pub update_where {ℓ} : {A : Type ℓ} → (A → Bool) → (A → A) → List A → List A
update_where p f [] = []
update_where p f (x ∷ xs) = (if p x then f x else x) ∷ update_where p f xs

-- The rows that an update affects.
abbrev pub count_where {ℓ} : {A : Type ℓ} → (A → Bool) → List A → ℕ
count_where p xs = length (keep p xs)

-- boundedLimit
abbrev pub bounded_limit : ℤ → ℕ → ℕ → ℕ
bounded_limit value fallback maximum =
    if leb_ℤ value (pos 0)
    then fallback
    else if ltb_ℤ (pos maximum) value
    then maximum
    else pos_part value

-- scanJob of a row read by its id: a missing row is ErrNotFound.
unfoldable pub read_job : Env → Call → String → Tx Job
read_job env c k = do
  call env c
  found ← gets (λ db. find_job k db.jobs)
  or_fail found StoreError.not_found

-- The row that an append writes.
abbrev pub audit_event : Env → AppendRequest → AuditEvent
audit_event env request = record {
  id = env.new_id "audit";
  actor_id = required request.actor_id "system";
  actor_role = required request.actor_role "system";
  action = request.action;
  target_type = request.target_type;
  target_id = request.target_id;
  correlation_id = request.correlation_id;
  remote_address = request.remote_address;
  details = normalize_json env request.details;
  created_at = env.now;
}

-- appendAuditTx; the id column is unique.
unfoldable pub append_audit : Env → AppendRequest → Tx (Unit {0})
append_audit env request = do
  call env Call.random
  call env Call.insert_audit
  taken ← gets (λ db. any (λ (e : AuditEvent). e.id is env.new_id "audit") db.audit_events)
  reject_if taken (StoreError.driver Call.insert_audit)
  modify λ db. record db { audit_events = audit_event env request ∷ db.audit_events }

unfoldable pub insert_transition : Env → Transition → Tx (Unit {0})
insert_transition env t = do
  call env Call.insert_transition
  modify λ db. record db { job_transitions = t ∷ db.job_transitions }
