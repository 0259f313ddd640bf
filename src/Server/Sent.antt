-- ===== src/Server/Sent.antt =====
-- The rows of a server operation whose reboot may have been sent (app/server_operations.py), and what
-- the updates of a run leave of them.
use auto_vpn.Base.{
  ℕ, ◌≤◌, ◌≡◌, refl, ◌∙◌, String, Bool, true, false, not, ◌&&◌, List, [], ◌∷◌, inl, inr, ◌==◌, find,
  any, update_where, count_where, arith, Bool-cases,
}
use auto_vpn.Db.{Db, ServerOperation, ◌>>=◌}
use auto_vpn.Config.{Platform}
use auto_vpn.Clients.{set_setting, mark_vpn_config_updated}
use auto_vpn.Lease.{release_vps_lease, heartbeat_vps_lease, may_have_sent, iso}
use auto_vpn.Server.{
  Cleaning, ServerField, assign_all_server, assign_server, update_server_operation, is_unsent,
  mark_sending,
}
use auto_vpn.Server.Restart.{row_may_have_sent}

-- Every row of the operation says that its reboot may have been sent.
abbrev pub is_sent : ℕ → Db → Bool
is_sent i db = not (any (λ r. r.id == i && not (may_have_sent r.action_state)) db.servers)

-- What is written of the action, if anything.
abbrev pub keeps_sent : List ServerField → Bool
keeps_sent [] = true
keeps_sent (ServerField.action_state v ∷ fs) = may_have_sent v && keeps_sent fs
keeps_sent (_ ∷ fs) = keeps_sent fs

pub sent-assign :
    (c : Cleaning) (fs : List ServerField) (r : ServerOperation)
    → keeps_sent fs ≡ true
    → may_have_sent r.action_state ≡ true
    → may_have_sent (assign_all_server c fs r).action_state ≡ true
sent-assign c [] r h sent = sent
sent-assign c (ServerField.action_state v ∷ fs) r h sent =
    sent-assign c fs _ (ground arith) (ground arith)
sent-assign c (ServerField.status s ∷ fs) r h sent = sent-assign c fs _ h sent
sent-assign c (ServerField.started_at v ∷ fs) r h sent = sent-assign c fs _ h sent
sent-assign c (ServerField.completed_at v ∷ fs) r h sent = sent-assign c fs _ h sent
sent-assign c (ServerField.current_step v ∷ fs) r h sent = sent-assign c fs _ h sent
sent-assign c (ServerField.provider_status v ∷ fs) r h sent = sent-assign c fs _ h sent
sent-assign c (ServerField.provider_ip v ∷ fs) r h sent = sent-assign c fs _ h sent
sent-assign c (ServerField.ssh_status v ∷ fs) r h sent = sent-assign c fs _ h sent
sent-assign c (ServerField.services_json v ∷ fs) r h sent = sent-assign c fs _ h sent
sent-assign c (ServerField.protocol_health_json v ∷ fs) r h sent = sent-assign c fs _ h sent
sent-assign c (ServerField.result_message v ∷ fs) r h sent = sent-assign c fs _ h sent
sent-assign c (ServerField.warning_message v ∷ fs) r h sent = sent-assign c fs _ h sent
sent-assign c (ServerField.error_message v ∷ fs) r h sent = sent-assign c fs _ h sent

-- Rows that say so still do after an update that lets them.
pub any-update :
    (i : ℕ) (f : ServerOperation → ServerOperation)
    → ((r : ServerOperation)
        → may_have_sent r.action_state ≡ true
        → may_have_sent (f r).action_state ≡ true)
    → (rows : List ServerOperation)
    → any (λ r. r.id == i && not (may_have_sent r.action_state)) rows ≡ false
    → any
        (λ r. r.id == i && not (may_have_sent r.action_state))
        (update_where (λ r. r.id == i) f rows)
      ≡ false
any-update i f keeps [] h = refl
any-update i f keeps (r ∷ rows) h = elim (Bool-cases (r.id == i)) [
  | inl here ↦ ground (arith, keeps r, any-update i f keeps rows)
  | inr there ↦ ground (arith, any-update i f keeps rows)
]

pub any-mark :
    (i timestamp : ℕ) (rows : List ServerOperation)
    → any (λ r. r.id == i && not (may_have_sent r.action_state)) rows ≡ false
    → any
        (λ r. r.id == i && not (may_have_sent r.action_state))
        (update_where (is_unsent i) (mark_sending timestamp) rows)
      ≡ false
any-mark i timestamp [] h = refl
any-mark i timestamp (r ∷ rows) h = elim (Bool-cases (r.id == i)) [
  | inl here ↦ ground (arith, any-mark i timestamp rows)
  | inr there ↦ ground (arith, any-mark i timestamp rows)
]

-- Where no row says that the reboot was not sent, and the first row does not say that it was, there is
-- no row.
pub absent_lem :
    (i : ℕ) (rows : List ServerOperation)
    → any (λ r. r.id == i && not (may_have_sent r.action_state)) rows ≡ false
    → row_may_have_sent (find (λ r. r.id == i) rows) ≡ false
    → count_where (λ r. r.id == i) rows ≡ 0
absent_lem i [] h f = refl
absent_lem i (r ∷ rows) h f = ground (arith, absent_lem i rows)

pub absent-update :
    (i : ℕ) (f : ServerOperation → ServerOperation) (rows : List ServerOperation)
    → count_where (λ r. r.id == i) rows ≡ 0
    → any
        (λ r. r.id == i && not (may_have_sent r.action_state))
        (update_where (λ r. r.id == i) f rows)
      ≡ false
absent-update i f [] h = refl
absent-update i f (r ∷ rows) h = ground (arith, absent-update i f rows)

pub servers-update :
    (c : Cleaning) (now i : ℕ) (f : ServerField) (fs : List ServerField) (db : Db)
    → (update_server_operation c now i (f ∷ fs) db).1.servers
      ≡ update_where
          (λ r. r.id == i)
          (λ r. record (assign_all_server c (f ∷ fs) r) { updated_at = iso now })
          db.servers
unfolding update_server_operation release_vps_lease heartbeat_vps_lease ◌>>=◌
servers-update c now i f fs db = ground arith

pub update-sent :
    (c : Cleaning) (now i : ℕ) (f : ServerField) (fs : List ServerField) (db : Db)
    → keeps_sent (f ∷ fs) ≡ true
    → is_sent i db ≡ true
    → is_sent i (update_server_operation c now i (f ∷ fs) db).1 ≡ true
update-sent c now i f fs db keeps sent =
    let kept =
      any-update i (λ r. record (assign_all_server c (f ∷ fs) r) { updated_at = iso now })
        (λ r h. sent-assign c (f ∷ fs) r keeps h) db.servers (ground arith) in
    rw (servers-update c now i f fs db, kept) refl

pub servers-set_setting :
    (platform : Platform) (now : ℕ) (key value : String) (db : Db)
    → (set_setting platform now key value db).1.servers ≡ db.servers
unfolding set_setting mark_vpn_config_updated ◌>>=◌
servers-set_setting platform now key value db = ground arith

-- `id` is the primary key.
abbrev pub IsKey : ℕ → Db → Type 0
IsKey i db = count_where (λ r. r.id == i) db.servers ≤ 1

-- Fields do not change the number of a row.
pub id-assign :
    (c : Cleaning) (fs : List ServerField) (r : ServerOperation)
    → (assign_all_server c fs r).id ≡ r.id
id-assign c [] r = refl
id-assign c (f ∷ fs) r = id-assign c fs (assign_server c f r) ∙ one f
  where
    one : (f : ServerField) → (assign_server c f r).id ≡ r.id
    one (ServerField.status s) = refl
    one (ServerField.action_state v) = refl
    one (ServerField.started_at v) = refl
    one (ServerField.completed_at v) = refl
    one (ServerField.current_step v) = refl
    one (ServerField.provider_status v) = refl
    one (ServerField.provider_ip v) = refl
    one (ServerField.ssh_status v) = refl
    one (ServerField.services_json v) = refl
    one (ServerField.protocol_health_json v) = refl
    one (ServerField.result_message v) = refl
    one (ServerField.warning_message v) = refl
    one (ServerField.error_message v) = refl

pub count-update_id :
    (i : ℕ) (p : ServerOperation → Bool) (f : ServerOperation → ServerOperation)
    → ((r : ServerOperation) → (f r).id ≡ r.id)
    → (rows : List ServerOperation)
    → count_where (λ r. r.id == i) (update_where p f rows) ≡ count_where (λ r. r.id == i) rows
count-update_id i p f same [] = refl
count-update_id i p f same (r ∷ rows) = ground (arith, same r, count-update_id i p f same rows)

pub unsent_none :
    (i : ℕ) (timestamp : ℕ) (rows : List ServerOperation)
    → count_where (λ r. r.id == i) rows ≡ 0
    → (count_where (is_unsent i) rows ≡ 0)
      × (any
            (λ r. r.id == i && not (may_have_sent r.action_state))
            (update_where (is_unsent i) (mark_sending timestamp) rows)
          ≡ false)
unsent_none i timestamp [] h = (refl, refl)
unsent_none i timestamp (r ∷ rows) h = ground (arith, unsent_none i timestamp rows)

-- A reboot that is marked was not sent, and counts as sent from then on.
pub marked_sent :
    (i : ℕ) (timestamp : ℕ) (rows : List ServerOperation)
    → count_where (λ r. r.id == i) rows ≤ 1
    → count_where (is_unsent i) rows ≡ 1
    → (any (λ r. r.id == i && not (may_have_sent r.action_state)) rows ≡ true)
      × (any
            (λ r. r.id == i && not (may_have_sent r.action_state))
            (update_where (is_unsent i) (mark_sending timestamp) rows)
          ≡ false)
marked_sent i timestamp [] key h = absurd (omega (arith, h))
marked_sent i timestamp (r ∷ rows) key h = elim (Bool-cases (r.id == i)) [
  | inl here ↦ ground (arith, unsent_none i timestamp rows)
  | inr there ↦ ground (arith, marked_sent i timestamp rows)
]
