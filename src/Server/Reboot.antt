-- ===== src/Server/Reboot.antt =====
-- A reboot is sent once (app/server_operations.py, `mark_reboot_sending`).
use auto_vpn.Base.{
  ℕ, ◌≡◌, refl, ap, find, ◌∙◌, String, Bool, true, false, ◌&&◌, List, [], ◌∷◌, some, inl, inr, ◌==◌,
  Bool-cases, update_where, count_where, arith,
}
use auto_vpn.Db.{get_server_operation, Db, ServerOperation, Status, is_active, ok, ◌>>=◌}
use auto_vpn.Lease.{
  iso, fail_owner, fail_server, interrupt_server, heartbeat_vps_lease, may_have_sent_reboot,
}
use auto_vpn.Server.{is_unsent, mark_sending, mark_reboot_sending, server_owner}

-- An update of all rows that pass a test, and perhaps others, that makes them fail it.
count-update_where :
    {A : Type 0} (p q : A → Bool) (f : A → A)
    → ((a : A) → p a ≡ true → q a ≡ true)
    → ((a : A) → p (f a) ≡ false)
    → (rows : List A) → count_where p (update_where q f rows) ≡ 0
count-update_where p q f covers fails [] = refl
count-update_where p q f covers fails (r ∷ rows) =
    ground (arith, covers r, fails r, count-update_where p q f covers fails rows)

pub servers-mark :
    (now i : ℕ) (db : Db)
    → (mark_reboot_sending now i db).1.servers
      ≡ update_where (is_unsent i) (mark_sending (iso now)) db.servers
unfolding mark_reboot_sending heartbeat_vps_lease ◌>>=◌
servers-mark now i db = elim (Bool-cases (count_where (is_unsent i) db.servers == 1)) [
  | inl one ↦ ground arith
  | inr other ↦ ground arith
]

-- No row, no mark.
mark_nothing :
    (now i : ℕ) (db : Db)
    → count_where (is_unsent i) db.servers ≡ 0
    → (mark_reboot_sending now i db).0 ≡ ok false
unfolding mark_reboot_sending heartbeat_vps_lease ◌>>=◌
mark_nothing now i db e = ground arith

sent_later :
    (later i : ℕ) (timestamp : ℕ) (db : Db) (rows : List ServerOperation)
    → db.servers ≡ update_where (is_unsent i) (mark_sending timestamp) rows
    → (mark_reboot_sending later i db).0 ≡ ok false
sent_later later i timestamp db rows e = mark_nothing later i db (
    ap (count_where (is_unsent i)) e
    ∙ count-update_where (is_unsent i) (is_unsent i) (mark_sending timestamp) (λ r h. h)
        (λ r. ground arith) rows)

interrupted_later :
    (later i : ℕ) (reason : String) (at : ℕ) (db : Db)
    → (mark_reboot_sending later i (fail_owner (server_owner i) reason at db)).0 ≡ ok false
unfolding fail_owner fail_server interrupt_server
interrupted_later later i reason at db =
    mark_nothing later i (fail_owner (server_owner i) reason at db) (
      count-update_where (is_unsent i) (λ r. r.id == i && is_active r.status)
        (interrupt_server reason at) (λ r h. ground arith) (λ r. ground arith) db.servers)

-- A reboot is marked for sending at most once: after one attempt, whatever it returned, and after an
-- interruption of the operation, a later attempt returns false, so that the request is not repeated.
pub reboot_sent_once :
    (now later i : ℕ) (reason : String) (at : ℕ) (db : Db)
    → ((mark_reboot_sending later i (mark_reboot_sending now i db).1).0 ≡ ok false)
      × ((mark_reboot_sending later i
            (fail_owner (server_owner i) reason at (mark_reboot_sending now i db).1)).0
          ≡ ok false)
reboot_sent_once now later i reason at db = (
  sent_later later i (iso now) (mark_reboot_sending now i db).1 db.servers (servers-mark now i db),
  interrupted_later later i reason at (mark_reboot_sending now i db).1,
)

interrupted_row :
    (i : ℕ) (timestamp : ℕ) (reason : String) (at : ℕ) (rows : List ServerOperation)
    (r : ServerOperation)
    → find (λ q. q.id == i) rows ≡ some r
    → is_unsent i r ≡ true
    → (s : ServerOperation) × (find
          (λ q. q.id == i)
          (update_where
            (λ q. q.id == i && is_active q.status)
            (interrupt_server reason at)
            (update_where (is_unsent i) (mark_sending timestamp) rows))
        ≡ some s)
      × (s.status ≡ Status.ambiguous)
unfolding interrupt_server may_have_sent_reboot
interrupted_row i timestamp reason at [] r found unsent = absurd (ground arith)
interrupted_row i timestamp reason at (q ∷ rows) r found unsent = elim (Bool-cases (q.id == i)) [
  | inl here ↦ (interrupt_server reason at (mark_sending timestamp q), ground arith, ground arith)
  | inr there ↦
      let (s, e, a) = interrupted_row i timestamp reason at rows r (ground arith) unsent in
      (s, ground arith, a)
]

-- A reboot that is interrupted after it was marked for sending ends in doubt, not as failed.
pub interrupted_reboot_ambiguous :
    (now i : ℕ) (reason : String) (at : ℕ) (db : Db) (r : ServerOperation)
    → get_server_operation i db ≡ some r
    → is_unsent i r ≡ true
    → (s : ServerOperation) × (get_server_operation i
          (fail_owner (server_owner i) reason at (mark_reboot_sending now i db).1)
        ≡ some s)
      × (s.status ≡ Status.ambiguous)
unfolding fail_owner fail_server
interrupted_reboot_ambiguous now i reason at db r found unsent =
    let (s, e, a) = interrupted_row i (iso now) reason at db.servers r found unsent in
    (
      s,
      ap
            (λ rows.
              find (λ q. q.id == i)
                (update_where (λ q. q.id == i && is_active q.status) (interrupt_server reason at)
                  rows))
            (servers-mark now i db)
          ∙ e,
      a,
    )
