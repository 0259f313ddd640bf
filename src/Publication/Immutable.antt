-- ===== src/Publication/Immutable.antt =====
-- No operation changes the content of a snapshot that is stored (app/vpn_state.py).
use auto_vpn.Base.{
  ℕ, ◌+◌, ◌≡◌, refl, sym, ◌∙◌, String, true, false, ◌∷◌, Option, none, some, inl, inr, ◌==◌,
  Option-cases, is_some, arith,
}
use auto_vpn.Db.{
  Db, Snapshot, InstallOperation, get_vpn_snapshot, Gives, Gives-bind, Gives-read, Gives-gets,
  Gives-modify, Gives-raise_if, Gives-or_raise, Gives-of_result, Gives-case_option, Gives-weaken,
  Gives-pure, Gives-kept, Keeps, get_db-Keeps,
}
use auto_vpn.Config.{Platform}
use auto_vpn.Clients.{purge_applied_deleted_clients}
use auto_vpn.Operations.{install_owner}
use auto_vpn.Lease.{release_vps_lease}
use auto_vpn.Review.{bind_provider}
use auto_vpn.Snapshots.{
  add_install, add_ip_change, add_context, carry_decision, prepare_install_operation,
  prepare_ip_change_operation,
}
use auto_vpn.Snapshots.Exclusive.{check_ip_change-Gives}
use auto_vpn.Snapshots.Immutable.{
  IsStored, payload-update, add-IsStored, ensure_snapshot-IsStored, acquire-IsStored,
}
use auto_vpn.Publication.{
  BoxAccess, published_snapshot, apply_snapshot, write_publication, publish_ip_change,
}
use auto_vpn.Installs.{
  complete_install_operation, fail_install_operation, mark_install_operation_ambiguous,
  fail_snapshot,
}

module _ (n : ℕ) (stored : String) where
  purge-IsStored :
      (db : Db) → IsStored n stored db → IsStored n stored (purge_applied_deleted_clients db)
  unfolding purge_applied_deleted_clients
  purge-IsStored db h = elim (Option-cases db.vpn_state.applied_revision) [
    | inl e ↦ rw e h
    | inr (m, e) ↦ rw e h
  ]

  release-Stored :
      (i : ℕ)
      → Gives (IsStored n stored) (release_vps_lease (install_owner i)) (λ _. IsStored n stored)
  unfolding release_vps_lease
  release-Stored i = Gives-kept (λ db h. ground arith)

  fail_snapshot-IsStored :
      (operation : Option InstallOperation) (message : String) (at : ℕ) (db : Db)
      → IsStored n stored db
      → IsStored n stored (fail_snapshot operation message at db)
  fail_snapshot-IsStored none message at db h = h
  fail_snapshot-IsStored (some row) message at db h = elim (Option-cases row.revision) [
    | inl e ↦ rw e h
    | inr (m, e) ↦ rw e (payload-update n _ _ (λ s. refl) (λ s. refl) db.snapshots ∙ h)
  ]

  module _ (platform : Platform) (now : ℕ) where
    install-Stored :
        (target_host : String)
        → Keeps (IsStored n stored) (prepare_install_operation platform now target_host)
    unfolding prepare_install_operation
    install-Stored target_host = get_db-Keeps (
        Gives-bind (Gives-read _) λ config.
          Gives-bind (ensure_snapshot-IsStored n stored true _ _ _ _) λ _.
            Gives-bind (Gives-read _) λ row.
              Gives-bind (Gives-modify (add_install row) {Q = IsStored n stored} (λ db h. h)) λ _.
                Gives-bind (Gives-kept (acquire-IsStored n stored now _ _))
                  λ _. Gives-pure _ (λ s h. h))

    bind-Stored :
        (i : ℕ) → Gives (IsStored n stored) (bind_provider platform i) (λ _. IsStored n stored)
    unfolding bind_provider
    bind-Stored i = Gives-bind (Gives-read _) λ provider.
        Gives-bind (Gives-weaken (Gives-raise_if _ _) (λ a db h. h.0)) λ _.
          Gives-bind (Gives-read _) λ existing.
            Gives-bind (Gives-weaken (Gives-raise_if _ _) (λ a db h. h.0))
              λ _. Gives-modify _ {Q = IsStored n stored} (λ db h. h)

    carry-Stored :
        (new_id : ℕ) (review decision : Option ℕ)
        → Gives
            (IsStored n stored)
            (carry_decision platform now new_id review decision)
            (λ _. IsStored n stored)
    unfolding carry_decision
    carry-Stored new_id review decision =
        Gives-bind
          (Gives-case_option decision (Gives-pure tt (λ s h. h)) λ i.
            Gives-bind (Gives-read _) λ previous.
              Gives-bind (Gives-weaken (Gives-or_raise previous _) (λ a db h. h.0)) λ row.
                Gives-bind
                  (Gives-modify (add_context new_id i row) {Q = IsStored n stored} (λ db h. h))
                  λ _. Gives-modify _ {Q = IsStored n stored} (λ db h. h))
          λ _.
            Gives-case_option review (Gives-pure tt (λ s h. h))
              λ i. Gives-modify _ {Q = IsStored n stored} (λ db h. h)

    ip_change-Stored :
        (review decision : Option ℕ)
        → Keeps (IsStored n stored) (prepare_ip_change_operation platform now review decision)
    unfolding prepare_ip_change_operation
    ip_change-Stored review decision = get_db-Keeps (
        Gives-bind (check_ip_change-Gives platform review decision) λ _.
          Gives-bind (Gives-read _) λ config.
            Gives-bind (ensure_snapshot-IsStored n stored false _ _ _ _) λ _.
              Gives-bind (Gives-read _) λ row.
                Gives-bind (Gives-modify (add_ip_change row) {Q = IsStored n stored} (λ db h. h))
                  λ _. Gives-bind (Gives-kept (acquire-IsStored n stored now _ _)) λ _.
                    Gives-bind (bind-Stored row.id) λ _.
                      Gives-bind (carry-Stored row.id review decision) λ _. Gives-pure _ (λ s h. h))

    none_taken : (o : Option Snapshot) → is_some o ≡ false → o ≡ none
    none_taken none e = refl
    none_taken (some s) e = absurd (ground arith)

    write-IsStored :
        (i : ℕ) (new_ip health : String) (box : Option BoxAccess) (bound : ℕ) (payload : String)
        (at : ℕ) (db : Db)
        → IsStored n stored db
        → get_vpn_snapshot (bound + 1) db ≡ none
        → IsStored n stored (write_publication platform i new_ip health box bound payload at db)
    unfolding write_publication purge_applied_deleted_clients
    write-IsStored i new_ip health box bound payload at db h free =
        payload-update n (λ s. s.revision == bound) (apply_snapshot at) (λ s. refl) (λ s. refl)
          (added ∷ db.snapshots)
        ∙ add-IsStored n stored added db h free
      where
        added : Snapshot
        added = published_snapshot (bound + 1) payload (platform.sha256 payload) at

    publish-Stored :
        (i : ℕ) (new_ip health : String) (box : Option BoxAccess)
        → Keeps (IsStored n stored) (publish_ip_change platform now i new_ip health box)
    unfolding publish_ip_change
    publish-Stored i new_ip health box = get_db-Keeps (
        Gives-bind (Gives-read _) λ found.
          Gives-bind (Gives-weaken (Gives-or_raise found _) (λ a db h. h.0)) λ row.
            Gives-bind (Gives-read _) λ joined.
              Gives-bind (Gives-weaken (Gives-or_raise joined _) (λ a db h. h.0)) λ s.
                Gives-bind (Gives-read _) λ desired.
                  Gives-bind (Gives-weaken (Gives-raise_if _ _) (λ a db h. h.0)) λ _.
                    Gives-bind (Gives-weaken (Gives-of_result _) (λ a db h. h.0)) λ config.
                      Gives-bind (Gives-gets _) λ taken. Gives-bind (Gives-raise_if _ _) λ _.
                        Gives-bind
                          (Gives-modify _ {Q = IsStored n stored} (λ db h.
                            write-IsStored i new_ip health box s.revision _ _ db h.0.0
                              (sym h.0.1 ∙ none_taken taken h.1)))
                          λ _. Gives-pure _ (λ s h. h))

    complete-Stored :
        (i : ℕ) (output : String)
        → Keeps (IsStored n stored) (complete_install_operation now i output)
    unfolding complete_install_operation
    complete-Stored i output = get_db-Keeps (
        Gives-bind (Gives-read _) λ found.
          Gives-bind (Gives-weaken (Gives-or_raise found _) (λ a db h. h.0)) λ row.
            Gives-bind (Gives-weaken (Gives-or_raise row.revision _) (λ a db h. h.0)) λ revision.
              Gives-bind (Gives-read _) λ rowcount.
                Gives-bind
                  (Gives-modify _ {Q = IsStored n stored}
                    (λ db h. payload-update n _ _ (λ s. refl) (λ s. refl) db.snapshots ∙ h))
                  λ _. Gives-bind (Gives-weaken (Gives-raise_if _ _) (λ a db h. h.0)) λ _.
                    Gives-bind (Gives-modify _ {Q = IsStored n stored} (λ db h. h)) λ _.
                      Gives-bind (Gives-modify _ {Q = IsStored n stored} purge-IsStored) λ _.
                        Gives-bind (Gives-modify _ {Q = IsStored n stored} (λ db h. h))
                          λ _. Gives-bind (release-Stored i) λ _. Gives-pure _ (λ s h. h))

    fail-Stored :
        (i : ℕ) (message : String)
        → Keeps (IsStored n stored) (fail_install_operation now i message)
    unfolding fail_install_operation
    fail-Stored i message = get_db-Keeps (
        Gives-bind (Gives-read _) λ operation.
          Gives-bind
            (Gives-modify _ {Q = IsStored n stored} (fail_snapshot-IsStored operation message _))
            λ _.
              Gives-bind (Gives-modify _ {Q = IsStored n stored} (λ db h. h))
                λ _. Gives-bind (release-Stored i) λ _. Gives-pure _ (λ s h. h))

    ambiguous-Stored :
        (i : ℕ) (message : String)
        → Keeps (IsStored n stored) (mark_install_operation_ambiguous now i message)
    unfolding mark_install_operation_ambiguous
    ambiguous-Stored i message = get_db-Keeps (
        Gives-bind (Gives-read _) λ operation.
          Gives-bind
            (Gives-modify _ {Q = IsStored n stored} (fail_snapshot-IsStored operation message _))
            λ _.
              Gives-bind (Gives-modify _ {Q = IsStored n stored} (λ db h. h))
                λ _. Gives-bind (release-Stored i) λ _. Gives-pure _ (λ s h. h))

-- The content that is stored for a revision stays, whether an installation or an IP change is
-- prepared, an IP change is published, or an installation ends, with success or not.
pub snapshots_are_immutable :
    (platform : Platform) (now i n : ℕ) (stored text health : String) (box : Option BoxAccess)
    (review decision : Option ℕ) (db : Db)
    → IsStored n stored db
    → IsStored n stored (prepare_install_operation platform now text db).1
      × IsStored n stored (prepare_ip_change_operation platform now review decision db).1
      × IsStored n stored (publish_ip_change platform now i text health box db).1
      × IsStored n stored (complete_install_operation now i text db).1
      × IsStored n stored (fail_install_operation now i text db).1
      × IsStored n stored (mark_install_operation_ambiguous now i text db).1
snapshots_are_immutable platform now i n stored text health box review decision db h = (
  (install-Stored n stored platform now text).at db h,
  (ip_change-Stored n stored platform now review decision).at db h,
  (publish-Stored n stored platform now i text health box).at db h,
  (complete-Stored n stored platform now i text).at db h,
  (fail-Stored n stored platform now i text).at db h,
  (ambiguous-Stored n stored platform now i text).at db h,
)
