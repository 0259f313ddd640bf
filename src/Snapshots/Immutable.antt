-- ===== src/Snapshots/Immutable.antt =====
-- A snapshot's content is written once (app/vpn_state.py).
use auto_vpn.Base.{
  ℕ, ◌≡◌, refl, sym, subst, ◌∙◌, String, Bool, ◌&&◌, List, [], ◌∷◌, Option, none, some, inl, inr,
  ◌==◌, Bool-cases, Option-cases, find, update_where, arith,
}
use auto_vpn.Db.{
  Lifecycle, is_prepared, Db, Lease, Snapshot, LeaseOwner, OwnerType, get_vpn_snapshot, get_install,
  Gives, Gives-bind, Gives-gets, Gives-modify, Gives-raise_if, Gives-case_known, Gives-when,
  Gives-weaken,
}
use auto_vpn.Lease.{
  acquire_vps_lease, evict, fail_owner, fail_install, fail_ip_change, fail_server,
  release_vps_lease, iso,
}
use auto_vpn.Lease.Exclusive.{owner}
use auto_vpn.Snapshots.{prepared_snapshot, ensure_snapshot, add_snapshot}

abbrev payload_in : ℕ → List Snapshot → Option String
payload_in n rows = elim (find (λ s. s.revision == n) rows) [
  | none ↦ none
  | some s ↦ some s.payload_json
]

-- Revision n has been captured as this text.
abbrev pub IsStored : ℕ → String → Db → Type 0
IsStored n payload db = payload_in n db.snapshots ≡ some payload

pub payload-update :
    (n : ℕ) (q : Snapshot → Bool) (f : Snapshot → Snapshot)
    → ((s : Snapshot) → (f s).revision ≡ s.revision)
    → ((s : Snapshot) → (f s).payload_json ≡ s.payload_json)
    → (rows : List Snapshot) → payload_in n (update_where q f rows) ≡ payload_in n rows
payload-update n q f same keeps [] = refl
payload-update n q f same keeps (s ∷ rows) = elim (Bool-cases (q s)) [
  | inl hit ↦ ground (arith, same s, keeps s, payload-update n q f same keeps rows)
  | inr miss ↦ ground (arith, payload-update n q f same keeps rows)
]

pub add-IsStored :
    (n : ℕ) (stored : String) (new : Snapshot) (db : Db)
    → IsStored n stored db
    → get_vpn_snapshot new.revision db ≡ none
    → IsStored n stored (add_snapshot new db)
add-IsStored n stored new db h missing = elim (Bool-cases (new.revision == n)) [
  | inl same ↦ absurd (clash (ground arith))
  | inr other ↦ ground arith
]
  where
    clash : new.revision ≡ n → ⊥
    clash e =
        let gone : find (λ s. s.revision == n) db.snapshots ≡ none =
          subst (λ m. find (λ s. s.revision == m) db.snapshots ≡ none) e missing in
        ground arith

pub ensure_snapshot-IsStored :
    (n : ℕ) (stored : String) (again : Bool) (revision : ℕ) (payload sha : String) (at : ℕ)
    → Gives
        (IsStored n stored)
        (ensure_snapshot again revision payload sha at)
        (λ _. IsStored n stored)
unfolding ensure_snapshot
ensure_snapshot-IsStored n stored again revision payload sha at =
    Gives-bind (Gives-gets _) λ existing.
      Gives-case_known existing
        (λ missing. Gives-modify _ {Q = IsStored n stored} (λ db h.
          add-IsStored n stored (prepared_snapshot revision payload sha at) db h.0
            (sym (h.1) ∙ missing)))
        λ s. Gives-bind (Gives-weaken (Gives-raise_if _ _) (λ a db h. h.0.0)) λ _. Gives-when _ (
          Gives-modify _ {Q = IsStored n stored}
            (λ db h. payload-update n _ _ (λ s. refl) (λ s. refl) db.snapshots ∙ h))

fail_install-IsStored :
    (n : ℕ) (stored : String) (i : ℕ) (reason : String) (at : ℕ) (db : Db)
    → IsStored n stored db
    → IsStored n stored (fail_install i reason at db)
unfolding fail_install
fail_install-IsStored n stored i reason at db h = elim (Option-cases (get_install i db)) [
  | inl e ↦ ground arith
  | inr (r, e) ↦ elim (Option-cases r.revision) [
    | inl f ↦ ground arith
    | inr (m, f) ↦
        let kept =
          payload-update n (λ s. s.revision == m && is_prepared s.lifecycle)
            (λ s. record s {
              lifecycle = Lifecycle.failed;
              failed_at = some at;
              error_message = some reason;
            })
            (λ s. refl) (λ s. refl) db.snapshots in
        ground arith
  ]
]

fail_owner-IsStored :
    (n : ℕ) (stored : String) (t : OwnerType) (i : ℕ) (reason : String) (at : ℕ) (db : Db)
    → IsStored n stored db
    → IsStored n stored (fail_owner (owner t i) reason at db)
unfolding fail_owner fail_ip_change fail_server
fail_owner-IsStored n stored OwnerType.install i reason at db h =
    fail_install-IsStored n stored i reason at db h
fail_owner-IsStored n stored OwnerType.ip_change i reason at db h = h
fail_owner-IsStored n stored OwnerType.server i reason at db h = h

evict-IsStored :
    (n : ℕ) (stored : String) (now : ℕ) (l : Lease) (db : Db)
    → IsStored n stored db
    → IsStored n stored (evict now l db)
unfolding evict release_vps_lease
evict-IsStored n stored now l db h =
    let kept =
      fail_owner-IsStored n stored l.owner.owner_type l.owner.owner_id
        "Operation lease expired before completion" (iso now) db h in
    ground (arith, kept)

pub acquire-IsStored :
    (n : ℕ) (stored : String) (now secs : ℕ) (o : LeaseOwner) (db : Db)
    → IsStored n stored db
    → IsStored n stored (acquire_vps_lease now secs o db).1
unfolding acquire_vps_lease
acquire-IsStored n stored now secs o db h = elim (Option-cases db.lease) [
  | inl e ↦ ground arith
  | inr (l, e) ↦ ground (arith, evict-IsStored n stored now l db h)
]
