-- ===== src/Operations/Exclusive.antt =====
-- What an update of an operation row does to the lease, and to the rule that whoever is active
-- holds it.
use auto_vpn.Base.{
  ℕ, ◌≡◌, refl, ◌∙◌, Bool, ◌&&◌, true, false, List, [], ◌∷◌, Option, none, some, inl, inr, ◌⊎◌,
  ◌==◌, if◌then◌else◌, Bool-cases, Option-cases, find, marked_at, marked_at-update, or_default,
  arith,
}
use auto_vpn.Db.{
  Db, LeaseOwner, OwnerType, same_owner, Status, is_active, is_owner_active, is_held_by,
  IpChangeOperation, get_operation, ok,
}
use auto_vpn.Lease.{release_vps_lease, heartbeat_vps_lease, iso}
use auto_vpn.Lease.Exclusive.{IsExclusive, held_both, held_same, owner}
use auto_vpn.Operations.{
  IpField, assign, assign_all, status_field, is_terminal_field, update_operation, write_operation,
  ip_owner,
}

id-assign : (f : IpField) (r : IpChangeOperation) → (assign f r).id ≡ r.id
id-assign f r = ground arith

pub id-assign_all :
    (fields : List IpField) (r : IpChangeOperation) → (assign_all fields r).id ≡ r.id
id-assign_all [] r = refl
id-assign_all (f ∷ fs) r = ground (arith, id-assign_all fs (assign f r), id-assign f r)

pub status-assign_all :
    (fields : List IpField) (r : IpChangeOperation)
    → (assign_all fields r).status ≡ or_default (status_field fields) r.status
status-assign_all [] r = refl
status-assign_all (f ∷ fs) r = ground (arith, status-assign_all fs (assign f r))

-- Does an update make its row active?
abbrev pub sets_active : Option Status → Bool
sets_active none = false
sets_active (some s) = is_active s

-- A marked row was active before and is not closed, or was made active.
abbrev Stays : List IpField → Bool → Type 0
Stays fields before =
    (is_terminal_field (status_field fields) ≡ false)
    × ((before ≡ true) ⊎ (sets_active (status_field fields) ≡ true))

Stays-row :
    (fields : List IpField) (k : ℕ) (rows : List IpChangeOperation)
    → marked_at (λ r. r.id) (λ r. is_active (assign_all fields r).status) k rows ≡ true
    → Stays fields (marked_at (λ r. r.id) (λ r. is_active r.status) k rows)
Stays-row fields k rows h = elim (Option-cases (find (λ r. r.id == k) rows)) [
  | inl e ↦ ground arith
  | inr (r, e) ↦ elim (Option-cases (status_field fields)) [
    | inl f ↦ (ground arith, inl (ground (arith, status-assign_all fields r)))
    | inr (s, f) ↦ (
      ground (arith, status-assign_all fields r),
      inr (ground (arith, status-assign_all fields r)),
    )
  ]
]

-- Who is active after an update: any other operation that was, and its own if it stays.
active-write :
    (now i : ℕ) (fields : List IpField) (t : OwnerType) (k : ℕ) (db : Db)
    → is_owner_active (owner t k) (write_operation now i fields db) ≡ true
    → ((same_owner (owner t k) (ip_owner i) ≡ false) × (is_owner_active (owner t k) db ≡ true))
      ⊎ ((same_owner (owner t k) (ip_owner i) ≡ true)
          × Stays fields (is_owner_active (owner t k) db))
active-write now i fields OwnerType.install k db active = inl (refl, active)
active-write now i fields OwnerType.server k db active = inl (refl, active)
active-write now i fields OwnerType.ip_change k db active =
    let e =
      marked_at-update (λ r. r.id) (λ r. is_active r.status)
        (λ r. record (assign_all fields r) { updated_at = iso now }) (id-assign_all fields) i k
        db.ip_changes in
    elim (Bool-cases (k == i)) [
      | inl same ↦ inr (ground arith, Stays-row fields k db.ip_changes (ground arith))
      | inr other ↦ inl (ground arith, ground arith)
    ]

-- The lease after an update: released by its owner's terminal status, otherwise kept.
held-update :
    (now i : ℕ) (f : IpField) (fs : List IpField) (p : LeaseOwner) (db : Db)
    → is_held_by p (update_operation now i (f ∷ fs) db).1.lease ≡ (
        if is_terminal_field (status_field (f ∷ fs)) && is_held_by (ip_owner i) db.lease
        then false
        else is_held_by p db.lease)
unfolding update_operation release_vps_lease heartbeat_vps_lease
held-update now i f fs p db = ground arith

-- An update never raises.
pub update_operation_ok :
    (now i : ℕ) (fields : List IpField) (db : Db) → (update_operation now i fields db).0 ≡ ok tt
unfolding update_operation release_vps_lease heartbeat_vps_lease
update_operation_ok now i [] db = refl
update_operation_ok now i (f ∷ fs) db = ground arith

active-update :
    (now i : ℕ) (f : IpField) (fs : List IpField) (p : LeaseOwner) (db : Db)
    → is_owner_active p (update_operation now i (f ∷ fs) db).1
      ≡ is_owner_active p (write_operation now i (f ∷ fs) db)
unfolding update_operation release_vps_lease heartbeat_vps_lease
active-update now i f fs p db = ground arith

-- An update keeps the lease exclusive if its operation holds the lease, or if it makes nothing
-- active.
pub update_operation-IsExclusive :
    (now i : ℕ) (fields : List IpField) (db : Db)
    → IsExclusive db
    → (is_held_by (ip_owner i) db.lease ≡ true) ⊎ (sets_active (status_field fields) ≡ false)
    → IsExclusive (update_operation now i fields db).1
update_operation-IsExclusive now i [] db h mine = unfold update_operation in h
update_operation-IsExclusive now i (f ∷ fs) db h mine = λ p active.
    kept p (active-write now i (f ∷ fs) p.owner_type p.owner_id db (rw active-update at active))
  where
    kept :
        (p : LeaseOwner)
        → ((same_owner p (ip_owner i) ≡ false) × (is_owner_active p db ≡ true))
          ⊎ ((same_owner p (ip_owner i) ≡ true) × Stays (f ∷ fs) (is_owner_active p db))
        → is_held_by p (update_operation now i (f ∷ fs) db).1.lease ≡ true
    kept p (inl (ne, act)) =
        rw held-update (ground (arith, h p act, held_both p (ip_owner i) db.lease))
    kept p (inr (same, (open_still, inl act))) = rw held-update (ground (arith, h p act))
    kept p (inr (same, (open_still, inr sets))) =
        rw held-update (ground (arith, held_same p (ip_owner i) db.lease same))

-- A worker that lost its lease and still writes RUNNING into its row breaks the rule: the update
-- does not ask whether its heartbeat found the lease.
pub update_operation_without_lease :
    (now i : ℕ) (db : Db) {r : IpChangeOperation}
    → get_operation i db ≡ some r
    → is_held_by (ip_owner i) db.lease ≡ false
    → ¬ IsExclusive (update_operation now i (IpField.status Status.running ∷ []) db).1
update_operation_without_lease now i db e lost all =
    let still = all (ip_owner i) (active-update now i _ [] (ip_owner i) db ∙ again) in
    let gone = held-update now i (IpField.status Status.running) [] (ip_owner i) db in
    ground (arith, still, gone)
  where
    again :
        is_owner_active (ip_owner i) (write_operation now i (IpField.status Status.running ∷ []) db)
        ≡ true
    again = ground (
      arith,
      marked_at-update (λ r. r.id) (λ r. is_active r.status)
          (λ r. record r { status = Status.running; updated_at = iso now }) (λ r. refl) i i
          db.ip_changes,
    )
