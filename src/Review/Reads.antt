-- ===== src/Review/Reads.antt =====
-- The validations of app/sprintbox_review.py only read: what holds before holds after.
use auto_vpn.Base.{ℕ, ◌≡◌, Bool, arith}
use auto_vpn.Db.{
  Db, Gives, Gives-bind, Gives-pure, Gives-read, Gives-raise_if, Gives-or_raise, Gives-weaken,
  Gives-still,
}
use auto_vpn.Config.{Platform}
use auto_vpn.Review.{validate_target, validate_review, validate_ssh_decision}

validate_target_still :
    (platform : Platform) (i : ℕ) (db : Db) → (validate_target platform i db).1 ≡ db
unfolding validate_target
validate_target_still platform i db = ground arith

module _ (platform : Platform) {P : Db → Type 0} where
  pub validate_review-Gives : (i : ℕ) → Gives P (validate_review platform i) (λ _. P)
  unfolding validate_review
  validate_review-Gives i = Gives-bind (Gives-still (validate_target_still platform i)) λ row.
      Gives-bind (Gives-weaken (Gives-raise_if _ _) (λ a db h. h.0)) λ _. Gives-pure _ (λ s h. h)

  pub validate_ssh_decision-Gives :
      (queued : Bool) (i : ℕ) → Gives P (validate_ssh_decision platform queued i) (λ _. P)
  unfolding validate_ssh_decision
  validate_ssh_decision-Gives queued i = Gives-bind (Gives-read _) λ found.
      Gives-bind (Gives-weaken (Gives-or_raise found _) (λ a db h. h.0)) λ row.
        Gives-bind (Gives-weaken (Gives-raise_if _ _) (λ a db h. h.0)) λ _.
          Gives-bind (Gives-read _) λ unchanged.
            Gives-bind (Gives-weaken (Gives-raise_if _ _) (λ a db h. h.0))
              λ _. Gives-pure _ (λ s h. h)
