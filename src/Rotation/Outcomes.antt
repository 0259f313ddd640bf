-- ===== src/Rotation/Outcomes.antt =====
-- How far a run of an IP change gets (app/ip_change.py, run_ip_change).
use auto_vpn.Base.{ℕ, ◌≡◌, String, true, false, List, ◌∷◌, truthy}
use auto_vpn.Rotation.World.{Env, Event}
use auto_vpn.Rotation.Quiet.{Trace}
use auto_vpn.Rotation.Purchased.{Purchased}

-- Where the body of a run may fail.
pub data Stop (env : Env) (before : List Event) (t : Trace) : Type 0 where
  untouched : t.effects ≡ before → t.make_main_started ≡ false → Stop env before t
  bought : t.effects ≡ Event.added ∷ before → t.make_main_started ≡ false → Stop env before t
  moved :
      (new : String)
      → Purchased env before t.old_ip_id new
      → t.effects ≡ Event.made_main new ∷ Event.added ∷ before
      → t.make_main_started ≡ true
      → Stop env before t

-- What a run that returns has done: nothing, or a purchase, the move to
-- what was bought, a publication and,
-- without AmneziaWG, one attempt to delete the address that was the main one.
pub data Completed (env : Env) (before : List Event) (t : Trace) : Type 0 where
  idle : t.effects ≡ before → Completed env before t
  kept_old :
      (new : String) (revision : ℕ)
      → Purchased env before t.old_ip_id new
      → t.effects ≡ Event.published revision ∷ Event.made_main new ∷ Event.added ∷ before
      → Completed env before t
  deleted_old :
      (new : String) (revision : ℕ)
      → Purchased env before t.old_ip_id new
      → t.effects
        ≡ Event.deleted t.old_ip_id
          ∷ Event.published revision
          ∷ Event.made_main new
          ∷ Event.added
          ∷ before
      → Completed env before t

-- What a run that raises has done: nothing, a purchase, or a purchase and a move that is followed by
-- the move back. Without an identifier of the old address there is no move back.
pub data Aborted (env : Env) (before : List Event) (t : Trace) : Type 0 where
  untouched : t.effects ≡ before → Aborted env before t
  bought : t.effects ≡ Event.added ∷ before → Aborted env before t
  rolled_back :
      (new : String)
      → Purchased env before t.old_ip_id new
      → t.effects ≡ Event.made_main t.old_ip_id ∷ Event.made_main new ∷ Event.added ∷ before
      → Aborted env before t
  stranded :
      (new : String)
      → Purchased env before t.old_ip_id new
      → t.effects ≡ Event.made_main new ∷ Event.added ∷ before
      → truthy t.old_ip_id ≡ false
      → Aborted env before t
