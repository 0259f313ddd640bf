-- ===== src/Credentials/Still.antt =====
-- Steps that leave routers and credentials alone, and operations that leave the credentials alone
-- (app/router_credentials.py).
use auto_vpn.Base.{ℕ, String, Bool, List, Option}
use auto_vpn.Db.{
  Db, Router, RouterCredential, Gives, Gives-bind, Gives-pure, Gives-read, Gives-modify,
  Gives-or_raise, Gives-of_result, Gives-raise_if, Gives-when, Gives-weaken, Gives-case_option,
  Gives-still, Keeps, get_db-Keeps, Error, Result, or_raise, of_result, raise_if, Keeps,
  get_db-Keeps, Keeps-bind, Keeps-of_result,
}
use auto_vpn.Config.{Platform}
use auto_vpn.Clients.{
  mark_vpn_config_updated, raise_revision, create_router_amnezia_peer, ensure_router_amnezia_peer,
}
use auto_vpn.Clients.Addresses.{allocate_amnezia_address_still}
use auto_vpn.Credentials.{
  RouterDraw, insert_router, existing_client, create_router, set_router_enabled,
  update_router_label,
}

module _ (P : List Router → List RouterCredential → Type 0) where
  abbrev OnTables : Db → Type 0
  OnTables db = P db.routers db.credentials

  pub known-Gives :
      {A : Type 0} (o : Option A) (e : Error) → Gives OnTables (or_raise o e) (λ _. OnTables)
  known-Gives o e = Gives-weaken (Gives-or_raise o e) (λ a s h. h.0)

  pub checked-Gives : {A : Type 0} (r : Result A) → Gives OnTables (of_result r) (λ _. OnTables)
  checked-Gives r = Gives-weaken (Gives-of_result r) (λ a s h. h.0)

  pub guard-Gives : (b : Bool) (e : Error) → Gives OnTables (raise_if b e) (λ _. OnTables)
  guard-Gives b e = Gives-weaken (Gives-raise_if b e) (λ a s h. h.0)

  pub mark-Gives :
      (platform : Platform) (now : ℕ)
      → Gives OnTables (mark_vpn_config_updated platform now) (λ _. OnTables)
  unfolding mark_vpn_config_updated raise_revision
  mark-Gives platform now = Gives-bind (Gives-modify _ {Q = OnTables} (λ db h. h)) λ _. Gives-read _

  pub ensure-Gives :
      (platform : Platform) (now : ℕ) (router_id private_key public_key preshared_key : String)
      → Gives OnTables
          (ensure_router_amnezia_peer platform now router_id private_key public_key preshared_key)
          (λ _. OnTables)
  unfolding ensure_router_amnezia_peer create_router_amnezia_peer
  ensure-Gives platform now router_id private_key public_key preshared_key =
      Gives-bind
        (Gives-bind (Gives-read _) λ existing.
          Gives-case_option existing
            (Gives-bind (Gives-read _) λ router. Gives-bind (known-Gives router _) λ _.
              Gives-bind (Gives-still (allocate_amnezia_address_still platform)) λ ipv4.
                Gives-bind (Gives-modify _ {Q = OnTables} (λ db h. h)) λ _. Gives-pure _ (λ s h. h))
            (λ peer. Gives-pure _ (λ s h. h)))
        λ (peer, created).
          Gives-bind
            (Gives-when created (Gives-bind (mark-Gives platform now) λ _. Gives-pure _ (λ s h. h)))
            λ _. Gives-pure _ (λ s h. h)

  pub client-Gives : (i : ℕ) → Gives OnTables (existing_client i) (λ _. OnTables)
  unfolding existing_client
  client-Gives i = Gives-bind (Gives-read _) λ client. known-Gives client _

module _ (P : List RouterCredential → Type 0) where
  abbrev OnCredentials : Db → Type 0
  OnCredentials db = P db.credentials

  pub insert_router-Gives :
      (now : ℕ) (router_id : String) (client_id : ℕ) (label : String)
      → Gives OnCredentials (insert_router now router_id client_id label) (λ _. OnCredentials)
  unfolding insert_router
  insert_router-Gives now router_id client_id label = Gives-bind (Gives-read _) λ taken.
      Gives-bind (guard-Gives (λ _. P) taken _) λ _. Gives-bind (Gives-read _) λ clash.
        Gives-bind (guard-Gives (λ _. P) _ _) λ _.
          Gives-bind (Gives-modify _ {Q = OnCredentials} (λ db h. h)) λ _. Gives-pure _ (λ s h. h)

  pub create_router-Keeps :
      (platform : Platform) (now : ℕ) (drawn : RouterDraw) (name : String) (client_id : ℕ)
      → Keeps OnCredentials (create_router platform now drawn name client_id)
  unfolding create_router
  create_router-Keeps platform now drawn name client_id = Keeps-bind (Keeps-of_result _) λ label.
      get_db-Keeps (
        Gives-bind (client-Gives (λ _. P) client_id) λ _.
          Gives-bind (insert_router-Gives now _ client_id label) λ router.
            Gives-bind (ensure-Gives (λ _. P) platform now _ _ _ _) λ _. Gives-pure _ (λ s h. h))

  pub set_router_enabled-Keeps :
      (platform : Platform) (now : ℕ) (router_id : String) (enabled : Bool)
      → Keeps OnCredentials (set_router_enabled platform now router_id enabled)
  unfolding set_router_enabled
  set_router_enabled-Keeps platform now router_id enabled = Keeps-bind (Keeps-of_result _) λ i.
      get_db-Keeps (
        Gives-bind (Gives-read _) λ found. Gives-bind (known-Gives (λ _. P) found _) λ router.
          Gives-when _ (
            Gives-bind (Gives-modify _ {Q = OnCredentials} (λ db h. h))
              λ _. Gives-bind (mark-Gives (λ _. P) platform now) λ _. Gives-pure _ (λ s h. h)))

  pub update_router_label-Keeps :
      (now : ℕ) (router_id name : String)
      → Keeps OnCredentials (update_router_label now router_id name)
  unfolding update_router_label
  update_router_label-Keeps now router_id name = Keeps-bind (Keeps-of_result _) λ i.
      Keeps-bind (Keeps-of_result _) λ label. get_db-Keeps (
        Gives-bind (Gives-read _) λ found.
          Gives-bind (guard-Gives (λ _. P) _ _) λ _. Gives-modify _ {Q = OnCredentials} (λ db h. h))
