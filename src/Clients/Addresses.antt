-- ===== src/Clients/Addresses.antt =====
-- Addresses are given out once (app/db.py, `_allocate_amnezia_address` and its callers).
use mathlib.Core.List.{tail}
use auto_vpn.Base.{
  ℕ, ◌≡◌, refl, sym, subst, ◌+◌, String, Bool, true, false, not, List, [], ◌∷◌, ◌++◌, map, some,
  inl, inr, Bool-cases, Option-cases, find, select, contains, truthy, str_eq, eq_iff, arith,
}
use auto_vpn.Db.{
  Result-cases, Db, Client, RouterPeer, Gives, Gives-bind, Gives-pure, Gives-read, Gives-gets,
  Gives-modify, Gives-or_raise, Gives-weaken, Keeps, get_db-Keeps, get_db, Gives-case_option,
  Gives-when, ok, err, After, Result,
}
use auto_vpn.Config.{Platform}
use auto_vpn.Clients.{
  Drawn, used_addresses, amnezia_hosts, allocate_amnezia_address, create_client,
  create_router_amnezia_peer, ensure_router_amnezia_peer, mark_vpn_config_updated, raise_revision,
  purge_applied_deleted_clients,
}
use auto_vpn.Clients.Distinct.{distinct, IsAllocated, reserved, contains-append}
use auto_vpn.Clients.Deletion.{purge-IsAllocated}

str_eq_comm : (a b : String) → str_eq a b ≡ true → str_eq b a ≡ true
str_eq_comm a b h = (eq_iff b a).1 (sym ((eq_iff a b).0 h))

-- A new text may be put anywhere.
distinct-insert :
    (a : String) (xs ys : List String)
    → contains a (xs ++ ys) ≡ false
    → distinct (xs ++ ys) ≡ true
    → distinct (xs ++ (a ∷ ys)) ≡ true
distinct-insert a [] ys fresh h = ground arith
distinct-insert a (x ∷ xs) ys fresh h = ground (
  arith,
  distinct-insert a xs ys,
  contains-append x xs ys,
  contains-append x xs (a ∷ ys),
  str_eq_comm x a,
)

found_passes : {A : Type 0} (p : A → Bool) (xs : List A) (x : A) → find p xs ≡ some x → p x ≡ true
found_passes p [] x e = absurd (ground arith)
found_passes p (y ∷ ys) x e = ground (arith, found_passes p ys x)

-- An address that is given out was free.
pub allocate_fresh :
    (platform : Platform) (db : Db) (a : String)
    → (allocate_amnezia_address platform db).0 ≡ ok a
    → contains a (reserved db) ≡ false
unfolding allocate_amnezia_address
allocate_fresh platform db a e = elim (Result-cases (amnezia_hosts platform db)) [
  | inr (x, f) ↦ absurd (ground arith)
  | inl (addresses, f) ↦
      elim (Option-cases (find (λ b. not (contains b (used_addresses db))) (tail addresses))) [
        | inl exhausted ↦ absurd (ground arith)
        | inr (b, g) ↦
            ground
              (arith, found_passes (λ b. not (contains b (used_addresses db))) (tail addresses) b g)
      ]
]

pub allocate_amnezia_address_still :
    (platform : Platform) (db : Db) → (allocate_amnezia_address platform db).1 ≡ db
unfolding allocate_amnezia_address
allocate_amnezia_address_still platform db = ground arith

allocate-Gives :
    (platform : Platform)
    → Gives IsAllocated
        (allocate_amnezia_address platform)
        (λ a db. IsAllocated db × (contains a (reserved db) ≡ false))
allocate-Gives platform = record {
  at = λ db h.
      ends db h (allocate_amnezia_address platform db).0 _ (allocate_fresh platform db)
        (sym (allocate_amnezia_address_still platform db));
}
  where
    ends :
        (db : Db) (h : IsAllocated db) (r : Result String) (after : Db)
        → ((a : String) → r ≡ ok a → contains a (reserved db) ≡ false)
        → db ≡ after
        → After (λ a db. IsAllocated db × (contains a (reserved db) ≡ false)) r after
    ends db h (err e) after fresh same = tt
    ends db h (ok a) after fresh same =
        subst (λ d. IsAllocated d × (contains a (reserved d) ≡ false)) same (h, fresh a refl)

add_client-IsAllocated :
    (c : Client) (db : Db)
    → IsAllocated db × (contains c.amnezia_ipv4 (reserved db) ≡ false)
    → IsAllocated (record db { clients = c ∷ db.clients; next_client = db.next_client + 1 })
add_client-IsAllocated c db (h, fresh) = ground arith

add_peer-IsAllocated :
    (p : RouterPeer) (db : Db)
    → IsAllocated db × (contains p.ipv4 (reserved db) ≡ false)
    → IsAllocated (record db { peers = p ∷ db.peers })
add_peer-IsAllocated p db (h, fresh) = elim (Bool-cases (truthy p.ipv4)) [
  | inl t ↦ ground (
    arith,
    distinct-insert p.ipv4
        (map (λ c. c.amnezia_ipv4) (select (λ c. truthy c.amnezia_ipv4) db.clients))
        (map (λ p. p.ipv4) (select (λ p. truthy p.ipv4) db.peers)) fresh h,
  )
  | inr f ↦ ground arith
]

create_client-Keeps :
    (platform : Platform) (now : ℕ) (drawn : Drawn)
    → Keeps IsAllocated (create_client platform now drawn)
unfolding create_client mark_vpn_config_updated raise_revision
create_client-Keeps platform now drawn = get_db-Keeps (
    Gives-bind (allocate-Gives platform) λ ipv4. Gives-bind (Gives-gets _) λ client.
      Gives-bind
        (Gives-modify _ {Q = IsAllocated}
          (λ db h. add_client-IsAllocated client db (h.0.0, rw (h.1) (h.0.1))))
        λ _.
          Gives-bind (Gives-bind (Gives-modify _ {Q = IsAllocated} (λ db h. h)) λ _. Gives-read _)
            λ _. Gives-pure _ (λ s h. h))

peer-Gives :
    (platform : Platform) (now : ℕ) (router_id private_key public_key preshared_key : String)
    → Gives IsAllocated
        (create_router_amnezia_peer platform router_id private_key public_key preshared_key)
        (λ _. IsAllocated)
unfolding create_router_amnezia_peer
peer-Gives platform now router_id private_key public_key preshared_key =
    Gives-bind (Gives-read _) λ existing.
      Gives-case_option existing
        (Gives-bind (Gives-read _) λ router.
          Gives-bind (Gives-weaken (Gives-or_raise router _) (λ a s h. h.0)) λ _.
            Gives-bind (allocate-Gives platform) λ ipv4.
              Gives-bind (Gives-modify _ {Q = IsAllocated} (add_peer-IsAllocated _))
                λ _. Gives-pure _ (λ s h. h))
        (λ peer. Gives-pure _ (λ s h. h))

ensure_peer-Keeps :
    (platform : Platform) (now : ℕ) (router_id private_key public_key preshared_key : String)
    → Keeps IsAllocated (
        get_db
          (ensure_router_amnezia_peer platform now router_id private_key public_key preshared_key))
unfolding ensure_router_amnezia_peer mark_vpn_config_updated raise_revision
ensure_peer-Keeps platform now router_id private_key public_key preshared_key = get_db-Keeps (
    Gives-bind (peer-Gives platform now router_id private_key public_key preshared_key)
      λ (peer, created).
        Gives-bind
          (Gives-when created (
            Gives-bind (Gives-bind (Gives-modify _ {Q = IsAllocated} (λ db h. h)) λ _. Gives-read _)
              λ _. Gives-pure _ (λ s h. h)))
          λ _. Gives-pure _ (λ s h. h))

-- Creating a client, giving a router its peer and removing deleted clients keep the addresses in the
-- rows of all clients and router peers distinct, those of a client from those of a peer too, whether
-- they succeed or fail.
pub addresses_stay_distinct :
    (platform : Platform) (now : ℕ) (drawn : Drawn)
    (router_id private_key public_key preshared_key : String) (db : Db)
    → IsAllocated db
    → IsAllocated (create_client platform now drawn db).1
      × IsAllocated
          (get_db
            (ensure_router_amnezia_peer platform now router_id private_key public_key preshared_key)
            db).1
      × IsAllocated (purge_applied_deleted_clients db)
addresses_stay_distinct platform now drawn router_id private_key public_key preshared_key db h = (
  (create_client-Keeps platform now drawn).at db h,
  (ensure_peer-Keeps platform now router_id private_key public_key preshared_key).at db h,
  purge-IsAllocated db h,
)
