-- ===== src/Clients/Distinct.antt =====
-- The addresses that are reserved, and what it means that none is twice (app/db.py).
use auto_vpn.Base.{
  ◌≡◌, refl, String, Bool, true, not, ◌&&◌, ◌||◌, List, [], ◌∷◌, ◌++◌, contains, map, select,
  truthy, arith,
}
use auto_vpn.Db.{Db}

-- No text occurs twice.
abbrev pub distinct : List String → Bool
distinct [] = true
distinct (x ∷ xs) = not (contains x xs) && distinct xs

-- The addresses that stand in the rows of the clients, deleted ones included, and of the router
-- peers. This is written from the tables, and not from what the allocation looks at.
abbrev pub reserved : Db → List String
reserved db =
    map (λ c. c.amnezia_ipv4) (select (λ c. truthy c.amnezia_ipv4) db.clients)
    ++ map (λ p. p.ipv4) (select (λ p. truthy p.ipv4) db.peers)

-- No address stands in two rows.
abbrev pub IsAllocated : Db → Type 0
IsAllocated db = distinct (reserved db) ≡ true

pub contains-append :
    (a : String) (xs ys : List String) → contains a (xs ++ ys) ≡ (contains a xs || contains a ys)
contains-append a [] ys = refl
contains-append a (x ∷ xs) ys = ground (arith, contains-append a xs ys)
