-- ===== src/Rotation/Purchased.antt =====
-- What was bought, and which address was the main one (app/ip_change.py), by what the provider
-- answered.
use auto_vpn.Base.{
  ◌≡◌, ◌∙◌, ◌⊎◌, inl, inr, String, true, false, not, ◌&&◌, List, [], ◌∷◌, some, map, any, select,
  find, truthy, str_eq, eq_iff, contains, Among, find-Among, select-Among, none_found, Bool-cases,
  Option-cases, arith,
}
use auto_vpn.Db.{Result, ok, err}
use auto_vpn.Rotation.World.{Env, Event, is_loud, Ipv4}
use auto_vpn.Rotation.Find.{Known, find_main_ip, find_new_ip, the_only, is_candidate}
use auto_vpn.Rotation.Waits.{offered}

-- An answer that was given after these effects.
abbrev pub Answered : {A : Type 0} → (List Event → Result A) → List Event → A → Type 0
Answered answer effects a =
    (log : List Event) × (select is_loud log ≡ effects) × (answer log ≡ ok a)

-- The address with this identifier was the main one of the list, or the list has none.
abbrev pub WasMain : String → List Ipv4 → Type 0
WasMain old known =
    (item : Ipv4) × Among item known
    × (item.id ≡ old)
    × ((item.is_main ≡ true) ⊎ (any (λ x. x.is_main) known ≡ false))

-- The item is what was created: it has the identifier that the purchase returned; or, where that is
-- empty, the address that it returned, which was not listed before; or neither its identifier nor its
-- address was listed before.
abbrev pub IsPurchase : List String → List String → Ipv4 → Ipv4 → Type 0
IsPurchase known_ids known_addresses created item =
    ((truthy created.id ≡ true) × (item.id ≡ created.id))
    ⊎ (((truthy created.id ≡ false)
          × (item.ip ≡ created.ip)
          × (contains item.ip known_addresses ≡ false))
        ⊎ ((truthy created.id ≡ false)
            × (contains item.id known_ids ≡ false)
            × (contains item.ip known_addresses ≡ false)))

-- The old address and the new one of a move: what the provider listed before the purchase, what it
-- answered to the purchase, and what it listed after it.
pub record Purchased (env : Env) (before : List Event) (old new : String) : Type 0 where
  pub known : List Ipv4
  pub created : Ipv4
  pub listed : List Ipv4
  pub item : Ipv4
  pub known_answer : Answered env.get_ipv4_list before known
  pub created_answer : Answered env.add_ipv4 (Event.added ∷ before) created
  pub listed_answer : Answered env.get_ipv4_list (Event.added ∷ before) listed
  pub old_main : WasMain old known
  pub among : Among item listed
  pub named : item.id ≡ new
  pub given : truthy item.id ≡ true
  pub bought : IsPurchase (map (λ x. x.id) known) (map (λ x. x.ip) known) created item

-- What a run knows before it buys.
abbrev pub Knows : Env → List Event → Known → Type 0
Knows env before k =
    (known : List Ipv4) × Answered env.get_ipv4_list before known
    × WasMain k.old_ip_id known
    × (k.known_ids ≡ map (λ x. x.id) known)
    × (k.known_addresses ≡ map (λ x. x.ip) known)

-- What the search for the purchase returns.
abbrev pub Found : Env → List Event → Known → Ipv4 → Ipv4 → Type 0
Found env effects k created item =
    (listed : List Ipv4) × Answered env.get_ipv4_list effects listed
    × Among item listed
    × (truthy item.id ≡ true)
    × IsPurchase k.known_ids k.known_addresses created item

pub find_main_ip-WasMain :
    (known : List Ipv4) (current_ip : String) (item : Ipv4)
    → find_main_ip known current_ip ≡ ok item
    → WasMain item.id known
unfolding find_main_ip
find_main_ip-WasMain known current_ip item e = elim (Option-cases (find (λ x. x.is_main) known)) [
  | inl f ↦ elim (Option-cases (find (λ x. truthy current_ip && str_eq x.ip current_ip) known)) [
    | inl g ↦ absurd (ground (arith, f, g))
    | inr (x, g) ↦ (x, (find-Among _ known x g).0, ground (arith, f, g), inr (none_found _ known f))
  ]
  | inr (x, f) ↦
      let (among, main) = find-Among (λ x. x.is_main) known x f in
      (x, among, ground (arith, f), inl main)
]

the_only-Among : (xs : List Ipv4) (item : Ipv4) → the_only xs ≡ some item → Among item xs
the_only-Among [] item e = absurd (cc)
the_only-Among (a ∷ []) item e = inl (ground arith)
the_only-Among (a ∷ b ∷ xs) item e = absurd (cc)

find_new_ip-IsPurchase :
    (listed : List Ipv4) (k : Known) (created item : Ipv4)
    → k.created_ip_id ≡ created.id
    → k.created_ip_address ≡ created.ip
    → find_new_ip listed k ≡ some item
    → Among item listed × IsPurchase k.known_ids k.known_addresses created item
unfolding find_new_ip
find_new_ip-IsPurchase listed k created item same_id same_ip e =
    elim (Bool-cases (truthy k.created_ip_id)) [
      | inl given ↦
          let (among, same) =
            find-Among (λ x. str_eq x.id k.created_ip_id) listed item (ground (arith, given)) in
          (among, inl (ground arith, (eq_iff item.id k.created_ip_id).0 same ∙ same_id))
      | inr missing ↦
          elim (Bool-cases (
            truthy k.created_ip_address && not (contains k.created_ip_address k.known_addresses))) [
              | inl fresh ↦
                  let (among, same) =
                    find-Among (λ x. str_eq x.ip k.created_ip_address) listed item
                      (ground (arith, missing, fresh)) in
                  let here = (eq_iff item.ip k.created_ip_address).0 same in
                  (among, inr (inl (ground arith, here ∙ same_ip, rw here (ground (arith, fresh)))))
              | inr stale ↦
                  let (among, passes) =
                    select-Among (is_candidate k) listed item
                      (the_only-Among _ item (ground (arith, missing, stale))) in
                  (among, inr (inr (ground arith, ground (arith, passes), ground (arith, passes))))
            ]
    ]

pub offered-Found :
    (env : Env) (effects log : List Event) (k : Known) (created item : Ipv4)
    (answer : Result (List Ipv4))
    → k.created_ip_id ≡ created.id
    → k.created_ip_address ≡ created.ip
    → select is_loud log ≡ effects
    → env.get_ipv4_list log ≡ answer
    → offered env k answer ≡ some item
    → Found env effects k created item
offered-Found env effects log k created item (err e) same_id same_ip at answered h = absurd (cc)
offered-Found env effects log k created item (ok listed) same_id same_ip at answered h =
    elim (Option-cases (find_new_ip listed k)) [
      | inl f ↦ absurd (ground (arith, f))
      | inr (x, f) ↦ elim (Bool-cases (truthy x.id && truthy x.ip)) [
        | inr g ↦ absurd (ground (arith, f, g))
        | inl g ↦
            let same : x ≡ item = ground (arith, f, g) in
            let (among, bought) =
              find_new_ip-IsPurchase listed k created item same_id same_ip
                (f ∙ ground (arith, same)) in
            (listed, (log, at, answered), among, ground (arith, g, same), bought)
      ]
    ]
