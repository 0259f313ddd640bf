-- ===== src/Rotation/Find.antt =====
-- Which address of the provider's list is the main one, and which is the one just bought
-- (app/ip_change.py, `_find_main_ip` and `_find_new_ip`).
use auto_vpn.Base.{
  String, Bool, not, ◌&&◌, List, [], ◌∷◌, Option, none, some, if◌then◌else◌, find, select, truthy,
  str_eq, contains,
}
use auto_vpn.Db.{Result, ok, err, ip_change_error}
use auto_vpn.Rotation.World.{Ipv4}

unfoldable pub find_main_ip : List Ipv4 → String → Result Ipv4
find_main_ip ipv4_list current_ip = elim (find (λ item. item.is_main) ipv4_list) [
  | some item ↦
      if truthy current_ip && not (str_eq item.ip current_ip)
      then err (ip_change_error "Aeza main IPv4 does not match the published current_ip")
      else ok item
  | none ↦ elim (find (λ item. truthy current_ip && str_eq item.ip current_ip) ipv4_list) [
    | some item ↦ ok item
    | none ↦ err (ip_change_error "Cannot find current main IPv4")
  ]
]

-- What the run knows when it looks for its purchase.
pub record Known : Type 0 where
  pub old_ip_id : String
  pub old_ip : String
  pub created_ip_id : String
  pub created_ip_address : String
  pub known_ids : List String
  pub known_addresses : List String

abbrev pub is_candidate : Known → Ipv4 → Bool
is_candidate k item =
    not (str_eq item.id k.old_ip_id)
    && (not (str_eq item.ip k.old_ip)
        && (not (contains item.id k.known_ids) && not (contains item.ip k.known_addresses)))

abbrev pub the_only : List Ipv4 → Option Ipv4
the_only [] = none
the_only (a ∷ []) = some a
the_only (a ∷ b ∷ rest) = none

unfoldable pub find_new_ip : List Ipv4 → Known → Option Ipv4
find_new_ip ipv4_list k =
    if truthy k.created_ip_id
    then find (λ item. str_eq item.id k.created_ip_id) ipv4_list
    else if truthy k.created_ip_address && not (contains k.created_ip_address k.known_addresses)
    then find (λ item. str_eq item.ip k.created_ip_address) ipv4_list
    else the_only (select (is_candidate k) ipv4_list)
