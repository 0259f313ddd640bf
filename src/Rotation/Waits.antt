-- ===== src/Rotation/Waits.antt =====
-- What the waits of a rotation have seen when they return (app/ip_change.py).
use auto_vpn.Base.{
  ℕ, zero, suc, ◌≡◌, ◌⊎◌, refl, String, Bool, true, false, List, ◌∷◌, Option, none, some, inl, inr,
  Bool-cases, Option-cases, any, arith,
}
use auto_vpn.Db.{Result, ok, err, Result-cases, ◌>>=◌}
use auto_vpn.Rotation.World.{Env, World, Event, Ipv4, IpRotationTiming, call}
use auto_vpn.Rotation.Find.{Known, find_new_ip}
use auto_vpn.Rotation.Steps.{
  wait_new_ip, wait_main_ip, wait_ssh, wait_for_new_ip, wait_for_main_ip, wait_for_ssh,
  is_confirmed_main, usable,
}

Nat-cases : (n : ℕ) → (n ≡ 0) ⊎ ((m : ℕ) × (n ≡ suc m))
Nat-cases zero = inl refl
Nat-cases (suc m) = inr (m, refl)

module _ (env : Env) where
  -- Does an answer of the provider show the address as the main one?
  abbrev pub confirms : String → String → Result (List Ipv4) → Bool
  confirms expected_ip_id expected_ip (ok l) =
      any (is_confirmed_main env expected_ip_id expected_ip) l
  confirms expected_ip_id expected_ip (err e) = false

  -- The purchase that an answer of the provider shows, with its identifier and its address.
  abbrev pub offered : Known → Result (List Ipv4) → Option Ipv4
  offered k (ok l) = usable env (find_new_ip l k)
  offered k (err e) = none

  abbrev seen : Event → World → World
  seen e w = record w { log = e ∷ w.log; db = env.others (e ∷ w.log) w.db }

  -- SSH answered at the last attempt.
  wait_ssh_seen :
      (n : ℕ) (host : String) (w : World)
      → (wait_ssh env n host w).0 ≡ ok tt
      → env.tcp_check (wait_ssh env n host w).1.log ≡ true
  unfolding wait_ssh ◌>>=◌ call
  wait_ssh_seen zero host w done = absurd (ground arith)
  wait_ssh_seen (suc zero) host w done =
      elim (Bool-cases (env.tcp_check (Event.probed host ∷ w.log))) [
        | inl up ↦ ground arith
        | inr down ↦ absurd (ground arith)
      ]
  wait_ssh_seen (suc (suc n)) host w done =
      elim (Bool-cases (env.tcp_check (Event.probed host ∷ w.log))) [
        | inl up ↦ ground arith
        | inr down ↦
            ground
              (arith, wait_ssh_seen (suc n) host (seen Event.slept (seen (Event.probed host) w)))
      ]

  wait_main_ip_seen :
      (n : ℕ) (expected_ip_id expected_ip : String) (w : World)
      → (wait_main_ip env n expected_ip_id expected_ip w).0 ≡ ok tt
      → confirms expected_ip_id expected_ip
          (env.get_ipv4_list (wait_main_ip env n expected_ip_id expected_ip w).1.log)
        ≡ true
  unfolding wait_main_ip ◌>>=◌ call
  wait_main_ip_seen zero expected_ip_id expected_ip w done = absurd (ground arith)
  wait_main_ip_seen (suc n) expected_ip_id expected_ip w done =
      elim (Result-cases (env.get_ipv4_list (Event.listed ∷ w.log))) [
        | inr (e, f) ↦ absurd (ground arith)
        | inl (l, f) ↦
            elim (Bool-cases (any (is_confirmed_main env expected_ip_id expected_ip) l)) [
              | inl yes_main ↦ ground arith
              | inr not_main ↦ elim (Nat-cases n) [
                | inl z ↦ absurd (ground arith)
                | inr (m, z) ↦ ground (
                  arith,
                  wait_main_ip_seen n expected_ip_id expected_ip
                      (seen Event.slept (seen Event.listed w)),
                )
              ]
            ]
      ]

  wait_new_ip_seen :
      (n : ℕ) (k : Known) (item : Ipv4) (w : World)
      → (wait_new_ip env n k w).0 ≡ ok item
      → offered k (env.get_ipv4_list (wait_new_ip env n k w).1.log) ≡ some item
  unfolding wait_new_ip ◌>>=◌ call
  wait_new_ip_seen zero k item w done = absurd (ground arith)
  wait_new_ip_seen (suc n) k item w done =
      elim (Result-cases (env.get_ipv4_list (Event.listed ∷ w.log))) [
        | inr (e, f) ↦ absurd (ground arith)
        | inl (l, f) ↦ elim (Option-cases (usable env (find_new_ip l k))) [
          | inr (found, g) ↦ ground arith
          | inl missing ↦ elim (Nat-cases n) [
            | inl z ↦ absurd (ground arith)
            | inr (m, z) ↦
                ground (arith, wait_new_ip_seen n k item (seen Event.slept (seen Event.listed w)))
          ]
        ]
      ]

-- The wait for SSH returns only if the port answered at its last attempt.
pub wait_for_ssh_answers :
    (env : Env) (timing : IpRotationTiming) (host : String) (w : World)
    → (wait_for_ssh env timing host w).0 ≡ ok tt
    → env.tcp_check (wait_for_ssh env timing host w).1.log ≡ true
unfolding wait_for_ssh
wait_for_ssh_answers env timing host w = wait_ssh_seen env _ host w

-- The wait for the move returns only if the provider's last answer shows the new address, under its
-- identifier, as the main one.
pub wait_for_main_ip-confirms :
    (env : Env) (timing : IpRotationTiming) (expected_ip_id expected_ip : String) (w : World)
    → (wait_for_main_ip env timing expected_ip_id expected_ip w).0 ≡ ok tt
    → confirms env expected_ip_id expected_ip
        (env.get_ipv4_list (wait_for_main_ip env timing expected_ip_id expected_ip w).1.log)
      ≡ true
unfolding wait_for_main_ip
wait_for_main_ip-confirms env timing expected_ip_id expected_ip w =
    wait_main_ip_seen env _ expected_ip_id expected_ip w

-- The address that the wait for the purchase returns is the one that the search finds in the
-- provider's last answer, with an identifier and an address.
pub wait_for_new_ip_offers :
    (env : Env) (timing : IpRotationTiming) (k : Known) (item : Ipv4) (w : World)
    → (wait_for_new_ip env timing k w).0 ≡ ok item
    → offered env k (env.get_ipv4_list (wait_for_new_ip env timing k w).1.log) ≡ some item
unfolding wait_for_new_ip
wait_for_new_ip_offers env timing k item w = wait_new_ip_seen env _ k item w
