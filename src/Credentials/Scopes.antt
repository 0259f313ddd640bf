-- ===== src/Credentials/Scopes.antt =====
-- app/router_credentials.py: the scopes of a credential and the column that keeps them.
use Prim.Native.String.{◌++◌}
use auto_vpn.Base.{
  ◌≡◌, refl, String, Bool, true, false, not, List, [], ◌∷◌, map, select, any, contains, strip,
  truthy, split_on, subst, arith,
}
use auto_vpn.Db.{Result, ok, err, router_error}

abbrev pub known_scopes : List String
known_scopes = "apply:write" ∷ "snapshot:read" ∷ []

abbrev pub is_empty {ℓ} : {A : Type ℓ} → List A → Bool
is_empty [] = true
is_empty (x ∷ xs) = false

abbrev pub scopes_of : Bool → Bool → List String
scopes_of true true = known_scopes
scopes_of true false = "apply:write" ∷ []
scopes_of false true = "snapshot:read" ∷ []
scopes_of false false = []

unfoldable pub checked_scopes : Bool → List String → Result (List String)
checked_scopes true normalized = err (router_error "Unknown router credential scope")
checked_scopes false [] = err (router_error "At least one router credential scope is required")
checked_scopes false (s ∷ rest) = ok (s ∷ rest)

-- `_normalize_scopes`: without an unknown scope, the sorted set is what is left of the two known
-- scopes, which are in order.
unfoldable pub normalize_scopes : List String → Result (List String)
unfolding strip checked_scopes
normalize_scopes scopes =
    let stripped = select truthy (map strip scopes) in
    checked_scopes (any (λ s. not (contains s known_scopes)) stripped)
      (scopes_of (contains "apply:write" stripped) (contains "snapshot:read" stripped))

unfoldable pub encode_scopes : List String → String
encode_scopes [] = ""
encode_scopes (s ∷ []) = s
encode_scopes (s ∷ (t ∷ rest)) = s ++ (" " ++ encode_scopes (t ∷ rest))

unfoldable pub decode_scopes : String → List String
unfolding split_on
decode_scopes value = let (first, rest) = split_on b' ' value in select truthy (first ∷ rest)

checked_scopes-ok :
    (unknown : Bool) (l normalized : List String)
    → checked_scopes unknown l ≡ ok normalized
    → (l ≡ normalized) × (is_empty l ≡ false)
unfolding checked_scopes
checked_scopes-ok true l normalized e = absurd (ground arith)
checked_scopes-ok false [] normalized e = absurd (ground arith)
checked_scopes-ok false (s ∷ rest) normalized e = (ground arith, refl)

abbrev IsCanonical : List String → Type 0
IsCanonical l =
    (decode_scopes (encode_scopes l) ≡ l)
    × (is_empty l ≡ false)
    × (any (λ s. not (contains s known_scopes)) l ≡ false)

scopes_of-IsCanonical :
    (a b : Bool) → is_empty (scopes_of a b) ≡ false → IsCanonical (scopes_of a b)
unfolding decode_scopes encode_scopes
scopes_of-IsCanonical true true h = (refl, refl, refl)
scopes_of-IsCanonical true false h = (refl, refl, refl)
scopes_of-IsCanonical false true h = (refl, refl, refl)
scopes_of-IsCanonical false false h = absurd (ground arith)

-- The scopes that a credential is issued with are never empty, all known, and read back from its
-- column as they were written.
pub decode-encode-normalize :
    (scopes normalized : List String)
    → normalize_scopes scopes ≡ ok normalized
    → (decode_scopes (encode_scopes normalized) ≡ normalized)
      × (is_empty normalized ≡ false)
      × (any (λ s. not (contains s known_scopes)) normalized ≡ false)
unfolding normalize_scopes
decode-encode-normalize scopes normalized e =
    let (same, some_left) = checked_scopes-ok _ _ normalized e in
    subst IsCanonical same (scopes_of-IsCanonical _ _ some_left)
