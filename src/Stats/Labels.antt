-- ===== src/Stats/Labels.antt =====
-- The label by which Xray counts a client (app/eu_install.py, xray_client_email).
use Prim.Native.Char.{Char, code}
use Prim.Native.String.{◌++◌ as concat}
use auto_vpn.Base.{
  ℕ, String, Bool, true, false, not, ◌&&◌, ◌||◌, ◌==◌, leb, if◌then◌else◌, truthy, strip,
}
use auto_vpn.Db.{Client}
use auto_vpn.Server.Texts.{decimal}

-- `[A-Za-z0-9_.-]`.
abbrev pub is_label_char : ℕ → Bool
is_label_char n =
    (leb b'A' n && leb n b'Z')
    || ((leb b'a' n && leb n b'z')
        || ((leb b'0' n && leb n b'9') || (n == b'_' || (n == b'.' || n == b'-'))))

-- Each run of other characters becomes one dash; are we inside a run?
unfoldable pub replace_runs : Bool → String → String
replace_runs inside String.[] = String.[]
replace_runs inside (String.◌∷◌ c s) = elim (is_label_char (code c)) [
  | true ↦ String.◌∷◌ c (replace_runs false s)
  | false ↦ elim inside [ true ↦ replace_runs true s | false ↦ concat "-" (replace_runs true s) ]
]

abbrev pub is_dash : Char → Bool
is_dash c = code c == b'-'

unfoldable pub drop_dashes : String → String
drop_dashes String.[] = String.[]
drop_dashes (String.◌∷◌ c s) =
    let rest = drop_dashes s in if is_dash c then rest else String.◌∷◌ c s

unfoldable pub drop_last_dashes : String → String
drop_last_dashes String.[] = String.[]
drop_last_dashes (String.◌∷◌ c s) =
    let rest = drop_last_dashes s in
    if is_dash c && not (truthy rest) then String.[] else String.◌∷◌ c rest

unfoldable pub safe_label : String → String
unfolding replace_runs drop_dashes drop_last_dashes strip
safe_label value =
    let label = drop_last_dashes (drop_dashes (replace_runs false (strip value))) in
    if truthy label then label else "client"

unfoldable pub xray_client_email : Client → String
unfolding safe_label decimal
xray_client_email client = concat (safe_label client.name) (concat "-" (decimal client.id))
