-- ===== src/ApplyResults/Values.antt =====
-- A JSON value as `json.loads` gives it. Of a float the code asks whether it is finite and whether
-- it equals a whole number. The keys of an object are distinct.
use auto_vpn.Base.{ℕ, String, Bool, true, suc, Option, none, some, if◌then◌else◌, str_eq, ◌&&◌}

mutual
  pub data Json : Type 0 where
    null : Json
    bool : Bool → Json
    int : ℕ → Json
    negative_int : ℕ → Json
    float : Bool → Option ℕ → String → Json
    text : String → Json
    array : Items → Json
    object : Fields → Json

  pub data Items : Type 0 where
    nil : Items
    cons : Json → Items → Items

  pub data Fields : Type 0 where
    end : Fields
    field : String → Json → Fields → Fields

abbrev pub item_count : Items → ℕ
item_count nil = 0
item_count (cons v vs) = suc (item_count vs)

abbrev pub field_count : Fields → ℕ
field_count end = 0
field_count (field k v fs) = suc (field_count fs)

abbrev pub get_field : String → Fields → Option Json
get_field k end = none
get_field k (field j v fs) = if str_eq j k then some v else get_field k fs

abbrev pub all_fields : (String → Json → Bool) → Fields → Bool
all_fields p end = true
all_fields p (field k v fs) = p k v && all_fields p fs
