-- ===== src/Json.antt =====
-- The values of a scan profile, as the frontend holds them after `JSON.parse`. An array holds port
-- numbers, which is all that the profile's arrays hold. An object keeps the order of its keys; no
-- key of a profile is an integer, so JavaScript's own order is that of insertion.
use scan_tls.Common.{
  Text, ℕ, Bool, List, Option, none, some, ◌==◌, eq_iff, eq_refl, if◌then◌else◌, ◌≡◌, refl, arith,
  suc, [], ◌∷◌,
}
use scan_tls.Value.{show_nat}

mutual
  pub data Json : Type 0 where
    null : Json
    bool : Bool → Json
    num : ℕ → Json
    text : Text → Json
    ports : List ℕ → Json
    obj : Fields → Json

  pub data Fields : Type 0 where
    end : Fields
    field : Text → Json → Fields → Fields

-- `o[key]`
unfoldable pub get : Text → Fields → Option Json
get key end = none
get key (field k v fs) = if k == key then some v else get key fs

-- `{...o, [key]: value}`: a key that is there keeps its place
unfoldable pub put : Text → Json → Fields → Fields
put key value end = field key value end
put key value (field k v fs) = if k == key then field k value fs else field k v (put key value fs)

-- `delete o[key]`
unfoldable pub remove : Text → Fields → Fields
remove key end = end
remove key (field k v fs) = if k == key then remove key fs else field k v (remove key fs)

-- The own properties of an array that a spread copies: its elements, by their indices.
unfoldable pub index_fields : ℕ → List ℕ → Fields
index_fields i [] = end
index_fields i (n ∷ ns) = field (show_nat i) (num n) (index_fields (suc i) ns)

pub get-put :
    (j key : Text) (value : Json) (fs : Fields)
    → get j (put key value fs) ≡ (if key == j then some value else get j fs)
unfolding get put
get-put j key value end = refl
get-put j key value (field k v fs) =
    ground (arith, eq_iff k key, eq_iff k j, eq_iff key j, get-put j key value fs)

pub get-remove :
    (j key : Text) (fs : Fields) → get j (remove key fs) ≡ (if key == j then none else get j fs)
unfolding get remove
get-remove j key end = ground arith
get-remove j key (field k v fs) =
    ground (arith, eq_iff k key, eq_iff k j, eq_iff key j, get-remove j key fs)

pub get-put_same :
    (key : Text) (value : Json) (fs : Fields) → get key (put key value fs) ≡ some value
get-put_same key value fs = rw (get-put key key value fs, eq_refl key) refl

pub get-remove_same : (key : Text) (fs : Fields) → get key (remove key fs) ≡ none
get-remove_same key fs = rw (get-remove key key fs, eq_refl key) refl

pub get-end : (key : Text) → get key end ≡ none
unfolding get
get-end key = refl
