-- ===== src/Audit/Json.antt =====
-- JSON values and `canonicalize` of services/api/src/audit/audit.service.ts. A text is its list of
-- UTF-16 code units, without lone surrogates; a number is the text that JSON.stringify prints for
-- it.
pub mod Order
pub use fleex.Common.Texts.{Text, codes}
use fleex.Common.{
  ℕ, ◌+◌, ◌-◌, ◌/◌, ◌%◌, Bool, true, false, List, [], ◌∷◌, ◌++◌, ltb, leb, ◌==◌, ◌||◌, ◌&&◌,
  if◌then◌else◌,
}

mutual
  pub data Json : Type 0 where
    null : Json
    bool : Bool → Json
    num : Text → Json
    str : Text → Json
    arr : Items → Json
    obj : Fields → Json

  pub data Items : Type 0 where
    nil : Items
    cons : Json → Items → Items

  pub data Fields : Type 0 where
    end : Fields
    field : Text → Json → Fields → Fields

-- JavaScript's order of strings, by which `sort` sorts the keys.
unfoldable pub text_le : Text → Text → Bool
text_le [] t = true
text_le (a ∷ s) [] = false
text_le (a ∷ s) (b ∷ t) = let rest = text_le s t in if a == b then rest else ltb a b

abbrev hex_digit : ℕ → ℕ
hex_digit n = if ltb n 10 then n + 48 else n + 87

-- JSON.stringify of a text: quotes, backslashes and control characters are escaped.
abbrev escape : ℕ → Text
escape c =
    if c == 34
    then 92 ∷ 34 ∷ []
    else if c == 92
    then 92 ∷ 92 ∷ []
    else if c == 8
    then 92 ∷ b'b' ∷ []
    else if c == 9
    then 92 ∷ b't' ∷ []
    else if c == 10
    then 92 ∷ b'n' ∷ []
    else if c == 12
    then 92 ∷ b'f' ∷ []
    else if c == 13
    then 92 ∷ b'r' ∷ []
    else if ltb c 32
    then 92 ∷ b'u' ∷ 48 ∷ 48 ∷ hex_digit (c / 16) ∷ hex_digit (c % 16) ∷ []
    else c ∷ []

escaped : Text → Text
escaped [] = []
escaped (c ∷ s) = escape c ++ escaped s

unfoldable pub stringify : Text → Text
unfolding escaped
stringify s = 34 ∷ escaped s ++ 34 ∷ []

-- The keys with their printed values, in the order of the keys.
unfoldable pub insert_key : Text → Text → List (Text × Text) → List (Text × Text)
insert_key k v [] = (k, v) ∷ []
insert_key k v ((j, w) ∷ kvs) =
    if text_le k j then (k, v) ∷ (j, w) ∷ kvs else (j, w) ∷ insert_key k v kvs

unfoldable pub join_fields : List (Text × Text) → Text
join_fields [] = []
join_fields ((k, v) ∷ []) = stringify k ++ b':' ∷ v
join_fields ((k, v) ∷ more ∷ kvs) = stringify k ++ b':' ∷ v ++ b',' ∷ join_fields (more ∷ kvs)

unfoldable pub join_items : List Text → Text
join_items [] = []
join_items (v ∷ []) = v
join_items (v ∷ more ∷ vs) = v ++ b',' ∷ join_items (more ∷ vs)

unfoldable mutual
  pub canonicalize : Json → Text
  canonicalize null = codes "null"
  canonicalize (bool true) = codes "true"
  canonicalize (bool false) = codes "false"
  canonicalize (num n) = n
  canonicalize (str s) = stringify s
  canonicalize (arr vs) = b'[' ∷ join_items (canonical_items vs) ++ b']' ∷ []
  canonicalize (obj fs) = b'{' ∷ join_fields (sorted_fields fs) ++ b'}' ∷ []

  pub canonical_items : Items → List Text
  canonical_items nil = []
  canonical_items (cons v vs) = canonicalize v ∷ canonical_items vs

  pub sorted_fields : Fields → List (Text × Text)
  sorted_fields end = []
  sorted_fields (field k v fs) = insert_key k (canonicalize v) (sorted_fields fs)
