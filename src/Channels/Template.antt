-- ===== src/Channels/Template.antt =====
-- `renderTemplate` of services/api/src/notifications/template.ts. The texts of the numbers and of
-- the time are made by JavaScript and are arguments here.
pub mod Meaning
use fleex.Common.{
  ℕ, Bool, true, false, ◌&&◌, ◌||◌, Option, none, some, List, [], ◌∷◌, ◌++◌, leb, ◌==◌,
  if◌then◌else◌,
}
use fleex.Common.Texts.{Text, codes, text_eq}

-- The values of the placeholders, in the order of the source.
pub record Values : Type 0 where
  pub device : Text
  pub type : Text
  pub severity : Text
  pub location : Text
  pub lat : Text
  pub lng : Text
  pub speed : Text
  pub time : Text
  pub message : Text

abbrev first_of : Text → List (Text × Text) → Option Text
first_of key [] = none
first_of key ((name, value) ∷ rest) = if text_eq key name then some value else first_of key rest

unfoldable pub value_of : Values → Text → Option Text
value_of v key = first_of key (
    (codes "DEVICE", v.device)
    ∷ (codes "TYPE", v.type)
    ∷ (codes "SEVERITY", v.severity)
    ∷ (codes "LOCATION", v.location)
    ∷ (codes "LAT", v.lat)
    ∷ (codes "LNG", v.lng)
    ∷ (codes "SPEED", v.speed)
    ∷ (codes "TIME", v.time)
    ∷ (codes "MESSAGE", v.message)
    ∷ [])

abbrev pub open_brace : ℕ
open_brace = 0x7b

abbrev pub close_brace : ℕ
close_brace = 0x7d

-- `[A-Z_]`
abbrev pub is_name : ℕ → Bool
is_name c = (leb 0x41 c && leb c 0x5a) || c == 0x5f

abbrev pub filled : Option Text → Text → Text
filled none name = open_brace ∷ (name ++ (close_brace ∷ []))
filled (some value) name = value

-- What a character ends: a match, an open brace that is none, or the start of another.
pub data Ending : Type 0 where
  more match restart broken : Ending

abbrev pub is_nonempty : Text → Bool
is_nonempty [] = false
is_nonempty (c ∷ t) = true

abbrev pub ending : Text → ℕ → Ending
ending name c =
    if is_name c
    then more
    else if c == close_brace && is_nonempty name
    then match
    else if c == open_brace
    then restart
    else broken

-- `template.replace(/\{([A-Z_]+)\}/g, …)`: outside of a brace, or after one and a name so far.
unfoldable pub replace : (Text → Option Text) → Option Text → Text → Text
replace value none [] = []
replace value (some name) [] = open_brace ∷ name
replace value none (c ∷ text) = elim (c == open_brace) [
  | true ↦ replace value (some []) text
  | false ↦ c ∷ replace value none text
]
replace value (some name) (c ∷ text) = elim (ending name c) [
  | more ↦ replace value (some (name ++ (c ∷ []))) text
  | match ↦ filled (value name) name ++ replace value none text
  | restart ↦ (open_brace ∷ name) ++ replace value (some []) text
  | broken ↦ (open_brace ∷ name) ++ (c ∷ replace value none text)
]

unfoldable pub render_template : Values → Text → Text
unfolding replace value_of
render_template v template = replace (value_of v) none template
