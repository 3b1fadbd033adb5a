-- ===== src/Channels/Secrets/Resolution.antt =====
-- What is stored is what is used, and what is shown of it.
use fleex.Common.{
  ℕ, zero, suc, ◌+◌, ◌-◌, ◌≤◌, ◌≡◌, refl, ap, ap₂, ◌≢◌, Bool, true, false, not, Option, none, some,
  List, [], ◌∷◌, ◌++◌, map, filter, upsert, length, length-append, length-drop, drop, leb, arith,
  Bool-cases, inl, inr, ◌⊎◌,
}
use fleex.Common.Texts.{Text}
use fleex.Channels.Secrets.{
  IntegrationKey, place, integration_env, Row, is_row, find_row, non_empty, row_value, or_else,
  resolve, clean, store, set, stars, mask, IntegrationStatus, status, list,
}

find_row-filter :
    (key : IntegrationKey) (rows : List Row)
    → find_row key (filter (λ r. not (is_row key r)) rows) ≡ none
find_row-filter key [] = refl
find_row-filter key (r ∷ rows) = ground (arith, find_row-filter key rows)

find_row-upsert :
    (key : IntegrationKey) (value : Text) (user : Option ℕ) (rows : List Row)
    → row_value (
        find_row key (
          upsert
            (is_row key)
            (λ r. record r { value = value; updated_by = user })
            (record { key = key; value = value; updated_by = user })
            rows))
      ≡ non_empty (some value)
find_row-upsert key value user [] = ground arith
find_row-upsert key value user (r ∷ rows) = elim (Bool-cases (is_row key r)) [
  | inl e ↦ rw e (rw e refl)
  | inr e ↦ rw e (rw e (find_row-upsert key value user rows))
]

other_row :
    (key other : IntegrationKey) (f : Row → Row) (new : Row) (rows : List Row)
    → place key ≢ place other
    → ((r : Row) → (f r).key ≡ r.key)
    → new.key ≡ key
    → find_row other (upsert (is_row key) f new rows) ≡ find_row other rows
other_row key other f new [] ne same e = ground (arith, ap place e)
other_row key other f new (r ∷ rows) ne same e =
    ground (arith, ap place (same r), other_row key other f new rows ne same e)

other_row_kept :
    (key other : IntegrationKey) (rows : List Row)
    → place key ≢ place other
    → find_row other (filter (λ r. not (is_row key r)) rows) ≡ find_row other rows
other_row_kept key other [] ne = refl
other_row_kept key other (r ∷ rows) ne = ground (arith, other_row_kept key other rows ne)

-- Equal keys have equal places; the other way round is all that the rows need.
resolve-store :
    (env : IntegrationKey → Option Text) (rows : List Row) (key : IntegrationKey) (value : Text)
    (user : Option ℕ)
    → resolve env (store rows key value user) key
      ≡ or_else (non_empty (some value)) (non_empty (env key))
unfolding resolve
resolve-store env rows key [] user = rw (find_row-filter key rows) refl
resolve-store env rows key (c ∷ text) user = rw (find_row-upsert key (c ∷ text) user rows) refl

resolve-store_other :
    (env : IntegrationKey → Option Text) (rows : List Row) (key other : IntegrationKey)
    (value : Text) (user : Option ℕ)
    → place key ≢ place other
    → resolve env (store rows key value user) other ≡ resolve env rows other
unfolding resolve
resolve-store_other env rows key other [] user ne = rw (other_row_kept key other rows ne) refl
resolve-store_other env rows key other (c ∷ text) user ne =
    rw
      (other_row key other (λ r. record r { value = c ∷ text; updated_by = user })
        (record { key = key; value = c ∷ text; updated_by = user }) rows ne (λ r. refl) refl)
      refl

-- After a secret is set, it is what its printable ASCII characters make, or what the environment
-- has when there are none; the other secrets are what they were.
pub resolve-set :
    (env : IntegrationKey → Option Text) (rows : List Row) (key other : IntegrationKey)
    (value : Text) (user : Option ℕ)
    → place key ≢ place other
    → (resolve env (set rows key value user) key
        ≡ or_else (non_empty (some (clean value))) (non_empty (env key)))
      × (resolve env (set rows key value user) other ≡ resolve env rows other)
unfolding set
resolve-set env rows key other value user ne = (
  resolve-store env rows key (clean value) user,
  resolve-store_other env rows key other (clean value) user ne,
)

-- What a status tells of a secret: whether there is one, and its mask.
abbrev pub told : IntegrationStatus → Bool × Text
told s = (s.configured, s.masked)

abbrev pub summary : Option Text → Bool × Text
summary none = (false, [])
summary (some value) = (true, mask value)

told-status :
    (key : IntegrationKey) (row variable : Option Text)
    → told (status key row variable) ≡ summary (or_else row variable)
told-status key (some value) variable = refl
told-status key none (some value) = refl
told-status key none none = refl

told_all :
    (env : IntegrationKey → Option Text) (rows : List Row) (keys : List IntegrationKey)
    → map told (map (λ key. status key (row_value (find_row key rows)) (non_empty (env key))) keys)
      ≡ map (λ key. summary (resolve env rows key)) keys
unfolding resolve
told_all env rows [] = refl
told_all env rows (key ∷ keys) =
    ap₂ ◌∷◌ (told-status key (row_value (find_row key rows)) (non_empty (env key)))
      (told_all env rows keys)

-- The list that an admin sees shows each secret as the one that the services use: configured when
-- there is one, from the database or the environment, and by its mask.
list_agrees :
    (env : IntegrationKey → Option Text) (rows : List Row)
    → map told (list env rows) ≡ map (λ key. summary (resolve env rows key)) integration_env
unfolding list
list_agrees env rows = told_all env rows integration_env

leb-false : (b a : ℕ) → leb a b ≡ false → b + 1 ≤ a
leb-false b a h = ground arith

length-stars : (n : ℕ) → length (stars n) ≡ n
length-stars zero = refl
length-stars (suc n) = omega (arith, length-stars n)

-- Of a secret of more than eight characters the mask shows the last four and the length, of
-- another the length only: two secrets that agree in these are shown alike.
mask_hides :
    (v w : Text)
    → length v ≡ length w
    → (length v ≤ 8) ⊎ (drop (length v - 4) v ≡ drop (length w - 4) w)
    → (mask v ≡ mask w) × (length (mask v) ≡ length v)
unfolding mask
mask_hides v w e (inl short) =
    let small : leb (length v) 8 ≡ true = ground arith in
    let small' : leb (length w) 8 ≡ true = ground arith in
    rw small (rw small' (ap stars e, length-stars (length v)))
mask_hides v w e (inr tail) = elim (Bool-cases (leb (length v) 8)) [
  | inl small ↦
      let small' : leb (length w) 8 ≡ true = ground arith in
      rw small (rw small' (ap stars e, length-stars (length v)))
  | inr large ↦
      let large' : leb (length w) 8 ≡ false = ground arith in
      let n = length v - 4 in
      let same : stars n ≡ stars (length w - 4) = ap (λ k. stars (k - 4)) e in
      rw large (
        rw large' (
          ap₂ ◌++◌ same tail,
          omega (
            arith,
            length-append (stars n) (drop n v),
            length-stars n,
            length-drop n v,
            (leb-false 8 (length v)) large,
          ),
        ))
]
