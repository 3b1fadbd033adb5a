-- ===== src/Common/Lists.antt =====
-- Lists measured by the native numbers, under the library's names, and predicates on them.
use Prim.Native.Nat.{ℕ, zero, suc, ◌+◌, ◌-◌, ◌≤◌}
use mathlib.Core.Path.{◌≡◌, refl, ap, ◌∙◌}
use mathlib.Core.Logic.{◌⊎◌, inl, inr}
use mathlib.Core.Bool.{Bool, true, false, ◌||◌}
use mathlib.Core.List.{List, [], ◌∷◌, ◌++◌, map, Memᴰ}
use mathlib.Core.Option.{Option, none, some}
use native.Mathlib.Omega.{arith}
use fleex.Common.Tests.{if◌then◌else◌, ◌==◌, Bool-cases}

module _ {ℓ} {A : Type ℓ} where
  abbrev pub length : List A → ℕ
  length [] = 0
  length (x ∷ xs) = suc (length xs)

  abbrev pub get_elem? : List A → ℕ → Option A
  get_elem? [] i = none
  get_elem? (x ∷ xs) zero = some x
  get_elem? (x ∷ xs) (suc i) = get_elem? xs i

  abbrev pub drop : ℕ → List A → List A
  drop zero xs = xs
  drop (suc n) [] = []
  drop (suc n) (x ∷ xs) = drop n xs

  -- `Array.prototype.filter`, `find` and `some` of JavaScript, by a Boolean test.
  abbrev pub filter : (A → Bool) → List A → List A
  filter p [] = []
  filter p (x ∷ xs) = if p x then x ∷ filter p xs else filter p xs

  abbrev pub find? : (A → Bool) → List A → Option A
  find? p [] = none
  find? p (x ∷ xs) = if p x then some x else find? p xs

  abbrev pub any : (A → Bool) → List A → Bool
  any p [] = false
  any p (x ∷ xs) = p x || any p xs

  abbrev pub All {κ} : (A → Type κ) → List A → Type κ
  All P [] = Unit
  All P (x ∷ xs) = P x × All P xs

  pub length-append : (xs ys : List A) → length (xs ++ ys) ≡ length xs + length ys
  length-append [] ys = omega arith
  length-append (x ∷ xs) ys = omega (arith, length-append xs ys)

  pub length-filter-le : (p : A → Bool) (xs : List A) → length (filter p xs) ≤ length xs
  length-filter-le p [] = omega arith
  length-filter-le p (x ∷ xs) = ground (arith, length-filter-le p xs)

  pub find?-eq-some : (p : A → Bool) (xs : List A) (a : A) → find? p xs ≡ some a → p a ≡ true
  find?-eq-some p [] a h = cc
  find?-eq-some p (x ∷ xs) a h = ground (arith, find?-eq-some p xs a)

  pub All-append {κ} : (P : A → Type κ) (xs ys : List A) → All P xs → All P ys → All P (xs ++ ys)
  All-append P [] ys h k = k
  All-append P (x ∷ xs) ys (h, hs) k = (h, All-append P xs ys hs k)

module _ {ℓ κ} {A : Type ℓ} {B : Type κ} (q : A → Bool) (g : A → B) where
  update_head :
      (y z : A) (ys : List A)
      → q z ≡ q y
      → (q y ≡ true → g z ≡ g y)
      → map g (filter q (z ∷ ys)) ≡ map g (filter q (y ∷ ys))
  update_head y z ys e h = elim (Bool-cases (q y)) [
    | inl t ↦ rw (e ∙ t) (rw t (rw (h t)))
    | inr t ↦ rw (e ∙ t) (rw t)
  ]

  cons_head :
      (y : A) (xs ys : List A)
      → map g (filter q xs) ≡ map g (filter q ys)
      → map g (filter q (y ∷ xs)) ≡ map g (filter q (y ∷ ys))
  cons_head y xs ys e = elim (Bool-cases (q y)) [ inl t ↦ rw t (ap (◌∷◌ (g y)) e) | inr t ↦ rw t e ]

module _ {ℓ} {A : Type ℓ} where
  pub length-drop : (n : ℕ) (xs : List A) → length (drop n xs) ≡ length xs - n
  length-drop zero xs = omega arith
  length-drop (suc n) [] = omega arith
  length-drop (suc n) (x ∷ xs) = omega (arith, length-drop n xs)

  -- A change to every row that passes a test: `updateMany`. The second result is its `count`.
  abbrev pub update_many : (A → Bool) → (A → A) → List A → List A
  update_many p f [] = []
  update_many p f (x ∷ xs) = (if p x then f x else x) ∷ update_many p f xs

  -- Change the first row that passes the test, or add one: `upsert` on a unique column.
  abbrev pub upsert : (A → Bool) → (A → A) → A → List A → List A
  upsert p f new [] = new ∷ []
  upsert p f new (x ∷ xs) = if p x then f x ∷ xs else x ∷ upsert p f new xs

  -- `update` on a unique column: the first row that passes.
  abbrev pub update_first : (A → Bool) → (A → A) → List A → List A
  update_first p f [] = []
  update_first p f (x ∷ xs) = if p x then f x ∷ xs else x ∷ update_first p f xs

  pub find?-upsert :
      (p : A → Bool) (f : A → A) (new : A) (xs : List A)
      → ((x : A) → p x ≡ true → p (f x) ≡ true)
      → p new ≡ true
      → (y : A) × (find? p (upsert p f new xs) ≡ some y)
        × (((find? p xs ≡ none) × (y ≡ new)) ⊎ ((x : A) × (find? p xs ≡ some x) × (y ≡ f x)))
  find?-upsert p f new [] keep h = (new, rw h, inl (refl, refl))
  find?-upsert p f new (x ∷ xs) keep h = elim (Bool-cases (p x)) [
    | inl e ↦ (f x, rw e (rw (keep x e)), inr (x, rw e, refl))
    | inr e ↦ rw e (rw e (find?-upsert p f new xs keep h))
  ]

  pub find?-update_first :
      (p : A → Bool) (f : A → A) (xs : List A) (x : A)
      → ((x : A) → p x ≡ true → p (f x) ≡ true)
      → find? p xs ≡ some x
      → find? p (update_first p f xs) ≡ some (f x)
  find?-update_first p f [] x keep h = cc
  find?-update_first p f (y ∷ ys) x keep h = elim (Bool-cases (p y)) [
    | inl e ↦ rw e (rw (keep y e) (ground (arith, e)))
    | inr e ↦ rw e (rw e (find?-update_first p f ys x keep (ground (arith, e))))
  ]

  pub All-imp {κ μ} :
      {P : A → Type κ} {Q : A → Type μ} (xs : List A) → ((x : A) → P x → Q x) → All P xs → All Q xs
  All-imp [] imp h = tt
  All-imp (x ∷ xs) imp (h, hs) = (imp x h, All-imp xs imp hs)

  -- Two searches that find the same row still do, once it is changed so that both still pass.
  pub find?-update_other :
      (p q : A → Bool) (f : A → A) (xs : List A) (x : A)
      → find? p xs ≡ some x
      → find? q xs ≡ some x
      → p (f x) ≡ true
      → find? p (update_first q f xs) ≡ some (f x)
  find?-update_other p q f [] x h k keep = cc
  find?-update_other p q f (y ∷ ys) x h k keep =
      let here = find?-eq-some q (y ∷ ys) x k in
      let there = find?-eq-some p (y ∷ ys) x h in
      ground (arith, here, there, find?-update_other p q f ys x)

  -- How many rows pass `q` once a row that passes `p` is changed.
  pub length-filter-update_first :
      (p q : A → Bool) (f : A → A) (xs : List A) (x : A)
      → find? p xs ≡ some x
      → q x ≡ false
      → q (f x) ≡ true
      → length (filter q (update_first p f xs)) ≡ length (filter q xs) + 1
  length-filter-update_first p q f [] x h before after = cc
  length-filter-update_first p q f (y ∷ ys) x h before after = elim (Bool-cases (p y)) [
    | inl e ↦ ground (arith, e)
    | inr e ↦ ground (arith, e, length-filter-update_first p q f ys x)
  ]

  -- A change that `q` does not see, at the row that `find?` finds.
  pub length-filter-update_same :
      (p q : A → Bool) (f : A → A) (xs : List A)
      → ((x : A) → find? p xs ≡ some x → q (f x) ≡ q x)
      → length (filter q (update_first p f xs)) ≡ length (filter q xs)
  length-filter-update_same p q f [] same = refl
  length-filter-update_same p q f (y ∷ ys) same = elim (Bool-cases (p y)) [
    | inl e ↦ let here = same y (rw e) in rw e (ground (arith, here))
    | inr e ↦
        let ih = length-filter-update_same p q f ys (λ x h. same x (rw e h)) in
        rw e (ground (arith, ih))
  ]

  pub find?-update_many :
      (p q : A → Bool) (f : A → A) (xs : List A) (x : A)
      → ((x : A) → p (f x) ≡ p x)
      → find? p xs ≡ some x
      → find? p (update_many q f xs) ≡ some (if q x then f x else x)
  find?-update_many p q f [] x keep h = cc
  find?-update_many p q f (y ∷ ys) x keep h =
      ground (arith, keep y, find?-update_many p q f ys x keep)

  -- An update that no row passes the test of.
  pub update_many-none :
      (q : A → Bool) (f : A → A) (xs : List A) → length (filter q xs) ≡ 0 → update_many q f xs ≡ xs
  update_many-none q f [] h = refl
  update_many-none q f (x ∷ xs) h = ground (arith, update_many-none q f xs)

  -- After the update none is left that passes, if a changed row does not.
  pub length-filter-update_many :
      (q : A → Bool) (f : A → A) (xs : List A)
      → ((x : A) → q (f x) ≡ false)
      → length (filter q (update_many q f xs)) ≡ 0
  length-filter-update_many q f [] gone = refl
  length-filter-update_many q f (x ∷ xs) gone =
      ground (arith, gone x, length-filter-update_many q f xs gone)

  -- What `g` sees of the rows that pass `q`, when the change of one row shows in neither.
  pub map-filter-update_first {κ} :
      {B : Type κ} (p q : A → Bool) (g : A → B) (f : A → A) (xs : List A)
      → ((x : A) → find? p xs ≡ some x → (q (f x) ≡ q x) × (q x ≡ true → g (f x) ≡ g x))
      → map g (filter q (update_first p f xs)) ≡ map g (filter q xs)
  map-filter-update_first p q g f [] same = refl
  map-filter-update_first p q g f (y ∷ ys) same = elim (Bool-cases (p y)) [
    | inl e ↦ let here = same y (rw e) in rw e (update_head q g y (f y) ys here.0 here.1)
    | inr e ↦ rw e (
        cons_head q g y (update_first p f ys) ys
          (map-filter-update_first p q g f ys (λ x h. same x (rw e h))))
  ]

module _ {ℓ} {A : Type ℓ} where
  pub members : (xs : List A) → All (λ a. Memᴰ a xs) xs
  members [] = tt
  members (x ∷ xs) = (Memᴰ.head refl, All-imp xs (λ a m. Memᴰ.tail m) (members xs))

  pub any-append : (p : A → Bool) (xs ys : List A) → any p (xs ++ ys) ≡ (any p xs || any p ys)
  any-append p [] ys = refl
  any-append p (x ∷ xs) ys = ground (arith, any-append p xs ys)

module _ {ℓ} {A : Type ℓ} where
  pub All-filter {κ} :
      (P : A → Type κ) (p : A → Bool) (xs : List A) → All P xs → All P (filter p xs)
  All-filter P p [] h = tt
  All-filter P p (x ∷ xs) (h, hs) = elim (Bool-cases (p x)) [
    | inl e ↦ rw e (h, All-filter P p xs hs)
    | inr e ↦ rw e (All-filter P p xs hs)
  ]

  pub All-update_first {κ} :
      {P : A → Type κ} (p : A → Bool) (f : A → A) (xs : List A)
      → ((x : A) → P x → P (f x))
      → All P xs
      → All P (update_first p f xs)
  All-update_first p f [] keep h = tt
  All-update_first p f (x ∷ xs) keep (h, hs) = elim (Bool-cases (p x)) [
    | inl e ↦ rw e (keep x h, hs)
    | inr e ↦ rw e (h, All-update_first p f xs keep hs)
  ]

  -- The change is made to the row that is found.
  pub All-update_found {κ} :
      {P : A → Type κ} (p : A → Bool) (f : A → A) (xs : List A)
      → ((x : A) → find? p xs ≡ some x → P x → P (f x))
      → All P xs
      → All P (update_first p f xs)
  All-update_found p f [] keep h = tt
  All-update_found p f (x ∷ xs) keep (h, hs) = elim (Bool-cases (p x)) [
    | inl e ↦ rw e (keep x (rw e) h, hs)
    | inr e ↦ rw e (h, All-update_found p f xs (λ y found. keep y (rw e found)) hs)
  ]

  pub any-update_many :
      (p q : A → Bool) (f : A → A) (xs : List A)
      → ((x : A) → q (f x) ≡ q x)
      → any q (update_many p f xs) ≡ any q xs
  any-update_many p q f [] same = refl
  any-update_many p q f (x ∷ xs) same = ground (arith, same x, any-update_many p q f xs same)

  -- A row that is found passes another test.
  pub any-find? :
      (p q : A → Bool) (xs : List A) (a : A) → find? p xs ≡ some a → q a ≡ true → any q xs ≡ true
  any-find? p q [] a h k = cc
  any-find? p q (x ∷ xs) a h k = ground (arith, any-find? p q xs a)

  pub any-filter :
      (p q : A → Bool) (xs : List A)
      → ((x : A) → q x ≡ true → p x ≡ true)
      → any q (filter p xs) ≡ any q xs
  any-filter p q [] pass = refl
  any-filter p q (x ∷ xs) pass = ground (arith, pass x, any-filter p q xs pass)

  pub any-update_first :
      (p q : A → Bool) (f : A → A) (xs : List A)
      → ((x : A) → q (f x) ≡ q x)
      → any q (update_first p f xs) ≡ any q xs
  any-update_first p q f [] same = refl
  any-update_first p q f (x ∷ xs) same = ground (arith, same x, any-update_first p q f xs same)

abbrev pub contains : List ℕ → ℕ → Bool
contains xs a = any (λ x. x == a) xs

-- `dto.field ?? row.field`: the new value where one is given.
abbrev pub or_old {ℓ} : {A : Type ℓ} → Option A → A → A
or_old none old = old
or_old (some new) old = new
