-- ===== src/Identity/Registration/Slugs.antt =====
-- That a slug is free.
use fleex.Common.{◌≡◌, true, false, List, [], ◌∷◌, All, Bool-cases, inl, inr, ◌⊎◌}
use fleex.Common.Texts.{Text}
use fleex.Identity.Registration.{Company, is_taken, with_suffix, slug_base, try_slugs, unique_slug}

try_slugs_free :
    (companies : List Company) (base : Text) (suffixes : List Text) (last : Text)
    → (is_taken companies (try_slugs companies base suffixes last) ≡ false)
      ⊎ All {0, 0} (λ s. is_taken companies (with_suffix base s) ≡ true) suffixes
unfolding try_slugs
try_slugs_free companies base [] last = inr tt
try_slugs_free companies base (s ∷ suffixes) last =
    elim (Bool-cases (is_taken companies (with_suffix base s))) [
      | inl e ↦ elim (try_slugs_free companies base suffixes last) [
        | inl free ↦ inl (rw e free)
        | inr all ↦ inr (e, all)
      ]
      | inr e ↦ inl (rw e e)
    ]

-- The slug of a new company is free, unless the slug of the name and all of those with a drawn
-- suffix that were looked up are taken.
unique_slug_free :
    (companies : List Company) (name : Text) (suffixes : List Text) (last : Text)
    → (is_taken companies (unique_slug companies name suffixes last) ≡ false)
      ⊎ ((is_taken companies (slug_base name) ≡ true)
          × All {0, 0} (λ s. is_taken companies (with_suffix (slug_base name) s) ≡ true) suffixes)
unfolding unique_slug
unique_slug_free companies name suffixes last =
    elim (Bool-cases (is_taken companies (slug_base name))) [
      | inl e ↦ elim (try_slugs_free companies (slug_base name) suffixes last) [
        | inl free ↦ inl (rw e free)
        | inr all ↦ inr (e, all)
      ]
      | inr e ↦ inl (rw e e)
    ]
