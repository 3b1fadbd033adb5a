-- ===== src/Audit/Json/Order.antt =====
-- Values of Audit/Json that differ in the order of their keys.
use fleex.Common.{◌≡◌, ◌≢◌, refl, ap₂, ◌∙◌, true, false, List, [], ◌∷◌, arith}
use fleex.Audit.Json.{
  Text, Json, arr, obj, Items, nil, cons, Fields, end, field, text_le, insert_key, canonicalize,
  canonical_items, sorted_fields,
}

text_le_total : (s t : Text) → text_le s t ≡ false → text_le t s ≡ true
unfolding text_le
text_le_total [] t h = cc
text_le_total (a ∷ s) [] h = refl
text_le_total (a ∷ s) (b ∷ t) h = ground (arith, text_le_total s t)

text_le_antisym : (s t : Text) → text_le s t ≡ true → text_le t s ≡ true → s ≡ t
unfolding text_le
text_le_antisym [] [] h k = refl
text_le_antisym [] (b ∷ t) h k = cc
text_le_antisym (a ∷ s) [] h k = cc
text_le_antisym (a ∷ s) (b ∷ t) h k = ground (arith, text_le_antisym s t)

text_le_trans : (s t u : Text) → text_le s t ≡ true → text_le t u ≡ true → text_le s u ≡ true
unfolding text_le
text_le_trans [] t u h k = refl
text_le_trans (a ∷ s) [] u h k = cc
text_le_trans (a ∷ s) (b ∷ t) [] h k = cc
text_le_trans (a ∷ s) (b ∷ t) (c ∷ u) h k = ground (arith, text_le_trans s t u)

insert_key_comm :
    (k j : Text) (v w : Text) (kvs : List (Text × Text))
    → k ≢ j
    → insert_key k v (insert_key j w kvs) ≡ insert_key j w (insert_key k v kvs)
unfolding insert_key
insert_key_comm k j v w [] other =
    ground (arith, text_le_total k j, text_le_total j k, text_le_antisym k j)
insert_key_comm k j v w ((i, x) ∷ kvs) other = ground (
  arith,
  text_le_total k j,
  text_le_total j k,
  text_le_antisym k j,
  text_le_trans k j i,
  text_le_trans j k i,
  insert_key_comm k j v w kvs other,
)

-- The same value, up to the order of the keys of any object in it.
mutual
  pub data Same : Json → Json → Type 0 where
    same : {v : Json} → Same v v
    same_arr : {vs ws : Items} → SameItems vs ws → Same (arr vs) (arr ws)
    same_obj : {fs gs : Fields} → SameFields fs gs → Same (obj fs) (obj gs)

  pub data SameItems : Items → Items → Type 0 where
    same_nil : SameItems nil nil
    same_cons :
        {v w : Json} {vs ws : Items}
        → Same v w
        → SameItems vs ws
        → SameItems (cons v vs) (cons w ws)

  pub data SameFields : Fields → Fields → Type 0 where
    same_end : SameFields end end
    same_field :
        {k : Text} {v w : Json} {fs gs : Fields}
        → Same v w
        → SameFields fs gs
        → SameFields (field k v fs) (field k w gs)
    swap :
        {k j : Text} {v w : Json} {fs : Fields}
        → k ≢ j
        → SameFields (field k v (field j w fs)) (field j w (field k v fs))
    chain : {fs gs hs : Fields} → SameFields fs gs → SameFields gs hs → SameFields fs hs

mutual
  unfolding canonicalize canonical_items sorted_fields

  canonical : {v w : Json} → Same v w → canonicalize v ≡ canonicalize w
  canonical same = refl
  canonical (same_arr h) = rw (canonical_all h)
  canonical (same_obj h) = rw (sorted_same h)

  canonical_all : {vs ws : Items} → SameItems vs ws → canonical_items vs ≡ canonical_items ws
  canonical_all same_nil = refl
  canonical_all (same_cons h hs) = ap₂ ◌∷◌ (canonical h) (canonical_all hs)

  sorted_same : {fs gs : Fields} → SameFields fs gs → sorted_fields fs ≡ sorted_fields gs
  sorted_same same_end = refl
  sorted_same (same_field {k = k} h hs) = ap₂ (insert_key k) (canonical h) (sorted_same hs)
  sorted_same (swap {k = k} {j = j} {v = v} {w = w} {fs = fs} other) =
      insert_key_comm k j (canonicalize v) (canonicalize w) (sorted_fields fs) other
  sorted_same (chain h k) = sorted_same h ∙ sorted_same k

-- Two values that differ only in the order of the keys of their objects, at any depth, have the
-- same canonical text.
canonicalize-Same : {v w : Json} → Same v w → canonicalize v ≡ canonicalize w
canonicalize-Same h = canonical h
