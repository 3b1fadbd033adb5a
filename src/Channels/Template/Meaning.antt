-- ===== src/Channels/Template/Meaning.antt =====
-- What becomes of a template, by its parts.
use mathlib.Core.List.{append-nil, append_assoc}
use fleex.Common.{
  ℕ, ◌≡◌, refl, sym, ap, ◌∙◌, true, false, Option, none, some, List, [], ◌∷◌, ◌++◌, All, ◌==◌,
}
use fleex.Common.Texts.{Text}
use fleex.Channels.Template.{
  Values, value_of, open_brace, close_brace, is_name, filled, is_nonempty, more, match, ending,
  replace, render_template,
}

-- A template as its author means it: words, and names in braces.
pub data Part : Type 0 where
  words : Text → Part
  placeholder : Text → Part

abbrev pub print : List Part → Text
print [] = []
print (words text ∷ parts) = text ++ print parts
print (placeholder name ∷ parts) = open_brace ∷ (name ++ (close_brace ∷ print parts))

abbrev pub fill : (Text → Option Text) → List Part → Text
fill value [] = []
fill value (words text ∷ parts) = text ++ fill value parts
fill value (placeholder name ∷ parts) = filled (value name) name ++ fill value parts

-- Words have no open brace; a name has capital letters and underscores, one or more.
abbrev pub IsPart : Part → Type 0
IsPart (words text) = All (λ c. (c == open_brace) ≡ false) text
IsPart (placeholder name) = (is_nonempty name ≡ true) × All (λ c. is_name c ≡ true) name

module _ (value : Text → Option Text) where
  replace-words :
      (text rest : Text)
      → All {0, 0} (λ c. (c == open_brace) ≡ false) text
      → replace value none (text ++ rest) ≡ text ++ replace value none rest
  unfolding replace
  replace-words [] rest h = refl
  replace-words (c ∷ text) rest (h, hs) = rw (h, replace) (ap (◌∷◌ c) (replace-words text rest hs))

  ending_more : (name : Text) (c : ℕ) → is_name c ≡ true → ending name c ≡ more
  ending_more name c h = rw h refl

  ending_match : (name : Text) → is_nonempty name ≡ true → ending name close_brace ≡ match
  ending_match name h = rw h refl

  nonempty-append : (name n : Text) (c : ℕ) → is_nonempty ((name ++ (c ∷ [])) ++ n) ≡ true
  nonempty-append [] n c = refl
  nonempty-append (d ∷ name) n c = refl

  replace-name :
      (n name rest : Text)
      → is_nonempty (name ++ n) ≡ true
      → All {0, 0} (λ c. is_name c ≡ true) n
      → replace value (some name) (n ++ (close_brace ∷ rest))
        ≡ filled (value (name ++ n)) (name ++ n) ++ replace value none rest
  unfolding replace
  replace-name [] name rest some_name h =
      let end = ending_match name (ap is_nonempty (sym (append-nil name)) ∙ some_name) in
      rw (end, replace) (rw (append-nil name) refl)
  replace-name (c ∷ n) name rest some_name (h, hs) =
      rw (ending_more name c h, replace)
        (replace-name n (name ++ (c ∷ [])) rest (nonempty-append name n c) hs
          ∙ ap (λ t. filled (value t) t ++ replace value none rest) (append_assoc name (c ∷ []) n))

  replace-print :
      (parts : List Part) → All IsPart parts → replace value none (print parts) ≡ fill value parts
  unfolding replace
  replace-print [] h = refl
  replace-print (words text ∷ parts) (h, hs) =
      replace-words text (print parts) h ∙ ap (λ t. text ++ t) (replace-print parts hs)
  replace-print (placeholder name ∷ parts) ((some_name, h), hs) =
      replace-name name [] (print parts) some_name h
      ∙ ap (λ t. filled (value name) name ++ t) (replace-print parts hs)

-- A template of words and placeholders is rendered part by part: words stay, a known placeholder
-- is replaced by its value, and an unknown one stays in its braces; values are not read again.
pub render_template-print :
    (v : Values) (parts : List Part)
    → All IsPart parts
    → render_template v (print parts) ≡ fill (value_of v) parts
unfolding render_template
render_template-print v parts h = replace-print (value_of v) parts h
