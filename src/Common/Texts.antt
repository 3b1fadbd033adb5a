-- ===== src/Common/Texts.antt =====
-- Texts as the lists of their UTF-16 code units, and the methods of JavaScript's strings that the
-- sources use of them.
use Prim.Native.Char.{code}
use Prim.Native.String.{String}
use Prim.Native.Nat.{ℕ, zero, suc, ◌≤◌}
use mathlib.Core.Path.{◌≡◌, refl}
use mathlib.Core.Bool.{Bool, true, false, ◌&&◌}
use mathlib.Core.List.{List, [], ◌∷◌, ◌++◌}
use native.Mathlib.Omega.{arith}
use fleex.Common.Tests.{◌==◌, leb}
use fleex.Common.Lists.{length, drop}

abbrev pub Text : Type 0
Text = List ℕ

-- The code units of a text that stands in the source; it is ASCII.
abbrev pub codes : String → Text
codes String.[] = []
codes (String.◌∷◌ c s) = code c ∷ codes s

abbrev pub text_eq : Text → Text → Bool
text_eq [] [] = true
text_eq [] (b ∷ t) = false
text_eq (a ∷ s) [] = false
text_eq (a ∷ s) (b ∷ t) = (a == b) && text_eq s t

-- `text.startsWith(prefix)`
abbrev pub starts_with : Text → Text → Bool
starts_with text [] = true
starts_with [] (p ∷ prefix) = false
starts_with (c ∷ text) (p ∷ prefix) = (c == p) && starts_with text prefix

-- `text.slice(0, n)`
abbrev pub take : ℕ → Text → Text
take zero text = []
take (suc n) [] = []
take (suc n) (c ∷ text) = c ∷ take n text

abbrev pub is_digit : ℕ → Bool
is_digit c = leb 48 c && leb c 57

pub text_eq→eq : (s t : Text) → text_eq s t ≡ true → s ≡ t
text_eq→eq [] [] h = refl
text_eq→eq [] (b ∷ t) h = cc
text_eq→eq (a ∷ s) [] h = cc
text_eq→eq (a ∷ s) (b ∷ t) h = ground (arith, text_eq→eq s t)

pub starts_with-append :
    (prefix text : Text)
    → starts_with text prefix ≡ true
    → prefix ++ drop (length prefix) text ≡ text
starts_with-append [] text h = refl
starts_with-append (p ∷ prefix) [] h = cc
starts_with-append (p ∷ prefix) (c ∷ text) h = ground (arith, starts_with-append prefix text)

pub length-take_le : (n : ℕ) (text : Text) → length (take n text) ≤ n
length-take_le zero text = omega arith
length-take_le (suc n) [] = omega arith
length-take_le (suc n) (c ∷ text) = omega (arith, length-take_le n text)
