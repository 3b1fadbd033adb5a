-- ===== src/Channels/Sms/Numbers.antt =====
-- Which numbers and texts the SMS service lets through.
use fleex.Common.{
  ℕ, ◌-◌, ◌≤◌, ◌≡◌, refl, sym, ap, ◌∙◌, inl, inr, ◌⊎◌, true, false, Option, none, some, [], ◌∷◌,
  ◌++◌, All, length, length-append, ltb, ◌==◌, if◌then◌else◌, arith, Bool-cases, ◌↔◌, ◌<◌,
}
use fleex.Common.Texts.{
  Text, codes, starts_with, starts_with-append, take, length-take_le, is_digit,
}
use fleex.Channels.Sms.{
  digits_of, country_code, local_number, normalise_msisdn, text_limit, cap_for_segments,
}

abbrev pub IsDigits : Text → Type 0
IsDigits = All {0, 0} (λ c. is_digit c ≡ true)

-- A number in the country, said by its digits: they are the eight of the number, not with the
-- country code in front, or the country code and then the number.
abbrev pub IsLocalNumber : Text → Text → Type 0
IsLocalNumber digits n =
    (length n ≡ 8)
    × (((digits ≡ n) × (starts_with n country_code ≡ false)) ⊎ (digits ≡ country_code ++ n))

IsDigits-filter : (raw : Text) → IsDigits (digits_of raw)
IsDigits-filter [] = tt
IsDigits-filter (c ∷ raw) = elim (Bool-cases (is_digit c)) [
  | inl e ↦ rw e (e, IsDigits-filter raw)
  | inr e ↦ rw e (IsDigits-filter raw)
]

abbrev number_if : Text → Option Text
number_if number = if length number == 8 then some number else none

number_if-some : (number n : Text) → number_if number ≡ some n → (number ≡ n) × (length n ≡ 8)
number_if-some number n h = ground arith

number_if_is : (n : Text) → length n ≡ 8 → number_if n ≡ some n
number_if_is n h = ground (arith, h)

local_number_after : (n : Text) → local_number (country_code ++ n) ≡ n
local_number_after n = refl

local_number_cases :
    (digits : Text)
    → ((starts_with digits country_code ≡ false) × (local_number digits ≡ digits))
      ⊎ (digits ≡ country_code ++ local_number digits)
local_number_cases digits = elim (Bool-cases (starts_with digits country_code)) [
  | inl e ↦ inr (rw e (sym (starts_with-append country_code digits e)))
  | inr e ↦ inl (e, rw e refl)
]

-- What is left of a number after `normaliseMsisdn` is exactly its local number: an input with that
-- local number gives it, and no other input does.
normalise_msisdn_iff :
    (raw n : Text) → (normalise_msisdn raw ≡ some n) ↔ IsLocalNumber (digits_of raw) n
unfolding normalise_msisdn
normalise_msisdn_iff raw n = (
  λ h.
      let (same, eight) = number_if-some (local_number (digits_of raw)) n h in
      elim (local_number_cases (digits_of raw)) [
        | inl (out, e) ↦
            (eight, inl (sym e ∙ same, ap (λ d. starts_with d country_code) (sym same ∙ e) ∙ out))
        | inr e ↦ (eight, inr (e ∙ ap (λ d. country_code ++ d) same))
      ],
  λ k. elim k.1 [
    | inl (e, out) ↦ rw e (rw out (number_if_is n k.0))
    | inr e ↦ rw e (number_if_is n k.0)
  ],
)

-- Of a number of eight digits that begins with 976 the service makes no number at all.
normalise_msisdn_refuses :
    (raw rest : Text)
    → digits_of raw ≡ country_code ++ rest
    → length rest ≡ 5
    → normalise_msisdn raw ≡ none
unfolding normalise_msisdn
normalise_msisdn_refuses raw rest h l = rw h (ground (arith, l))

abbrev shortened : ℕ → Text → Text
shortened limit text =
    if ltb limit (length text) then take (limit - 3) text ++ codes "..." else text

shortened_bounds :
    (limit : ℕ) (text : Text)
    → 3 ≤ limit
    → (length (shortened limit text) ≤ limit)
      × ((limit < length text) ⊎ (shortened limit text ≡ text))
shortened_bounds limit text h =
    let sum = length-append (take (limit - 3) text) (codes "...") in
    let part = length-take_le (limit - 3) text in ground (arith, sum, part)

text_limit_room : (text : Text) → 3 ≤ text_limit text
text_limit_room text = ground arith

-- A text that leaves is at most three segments long, 480 code units, or 210 with a Cyrillic one in
-- it, and it is the text itself when that is not longer.
pub cap_for_segments_bounds :
    (text : Text)
    → (length (cap_for_segments text) ≤ text_limit text)
      × ((text_limit text < length text) ⊎ (cap_for_segments text ≡ text))
unfolding cap_for_segments
cap_for_segments_bounds text = shortened_bounds (text_limit text) text (text_limit_room text)
