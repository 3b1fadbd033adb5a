-- ===== src/Channels/Webhook/Ranges.antt =====
-- The addresses that the check blocks, against the ranges of IPv4 as numbers of 32 bits.
use fleex.Common.{
  ℕ, suc, ◌+◌, ◌*◌, ◌/◌, ◌%◌, ◌<◌, ◌≡◌, refl, ap, ap₂, ◌∙◌, Bool, true, false, ◌&&◌, ◌||◌, List, [],
  ◌∷◌, ◌++◌, any, drop, length, ltb, leb, ◌==◌, if◌then◌else◌, arith,
}
use fleex.Common.Texts.{Text, codes, starts_with}
use fleex.Channels.Webhook.{
  dot, has_dot, number_of, after_dot, is_blocked_pair, lower, mapped_prefix, is_blocked_in,
  is_blocked_address, is_blocked_v6,
}

-- A range of addresses: the first, and how many.
pub record Range : Type 0 where
  pub first : ℕ
  pub size : ℕ

abbrev pub is_in : ℕ → Range → Bool
is_in n r = leb r.first n && ltb n (r.first + r.size)

-- 0/8, 10/8, 127/8, 169.254/16, 172.16/12, 192.168/16, 100.64/10 and 224/3.
abbrev pub blocked_ranges : List Range
blocked_ranges =
    record { first = 0; size = 16_777_216 }
    ∷ record { first = 167_772_160; size = 16_777_216 }
    ∷ record { first = 2_130_706_432; size = 16_777_216 }
    ∷ record { first = 2_851_995_648; size = 65_536 }
    ∷ record { first = 2_886_729_728; size = 1_048_576 }
    ∷ record { first = 3_232_235_520; size = 65_536 }
    ∷ record { first = 1_681_915_904; size = 4_194_304 }
    ∷ record { first = 3_758_096_384; size = 536_870_912 }
    ∷ []

abbrev pub decimal : ℕ → Text
decimal n =
    if ltb n 10
    then (48 + n) ∷ []
    else if ltb n 100
    then (48 + n / 10) ∷ (48 + n % 10) ∷ []
    else (48 + n / 100) ∷ (48 + n / 10 % 10) ∷ (48 + n % 10) ∷ []

number_of-decimal : (n : ℕ) (s : Text) → n < 256 → number_of 0 (decimal n ++ (dot ∷ s)) ≡ n
unfolding number_of
number_of-decimal n s h = ground arith

after_dot-decimal : (n : ℕ) (s : Text) → n < 256 → after_dot (decimal n ++ (dot ∷ s)) ≡ s
unfolding after_dot
after_dot-decimal n s h = ground arith

has_dot-decimal : (n : ℕ) (s : Text) → n < 256 → has_dot (decimal n ++ (dot ∷ s)) ≡ true
has_dot-decimal n s h = ground arith

-- The address a.b.c.d as a number, with c and d as one number.
abbrev pub address_of : ℕ → ℕ → ℕ → ℕ
address_of a b rest = a * 16_777_216 + b * 65_536 + rest

or-false : (b : Bool) → (b || false) ≡ b
or-false true = refl
or-false false = refl

module _ (a b rest : ℕ) (a_fits : a < 256) (b_fits : b < 256) (rest_fits : rest < 65_536) where
  in_block_8 :
      (k : ℕ)
      → is_in (address_of a b rest) (record { first = k * 16_777_216; size = 16_777_216 })
        ≡ (a == k)
  in_block_8 k = ground arith

  in_block_16 :
      (k j : ℕ)
      → j < 256
      → is_in (address_of a b rest) (record { first = k * 16_777_216 + j * 65_536; size = 65_536 })
        ≡ ((a == k) && (b == j))
  in_block_16 k j h = ground arith

  in_block_12 :
      is_in (address_of a b rest) (record { first = 2_886_729_728; size = 1_048_576 })
      ≡ ((a == 172) && (leb 16 b && leb b 31))
  in_block_12 = ground arith

  in_block_10 :
      is_in (address_of a b rest) (record { first = 1_681_915_904; size = 4_194_304 })
      ≡ ((a == 100) && (leb 64 b && leb b 127))
  in_block_10 = ground arith

  in_block_3 :
      is_in (address_of a b rest) (record { first = 3_758_096_384; size = 536_870_912 }) ≡ leb 224 a
  in_block_3 = ground arith

  is_blocked_pair-any : is_blocked_pair a b ≡ any (is_in (address_of a b rest)) blocked_ranges
  is_blocked_pair-any =
      rw
        (
          in_block_8 0,
          in_block_8 10,
          in_block_8 127,
          in_block_16 169 254 (omega arith),
          in_block_12,
          in_block_16 192 168 (omega arith),
          in_block_10,
          in_block_3,
          or-false (leb 224 a),
        )
        refl

module _ (is_ip : Text → ℕ) where
  -- The check at a dotted address, and at another one.
  is_blocked_in-dotted :
      (fuel : ℕ) (ip : Text)
      → has_dot ip ≡ true
      → is_ip ip ≡ 4
      → is_blocked_in is_ip (suc fuel) ip
        ≡ is_blocked_pair (number_of 0 ip) (number_of 0 (after_dot ip))
  unfolding is_blocked_in
  is_blocked_in-dotted fuel ip h v4 = rw h (rw v4 refl)

  is_blocked_in-v6 :
      (fuel : ℕ) (ip : Text)
      → has_dot ip ≡ false
      → is_blocked_in is_ip (suc fuel) ip ≡ (
          if starts_with (lower ip) mapped_prefix
          then is_blocked_in is_ip fuel (drop 7 (lower ip))
          else is_blocked_v6 (lower ip))
  unfolding is_blocked_in
  is_blocked_in-v6 fuel ip h = rw h refl

-- An IPv4 address in its dotted form is blocked exactly when its number is in one of the ranges.
pub is_blocked_dotted :
    (is_ip : Text → ℕ) (a b c d : ℕ)
    → let ip = decimal a ++ (dot ∷ (decimal b ++ (dot ∷ (decimal c ++ (dot ∷ decimal d))))) in
      a < 256
      → b < 256
      → c < 256
      → d < 256
      → is_ip ip ≡ 4
      → is_blocked_address is_ip ip ≡ any (is_in (address_of a b (c * 256 + d))) blocked_ranges
unfolding is_blocked_address
is_blocked_dotted is_ip a b c d ha hb hc hd v4 =
    let tail = decimal b ++ (dot ∷ (decimal c ++ (dot ∷ decimal d))) in
    let ip = decimal a ++ (dot ∷ tail) in
    is_blocked_in-dotted is_ip (length ip) ip (has_dot-decimal a tail ha) v4
    ∙ ap₂ is_blocked_pair (number_of-decimal a tail ha) (
        ap (number_of 0) (after_dot-decimal a tail ha)
        ∙ number_of-decimal b (decimal c ++ (dot ∷ decimal d)) hb)
    ∙ is_blocked_pair-any a b (c * 256 + d) ha hb (omega arith)

has_dot-lower : (s : Text) → has_dot (lower s) ≡ has_dot s
has_dot-lower [] = refl
has_dot-lower (c ∷ s) = ground (arith, has_dot-lower s)

-- A loopback address in the form in which a URL holds it, ::ffff: and then 7f, two more digits, a
-- colon and the last group, is not blocked: what follows ::ffff: has no dot.
mapped_loopback_passes :
    (is_ip : Text → ℕ) (rest : Text)
    → has_dot rest ≡ false
    → is_blocked_address is_ip (codes "::ffff:7f" ++ rest) ≡ false
unfolding is_blocked_address
mapped_loopback_passes is_ip rest h =
    let plain : has_dot (lower rest) ≡ false = has_dot-lower rest ∙ h in
    is_blocked_in-v6 is_ip (length (codes "::ffff:7f" ++ rest)) (codes "::ffff:7f" ++ rest) h
    ∙ is_blocked_in-v6 is_ip (length (codes ":ffff:7f" ++ rest)) (codes "7f" ++ lower rest) plain
