-- ===== src/Channels/Webhook/Pinned.antt =====
-- To what address a webhook call connects.
use fleex.Common.{
  ℕ, ◌≡◌, refl, Bool, true, false, ◌||◌, Option, none, some, List, [], ◌∷◌, any, arith, All,
  Bool-cases, Option-cases, inl, inr, sym, ap, ◌∙◌,
}
use fleex.Common.Texts.{Text}
use fleex.Channels.Webhook.{
  is_blocked_address, Target, Connection, resolve, connect, pin, open_target, send,
}

any-false :
    (p : Text → Bool) (ips : List Text) → any p ips ≡ false → All {0, 0} (λ ip. p ip ≡ false) ips
any-false p [] h = tt
any-false p (ip ∷ ips) h = (ground arith, any-false p ips (ground arith))

module _ (is_ip : Text → ℕ) (lookup : Text → Option (List Text)) where
  -- The connection is one that the guards let through: to the first address that the host has,
  -- with none of its addresses blocked, by HTTP or HTTPS.
  abbrev pub IsPinned : Target → Connection → Type 0
  IsPinned target c =
      (target.is_http || target.is_https ≡ true)
      × ((ip : Text) × (ips : List Text) × (resolve is_ip lookup target.host ≡ some (ip ∷ ips))
          × (c ≡ connect is_ip lookup target ip)
          × All {0, 0} (λ a. is_blocked_address is_ip a ≡ false) (ip ∷ ips))

  pin-some :
      (target : Target) (found : Option (List Text)) (c : Connection)
      → pin is_ip lookup target found ≡ some c
      → (ip : Text) × (ips : List Text) × (found ≡ some (ip ∷ ips))
        × (c ≡ connect is_ip lookup target ip)
        × All {0, 0} (λ a. is_blocked_address is_ip a ≡ false) (ip ∷ ips)
  pin-some target none c h = cc
  pin-some target (some []) c h = cc
  pin-some target (some (ip ∷ ips)) c h =
      elim (Bool-cases (any (is_blocked_address is_ip) (ip ∷ ips))) [
        | inl e ↦ ground (arith, h, e)
        | inr e ↦
            let same : some (connect is_ip lookup target ip) ≡ some c = ground (arith, h, e) in
            (ip, ips, refl, ground (arith, same), any-false (is_blocked_address is_ip) (ip ∷ ips) e)
      ]

  -- A call that connects does so with a text that is a URL of the scheme http or https, to the
  -- first of the addresses that the host was found to have, and none of these addresses is
  -- blocked.
  send_pins :
      (parse_url : Text → Option Target) (url : Text) (c : Connection)
      → send is_ip lookup parse_url url ≡ some c
      → (target : Target) × ((parse_url url ≡ some target) × IsPinned target c)
  unfolding send
  send_pins parse_url url c h = elim (Option-cases (parse_url url)) [
    | inl e ↦ ground (arith, h, e)
    | inr (target, e) ↦
        let opened : open_target is_ip lookup (some target) ≡ some c =
          sym (ap (open_target is_ip lookup) e) ∙ h in
        elim (Bool-cases (target.is_http || target.is_https)) [
          | inl web ↦ (
            target,
            (
              e,
              (
                web,
                pin-some target (resolve is_ip lookup target.host) c (ground (arith, opened, web)),
              ),
            ),
          )
          | inr other ↦ ground (arith, opened, other)
        ]
  ]
