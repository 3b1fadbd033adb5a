-- ===== src/Channels/Webhook.antt =====
-- services/api/src/notifications/webhook.service.ts: the addresses that a webhook must not reach,
-- and the guards of a call. An address is a text; `is_ip` is isIP of node:net, 4, 6 or 0.
pub mod Ranges
pub mod Pinned
use fleex.Common.{
  ℕ, zero, suc, ◌+◌, ◌-◌, ◌*◌, Bool, true, false, not, ◌&&◌, ◌||◌, Option, none, some, List, [],
  ◌∷◌, any, drop, length, ltb, leb, ◌==◌, if◌then◌else◌,
}
use fleex.Common.Texts.{Text, codes, text_eq, starts_with}

abbrev pub dot : ℕ
dot = 46

abbrev pub has_dot : Text → Bool
has_dot ip = any (λ c. c == dot) ip

-- `Number` of what stands before the first dot, and what stands after it; both are digits where
-- `is_ip` finds an IPv4 address.
unfoldable pub number_of : ℕ → Text → ℕ
number_of n [] = n
number_of n (c ∷ s) = if c == dot then n else number_of (n * 10 + (c - 48)) s

unfoldable pub after_dot : Text → Text
after_dot [] = []
after_dot (c ∷ s) = if c == dot then s else after_dot s

abbrev pub is_blocked_pair : ℕ → ℕ → Bool
is_blocked_pair a b =
    (a == 0)
    || ((a == 10)
        || ((a == 127)
            || (((a == 169) && (b == 254))
                || (((a == 172) && (leb 16 b && leb b 31))
                    || (((a == 192) && (b == 168))
                        || (((a == 100) && (leb 64 b && leb b 127)) || leb 224 a))))))

abbrev lower_case : ℕ → ℕ
lower_case c = if leb 65 c && leb c 90 then c + 32 else c

abbrev pub lower : Text → Text
lower [] = []
lower (c ∷ s) = lower_case c ∷ lower s

abbrev pub mapped_prefix : Text
mapped_prefix = codes "::ffff:"

abbrev pub is_blocked_v6 : Text → Bool
is_blocked_v6 v6 =
    text_eq v6 (codes "::1")
    || (text_eq v6 (codes "::")
        || (starts_with v6 (codes "fe80")
            || (starts_with v6 (codes "fc")
                || (starts_with v6 (codes "fd") || starts_with v6 (codes "ff")))))

module _ (is_ip : Text → ℕ) where
  abbrev pub is_dotted : Text → Bool
  is_dotted ip = has_dot ip && (is_ip ip == 4)

  -- Each round of the recursion drops the seven letters of `::ffff:`, so the length is enough
  -- fuel.
  unfoldable pub is_blocked_in : ℕ → Text → Bool
  unfolding number_of after_dot
  is_blocked_in zero ip = false
  is_blocked_in (suc fuel) ip =
      let mapped = is_blocked_in fuel (drop 7 (lower ip)) in
      if is_dotted ip
      then is_blocked_pair (number_of 0 ip) (number_of 0 (after_dot ip))
      else if starts_with (lower ip) mapped_prefix
      then mapped
      else is_blocked_v6 (lower ip)

  unfoldable pub is_blocked_address : Text → Bool
  unfolding is_blocked_in
  is_blocked_address ip = is_blocked_in (suc (length ip)) ip

-- What `new URL` reads of a webhook's address: the scheme, the port if it is given, and the host
-- without brackets.
pub record Target : Type 0 where
  pub is_http : Bool
  pub is_https : Bool
  pub port : Option ℕ
  pub host : Text

-- The connection that a call opens.
pub record Connection : Type 0 where
  pub address : Text
  pub family : ℕ
  pub port : ℕ
  pub host : Text
  pub tls : Bool

-- `lookup` is that of node:dns/promises: the addresses of a host, or none if it throws.
module _ (is_ip : Text → ℕ) (lookup : Text → Option (List Text)) where
  abbrev pub resolve : Text → Option (List Text)
  resolve host = if is_ip host == 0 then lookup host else some (host ∷ [])

  abbrev pub port_of : Target → Option ℕ → ℕ
  port_of target (some p) = p
  port_of target none = if target.is_https then 443 else 80

  abbrev pub family_of : Text → ℕ
  family_of ip = if is_ip ip == 6 then 6 else 4

  abbrev pub connect : Target → Text → Connection
  connect target ip = record {
    address = ip;
    family = family_of ip;
    port = port_of target target.port;
    host = target.host;
    tls = target.is_https;
  }

  abbrev pub pin : Target → Option (List Text) → Option Connection
  pin target none = none
  pin target (some []) = none
  pin target (some (ip ∷ ips)) =
      if any (is_blocked_address is_ip) (ip ∷ ips) then none else some (connect target ip)

  abbrev pub open_target : Option Target → Option Connection
  open_target none = none
  open_target (some target) =
      if target.is_http || target.is_https then pin target (resolve target.host) else none

  -- `send` up to its POST: none where it returns without one. `parse_url` is `new URL`.
  unfoldable pub send : (Text → Option Target) → Text → Option Connection
  unfolding is_blocked_address
  send parse_url url = open_target (parse_url url)
