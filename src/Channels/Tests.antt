-- ===== src/Channels/Tests.antt =====
-- The theorems of Channels at small numbers, texts and addresses.
use fleex.Common.{
  ℕ, ◌+◌, ◌*◌, ◌<◌, ◌≤◌, ◌≡◌, refl, Option, none, some, List, [], ◌∷◌, ◌++◌, any, arith,
  if◌then◌else◌, length, ◌⊎◌,
}
use fleex.Common.Texts.{Text, codes, text_eq}
use fleex.Channels.Sms.{cap_for_segments}
use fleex.Channels.Sms.Numbers.{cap_for_segments_bounds}
use fleex.Channels.Webhook.{is_blocked_address, dot}
use fleex.Channels.Webhook.Ranges.{decimal, address_of, is_in, blocked_ranges, is_blocked_dotted}
use fleex.Channels.Secrets.{IntegrationKey, sms_api_key, brevo_api_key, place, resolve, set}
use fleex.Channels.Secrets.Resolution.{resolve-set}
use fleex.Channels.Template.{Values, value_of, render_template}
use fleex.Channels.Template.Meaning.{Part, words, placeholder, print, render_template-print}

abbrev cyrillic : Text
cyrillic = 0x41F ∷ codes "anic"

cap_for_segments_bounds_example :
    (length (cap_for_segments cyrillic) ≤ 210)
    × ((210 < length cyrillic) ⊎ (cap_for_segments cyrillic ≡ cyrillic))
cap_for_segments_bounds_example = cap_for_segments_bounds cyrillic

-- A stand-in for isIP that knows the addresses of these tests.
abbrev known_ip : Text → ℕ
known_ip ip =
    if text_eq ip (codes "10.1.2.3")
    then 4
    else if text_eq ip (codes "93.184.3.4")
    then 4
    else if text_eq ip (codes "::ffff:7f00:1")
    then 6
    else 0

is_blocked_dotted_example :
    is_blocked_address known_ip
      (decimal 10 ++ (dot ∷ (decimal 1 ++ (dot ∷ (decimal 2 ++ (dot ∷ decimal 3))))))
    ≡ any (is_in (address_of 10 1 (2 * 256 + 3))) blocked_ranges
is_blocked_dotted_example =
    is_blocked_dotted known_ip 10 1 2 3 (omega arith) (omega arith) (omega arith) (omega arith) refl

abbrev no_env : IntegrationKey → Option Text
no_env key = none

-- A key that was pasted with an arrow in front.
abbrev pasted : Text
pasted = 0x2190 ∷ codes "xkeysib-1"

resolve-set_example :
    (resolve no_env (set [] sms_api_key pasted none) sms_api_key ≡ some (codes "xkeysib-1"))
    × (resolve no_env (set [] sms_api_key pasted none) brevo_api_key
        ≡ resolve no_env [] brevo_api_key)
unfolding place
resolve-set_example = resolve-set no_env [] sms_api_key brevo_api_key pasted none (omega arith)

abbrev values : Values
values = record {
  device = codes "truck";
  type = codes "PANIC";
  severity = codes "CRITICAL";
  location = codes "-";
  lat = codes "-";
  lng = codes "-";
  speed = codes "80";
  time = codes "now";
  message = [];
}

abbrev a_template : List Part
a_template = placeholder (codes "DEVICE") ∷ words (codes ": ") ∷ placeholder (codes "NO_SUCH") ∷ []

render_template-print_example : render_template values (print a_template) ≡ codes "truck: {NO_SUCH}"
unfolding value_of
render_template-print_example = render_template-print values a_template (
  (refl, (refl, (refl, (refl, (refl, (refl, (refl, tt))))))),
  ((refl, (refl, tt)), ((refl, (refl, (refl, (refl, (refl, (refl, (refl, (refl, tt)))))))), tt)),
)
