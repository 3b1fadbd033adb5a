-- ===== src/Channels/Sms.antt =====
-- services/api/src/notifications/sms.service.ts: its configuration, the numbers and texts it lets
-- through, and the pacing of its posts. Times are milliseconds; what is logged is left out.
pub mod Numbers
pub mod Pacing
use fleex.Common.{
  ℕ, ◌+◌, ◌-◌, Bool, true, false, not, ◌&&◌, ◌||◌, Option, none, some, List, [], ◌∷◌, ◌++◌, filter,
  any, drop, length, ltb, leb, ◌==◌, if◌then◌else◌,
}
use fleex.Common.Texts.{Text, codes, text_eq, starts_with, take, is_digit}

-- `raw.replace(/\D/g, '')`
abbrev pub digits_of : Text → Text
digits_of raw = filter is_digit raw

abbrev pub country_code : Text
country_code = codes "976"

abbrev pub local_number : Text → Text
local_number digits = if starts_with digits country_code then drop 3 digits else digits

unfoldable pub normalise_msisdn : Text → Option Text
normalise_msisdn raw =
    let number = local_number (digits_of raw) in if length number == 8 then some number else none

unfoldable pub strip_non_ascii : Text → Text
strip_non_ascii s = filter (λ c. leb 0x21 c && leb c 0x7E) s

abbrev pub is_cyrillic : ℕ → Bool
is_cyrillic c = leb 0x400 c && leb c 0x4FF

abbrev pub text_limit : Text → ℕ
text_limit text = if any is_cyrillic text then 210 else 480

unfoldable pub cap_for_segments : Text → Text
cap_for_segments text =
    let limit = text_limit text in
    if ltb limit (length text) then take (limit - 3) text ++ codes "..." else text

-- `capMessage` of channel-util.ts, for the other channels.
unfoldable pub cap_message : Text → ℕ → Text
cap_message text limit =
    if ltb limit (length text) then take (limit - 1) text ++ (0x2026 ∷ []) else text

-- What `reload` reads: the environment, and the key that the integration settings resolve.
pub record SmsConfig : Type 0 where
  pub provider : Text
  pub api_key : Text
  pub from : Text
  pub brand : Text

-- The fields of the service that `reload` sets.
pub record SmsSettings : Type 0 where
  pub api_key : Text
  pub from : Text
  pub brand : Text
  pub enabled : Bool

abbrev lower_case : ℕ → ℕ
lower_case c = if leb 65 c && leb c 90 then c + 32 else c

abbrev lower : Text → Text
lower [] = []
lower (c ∷ s) = lower_case c ∷ lower s

abbrev is_missing : Text → Bool
is_missing [] = true
is_missing (c ∷ s) = false

abbrev is_known_provider : Text → Bool
is_known_provider p = text_eq (lower p) (codes "callpro") || text_eq (lower p) (codes "messagepro")

-- A missing setting is an empty text, which the code treats alike.
unfoldable pub reload : SmsSettings → SmsConfig → SmsSettings
unfolding strip_non_ascii
reload old c =
    let off = record old { enabled = false; api_key = [] } in
    if not (is_known_provider c.provider)
    then off
    else if is_missing c.api_key || is_missing c.from
    then off
    else let key = strip_non_ascii c.api_key in
      let digits = digits_of c.from in
      if is_missing digits
      then record old { enabled = false; api_key = key }
      else record { api_key = key; from = digits; brand = strip_non_ascii c.brand; enabled = true }

abbrev pub min_gap_ms : ℕ
min_gap_ms = 250

-- A POST to the gateway: the time, the number and the text.
pub record Post : Type 0 where
  pub at_time : ℕ
  pub to : Text
  pub text : Text

-- What the gateway answers: nothing, or a status and what the body says if it is JSON.
pub data Answer : Type 0 where
  unreachable : Answer
  responded : ℕ → Option (Option ℕ) → Answer

pub data SmsError : Type 0 where
  not_configured invalid_number no_connection http_error not_json not_queued : SmsError

pub data SendResult : Type 0 where
  thrown : SmsError → SendResult
  queued : ℕ → SendResult

-- `result.status` is `queued`, with its message id, or something else.
abbrev pub read_envelope : Option (Option ℕ) → SendResult
read_envelope none = thrown not_json
read_envelope (some none) = thrown not_queued
read_envelope (some (some id)) = queued id

abbrev pub read_answer : Answer → SendResult
read_answer unreachable = thrown no_connection
read_answer (responded status envelope) =
    if leb 200 status && leb status 299 then read_envelope envelope else thrown http_error

-- The time after the wait of `sendOne`: the gap to the last post is at least the least one.
abbrev pub send_time : ℕ → ℕ → ℕ
send_time now last = if ltb now (last + min_gap_ms) then last + min_gap_ms else now

-- `if (!normalised) { …; continue; }`
abbrev pub if_number {ℓ} : {A : Type ℓ} → Option Text → A → (Text → A) → A
if_number none skip use_it = skip
if_number (some n) skip use_it = use_it n

-- `gateway` tells of each post how long it takes and what it is answered.
module _ (gateway : Post → ℕ × Answer) where
  abbrev pub post_at : ℕ → Text → Text → Post
  post_at at_time to text = record { at_time = at_time; to = to; text = text }

  -- The `for` of `send` with the chain that it extends: the posts made, one after the other.
  unfoldable pub send_chain : Text → ℕ → ℕ → List Text → List Post
  send_chain body now last [] = []
  send_chain body now last (raw ∷ to) =
      let at_time = send_time now last in
      if_number (normalise_msisdn raw) (send_chain body now last to) (λ n.
        let post = post_at at_time n body in
        post ∷ send_chain body (at_time + (gateway post).0) at_time to)

  unfoldable pub send : SmsSettings → ℕ → ℕ → List Text → Text → List Post
  unfolding send_chain
  send settings now last to text =
      if settings.enabled then send_chain (cap_for_segments text) now last to else []

  abbrev pub send_to : ℕ → ℕ → Text → Option Text → SendResult
  send_to now last text none = thrown invalid_number
  send_to now last text (some n) = read_answer (gateway (post_at (send_time now last) n text)).1

  -- The result of `sendDirect`, which is thrown where the batch would swallow it.
  unfoldable pub send_direct : SmsSettings → ℕ → ℕ → Text → Text → SendResult
  send_direct settings now last raw text =
      if settings.enabled
      then send_to now last (cap_for_segments text) (normalise_msisdn raw)
      else thrown not_configured
