-- ===== src/Channels/Secrets.antt =====
-- services/api/src/notifications/integration-settings.service.ts: the secrets of the vendors, from
-- the database or else from the environment. Texts are UTF-16 code units.
pub mod Resolution
use fleex.Common.{
  ℕ, zero, suc, ◌-◌, Bool, true, false, not, ◌&&◌, Option, none, some, List, [], ◌∷◌, ◌++◌, map,
  filter, find?, upsert, length, drop, leb, ◌==◌, if◌then◌else◌,
}
use fleex.Common.Texts.{Text}

pub data IntegrationKey : Type 0 where
  brevo_api_key sms_api_key telegram_bot_token fcm_server_key whatsapp_token whatsapp_phone_id
        viber_bot_token :
      IntegrationKey

-- `INTEGRATION_ENV` has one variable for each key, so that a variable goes by its key here; this
-- is the place of the key in the list.
unfoldable pub place : IntegrationKey → ℕ
place brevo_api_key = 0
place sms_api_key = 1
place telegram_bot_token = 2
place fcm_server_key = 3
place whatsapp_token = 4
place whatsapp_phone_id = 5
place viber_bot_token = 6

abbrev pub integration_env : List IntegrationKey
integration_env =
    brevo_api_key ∷ sms_api_key ∷ telegram_bot_token ∷ fcm_server_key ∷ whatsapp_token
    ∷ whatsapp_phone_id ∷ viber_bot_token ∷ []

pub record Row : Type 0 where
  pub key : IntegrationKey
  pub value : Text
  pub updated_by : Option ℕ

abbrev pub is_row : IntegrationKey → Row → Bool
is_row key r = place r.key == place key

abbrev pub find_row : IntegrationKey → List Row → Option Row
find_row key = find? (is_row key)

-- A text that is there and not empty.
abbrev pub non_empty : Option Text → Option Text
non_empty none = none
non_empty (some []) = none
non_empty (some (c ∷ text)) = some (c ∷ text)

abbrev pub row_value : Option Row → Option Text
row_value none = none
row_value (some r) = non_empty (some r.value)

abbrev pub or_else : Option Text → Option Text → Option Text
or_else none o = o
or_else (some text) o = some text

-- `env` is the environment. Where the table is not there yet, the rows are none.
module _ (env : IntegrationKey → Option Text) where
  unfoldable pub resolve : List Row → IntegrationKey → Option Text
  resolve rows key = or_else (row_value (find_row key rows)) (non_empty (env key))

abbrev pub is_printable : ℕ → Bool
is_printable c = leb 0x21 c && leb c 0x7e

abbrev pub clean : Text → Text
clean = filter is_printable

abbrev pub store : List Row → IntegrationKey → Text → Option ℕ → List Row
store rows key [] user = filter (λ r. not (is_row key r)) rows
store rows key (c ∷ text) user =
    upsert (is_row key) (λ r. record r { value = c ∷ text; updated_by = user })
      (record { key = key; value = c ∷ text; updated_by = user }) rows

unfoldable pub set : List Row → IntegrationKey → Text → Option ℕ → List Row
set rows key value user = store rows key (clean value) user

abbrev pub stars : ℕ → Text
stars zero = []
stars (suc n) = 0x2a ∷ stars n

unfoldable pub mask : Text → Text
mask value =
    if leb (length value) 8
    then stars (length value)
    else stars (length value - 4) ++ drop (length value - 4) value

pub data Source : Type 0 where
  from_db from_env nowhere : Source

pub record IntegrationStatus : Type 0 where
  pub key : IntegrationKey
  pub configured : Bool
  pub source : Source
  pub masked : Text

abbrev pub status : IntegrationKey → Option Text → Option Text → IntegrationStatus
status key (some value) variable = record {
  key = key;
  configured = true;
  source = from_db;
  masked = mask value;
}
status key none (some value) = record {
  key = key;
  configured = true;
  source = from_env;
  masked = mask value;
}
status key none none = record { key = key; configured = false; source = nowhere; masked = [] }

module _ (env : IntegrationKey → Option Text) where
  unfoldable pub list : List Row → List IntegrationStatus
  list rows =
      map (λ key. status key (row_value (find_row key rows)) (non_empty (env key))) integration_env
