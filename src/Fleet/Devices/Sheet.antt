-- ===== src/Fleet/Devices/Sheet.antt =====
-- `importExcel` of services/api/src/devices/devices.service.ts, once the cells of the rows are
-- read; the other columns of a row are left out.
use fleex.Common.{
  ℕ, ◌+◌, Bool, not, ◌&&◌, ◌||◌, Option, none, some, List, [], ◌∷◌, any, length, ltb, leb, ◌==◌,
  if◌then◌else◌,
}
use fleex.Common.Texts.{Text, text_eq, is_digit}
use fleex.Common.Results.{Result, ok, bad_request, ◌>>=◌, ◌>>◌, throw_if, or_throw}
use fleex.Access.Roles.{Actor}
use fleex.Access.Ownership.{company_of}
use fleex.Fleet.Devices.{Device, Store, Unit_}

-- A row of the sheet, with the IMEI and the name trimmed and the names of units in lower case.
pub record ImportRow : Type 0 where
  pub imei : Text
  pub name : Text
  pub group_name : Option Text
  pub garage_name : Option Text

abbrev pub is_imei : Text → Bool
is_imei t = not (any (λ c. not (is_digit c)) t) && (leb 14 (length t) && leb (length t) 16)

-- The map from names to ids of a company, in which the last of two rows with one name counts.
abbrev pub unit_named : ℕ → Text → List Unit_ → Option ℕ
unit_named company name [] = none
unit_named company name (u ∷ us) =
    let later = unit_named company name us in
    let here = u.company_id == company && text_eq u.name name in
    elim later [ some id ↦ some id | none ↦ if here then some u.id else none ]

abbrev pub unit_of : ℕ → Option Text → List Unit_ → Option ℕ
unit_of company none us = none
unit_of company (some name) us = unit_named company name us

pub record Import : Type 0 where
  pub store : Store
  pub created : ℕ
  pub errors : ℕ

abbrev pub imported : Store → ℕ → ℕ → ImportRow → Device
imported db company id row = record {
  id = id;
  imei = row.imei;
  name = row.name;
  company_id = company;
  group_id = unit_of company row.group_name db.groups;
  garage_id = unit_of company row.garage_name db.garages;
  driver_id = none;
}

abbrev pub is_known : Text → List Device → Bool
is_known imei devices = any (λ d. text_eq d.imei imei) devices

-- One row: the two checks, and an insertion that throws where the IMEI is known.
unfoldable pub import_row : ℕ → ℕ → ImportRow → Import → Import
import_row company id row i =
    if not (is_imei row.imei) || ltb (length row.name) 2 || is_known row.imei i.store.devices
    then record i { errors = i.errors + 1 }
    else record i {
      store = record i.store { devices = imported i.store company id row ∷ i.store.devices };
      created = i.created + 1;
    }

-- The `for` of `importExcel` for an actor of a company; a new row takes the next id.
unfoldable pub import_rows : ℕ → ℕ → List ImportRow → Import → Import
unfolding import_row
import_rows company id [] i = i
import_rows company id (r ∷ rs) i = import_rows company (id + 1) rs (import_row company id r i)

abbrev pub max_import_rows : ℕ
max_import_rows = 5000

-- The first sheet of a workbook: the number of its last row, and the rows that have values.
pub record Sheet : Type 0 where
  pub row_count : ℕ
  pub rows : List ImportRow

unfoldable pub import_excel : Store → Actor → ℕ → Option Sheet → Result Import
unfolding import_rows
import_excel db actor id sheet = company_of actor >>= λ company.
    or_throw sheet bad_request >>= λ ws.
    throw_if (ltb max_import_rows ws.row_count) bad_request
    >> ok (import_rows company id ws.rows (record { store = db; created = 0; errors = 0 }))
