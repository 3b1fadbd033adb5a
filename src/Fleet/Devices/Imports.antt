-- ===== src/Fleet/Devices/Imports.antt =====
-- What an import of a sheet adds.
use fleex.Common.{
  ℕ, ◌≡◌, refl, true, false, not, none, some, List, [], ◌∷◌, arith, Bool-cases, inl, inr,
}
use fleex.Common.Results.{err, forbidden}
use fleex.Access.Roles.{Actor}
use fleex.Fleet.Devices.{Device}
use fleex.Fleet.Devices.Sheet.{
  Import, ImportRow, import_row, import_rows, imported, is_imei, is_known,
}
use fleex.Common.{◌+◌, ◌||◌, length, ltb}
use fleex.Billing.Store.{Store as BillingStore}
use fleex.Billing.Plans.{assert_can_add_device, create_device, device_company}

-- No two devices have one IMEI.
abbrev pub IsUnique : List Device → Type 0
IsUnique [] = Unit
IsUnique (d ∷ ds) = (is_known d.imei ds ≡ false) × IsUnique ds

import_row_lem :
    (company id : ℕ) (row : ImportRow) (i : Import)
    → IsUnique i.store.devices
    → let j = import_row company id row i in
      (j.created + j.errors ≡ i.created + i.errors + 1)
      × ((length j.store.devices + i.created ≡ length i.store.devices + j.created)
          × IsUnique j.store.devices)
unfolding import_row
import_row_lem company id row i h =
    elim (Bool-cases
      (not (is_imei row.imei) || ltb (length row.name) 2 || is_known row.imei i.store.devices)) [
        | inl e ↦ rw e (omega arith, (refl, h))
        | inr e ↦ rw e (omega arith, (omega arith, (ground (arith, e), h)))
      ]

-- An import counts each row once, as created or as an error, adds as many devices as it counts as
-- created, and keeps the IMEIs of all devices apart.
import_rows_effect :
    (company id : ℕ) (rows : List ImportRow) (i : Import)
    → IsUnique i.store.devices
    → let j = import_rows company id rows i in
      (j.created + j.errors ≡ i.created + i.errors + length rows)
      × ((length j.store.devices + i.created ≡ length i.store.devices + j.created)
          × IsUnique j.store.devices)
unfolding import_rows
import_rows_effect company id [] i h = (omega arith, (refl, h))
import_rows_effect company id (r ∷ rs) i h =
    let (count, (size, unique)) = import_row_lem company id r i h in
    let (count', (size', unique')) =
      import_rows_effect company (id + 1) rs (import_row company id r i) unique in
    (omega (arith, count, count'), (omega (arith, size, size'), unique'))

-- A company that may add no device, at its cap or suspended, is refused the creation of one but
-- not the import: a row with an IMEI of its own and a name is added all the same.
import_passes_cap :
    (billing : BillingStore) (actor : Actor) (company id : ℕ) (row : ImportRow) (i : Import)
    → device_company actor none ≡ some company
    → assert_can_add_device billing company ≡ err forbidden
    → is_imei row.imei ≡ true
    → ltb (length row.name) 2 ≡ false
    → is_known row.imei i.store.devices ≡ false
    → (create_device billing actor none none none ≡ err forbidden)
      × ((import_rows company id (row ∷ []) i).store.devices
          ≡ imported i.store company id row ∷ i.store.devices)
unfolding import_rows import_row create_device
import_passes_cap billing actor company id row i own full imei name new =
    (rw own (rw full refl), rw imei (rw name (rw new refl)))
