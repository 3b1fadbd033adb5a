-- ===== src/Staff/History/Imports.antt =====
-- The rows of an Excel file.
use fleex.Access.Ownership.{company_of}
use mathlib.Core.Path.{subst}
use fleex.Common.{
  ℕ, ◌≡◌, refl, sym, ◌∙◌, Bool, true, false, ◌&&◌, Option, none, some, List, [], ◌∷◌, ◌==◌, arith,
  if◌then◌else◌,
}
use fleex.Common.Results.{Result, ok, err, >>=-eq-ok, ok-inj}
use fleex.Common.Texts.{Text, text_eq}
use fleex.Access.Roles.{Actor}
use fleex.Staff.Groups.{Group, Store}
use fleex.Staff.Drivers.{
  SheetRow, Import, later, group_by_name, row_group, store_row, import_rows, import_excel,
}
use fleex.Staff.History.{imported, IsGroupOf, IsGrouped, Keeps}

group_by_name-IsGroupOf :
    (company : ℕ) (name : Text) (groups : List Group)
    → IsGroupOf groups company (group_by_name company name groups)
unfolding group_by_name
group_by_name-IsGroupOf company name [] = tt
group_by_name-IsGroupOf company name (g ∷ groups) =
    later_one (group_by_name company name groups) (group_by_name-IsGroupOf company name groups)
  where
    first_one :
        (b : Bool)
        → (g.company_id == company && text_eq g.name name) ≡ b
        → IsGroupOf (g ∷ groups) company (if b then some g.id else none)
    first_one true e = ground (arith, e)
    first_one false e = tt

    later_one :
        (o : Option ℕ)
        → IsGroupOf groups company o
        → IsGroupOf
            (g ∷ groups)
            company
            (later o (if g.company_id == company && text_eq g.name name then some g.id else none))
    later_one none h = first_one (g.company_id == company && text_eq g.name name) refl
    later_one (some id) h = ground (arith, h)

row_group-IsGroupOf :
    (company : ℕ) (o : Option Text) (groups : List Group)
    → IsGroupOf groups company (row_group company o groups)
row_group-IsGroupOf company none groups = tt
row_group-IsGroupOf company (some name) groups = group_by_name-IsGroupOf company name groups

store_row-IsGrouped :
    (company : ℕ) (name : Text) (group stored : Option ℕ) (i : Import)
    → IsGroupOf i.store.groups company group
    → IsGrouped i.store
    → IsGrouped (store_row company name group stored i).store
      × ((store_row company name group stored i).store.groups ≡ i.store.groups)
store_row-IsGrouped company [] group stored i h s = (s, refl)
store_row-IsGrouped company (c ∷ name) group none i h s = (s, refl)
store_row-IsGrouped company (c ∷ name) group (some id) i h s = ((h, s), refl)

import_rows-IsGrouped :
    (company : ℕ) (groups : List Group) (rows : List SheetRow) (i : Import)
    → i.store.groups ≡ groups
    → IsGrouped i.store
    → IsGrouped (import_rows company groups rows i).store
unfolding import_rows
import_rows-IsGrouped company groups [] i e s = s
import_rows-IsGrouped company groups (r ∷ rows) i e s =
    let group = row_group company r.group_name groups in
    let owned =
      subst (λ gs. IsGroupOf gs company group) (sym e)
        (row_group-IsGroupOf company r.group_name groups) in
    let (s', same) = store_row-IsGrouped company r.full_name group r.stored_as i owned s in
    import_rows-IsGrouped company groups rows (store_row company r.full_name group r.stored_as i)
      (same ∙ e) s'

import_excel-IsGrouped :
    (db : Store) (actor : Actor) (rows : List SheetRow) (i : Import)
    → IsGrouped db
    → import_excel db actor rows ≡ ok i
    → IsGrouped i.store
unfolding import_excel
import_excel-IsGrouped db actor rows i s h =
    let (company, own, h1) = >>=-eq-ok (company_of actor) _ h in
    subst (λ i. IsGrouped i.store) (ok-inj h1)
      (import_rows-IsGrouped company db.groups rows _ refl s)

pub imports-Keeps :
    (db : Store) (actor : Actor) (rows : List SheetRow)
    → IsGrouped db
    → Keeps db (imported (import_excel db actor rows))
unfolding Keeps
imports-Keeps db actor rows s db' h = go (import_excel db actor rows) refl h
  where
    go : (r : Result Import) → import_excel db actor rows ≡ r → imported r ≡ ok db' → IsGrouped db'
    go (err e) k l = cc
    go (ok i) k l = subst IsGrouped (ok-inj l) (import_excel-IsGrouped db actor rows i s k)
