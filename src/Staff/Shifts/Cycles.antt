-- ===== src/Staff/Shifts/Cycles.antt =====
-- What the guard on the parent of a shift lets through.
use fleex.Access.Ownership.{is_foreign}
use fleex.Common.{
  ℕ, ◌≡◌, refl, ◌≢◌, false, none, some, List, [], ◌∷◌, find?-update_first, update_first, ◌==◌,
  arith, sym, ◌∙◌,
}
use fleex.Common.Results.{ok}
use fleex.Access.Roles.{Actor}
use fleex.Fleet.Devices.{set}
use fleex.Staff.Groups.{Shift, Store}
use fleex.Staff.Shifts.{ShiftPatch, find_shift, patched, update}

-- The update that only sets the parent.
abbrev pub under : ℕ → ShiftPatch
under parent = record {
  start_time = none;
  end_time = none;
  parent_id = set (some parent);
  active = none;
}

abbrev pub set_parent : ℕ → ℕ → Store → Store
set_parent id parent db = record db {
  shifts = update_first (λ t. t.id == id) (patched (under parent)) db.shifts;
}

update_goes_through :
    (db : Store) (actor : Actor) (id parent : ℕ) (s : Shift)
    → find_shift id db.shifts ≡ some s
    → is_foreign actor s.company_id ≡ false
    → parent ≢ id
    → update db actor id (under parent) ≡ ok (set_parent id parent db)
unfolding update
update_goes_through db actor id parent s found mine other =
    let differ : (parent == id) ≡ false = ground (arith, other) in
    rw found (rw mine (rw differ refl))

find_other :
    (a b : ℕ) (f : Shift → Shift) (shifts : List Shift)
    → ((s : Shift) → (f s).id ≡ s.id)
    → a ≢ b
    → find_shift b (update_first (λ t. t.id == a) f shifts) ≡ find_shift b shifts
find_other a b f [] same ne = refl
find_other a b f (s ∷ shifts) same ne = ground (arith, same s, ne, find_other a b f shifts same ne)

-- A user may put two shifts of his company each under the other: the update refuses only a shift
-- that is its own parent.
shift_cycle :
    (db : Store) (actor : Actor) (a b : ℕ) (s t : Shift)
    → find_shift a db.shifts ≡ some s
    → find_shift b db.shifts ≡ some t
    → is_foreign actor s.company_id ≡ false
    → is_foreign actor t.company_id ≡ false
    → a ≢ b
    → let db' = set_parent a b db in
      let db'' = set_parent b a db' in
      (update db actor a (under b) ≡ ok db')
      × (update db' actor b (under a) ≡ ok db'')
      × (find_shift a db''.shifts ≡ some (patched (under b) s))
      × (find_shift b db''.shifts ≡ some (patched (under a) t))
shift_cycle db actor a b s t found_a found_b mine_a mine_b ne =
    let f = patched (under b) in
    let b_there = find_other a b f db.shifts (λ s. refl) ne ∙ found_b in
    let a_there = find?-update_first (λ t. t.id == a) f db.shifts s (λ s k. k) found_a in
    let shifts = update_first (λ t. t.id == a) f db.shifts in
    (
      update_goes_through db actor a b s found_a mine_a (λ e. ne (sym e)),
      update_goes_through (set_parent a b db) actor b a t b_there mine_b ne,
      find_other b a (patched (under a)) shifts (λ s. refl) (λ e. ne (sym e)) ∙ a_there,
      find?-update_first (λ t. t.id == b) (patched (under a)) shifts t (λ s k. k) b_there,
    )
