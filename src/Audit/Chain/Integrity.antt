-- ===== src/Audit/Chain/Integrity.antt =====
-- What `verifyChain` of Audit/Chain finds in a log.
use mathlib.Core.Path.{subst}
use fleex.Common.{
  ℕ, ◌-◌, ◌≤◌, ◌≡◌, ◌≢◌, ◌↔◌, refl, sym, ◌∙◌, Bool, true, false, none, some, List, [], ◌∷◌, ◌++◌,
  zero, suc, ltb, arith, length, length-append, drop, Bool-cases, inl, inr,
}
use fleex.Audit.Json.{Text}
use fleex.Audit.Chain.{
  AuditEntry, AuditFields, AuditRow, fields_of, canonical_fields, genesis, text_eq, last_hash,
  next_row, record_entry, verify_from, start_hash, verify_chain,
}

text_eq_iff : (s t : Text) → (text_eq s t ≡ true) ↔ (s ≡ t)
unfolding text_eq
text_eq_iff [] [] = ground arith
text_eq_iff [] (b ∷ t) = ground arith
text_eq_iff (a ∷ s) [] = ground arith
text_eq_iff (a ∷ s) (b ∷ t) = ground (arith, text_eq_iff s t)

append-cancel : (p s t : Text) → p ++ s ≡ p ++ t → s ≡ t
append-cancel [] s t e = e
append-cancel (a ∷ p) s t e = append-cancel p s t (cc)

module _ (sha256 : Text → Text) where
  -- Each row holds the hash of the row below it, and its own hash fits.
  abbrev Chained : Text → List AuditRow → Type 0
  Chained prev [] = Unit {0}
  Chained prev (r ∷ rows) =
      (sha256 (prev ++ canonical_fields r.fields) ≡ r.hash)
      × (r.prev_hash ≡ prev)
      × Chained r.hash rows

  verify_from-Chained :
      (prev : Text) (rows : List AuditRow) → verify_from sha256 prev rows ≡ none → Chained prev rows
  unfolding verify_from
  verify_from-Chained prev [] h = tt
  verify_from-Chained prev (r ∷ rows) h = ground (
    arith,
    text_eq_iff (sha256 (prev ++ canonical_fields r.fields)) r.hash,
    text_eq_iff r.prev_hash prev,
    verify_from-Chained r.hash rows,
  )

  Chained-verify_from :
      (prev : Text) (rows : List AuditRow) → Chained prev rows → verify_from sha256 prev rows ≡ none
  unfolding verify_from
  Chained-verify_from prev [] c = refl
  Chained-verify_from prev (r ∷ rows) (fits, linked, c) =
      rw ((text_eq_iff (sha256 (prev ++ canonical_fields r.fields)) r.hash).1 fits)
        (rw ((text_eq_iff r.prev_hash prev).1 linked) (Chained-verify_from r.hash rows c))

  Chained-next_row :
      (prev : Text) (rows : List AuditRow) (id : ℕ) (f : AuditFields)
      → Chained prev rows
      → Chained prev (rows ++ next_row sha256 (last_hash prev rows) id f ∷ [])
  unfolding last_hash next_row
  Chained-next_row prev [] id f c = (refl, refl, tt)
  Chained-next_row prev (r ∷ rows) id f (fits, linked, c) =
      (fits, linked, Chained-next_row r.hash rows id f c)

  -- Wherever the scan starts, it starts at the hash that the first row names.
  Chained-drop :
      (prev : Text) (skip : ℕ) (rows : List AuditRow)
      → Chained prev rows
      → (p : Text) × Chained p (drop skip rows)
  Chained-drop prev zero rows c = (prev, c)
  Chained-drop prev (suc skip) [] c = (prev, tt)
  Chained-drop prev (suc skip) (r ∷ rows) (_, _, c) = Chained-drop r.hash skip rows c

  -- Calls of `record`: the id that a row gets, the time, whether the write succeeds, and the
  -- entry.
  abbrev pub record_all : List AuditRow → List (ℕ × ℕ × Bool × AuditEntry) → List AuditRow
  record_all rows [] = rows
  record_all rows ((id, now, stored, e) ∷ calls) =
      record_all (record_entry sha256 rows id now stored e) calls

  record_entry-Chained :
      (rows : List AuditRow) (id now : ℕ) (stored : Bool) (e : AuditEntry)
      → Chained genesis rows
      → Chained genesis (record_entry sha256 rows id now stored e)
  unfolding record_entry
  record_entry-Chained rows id now true e c = Chained-next_row genesis rows id (fields_of e now) c
  record_entry-Chained rows id now false e c = c

  record_all-Chained :
      (rows : List AuditRow) (calls : List (ℕ × ℕ × Bool × AuditEntry))
      → Chained genesis rows
      → Chained genesis (record_all rows calls)
  record_all-Chained rows [] c = c
  record_all-Chained rows ((id, now, stored, e) ∷ calls) c =
      record_all-Chained (record_entry sha256 rows id now stored e) calls
        (record_entry-Chained rows id now stored e c)

  Chained-start :
      (skip : ℕ) (rows : List AuditRow)
      → Chained genesis rows
      → Chained (start_hash skip (drop skip rows)) (drop skip rows)
  Chained-start zero rows c = from_genesis rows c
    where
      from_genesis :
          (rows : List AuditRow) → Chained genesis rows → Chained (start_hash 0 rows) rows
      from_genesis [] c = tt
      from_genesis (r ∷ rows) c = c
  Chained-start (suc skip) rows c =
      let (p, d) = Chained-drop genesis (suc skip) rows c in joined p (drop (suc skip) rows) d
    where
      joined :
          (p : Text) (rows : List AuditRow)
          → Chained p rows
          → Chained (start_hash (suc skip) rows) rows
      joined p [] d = tt
      joined p (r ∷ rows) (fits, linked, d) =
          let d' : Chained p (r ∷ rows) = (fits, linked, d) in
          let later : ltb 0 (suc skip) ≡ true = ground arith in
          rw later (subst (λ q. Chained q (r ∷ rows)) (sym linked) d')

  -- Whatever was recorded, whichever writes failed, and however many of the latest rows are
  -- scanned: `verifyChain` finds every row in order.
  pub verify_chain-record_all :
      (calls : List (ℕ × ℕ × Bool × AuditEntry)) (limit : ℕ)
      → verify_chain sha256 limit (record_all [] calls) ≡ none
  unfolding verify_chain
  verify_chain-record_all calls limit =
      let rows = record_all [] calls in
      Chained-verify_from _ (drop (length rows - limit) rows)
        (Chained-start (length rows - limit) rows (record_all-Chained [] calls tt))

  verify_from-changed :
      ((s t : Text) → sha256 s ≡ sha256 t → s ≡ t)
      → (prev : Text) (below above : List AuditRow) (r : AuditRow) (f : AuditFields)
      → Chained prev (below ++ r ∷ above)
      → canonical_fields f ≢ canonical_fields r.fields
      → verify_from sha256 prev (below ++ record r { fields = f } ∷ above) ≡ some r.id
  unfolding verify_from
  verify_from-changed injective prev [] above r f (fits, linked, c) other =
      elim (Bool-cases (text_eq (sha256 (prev ++ canonical_fields f)) r.hash)) [
        | inl e ↦
            let clash = (text_eq_iff (sha256 (prev ++ canonical_fields f)) r.hash).0 e ∙ sym fits in
            absurd (other (append-cancel prev (canonical_fields f) _ (injective _ _ clash)))
        | inr e ↦ rw e
      ]
  verify_from-changed injective prev (s ∷ below) above r f (fits, linked, c) other =
      rw ((text_eq_iff (sha256 (prev ++ canonical_fields s.fields)) s.hash).1 fits) (
        rw ((text_eq_iff s.prev_hash prev).1 linked)
          (verify_from-changed injective s.hash below above r f c other))

  -- A scan that covers the log starts at the genesis hash.
  verify_chain_covered :
      (limit : ℕ) (rows : List AuditRow)
      → length rows ≤ limit
      → verify_chain sha256 limit rows ≡ verify_from sha256 genesis rows
  unfolding verify_chain
  verify_chain_covered limit [] h = ground arith
  verify_chain_covered limit (r ∷ rows) h =
      let e : length (r ∷ rows) - limit ≡ 0 = omega arith in rw e

  -- If sha256 has no collisions: when the scan covers a log that verifies, and the columns of one
  -- row are changed to others with another canonical text, `verifyChain` reports exactly that row.
  pub verify_chain_tampered :
      ((s t : Text) → sha256 s ≡ sha256 t → s ≡ t)
      → (limit : ℕ) (below above : List AuditRow) (r : AuditRow) (f : AuditFields)
      → length (below ++ r ∷ above) ≤ limit
      → verify_chain sha256 limit (below ++ r ∷ above) ≡ none
      → canonical_fields f ≢ canonical_fields r.fields
      → verify_chain sha256 limit (below ++ record r { fields = f } ∷ above) ≡ some r.id
  verify_chain_tampered injective limit below above r f covered intact other =
      let covered' : length (below ++ record r { fields = f } ∷ above) ≤ limit = omega (
        arith,
        length-append below (record r { fields = f } ∷ above),
        length-append below (r ∷ above),
      ) in
      verify_chain_covered limit (below ++ record r { fields = f } ∷ above) covered'
      ∙ verify_from-changed injective genesis below above r f
          (verify_from-Chained genesis (below ++ r ∷ above)
            (sym (verify_chain_covered limit (below ++ r ∷ above) covered) ∙ intact))
          other
