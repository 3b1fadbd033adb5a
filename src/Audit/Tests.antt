-- ===== src/Audit/Tests.antt =====
-- The theorems of Audit at concrete values and a log of two rows.
use fleex.Common.{◌≡◌, ◌≢◌, refl, ap, true, false, none, some, [], ◌∷◌, arith}
use fleex.Audit.Json.{Text, codes, canonicalize, join_fields, insert_key, text_le, stringify}
use fleex.Audit.Chain.{
  AuditEntry, AuditFields, AuditRow, canonical_fields, fields_of, genesis, next_row, record_entry,
  verify_chain, text_eq,
}
use fleex.Audit.Chain.Integrity.{verify_chain-record_all, verify_chain_tampered}

abbrev an_entry : AuditEntry
an_entry = record {
  actor_id = none;
  actor_email = some (codes "bat@fleex.mn");
  company_id = none;
  action = codes "LOGIN";
  resource_type = none;
  resource_id = none;
  ip_address = none;
  user_agent = none;
  before = none;
  after = none;
  metadata = none;
  outcome = none;
}

-- A hash without collisions, in place of SHA-256.
abbrev no_hash : Text → Text
no_hash s = s

abbrev some_fields : AuditFields
some_fields = fields_of an_entry 1000

abbrev changed_fields : AuditFields
changed_fields = record some_fields { action = codes "LOGOUT" }

abbrev a_row : AuditRow
a_row = next_row no_hash genesis 1 some_fields

a_row_verifies : verify_chain no_hash 10 (a_row ∷ []) ≡ none
unfolding record_entry
a_row_verifies = verify_chain-record_all no_hash ((1, 1000, true, an_entry) ∷ []) 10

fields_differ : canonical_fields changed_fields ≢ canonical_fields some_fields
unfolding text_eq canonical_fields canonicalize join_fields insert_key text_le stringify fields_of
fields_differ e =
    let k = ap (λ t. text_eq t (canonical_fields some_fields)) e in
    let differ : text_eq (canonical_fields changed_fields) (canonical_fields some_fields) ≡ false =
      refl in
    let equal : text_eq (canonical_fields some_fields) (canonical_fields some_fields) ≡ true =
      refl in
    cc

verify_chain_tampered_example :
    verify_chain no_hash 10 (record a_row { fields = changed_fields } ∷ []) ≡ some 1
unfolding next_row fields_of
verify_chain_tampered_example =
    verify_chain_tampered no_hash (λ s t e. e) 10 [] [] a_row changed_fields (ground arith)
      a_row_verifies fields_differ
