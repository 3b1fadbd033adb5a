-- ===== src/Audit/Chain.antt =====
-- `record` and `verifyChain` of services/api/src/audit/audit.service.ts, over the rows in the
-- order of their ids. The advisory lock makes the appends one after the other. `sha256` is a
-- parameter; the genesis hash is sixty-four zeros.
pub mod Integrity
use Prim.Native.String.{String}
use fleex.Common.{
  ℕ, ◌+◌, ◌-◌, ◌*◌, ◌/◌, ◌%◌, Bool, true, false, ◌&&◌, Option, none, some, List, [], ◌∷◌, ◌++◌,
  ◌==◌, ltb, length, drop, if◌then◌else◌,
}
use fleex.Common.Dates.{Civil, civil_of_days, day_ms}
use fleex.Audit.Json.{Text, codes, Json, null, str, Fields, end, field, obj, canonicalize}

abbrev pub digit : ℕ → ℕ
digit n = n % 10 + 48

abbrev pub pad2 : ℕ → Text
pad2 n = digit (n / 10) ∷ digit n ∷ []

abbrev pub pad3 : ℕ → Text
pad3 n = digit (n / 100) ∷ pad2 n

-- `toISOString` of a time in the years from 1970 to 9999.
unfoldable pub iso_string : ℕ → Text
unfolding civil_of_days
iso_string time =
    let c = civil_of_days (time / day_ms) in
    let ms = time % day_ms in
    digit (c.year / 1000) ∷ pad3 c.year
    ++ (b'-' ∷ pad2 (c.month + 1)
        ++ (b'-' ∷ pad2 c.day
            ++ (b'T' ∷ pad2 (ms / 3_600_000)
                ++ (b':' ∷ pad2 (ms / 60_000 % 60)
                    ++ (b':' ∷ pad2 (ms / 1000 % 60) ++ (b'.' ∷ pad3 (ms % 1000) ++ b'Z' ∷ []))))))

-- `AuditEntry`: what a caller may leave out is optional.
pub record AuditEntry : Type 0 where
  pub actor_id : Option Text
  pub actor_email : Option Text
  pub company_id : Option Text
  pub action : Text
  pub resource_type : Option Text
  pub resource_id : Option Text
  pub ip_address : Option Text
  pub user_agent : Option Text
  pub before : Option Json
  pub after : Option Json
  pub metadata : Option Json
  pub outcome : Option Text

-- `AuditCanonicalFields`, the columns of a row that are hashed.
pub record AuditFields : Type 0 where
  pub actor_id : Option Text
  pub actor_email : Option Text
  pub company_id : Option Text
  pub action : Text
  pub resource_type : Option Text
  pub resource_id : Option Text
  pub ip_address : Option Text
  pub user_agent : Option Text
  pub before : Json
  pub after : Json
  pub metadata : Json
  pub outcome : Text
  pub occurred_at : ℕ

abbrev or_null : Option Json → Json
or_null none = null
or_null (some v) = v

abbrev or_success : Option Text → Text
or_success none = codes "success"
or_success (some s) = s

unfoldable pub fields_of : AuditEntry → ℕ → AuditFields
fields_of e now = record {
  actor_id = e.actor_id;
  actor_email = e.actor_email;
  company_id = e.company_id;
  action = e.action;
  resource_type = e.resource_type;
  resource_id = e.resource_id;
  ip_address = e.ip_address;
  user_agent = e.user_agent;
  before = or_null e.before;
  after = or_null e.after;
  metadata = or_null e.metadata;
  outcome = or_success e.outcome;
  occurred_at = now;
}

abbrev nullable : Option Text → Json
nullable none = null
nullable (some s) = str s

unfoldable pub fields_json : AuditFields → Json
unfolding iso_string
fields_json f = obj (
    field (codes "actorId") (nullable f.actor_id) (
      field (codes "actorEmail") (nullable f.actor_email) (
        field (codes "companyId") (nullable f.company_id) (
          field (codes "action") (str f.action) (
            field (codes "resourceType") (nullable f.resource_type) (
              field (codes "resourceId") (nullable f.resource_id) (
                field (codes "ipAddress") (nullable f.ip_address) (
                  field (codes "userAgent") (nullable f.user_agent) (
                    field (codes "before") f.before (
                      field (codes "after") f.after (
                        field (codes "metadata") f.metadata (
                          field (codes "outcome") (str f.outcome) (
                            field (codes "occurredAt") (str (iso_string f.occurred_at))
                              end)))))))))))))

unfoldable pub canonical_fields : AuditFields → Text
unfolding fields_json
canonical_fields f = canonicalize (fields_json f)

pub record AuditRow : Type 0 where
  pub id : ℕ
  pub fields : AuditFields
  pub prev_hash : Text
  pub hash : Text

abbrev pub genesis : Text
genesis = codes "0000000000000000000000000000000000000000000000000000000000000000"

unfoldable pub text_eq : Text → Text → Bool
text_eq [] [] = true
text_eq [] (b ∷ t) = false
text_eq (a ∷ s) [] = false
text_eq (a ∷ s) (b ∷ t) = a == b && text_eq s t

unfoldable pub last_hash : Text → List AuditRow → Text
last_hash prev [] = prev
last_hash prev (r ∷ rows) = last_hash r.hash rows

-- Where a scan starts: at the genesis hash, or at the first row's own `prevHash` if rows are
-- skipped.
abbrev pub start_hash : ℕ → List AuditRow → Text
start_hash skip [] = genesis
start_hash skip (r ∷ rows) = if ltb 0 skip then r.prev_hash else genesis

module _ (sha256 : Text → Text) where
  -- The row that is appended after a hash. Its id is the database's.
  unfoldable pub next_row : Text → ℕ → AuditFields → AuditRow
  next_row prev id f = record {
    id = id;
    fields = f;
    prev_hash = prev;
    hash = sha256 (prev ++ canonical_fields f);
  }

  -- `stored` says whether the transaction commits; a failure is logged and not thrown.
  unfoldable pub record_entry : List AuditRow → ℕ → ℕ → Bool → AuditEntry → List AuditRow
  unfolding next_row last_hash fields_of
  record_entry rows id now stored e =
      if stored then rows ++ next_row (last_hash genesis rows) id (fields_of e now) ∷ [] else rows

  -- The loop of `verifyChain`: the id of the first row that does not fit.
  unfoldable pub verify_from : Text → List AuditRow → Option ℕ
  unfolding text_eq
  verify_from prev [] = none
  verify_from prev (r ∷ rows) =
      let rest = verify_from r.hash rows in
      if text_eq (sha256 (prev ++ canonical_fields r.fields)) r.hash && text_eq r.prev_hash prev
      then rest
      else some r.id

  unfoldable pub verify_chain : ℕ → List AuditRow → Option ℕ
  unfolding verify_from
  verify_chain limit rows =
      let skip = length rows - limit in
      let scanned = drop skip rows in verify_from (start_hash skip scanned) scanned
