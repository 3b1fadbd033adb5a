-- ===== src/Dispatch/Routing.antt =====
-- What Dispatch sends, and for which rules.
use mathlib.Core.List.{Memᴰ}
use mathlib.Core.Path.{subst}
use fleex.Common.{
  ℕ, ◌+◌, ◌-◌, ◌≤◌, ◌≡◌, ◌≢◌, ◌⊎◌, ℤ, Bool, true, false, ◌&&◌, Option, none, some, List, [], ◌∷◌,
  ◌++◌, filter, ◌==◌, inl, inr, refl, ap, sym, ◌∙◌, Bool-cases, Option-cases, ==_iff, leb→le, arith,
  All, All-append, members, contains, leb, if◌then◌else◌,
}
use fleex.Dispatch.{
  Rule, EventEnvelope, Group, Job, Vehicle, Channel, in_app, email, sms, webhook, telegram, push,
  whatsapp, viber, severity_rank, admits, is_company, push_rule, group_rules, refresh_rules,
  rules_of, matches, jobs_of, job_if, all_jobs, has_channel, is_empty, seen_since, online_window,
  is_candidate, is_near, phones_near, broadcast_panic, broadcast_at, handle,
}

append-nil : (xs : List Rule) → xs ++ [] ≡ xs
append-nil [] = refl
append-nil (x ∷ xs) = ap (λ l. x ∷ l) (append-nil xs)

append_assoc : (xs ys zs : List Rule) → (xs ++ ys) ++ zs ≡ xs ++ (ys ++ zs)
append_assoc [] ys zs = refl
append_assoc (x ∷ xs) ys zs = ap (λ l. x ∷ l) (append_assoc xs ys zs)

rules_of-push_rule :
    (company : ℕ) (r : Rule) (gs : List Group)
    → rules_of company (push_rule r gs)
      ≡ rules_of company gs ++ (if r.company_id == company then r ∷ [] else [])
rules_of-push_rule company r [] = refl
rules_of-push_rule company r (g ∷ gs) = elim (Bool-cases (is_company r.company_id g)) [
  | inl k ↦ elim (Bool-cases (is_company company g)) [
    | inl here ↦
        let same : (r.company_id == company) ≡ true = ground arith in rw k (rw here (rw same refl))
    | inr other ↦
        let differ : (r.company_id == company) ≡ false = ground arith in
        rw k (rw other (rw differ (sym (append-nil (rules_of company gs)))))
  ]
  | inr k ↦ elim (Bool-cases (is_company company g)) [
    | inl here ↦
        let differ : (r.company_id == company) ≡ false = ground arith in
        rw k (rw here (rw differ (sym (append-nil g.rules))))
    | inr other ↦ rw k (rw other (rules_of-push_rule company r gs))
  ]
]

rules_of-group_rules :
    (company : ℕ) (gs : List Group) (rs : List Rule)
    → rules_of company (group_rules gs rs)
      ≡ rules_of company gs ++ filter (λ r. r.company_id == company) rs
unfolding group_rules
rules_of-group_rules company gs [] = sym (append-nil (rules_of company gs))
rules_of-group_rules company gs (r ∷ rs) =
    let rest = filter (λ r. r.company_id == company) rs in
    rules_of-group_rules company (push_rule r gs) rs
    ∙ ap (λ l. l ++ rest) (rules_of-push_rule company r gs)
    ∙ append_assoc (rules_of company gs) (if r.company_id == company then r ∷ [] else []) rest
    ∙ ap (λ l. rules_of company gs ++ l)
        (elim (Bool-cases (r.company_id == company)) [ inl e ↦ rw e refl | inr e ↦ rw e refl ])

-- The cache that `refreshRules` builds holds, under each company, the active rules of that
-- company, all of them and in their order.
rules_of-refresh_rules :
    (company : ℕ) (rules : List Rule)
    → rules_of company (refresh_rules rules)
      ≡ filter (λ r. r.company_id == company) (filter (λ r. r.active) rules)
unfolding refresh_rules
rules_of-refresh_rules company rules =
    rules_of-group_rules company [] (filter (λ r. r.active) rules)

filter-All {ℓ κ} :
    {P : Rule → Type ℓ} {Q : Rule → Type κ} (p : Rule → Bool) (rs : List Rule)
    → ((r : Rule) → P r → p r ≡ true → Q r)
    → All P rs
    → All Q (filter p rs)
filter-All p [] imp h = tt
filter-All p (r ∷ rs) imp (h, hs) = elim (Bool-cases (p r)) [
  | inl t ↦ rw t (imp r h t, filter-All p rs imp hs)
  | inr t ↦ rw t (filter-All p rs imp hs)
]

contains-Mem : (ids : List ℕ) (a : ℕ) → contains ids a ≡ true → Memᴰ a ids
contains-Mem [] a h = cc
contains-Mem (x ∷ ids) a h = elim (Bool-cases (x == a)) [
  | inl e ↦ Memᴰ.head (sym ((==_iff x a).0 e))
  | inr e ↦ Memᴰ.tail (contains-Mem ids a (ground (arith, e, h)))
]

-- A column of a rule that names nothing restricts nothing; another one has the id of the event.
abbrev pub Admits : List ℕ → Option ℕ → Type 0
Admits ids o = (ids ≡ []) ⊎ ((a : ℕ) × (o ≡ some a) × Memᴰ a ids)

admits-Admits : (ids : List ℕ) (o : Option ℕ) → admits ids o ≡ true → Admits ids o
admits-Admits [] o h = inl refl
admits-Admits (x ∷ ids) none h = cc
admits-Admits (x ∷ ids) (some a) h = inr (a, refl, contains-Mem (x ∷ ids) a h)

-- The column of a rule that a channel reads.
abbrev pub column_of : Channel → Rule → List ℕ
column_of in_app r = []
column_of email r = r.emails
column_of sms r = r.phones
column_of webhook r = r.webhook_url
column_of telegram r = r.telegrams
column_of push r = r.pushes
column_of whatsapp r = r.whatsapps
column_of viber r = r.vibers

-- The rule is one of the table, active, of the event's company, and meant for such an event.
pub record IsMeant (rules : List Rule) (ev : EventEnvelope) (place : Option ℕ) (r : Rule)
    : Type 0 where
  pub stored : Memᴰ r rules
  pub active : r.active ≡ true
  pub own : r.company_id ≡ ev.company_id
  pub kind : r.trigger_type ≡ ev.type
  pub severe : severity_rank r.min_severity ≤ severity_rank ev.severity
  pub device : Admits r.device_ids (some ev.device_id)
  pub geofence : Admits r.geofence_ids ev.geofence_id
  pub at_place : Admits r.place_ids place

-- The phone is that of the driver of an active vehicle of the event's company, another one than
-- the event's, that was seen in the last ten minutes and is near the position.
abbrev pub IsResponder :
    (ℤ × ℤ → ℤ × ℤ → Bool) → ℕ → EventEnvelope → ℤ × ℤ → List Vehicle → ℕ → Type 0
IsResponder near now ev here vs phone =
    (v : Vehicle) × Memᴰ v vs
    × (v.company_id ≡ ev.company_id)
    × (v.active ≡ true)
    × (v.id ≢ ev.device_id)
    × ((t : ℕ) × (v.last_seen_at ≡ some t) × (now ≤ t + 600_000))
    × ((there : ℤ × ℤ) × (v.last_position ≡ some there) × (near here there ≡ true))
    × (v.driver_phone ≡ some phone)

-- A send that is asked for: by a rule that is meant for the event, on a channel of the rule and to
-- those whom the rule names for the channel, or, at a panic with a position, an SMS to responders;
-- and to someone.
unfoldable pub IsWarranted :
    (ℤ × ℤ → ℤ × ℤ → Bool)
    → ℕ
    → ℕ
    → List Rule
    → EventEnvelope
    → Option ℕ
    → List Vehicle
    → Job
    → Type 0
IsWarranted near panic now rules ev place vs job = elim job.rule [
  | some r ↦
      IsMeant rules ev place r
      × (has_channel job.channel r.channels ≡ true)
      × (job.recipients ≡ column_of job.channel r)
      × (is_empty job.recipients ≡ false)
  | none ↦
      (ev.type ≡ panic)
      × (job.channel ≡ sms)
      × (is_empty job.recipients ≡ false)
      × ((here : ℤ × ℤ) × (ev.position ≡ some here)
          × All (IsResponder near now ev here vs) job.recipients)
]

seen_recently :
    (now : ℕ) (seen : Option ℕ)
    → seen_since (now - online_window) seen ≡ true
    → (t : ℕ) × (seen ≡ some t) × (now ≤ t + 600_000)
seen_recently now none h = cc
seen_recently now (some t) h = (t, refl, ground (arith, h))

module _ (near : ℤ × ℤ → ℤ × ℤ → Bool) (panic now : ℕ) (rules : List Rule) (ev : EventEnvelope)
    (place : Option ℕ) (vs : List Vehicle) where
  abbrev Warranted : Job → Type 0
  Warranted job = IsWarranted near panic now rules ev place vs job

  meant :
      (r : Rule)
      → Memᴰ r rules
      → r.active ≡ true
      → r.company_id ≡ ev.company_id
      → matches r ev place ≡ true
      → IsMeant rules ev place r
  unfolding matches
  meant r m a c h =
      let kind : (r.trigger_type == ev.type) ≡ true = ground (arith, h) in
      let severe : leb (severity_rank r.min_severity) (severity_rank ev.severity) ≡ true =
        ground (arith, h) in
      let device : admits r.device_ids (some ev.device_id) ≡ true = ground (arith, h) in
      let geofence : admits r.geofence_ids ev.geofence_id ≡ true = ground (arith, h) in
      let there : admits r.place_ids place ≡ true = ground (arith, h) in
      record {
        stored = m;
        active = a;
        own = c;
        kind = (==_iff r.trigger_type ev.type).0 kind;
        severe = leb→le (severity_rank r.min_severity) (severity_rank ev.severity) severe;
        device = admits-Admits r.device_ids (some ev.device_id) device;
        geofence = admits-Admits r.geofence_ids ev.geofence_id geofence;
        at_place = admits-Admits r.place_ids place there;
      }

  job_if-All :
      (r : Rule) (channel : Channel) (recipients : List ℕ) (rest : List Job)
      → IsMeant rules ev place r
      → recipients ≡ column_of channel r
      → All Warranted rest
      → All Warranted (job_if r channel recipients rest)
  unfolding IsWarranted
  job_if-All r channel recipients rest m c h = elim (Bool-cases (has_channel channel r.channels)) [
    | inl k ↦ elim (Bool-cases (is_empty recipients)) [
      | inl e ↦ rw k (rw e h)
      | inr e ↦ rw k (rw e ((m, k, c, e), h))
    ]
    | inr k ↦ rw k h
  ]

  jobs_of-All : (r : Rule) → IsMeant rules ev place r → All Warranted (jobs_of r)
  unfolding jobs_of
  jobs_of-All r h = job_if-All r email r.emails _ h refl (
      job_if-All r sms r.phones _ h refl (
        job_if-All r webhook r.webhook_url _ h refl (
          job_if-All r telegram r.telegrams _ h refl (
            job_if-All r push r.pushes _ h refl (
              job_if-All r whatsapp r.whatsapps _ h refl
                (job_if-All r viber r.vibers _ h refl tt))))))

  all_jobs-All : (rs : List Rule) → All (IsMeant rules ev place) rs → All Warranted (all_jobs rs)
  all_jobs-All [] h = tt
  all_jobs-All (r ∷ rs) (h, hs) =
      All-append Warranted (jobs_of r) (all_jobs rs) (jobs_of-All r h) (all_jobs-All rs hs)

  -- The rules of the cache that match are rules of the table that are meant.
  picked : All (IsMeant rules ev place) (
      filter
        (λ r. matches r ev place)
        (filter (λ r. r.company_id == ev.company_id) (filter (λ r. r.active) rules)))
  picked =
      let active =
        filter-All {P = λ r. Memᴰ r rules} {Q = λ r. Memᴰ r rules × (r.active ≡ true)}
          (λ r. r.active) rules (λ r m a. (m, a)) (members rules) in
      let own =
        filter-All {Q = λ r. Memᴰ r rules × (r.active ≡ true) × (r.company_id ≡ ev.company_id)}
          (λ r. r.company_id == ev.company_id) (filter (λ r. r.active) rules)
          (λ r h c. (h.0, h.1, (==_iff r.company_id ev.company_id).0 c)) active in
      filter-All (λ r. matches r ev place)
        (filter (λ r. r.company_id == ev.company_id) (filter (λ r. r.active) rules))
        (λ r h m. meant r h.0 h.1 h.2 m) own

  near_by :
      (here : ℤ × ℤ) (o : Option (ℤ × ℤ))
      → is_near near panic here o ≡ true
      → (there : ℤ × ℤ) × (o ≡ some there) × (near here there ≡ true)
  near_by here none h = cc
  near_by here (some there) h = (there, refl, h)

  phones_near-All :
      (here : ℤ × ℤ) (ws : List Vehicle)
      → All (λ w. Memᴰ w vs) ws
      → All (IsResponder near now ev here vs) (phones_near near panic now ev here ws)
  phones_near-All here [] h = tt
  phones_near-All here (v ∷ ws) (m, ms) =
      elim (Bool-cases (is_candidate now ev v && is_near near panic here v.last_position)) [
        | inl t ↦ elim (Option-cases v.driver_phone) [
          | inl e ↦ rw t (rw e (phones_near-All here ws ms))
          | inr (p, e) ↦
              let own : (v.company_id == ev.company_id) ≡ true = ground (arith, t) in
              let active : v.active ≡ true = ground (arith, t) in
              let other : (v.id == ev.device_id) ≡ false = ground (arith, t) in
              let seen : seen_since (now - online_window) v.last_seen_at ≡ true =
                ground (arith, t) in
              let close : is_near near panic here v.last_position ≡ true = ground (arith, t) in
              rw t (
                rw e (
                  (
                    v,
                    m,
                    (==_iff v.company_id ev.company_id).0 own,
                    active,
                    (λ same. let k = (==_iff v.id ev.device_id).1 same in cc),
                    seen_recently now v.last_seen_at seen,
                    near_by here v.last_position close,
                    e,
                  ),
                  phones_near-All here ws ms,
                ))
        ]
        | inr t ↦ rw t (phones_near-All here ws ms)
      ]

  broadcast-All :
      (sms_enabled : Bool) (o : Option (ℤ × ℤ))
      → ev.type ≡ panic
      → ev.position ≡ o
      → All Warranted (broadcast_at near panic now sms_enabled ev vs o)
  unfolding IsWarranted
  broadcast-All sms_enabled none same e = tt
  broadcast-All false (some here) same e = tt
  broadcast-All true (some here) same e =
      elim (Bool-cases (is_empty (phones_near near panic now ev here vs))) [
        | inl t ↦ rw t tt
        | inr t ↦ rw t ((same, refl, t, (here, e, phones_near-All here vs (members vs))), tt)
      ]

  -- Every send for an event, with the cache just refreshed from the table of rules, goes to
  -- someone and is warranted. Either a rule of the table asks for it, which is active, of the
  -- event's company and kind, at most as severe, and restricted to no device, geofence or place
  -- but the event's; then the rule has the channel, and the recipients are those that it names for
  -- the channel. Or the event is a panic with a position, and an SMS goes to drivers of other
  -- active vehicles of the event's company that were seen in the last ten minutes and are near.
  pub handle-All-IsWarranted :
      (sms_enabled : Bool)
      → All
          (IsWarranted near panic now rules ev place vs)
          (handle near panic now sms_enabled (refresh_rules rules) vs place ev)
  unfolding handle broadcast_panic
  handle-All-IsWarranted sms_enabled =
      let page = broadcast_panic near panic now sms_enabled ev vs in
      let wanted : All Warranted (
          all_jobs
            (filter (λ r. matches r ev place) (rules_of ev.company_id (refresh_rules rules)))) =
        subst (λ l. All Warranted (all_jobs (filter (λ r. matches r ev place) l)))
          (sym (rules_of-refresh_rules ev.company_id rules)) (all_jobs-All _ picked) in
      elim (Bool-cases (ev.type == panic)) [
        | inl t ↦ rw t (
            All-append Warranted page _
              (broadcast-All sms_enabled ev.position ((==_iff ev.type panic).0 t) refl) wanted)
        | inr t ↦ rw t wanted
      ]
