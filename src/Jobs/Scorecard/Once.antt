-- ===== src/Jobs/Scorecard/Once.antt =====
-- How often a company's scorecards of a month go out.
use fleex.Common.{
  All-imp, ℕ, ◌+◌, ◌-◌, ◌*◌, ◌/◌, ◌%◌, ◌≤◌, ◌<◌, ◌≡◌, refl, ap, ◌∙◌, Bool, true, false, ◌&&◌, List,
  [], ◌∷◌, any, leb, ◌==◌, arith, All, Bool-cases, inl, inr,
}
use fleex.Common.Dates.{day_ms, civil_of_days}
use fleex.Jobs.Scorecard.{
  Driver, Claim, Run, is_claimed, run_key_ttl, run_claimed, run_companies, run_month, is_run_time,
  tick, first_of_month, month_of, previous_month_window,
}

and-false : (b : Bool) → (b && false) ≡ false
and-false true = refl
and-false false = refl

-- An hour of the day is another one up to 23 hours later.
other_hour :
    (now hours : ℕ)
    → 1 ≤ hours
    → hours ≤ 23
    → now % 86_400_000 / 3_600_000 ≡ 2
    → ((now + hours * 3_600_000) % 86_400_000 / 3_600_000 == 2) ≡ false
other_hour now hours one most h = ground arith

is_run_time-later :
    (now hours : ℕ)
    → is_run_time now ≡ true
    → 1 ≤ hours
    → hours ≤ 23
    → is_run_time (now + hours * 3_600_000) ≡ false
is_run_time-later now hours h one most =
    let two : now % 86_400_000 / 3_600_000 ≡ 2 = ground (arith, h) in
    let other = other_hour now hours one most two in
    rw other (and-false ((civil_of_days ((now + hours * 3_600_000) / day_ms)).day == 1))

-- A company whose run throws loses its key again, but no tick at a full hour of the next 23 does
-- anything, so that the month is not tried again.
failed_month_waits :
    (email_enabled : Bool) (finds : ℕ → Bool) (drivers : List Driver) (now hours : ℕ)
    (companies : List ℕ) (claims : List Claim)
    → is_run_time now ≡ true
    → 1 ≤ hours
    → hours ≤ 23
    → tick email_enabled finds drivers (now + hours * 3_600_000) companies claims
      ≡ record { claims = claims; outcomes = [] }
unfolding tick
failed_month_waits email_enabled finds drivers now hours companies claims h one most =
    rw (is_run_time-later now hours h one most) refl

-- The window of one month ends where that of the next month starts.
windows_meet :
    (now next : ℕ)
    → month_of next ≡ month_of now + 1
    → (previous_month_window next).from ≡ (previous_month_window now).to
unfolding previous_month_window
windows_meet now next h = ap first_of_month (ap (λ m. m - 1) h ∙ omega arith)

module _ (month until : ℕ) where
  -- The company has a key of the month that lasts until the given time.
  abbrev holds : ℕ → List Claim → Bool
  holds company claims =
      any (λ c. c.company_id == company && (c.month == month && leb until c.expires_at)) claims

  abbrev IsLasting : List Claim → Type 0
  IsLasting = All {0, 0} (λ c. until ≤ c.expires_at)

  is_claimed→holds :
      (now company : ℕ) (claims : List Claim)
      → IsLasting claims
      → is_claimed now company month claims ≡ true
      → holds company claims ≡ true
  is_claimed→holds now company [] l h = cc
  is_claimed→holds now company (c ∷ claims) (l, ls) h =
      ground (arith, is_claimed→holds now company claims ls)

  holds→is_claimed :
      (now company : ℕ) (claims : List Claim)
      → now < until
      → holds company claims ≡ true
      → is_claimed now company month claims ≡ true
  holds→is_claimed now company [] early h = cc
  holds→is_claimed now company (c ∷ claims) early h =
      ground (arith, holds→is_claimed now company claims early)

module _ (email_enabled : Bool) (finds : ℕ → Bool) (drivers : List Driver) (now month : ℕ) where
  abbrev until : ℕ
  until = now + run_key_ttl

  run_claimed-holds :
      (c : ℕ) (r : Run)
      → finds c ≡ true
      → IsLasting month until r.claims
      → let r' = run_claimed email_enabled finds drivers now month c r in
        IsLasting month until r'.claims × (holds month until c r'.claims ≡ true)
  unfolding run_claimed
  run_claimed-holds c r f l = elim (Bool-cases (is_claimed now c month r.claims)) [
    | inl k ↦ rw k (l, is_claimed→holds month until now c r.claims l k)
    | inr k ↦ rw k (rw f ((omega arith, l), ground arith))
  ]

  run_claimed-keeps :
      (c d : ℕ) (r : Run)
      → finds c ≡ true
      → holds month until d r.claims ≡ true
      → holds month until d (run_claimed email_enabled finds drivers now month c r).claims ≡ true
  unfolding run_claimed
  run_claimed-keeps c d r f h = elim (Bool-cases (is_claimed now c month r.claims)) [
    | inl k ↦ rw k h
    | inr k ↦ rw k (rw f (ground (arith, h)))
  ]

  run_companies-keeps :
      (cs : List ℕ) (d : ℕ) (r : Run)
      → All {0, 0} (λ c. finds c ≡ true) cs
      → holds month until d r.claims ≡ true
      → holds month until d (run_companies email_enabled finds drivers now month cs r).claims ≡ true
  unfolding run_companies
  run_companies-keeps [] d r f h = h
  run_companies-keeps (c ∷ cs) d r (f, fs) h =
      run_companies-keeps cs d (run_claimed email_enabled finds drivers now month c r) fs
        (run_claimed-keeps c d r f h)

  run_companies-holds :
      (cs : List ℕ) (r : Run)
      → All {0, 0} (λ c. finds c ≡ true) cs
      → IsLasting month until r.claims
      → All {0, 0}
          (λ c.
            holds month until c (run_companies email_enabled finds drivers now month cs r).claims
            ≡ true)
          cs
  unfolding run_companies
  run_companies-holds [] r f l = tt
  run_companies-holds (c ∷ cs) r (f, fs) l =
      let r' = run_claimed email_enabled finds drivers now month c r in
      let (lasting, mine) = run_claimed-holds c r f l in
      (run_companies-keeps cs c r' fs mine, run_companies-holds cs r' fs lasting)

-- A run over companies that all have their key does nothing.
run_companies-idle :
    (email_enabled : Bool) (finds : ℕ → Bool) (drivers : List Driver) (now month : ℕ) (cs : List ℕ)
    (r : Run)
    → All {0, 0} (λ c. is_claimed now c month r.claims ≡ true) cs
    → run_companies email_enabled finds drivers now month cs r ≡ r
unfolding run_companies run_claimed
run_companies-idle email_enabled finds drivers now month [] r h = refl
run_companies-idle email_enabled finds drivers now month (c ∷ cs) r (h, hs) =
    rw h (run_companies-idle email_enabled finds drivers now month cs r hs)

-- After a run of a month that started without keys and threw for no company, another run of the
-- same month within 35 days mails nothing, whatever the drivers of then are.
run_month_once :
    (email_enabled : Bool) (finds later : ℕ → Bool) (drivers others : List Driver) (now next : ℕ)
    (companies : List ℕ)
    → All {0, 0} (λ c. finds c ≡ true) companies
    → month_of next ≡ month_of now
    → next < now + run_key_ttl
    → (run_month email_enabled later others next companies
        (run_month email_enabled finds drivers now companies []).claims).outcomes
      ≡ []
unfolding run_month previous_month_window
run_month_once email_enabled finds later drivers others now next companies f same early =
    let m = month_of now - 1 in
    let start : Run = record { claims = []; outcomes = [] } in
    let first = run_companies email_enabled finds drivers now m companies start in
    let again : Run = record { claims = first.claims; outcomes = [] } in
    let keys = run_companies-holds email_enabled finds drivers now m companies start f tt in
    let claimed =
      All-imp companies (λ c h. holds→is_claimed m (now + run_key_ttl) next c first.claims early h)
        keys in
    rw same (
      ap (λ r. r.outcomes)
        (run_companies-idle email_enabled later others next m companies again claimed))
