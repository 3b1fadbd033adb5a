-- ===== src/Jobs/LoneWorker/Cooldown.antt =====
-- That the key of a device keeps alerts of it off.
use fleex.Common.Keys.{Key, is_claimed, holds, holds→is_claimed}
use fleex.Common.{
  any-append, ℕ, ◌+◌, ◌<◌, ◌≡◌, refl, Bool, true, false, ◌||◌, Option, none, some, List, [], ◌∷◌,
  any, ltb, leb, ◌==◌, arith, All, Bool-cases, inl, inr, ◌⊎◌, ◌∙◌, ap₂,
}
use fleex.Jobs.LoneWorker.{
  Asset, Alert, Tick, Reason, cooldown_ms, reason_of, is_watched, claim_and_publish, scan_asset,
  scan_assets, scan, Round, run_scans,
}

abbrev pub is_of : ℕ → Alert → Bool
is_of id alert = alert.device_id == id

module _ (id until : ℕ) where
  -- While the key lasts, a scan raises no alert for the device and keeps the key.
  abbrev pub IsQuiet : Tick → Type 0
  IsQuiet t = (holds id until t.claims ≡ true) × (any (is_of id) t.alerts ≡ false)

  claim_and_publish-IsQuiet :
      (publishes : ℕ → Bool) (now : ℕ) (a : Asset) (o : Option Reason) (t : Tick)
      → now < until
      → IsQuiet t
      → IsQuiet (claim_and_publish publishes now a o t)
  claim_and_publish-IsQuiet publishes now a none t early h = h
  claim_and_publish-IsQuiet publishes now a (some r) t early (h, k) =
      let claimed = holds→is_claimed id until now t.claims early h in
      elim (Bool-cases (a.id == id)) [
        | inl e ↦
            let same : a.id ≡ id = ground (arith, e) in
            let busy : is_claimed now a.id t.claims ≡ true = rw same claimed in rw busy (h, k)
        | inr e ↦ ground (arith, e, h, k)
      ]

  pub scan_assets-IsQuiet :
      (publishes : ℕ → Bool) (now : ℕ) (assets : List Asset) (t : Tick)
      → now < until
      → IsQuiet t
      → IsQuiet (scan_assets publishes now assets t)
  unfolding scan_assets scan_asset
  scan_assets-IsQuiet publishes now [] t early h = h
  scan_assets-IsQuiet publishes now (a ∷ assets) t early h =
      scan_assets-IsQuiet publishes now assets (scan_asset publishes now a t) early
        (elim (Bool-cases (is_watched a)) [
          | inl w ↦ rw w (claim_and_publish-IsQuiet publishes now a (reason_of now a) t early h)
          | inr w ↦ rw w h
        ])

  scan-IsQuiet :
      (publishes : ℕ → Bool) (now hour : ℕ) (assets : List Asset) (claims : List Key)
      → now < until
      → holds id until claims ≡ true
      → IsQuiet (scan publishes now hour assets claims)
  unfolding scan
  scan-IsQuiet publishes now hour assets claims early h =
      elim (Bool-cases (ltb hour 6 || leb 22 hour)) [
        | inl e ↦ rw e (h, refl)
        | inr e ↦ rw e (
            scan_assets-IsQuiet publishes now assets (record { claims = claims; alerts = [] }) early
              (h, refl))
      ]

  pub run_scans_quiet :
      (rs : List Round) (claims : List Key)
      → holds id until claims ≡ true
      → All {0, 0} (λ r. r.now < until) rs
      → any (is_of id) (run_scans rs claims) ≡ false
  unfolding run_scans
  run_scans_quiet [] claims h early = refl
  run_scans_quiet (r ∷ rs) claims h (early, later) =
      let t = scan r.publishes r.now r.hour r.assets claims in
      let (kept, quiet) = scan-IsQuiet r.publishes r.now r.hour r.assets claims early h in
      any-append (is_of id) t.alerts (run_scans rs t.claims)
      ∙ ap₂ (◌||◌) quiet (run_scans_quiet rs t.claims kept later)

-- The keys and the alerts of a scan in progress: an alert of the device has its key with it.
module _ (publishes : ℕ → Bool) (now id : ℕ) where
  HasKey : Tick → Type 0
  HasKey t = (holds id (now + cooldown_ms) t.claims ≡ true) ⊎ (any (is_of id) t.alerts ≡ false)

  claim_and_publish-HasKey :
      (a : Asset) (o : Option Reason) (t : Tick)
      → HasKey t
      → HasKey (claim_and_publish publishes now a o t)
  unfolding HasKey
  claim_and_publish-HasKey a none t h = h
  claim_and_publish-HasKey a (some r) t h = ground arith

  scan_assets-HasKey :
      (assets : List Asset) (t : Tick) → HasKey t → HasKey (scan_assets publishes now assets t)
  unfolding scan_assets scan_asset
  scan_assets-HasKey [] t h = h
  scan_assets-HasKey (a ∷ assets) t h =
      scan_assets-HasKey assets (scan_asset publishes now a t) (elim (Bool-cases (is_watched a)) [
        | inl w ↦ rw w (claim_and_publish-HasKey a (reason_of now a) t h)
        | inr w ↦ rw w h
      ])

  scan-HasKey :
      (hour : ℕ) (assets : List Asset) (claims : List Key)
      → HasKey (scan publishes now hour assets claims)
  unfolding scan HasKey
  scan-HasKey hour assets claims = elim (Bool-cases (ltb hour 6 || leb 22 hour)) [
    | inl e ↦ rw e (inr refl)
    | inr e ↦ rw e (scan_assets-HasKey assets (record { claims = claims; alerts = [] }) (inr refl))
  ]

  -- After an alert for a device no scan of the next six hours raises another for it, whatever the
  -- devices of then are and whichever events go through.
  cooldown_holds :
      (hour : ℕ) (assets : List Asset) (claims : List Key) (rs : List Round)
      → any (is_of id) (scan publishes now hour assets claims).alerts ≡ true
      → All {0, 0} (λ r. r.now < now + cooldown_ms) rs
      → any (is_of id) (run_scans rs (scan publishes now hour assets claims).claims) ≡ false
  unfolding HasKey
  cooldown_holds hour assets claims rs h early = elim (scan-HasKey hour assets claims) [
    | inl k ↦
        run_scans_quiet id (now + cooldown_ms) rs (scan publishes now hour assets claims).claims k
          early
    | inr k ↦ cc
  ]
