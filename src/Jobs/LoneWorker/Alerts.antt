-- ===== src/Jobs/LoneWorker/Alerts.antt =====
-- What the alerts of a scan are for.
use fleex.Common.Keys.{Key, is_claimed}
use fleex.Common.{
  members, ℕ, ◌≤◌, ◌≡◌, refl, Bool, true, ◌||◌, Option, none, some, List, [], ◌∷◌, ltb, leb, arith,
  All, Bool-cases, inl, inr,
}
use mathlib.Core.List.{Memᴰ}
use fleex.Jobs.LoneWorker.{
  Asset, Alert, Tick, Reason, offline_2h, offline_risk_ms, reason_of, offline_ms, is_claimed,
  is_watched, claim_and_publish, scan_asset, scan_assets, scan,
}

-- Borne out by a device of the list: it is silent for two hours or more, has a driver and is
-- active.
abbrev pub IsSilence : ℕ → Alert → Asset → Type 0
IsSilence now alert a =
    (alert.device_id ≡ a.id)
    × (alert.company_id ≡ a.company_id)
    × (is_watched a ≡ true)
    × (offline_risk_ms ≤ offline_ms now a.last_seen_at)

abbrev pub IsWarranted : ℕ → List Asset → Alert → Type 0
IsWarranted now assets alert =
    (alert.reason ≡ offline_2h) × ((a : Asset) × Memᴰ a assets × IsSilence now alert a)

reason_of-offline :
    (now : ℕ) (a : Asset) (r : Reason)
    → reason_of now a ≡ some r
    → (r ≡ offline_2h) × (offline_risk_ms ≤ offline_ms now a.last_seen_at)
unfolding reason_of
reason_of-offline now a r h = ground arith

module _ (publishes : ℕ → Bool) where
  claim_and_publish-All :
      (now : ℕ) (all : List Asset) (a : Asset) (o : Option Reason) (t : Tick)
      → Memᴰ a all
      → is_watched a ≡ true
      → reason_of now a ≡ o
      → All (IsWarranted now all) t.alerts
      → All (IsWarranted now all) (claim_and_publish publishes now a o t).alerts
  claim_and_publish-All now all a none t m w e h = h
  claim_and_publish-All now all a (some r) t m w e h =
      let (off, silent) = reason_of-offline now a r e in
      elim (Bool-cases (is_claimed now a.id t.claims)) [
        | inl k ↦ rw k h
        | inr k ↦ rw k (elim (Bool-cases (publishes a.id)) [
          | inl p ↦ rw p ((off, (a, m, (refl, refl, w, silent))), h)
          | inr p ↦ rw p h
        ])
      ]

  scan_assets-All :
      (now : ℕ) (all assets : List Asset) (t : Tick)
      → All (λ a. Memᴰ a all) assets
      → All (IsWarranted now all) t.alerts
      → All (IsWarranted now all) (scan_assets publishes now assets t).alerts
  unfolding scan_assets scan_asset
  scan_assets-All now all [] t m h = h
  scan_assets-All now all (a ∷ assets) t (m, ms) h =
      scan_assets-All now all assets (scan_asset publishes now a t) ms
        (elim (Bool-cases (is_watched a)) [
          | inl w ↦ rw w (claim_and_publish-All now all a (reason_of now a) t m w refl h)
          | inr w ↦ rw w h
        ])

  -- Each alert of a scan is for an active device with a driver, of its company, that has been
  -- silent for two hours or more, and has the reason OFFLINE_2H: none is for a device that stands
  -- still and reports.
  pub scan-All-IsWarranted :
      (now hour : ℕ) (assets : List Asset) (claims : List Key)
      → All (IsWarranted now assets) (scan publishes now hour assets claims).alerts
  unfolding scan
  scan-All-IsWarranted now hour assets claims = elim (Bool-cases (ltb hour 6 || leb 22 hour)) [
    | inl e ↦ rw e tt
    | inr e ↦ rw e (
        scan_assets-All now assets assets (record { claims = claims; alerts = [] }) (members assets)
          tt)
  ]
