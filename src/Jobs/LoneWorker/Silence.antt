-- ===== src/Jobs/LoneWorker/Silence.antt =====
-- What becomes of a device whose event does not go through.
use fleex.Common.Keys.{Key, is_claimed, holds}
use fleex.Common.{
  any-append, ℕ, ◌+◌, ◌<◌, ◌≡◌, refl, Bool, true, false, ◌||◌, Option, none, some, List, [], ◌∷◌,
  any, ltb, leb, ◌==◌, arith, All, Bool-cases, inl, inr, ◌⊎◌, ◌∙◌, ap₂, ap, sym,
}
use mathlib.Core.List.{Memᴰ}
use fleex.Jobs.LoneWorker.{
  Asset, Tick, Reason, cooldown_ms, reason_of, is_watched, claim_and_publish, scan_asset,
  scan_assets, scan, Round, run_scans,
}
use fleex.Jobs.LoneWorker.Cooldown.{is_of, IsQuiet, scan_assets-IsQuiet, run_scans_quiet}

-- A scan in progress, of a device whose events do not go through.
module _ (publishes : ℕ → Bool) (now id : ℕ) (fails : publishes id ≡ false) where
  -- No alert is for the device, and its key is free or lasts for the whole time.
  IsUnheard : Tick → Type 0
  IsUnheard t =
      ((is_claimed now id t.claims ≡ false) ⊎ (holds id (now + cooldown_ms) t.claims ≡ true))
      × (any (is_of id) t.alerts ≡ false)

  claim_and_publish-IsUnheard :
      (a : Asset) (o : Option Reason) (t : Tick)
      → IsUnheard t
      → IsUnheard (claim_and_publish publishes now a o t)
  unfolding IsUnheard
  claim_and_publish-IsUnheard a none t h = h
  claim_and_publish-IsUnheard a (some r) t h = elim (Bool-cases (a.id == id)) [
    | inl e ↦
        let same : a.id ≡ id = ground (arith, e) in
        let lost : publishes a.id ≡ false = ap publishes same ∙ fails in ground (arith, h, e, lost)
    | inr e ↦ ground (arith, h, e)
  ]

  scan_asset-IsUnheard :
      (a : Asset) (t : Tick) → IsUnheard t → IsUnheard (scan_asset publishes now a t)
  unfolding scan_asset
  scan_asset-IsUnheard a t h = elim (Bool-cases (is_watched a)) [
    | inl w ↦ rw w (claim_and_publish-IsUnheard a (reason_of now a) t h)
    | inr w ↦ rw w h
  ]

  claim_and_publish-IsQuiet_here :
      (a : Asset) (r : Reason) (t : Tick)
      → a.id ≡ id
      → IsUnheard t
      → IsQuiet id (now + cooldown_ms) (claim_and_publish publishes now a (some r) t)
  unfolding IsUnheard
  claim_and_publish-IsQuiet_here a r t same h =
      let lost : publishes a.id ≡ false = ap publishes same ∙ fails in
      let mine : (a.id == id) ≡ true = ground (arith, same) in
      let key : is_claimed now a.id t.claims ≡ is_claimed now id t.claims =
        ap (λ i. is_claimed now i t.claims) same in
      ground (arith, h, lost, mine, key)

  unheard_scan :
      (a : Asset) (r : Reason) {assets : List Asset} (t : Tick)
      → a.id ≡ id
      → is_watched a ≡ true
      → reason_of now a ≡ some r
      → Memᴰ a assets
      → IsUnheard t
      → IsQuiet id (now + cooldown_ms) (scan_assets publishes now assets t)
  unfolding scan_assets scan_asset
  unheard_scan a r t same w e (Memᴰ.head {x} {xs} p) h =
      let w' : is_watched x ≡ true = ap is_watched (sym p) ∙ w in
      let e' : reason_of now x ≡ some r = ap (reason_of now) (sym p) ∙ e in
      let here = claim_and_publish-IsQuiet_here x r t (ap (λ v. v.id) (sym p) ∙ same) h in
      scan_assets-IsQuiet id (now + cooldown_ms) publishes now xs (scan_asset publishes now x t)
        (omega arith) (rw w' (rw e' here))
  unheard_scan a r t same w e (Memᴰ.tail {x} m) h =
      unheard_scan a r (scan_asset publishes now x t) same w e m (scan_asset-IsUnheard x t h)

  -- A device at risk without a key, whose event cannot be stored or published, is not reported
  -- then and not in the next six hours either, though it stays at risk and later events would go
  -- through.
  failed_publish_silences :
      (a : Asset) (r : Reason) (hour : ℕ) (assets : List Asset) (claims : List Key)
      (rs : List Round)
      → a.id ≡ id
      → Memᴰ a assets
      → is_watched a ≡ true
      → reason_of now a ≡ some r
      → (ltb hour 6 || leb 22 hour) ≡ false
      → is_claimed now id claims ≡ false
      → All {0, 0} (λ q. q.now < now + cooldown_ms) rs
      → let first : Round = record {
        now = now;
        hour = hour;
        assets = assets;
        publishes = publishes;
      } in
        any (is_of id) (run_scans (first ∷ rs) claims) ≡ false
  unfolding run_scans scan IsUnheard
  failed_publish_silences a r hour assets claims rs same m w e shift free early =
      let start : Tick = record { claims = claims; alerts = [] } in
      let t = scan_assets publishes now assets start in
      let (key, quiet) = unheard_scan a r start same w e m (inl free, refl) in
      rw shift (
        any-append (is_of id) t.alerts (run_scans rs t.claims)
        ∙ ap₂ (◌||◌) quiet (run_scans_quiet id (now + cooldown_ms) rs t.claims key early))
