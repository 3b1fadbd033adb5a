-- ===== src/Common/Keys.antt =====
-- Keys of Redis that are set with EX and NX: whoever sets one holds it until it expires.
use fleex.Common.Tests.{ltb, leb, ◌==◌}
use fleex.Common.Lists.{any}
use Prim.Native.Nat.{ℕ, ◌<◌}
use mathlib.Core.Path.{◌≡◌}
use mathlib.Core.Bool.{Bool, true, ◌&&◌}
use mathlib.Core.List.{List, [], ◌∷◌}
use native.Mathlib.Omega.{arith}

-- The id in the name of a key, and when it expires.
pub record Key : Type 0 where
  pub id : ℕ
  pub expires_at : ℕ

-- SET with NX fails.
abbrev pub is_claimed : ℕ → ℕ → List Key → Bool
is_claimed now id keys = any (λ c. c.id == id && ltb now c.expires_at) keys

-- There is a key for the id that lasts until the given time.
abbrev pub holds : ℕ → ℕ → List Key → Bool
holds id until keys = any (λ c. c.id == id && leb until c.expires_at) keys

pub holds→is_claimed :
    (id until now : ℕ) (keys : List Key)
    → now < until
    → holds id until keys ≡ true
    → is_claimed now id keys ≡ true
holds→is_claimed id until now [] early h = cc
holds→is_claimed id until now (c ∷ keys) early h =
    ground (arith, holds→is_claimed id until now keys)
