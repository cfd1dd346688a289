-- ===== src/Monitor/Sweep/Enforced.antt =====
-- internal/ops/monitor.go: what a sweep that succeeds has done to every member.
use v2ray_platform.Base.{ℕ, String, ◌≡◌, false, some, List, map, contains, All, Distinct}
use v2ray_platform.Base.Int64.{Int64}
use v2ray_platform.Base.Result.{Result}
use v2ray_platform.Maps.{Map, keys, lookup}
use v2ray_platform.Domain.{Time, Member, Tier}
use v2ray_platform.Store.State.{MemoryStore, Env}
use v2ray_platform.Monitor.Sweep.{Calendar, verdict}
use v2ray_platform.Monitor.Sweep.Treatment.{Treatment}
use v2ray_platform.Monitor.Sweep.Changed.{swept_member}

module _ (c : Calendar) (envs : ℕ → Env) (now : Time) (totals : Map Int64) (tiers : Map Tier) where
  -- the member is stored as the verdict on it in a store says
  abbrev HasVerdict : MemoryStore → MemoryStore → Member → Type 0
  HasVerdict s t m =
      (at : Time) × (lookup m.id t.members
        ≡ some (swept_member (verdict c now totals tiers s m) at m))

  record Treated (s t : MemoryStore) (ms : List Member) (end : MemoryStore) : Type 0 where
    others :
        (j : String)
        → contains (map (λ m. m.id) ms) j ≡ false
        → lookup j end.members ≡ lookup j t.members
    treated : All (HasVerdict s end) ms

  -- the member is stored as the policies ask for
  abbrev pub Swept : MemoryStore → MemoryStore → Member → Type 0
  Swept s t m =
      (at : Time) × (after : Member) × (lookup m.id t.members ≡ some after)
      × Treatment c now totals tiers s m at after

-- Every member is stored once, under its identifier.
pub record IsKeyed (members : Map Member) : Type 0 where
  pub distinct : Distinct (keys members)
  pub own_keys : All (λ e. e.0 ≡ e.1.id) members
