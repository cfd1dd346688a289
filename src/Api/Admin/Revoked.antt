-- ===== src/Api/Admin/Revoked.antt =====
-- internal/api/controlplane.go over internal/auth/session.go and internal/store/memory.go: requests of
-- an admin whose sessions were revoked.
use v2ray_platform.Base.Int64.{Int64}
use v2ray_platform.Base.Result.{Result}
use v2ray_platform.Domain.{Admin}
