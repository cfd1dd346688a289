-- ===== src/Api/Limits.antt =====
-- The pages that a request can ask for.
use v2ray_platform.Base.{◌≡◌, true, arith}
use v2ray_platform.Base.Int64.{Int64, lt64, le64, bias}
use v2ray_platform.Api.{parse_page}

-- Whatever numbers a request gives, the page is 1 or more, and the limit is from 1 to 200.
pub parse_page-le64 :
    (page limit : Int64)
    → (le64 1 (parse_page page limit).0 ≡ true)
      × (le64 1 (parse_page page limit).1 ≡ true)
      × (le64 (parse_page page limit).1 200 ≡ true)
unfolding parse_page lt64 le64 bias
parse_page-le64 page limit = (ground arith, ground arith, ground arith)
