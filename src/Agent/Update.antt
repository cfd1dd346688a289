-- ===== src/Agent/Update.antt =====
-- cmd/node-agent/main.go: the update of the agent's own program.
pub mod Digest
use Prim.Native.String.{◌++◌}
use v2ray_platform.Base.{String, Bool, List, [], ◌∷◌, not, eqb, if◌then◌else◌}
use v2ray_platform.Base.Text.{trim_suffix, equal_fold}
use v2ray_platform.Base.Split.{split}
use v2ray_platform.Base.Decimal.{format_int}
use v2ray_platform.Base.Result.{Error, message, error_text, Result, ok, err}
use v2ray_platform.Agent.{HttpResponse, Machine, Library}
use v2ray_platform.Agent.Counters.{last_field}

-- `replaced` is the program that runs after `syscall.Exec`, which does not return.
pub data Update : Type 0 where
  up_to_date replaced : Update
  failed : Error → Update

abbrev pub failed_at : String → Error → Update
failed_at step e = failed (message (step ++ (": " ++ error_text e)))

-- the directory of a path
unfoldable pub dir_of : String → String
dir_of path = trim_suffix path ("/" ++ last_field (split b'/' path))

module _ {W : Type 0} (m : Machine W) (k : Library) where
  unfoldable pub digest_of : Result String → Result String
  digest_of (err e) = err e
  digest_of (ok bytes) = ok (k.md5_hex bytes)

  unfoldable pub self_md5_of : Result String → W → Result String
  unfolding digest_of
  self_md5_of (err e) w = err e
  self_md5_of (ok exe) w = digest_of (m.read_bytes exe w)

  -- `selfMD5`
  unfoldable pub self_md5 : W → Result String
  unfolding self_md5_of
  self_md5 w = self_md5_of (m.executable w) w

  module _ (remote_md5 download_url : String) where
    -- The temporary file is removed on every return after it is made.
    unfoldable pub executed : String → Result (Unit {0}) × W → Update × W
    executed tmp (err e, w) = (failed_at "re-exec" e, m.remove tmp w)
    executed tmp (ok _, w) = (replaced, w)

    unfoldable pub renamed : String → String → Result (Unit {0}) × W → Update × W
    unfolding executed
    renamed exe tmp (err e, w) = (failed_at "replace binary" e, m.remove tmp w)
    renamed exe tmp (ok _, w) = executed tmp (m.exec exe w)

    unfoldable pub made_executable : String → String → Result (Unit {0}) × W → Update × W
    unfolding renamed
    made_executable exe tmp (err e, w) = (failed_at "chmod temp file" e, m.remove tmp w)
    made_executable exe tmp (ok _, w) = renamed exe tmp (m.rename tmp exe w)

    unfoldable pub temp_written : String → String → String → Result (Unit {0}) × W → Update × W
    unfolding made_executable
    temp_written exe tmp body (err e, w) = (failed_at "write temp file" e, m.remove tmp w)
    temp_written exe tmp body (ok _, w) =
        if not (equal_fold (k.md5_hex body) remote_md5)
        then (
          failed (
              message (
                "self-update MD5 mismatch: expected "
                ++ (remote_md5 ++ (" got " ++ k.md5_hex body)))),
          m.remove tmp w,
        )
        else made_executable exe tmp (m.chmod tmp w)

    unfoldable pub temp_created : String → String → Result String × W → Update × W
    unfolding temp_written
    temp_created exe body (err e, w) = (failed_at "create temp file" e, w)
    temp_created exe body (ok tmp, w) = temp_written exe tmp body (m.write_temp tmp body w)

    -- The second attempt is in the system's directory for temporary files.
    unfoldable pub temp_beside : String → String → Result String × W → Update × W
    unfolding temp_created
    temp_beside exe body (err e, w) = temp_created exe body (m.create_temp "" w)
    temp_beside exe body (ok tmp, w) = temp_created exe body (ok tmp, w)

    unfoldable pub located : String → Result String → W → Update × W
    unfolding temp_beside dir_of
    located body (err e) w = (failed_at "resolve executable path" e, w)
    located body (ok exe) w = temp_beside exe body (m.create_temp (dir_of exe) w)

    unfoldable pub downloaded : Result HttpResponse × W → Update × W
    unfolding located
    downloaded (err e, w) = (failed_at "download agent" e, w)
    downloaded (ok response, w) =
        if not (eqb response.status_code 200)
        then (failed (message ("download agent: HTTP " ++ format_int response.status_code)), w)
        else located response.body (m.executable w) w

    unfoldable pub compared : Result String → W → Update × W
    unfolding downloaded
    compared (err e) w = (failed_at "compute self MD5" e, w)
    compared (ok current) w =
        if equal_fold current remote_md5
        then (up_to_date, w)
        else downloaded (m.download download_url w)

    -- `maybeSelfUpdate`
    unfoldable pub maybe_self_update : W → Update × W
    unfolding compared self_md5
    maybe_self_update w = compared (self_md5 w) w
