-- ===== src/Agent/Update/Digest.antt =====
-- cmd/node-agent/main.go: the program is replaced only by one with the digest that was announced.
use v2ray_platform.Base.{String, ◌≡◌, refl, false, eqb, Bool-cases, inl, inr, ◌≢◌}
use v2ray_platform.Base.Text.{equal_fold}
use v2ray_platform.Base.Result.{Error, Result, ok, err}
use v2ray_platform.Agent.{HttpResponse, Machine, Library}
use v2ray_platform.Agent.Update.{
  Update, replaced, failed, dir_of, temp_written, temp_created, temp_beside, located, downloaded,
  compared, maybe_self_update, self_md5,
}

-- What the download, the making and writing of temporary files, and their removal leave as it is.
pub record IsKept {W : Type 0} (m : Machine W) (P : W → Type 0) : Type 0 where
  pub download-kept : (url : String) (w : W) → P w → P (m.download url w).1
  pub create_temp-kept : (dir : String) (w : W) → P w → P (m.create_temp dir w).1
  pub write_temp-kept : (tmp body : String) (w : W) → P w → P (m.write_temp tmp body w).1
  pub remove-kept : (tmp : String) (w : W) → P w → P (m.remove tmp w)

module _ {W : Type 0} (m : Machine W) (k : Library) (remote_md5 url : String) (P : W → Type 0)
    (kept : IsKept m P) where
  Safe : Update × W → Type 0
  Safe r = (r.0 ≢ replaced) × P r.1

  failed≢replaced : (e : Error) → failed e ≢ replaced
  failed≢replaced e h = cc

  written-Safe :
      (exe tmp body : String) (r : Result (Unit {0}) × W)
      → equal_fold (k.md5_hex body) remote_md5 ≡ false
      → P r.1
      → Safe (temp_written m k remote_md5 url exe tmp body r)
  unfolding temp_written Safe
  written-Safe exe tmp body (err e, w) wrong h = (failed≢replaced _, kept.remove-kept tmp w h)
  written-Safe exe tmp body (ok tt, w) wrong h =
      rw (wrong) (failed≢replaced _, kept.remove-kept tmp w h)

  created-Safe :
      (exe body : String) (r : Result String × W)
      → equal_fold (k.md5_hex body) remote_md5 ≡ false
      → P r.1
      → Safe (temp_created m k remote_md5 url exe body r)
  unfolding temp_created Safe
  created-Safe exe body (err e, w) wrong h = (failed≢replaced _, h)
  created-Safe exe body (ok tmp, w) wrong h =
      written-Safe exe tmp body (m.write_temp tmp body w) wrong (kept.write_temp-kept tmp body w h)

  beside-Safe :
      (exe body : String) (r : Result String × W)
      → equal_fold (k.md5_hex body) remote_md5 ≡ false
      → P r.1
      → Safe (temp_beside m k remote_md5 url exe body r)
  unfolding temp_beside
  beside-Safe exe body (err e, w) wrong h =
      created-Safe exe body (m.create_temp "" w) wrong (kept.create_temp-kept "" w h)
  beside-Safe exe body (ok tmp, w) wrong h = created-Safe exe body (ok tmp, w) wrong h

  located-Safe :
      (body : String) (r : Result String) (w : W)
      → equal_fold (k.md5_hex body) remote_md5 ≡ false
      → P w
      → Safe (located m k remote_md5 url body r w)
  unfolding located Safe
  located-Safe body (err e) w wrong h = (failed≢replaced _, h)
  located-Safe body (ok exe) w wrong h =
      beside-Safe exe body (m.create_temp (dir_of exe) w) wrong
        (kept.create_temp-kept (dir_of exe) w h)

  downloaded-Safe :
      (r : Result HttpResponse × W)
      → ((response : HttpResponse)
          → r.0 ≡ ok response
          → equal_fold (k.md5_hex response.body) remote_md5 ≡ false)
      → P r.1
      → Safe (downloaded m k remote_md5 url r)
  unfolding downloaded Safe
  downloaded-Safe (err e, w) wrong h = (failed≢replaced _, h)
  downloaded-Safe (ok response, w) wrong h = elim (Bool-cases (eqb response.status_code 200)) [
    | inr bad ↦ rw (bad) (failed≢replaced _, h)
    | inl fine ↦ rw (fine) (located-Safe response.body (m.executable w) w (wrong response refl) h)
  ]

  compared-Safe :
      (r : Result String) (w : W)
      → ((response : HttpResponse)
          → (m.download url w).0 ≡ ok response
          → equal_fold (k.md5_hex response.body) remote_md5 ≡ false)
      → P w
      → Safe (compared m k remote_md5 url r w)
  unfolding compared Safe
  compared-Safe (err e) w wrong h = (failed≢replaced _, h)
  compared-Safe (ok current) w wrong h = elim (Bool-cases (equal_fold current remote_md5)) [
    | inl same ↦ rw (same) ((λ e. cc), h)
    | inr other ↦ rw (other) (downloaded-Safe (m.download url w) wrong (kept.download-kept url w h))
  ]

-- If what the server sends does not have the announced digest, maybeSelfUpdate does not replace the
-- running program, and it keeps every property of the machine that downloads and temporary files
-- keep: it does not rename a file over the program, nor starts one.
pub maybe_self_update-digest :
    {W : Type 0} (m : Machine W) (k : Library) (remote_md5 url : String) (P : W → Type 0) (w : W)
    → IsKept m P
    → ((response : HttpResponse)
        → (m.download url w).0 ≡ ok response
        → equal_fold (k.md5_hex response.body) remote_md5 ≡ false)
    → P w
    → ((maybe_self_update m k remote_md5 url w).0 ≢ replaced)
      × P (maybe_self_update m k remote_md5 url w).1
unfolding maybe_self_update Safe
maybe_self_update-digest m k remote_md5 url P w kept wrong h =
    compared-Safe m k remote_md5 url P kept (self_md5 m k w) w wrong h
