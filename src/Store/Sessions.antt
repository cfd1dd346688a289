-- ===== src/Store/Sessions.antt =====
-- internal/store/memory.go: admins and their sessions.
pub mod Revocation
use v2ray_platform.Base.{String, not, ◌||◌, Option, none, some, ◌==◌, if◌then◌else◌, is_some}
use v2ray_platform.Base.Result.{Result, ok, err, not_found}
use v2ray_platform.Base.Text.{trim_space, to_lower}
use v2ray_platform.Maps.{lookup, insert, update_all, find_entry}
use v2ray_platform.Domain.{Time, Admin, AdminSession}
use v2ray_platform.Store.State.{MemoryStore, Method, Env, new_id}
use v2ray_platform.Store.Members.{found_value}

unfoldable pub ensure_found :
    Env → String → String → MemoryStore → Option (String × Admin) → Result Admin × MemoryStore
unfolding new_id
ensure_found e email password_hash s (some (k, admin)) = (ok admin, s)
ensure_found e email password_hash s none =
    let admin : Admin = record {
      id = new_id e "admin" 0;
      email = email;
      password_hash = password_hash;
      created_at = e.clock 0;
      updated_at = e.clock 0;
    } in
    (ok admin, record s { admins = insert admin.id admin s.admins })

unfoldable pub ensure_admin : Env → String → String → Method Admin
unfolding ensure_found
ensure_admin e email password_hash s =
    let email' = to_lower (trim_space email) in
    ensure_found e email' password_hash s (find_entry (λ a. a.email == email') s.admins)

unfoldable pub find_admin_by_email : String → MemoryStore → Result Admin
unfolding found_value
find_admin_by_email email s =
    found_value (find_entry (λ a. a.email == to_lower (trim_space email)) s.admins)

unfoldable pub create_admin_session : Env → String → Time → Method AdminSession
unfolding new_id
create_admin_session e admin_id expires_at s =
    let session : AdminSession = record {
      id = new_id e "sess" 0;
      admin_id = admin_id;
      expires_at = expires_at;
      revoked_at = none;
      last_seen_at = none;
      created_at = e.clock 0;
      updated_at = e.clock 0;
    } in
    (ok session, record s { admin_sessions = insert session.id session s.admin_sessions })

-- no session is no error
unfoldable pub get_admin_session : String → MemoryStore → Result (Option AdminSession)
get_admin_session session_id s = ok (lookup session_id s.admin_sessions)

unfoldable pub change_session :
    (AdminSession → AdminSession)
    → String
    → MemoryStore
    → Option AdminSession
    → Result (Unit {0}) × MemoryStore
change_session f session_id s none = (err not_found, s)
change_session f session_id s (some session) =
    (ok tt, record s { admin_sessions = insert session_id (f session) s.admin_sessions })

unfoldable pub touch_admin_session : String → Time → Method (Unit {0})
unfolding change_session
touch_admin_session session_id seen_at s =
    change_session (λ x. record x { last_seen_at = some seen_at; updated_at = seen_at }) session_id
      s (lookup session_id s.admin_sessions)

unfoldable pub revoked : Time → AdminSession → AdminSession
revoked now x = record x { revoked_at = some now; updated_at = now }

unfoldable pub revoke_admin_session : Env → String → Method (Unit {0})
unfolding change_session revoked
revoke_admin_session e session_id s =
    change_session (revoked (e.clock 0)) session_id s (lookup session_id s.admin_sessions)

-- a session of another admin, or one revoked before, stays as it is
unfoldable pub revoke_admin_sessions : Env → String → Method (Unit {0})
unfolding revoked
revoke_admin_sessions e admin_id s = (
  ok tt,
  record s {
    admin_sessions =
        update_all
          (λ x.
            if not (x.admin_id == admin_id) || is_some x.revoked_at
            then x
            else revoked (e.clock 0) x)
          s.admin_sessions;
  },
)

unfoldable pub revoke_all_admin_sessions : Env → Method (Unit {0})
unfolding revoked
revoke_all_admin_sessions e s = (
  ok tt,
  record s {
    admin_sessions =
        update_all (λ x. if is_some x.revoked_at then x else revoked (e.clock 0) x)
          s.admin_sessions;
  },
)
