-- ===== src/Service/Permissions.antt =====
-- What `drop_permissions` of src/server/worker.cpp leaves a process of root.
use fcgi_cpp_appserver.Common.{ℕ, ◌≡◌, refl, Option, none, some, arith}
use fcgi_cpp_appserver.Common.Bytes.{Bytes, codes}
use fcgi_cpp_appserver.Common.Dict.{or_else}
use fcgi_cpp_appserver.Service.{Ids, setuid, setgid, left_as, crashes, drop_permissions}

abbrev pub root : Ids
root = record { uid = 0; gid = 0 }

setgid-setuid : (u g : ℕ) → ¬ (u ≡ 0) → setgid g (setuid u root) ≡ record { uid = u; gid = 0 }
unfolding setuid setgid
setgid-setuid u g h = ground (arith, h)

dropped :
    (nobody nogroup : Option ℕ) (u : ℕ)
    → nobody ≡ some u
    → ¬ (u ≡ 0)
    → (elim nobody [
      | none ↦ left_as root
      | some v ↦ elim nogroup [ none ↦ crashes | some g ↦ left_as (setgid g (setuid v root)) ]
    ])
      ≡ (elim nogroup [ none ↦ crashes | some g ↦ left_as (record { uid = u; gid = 0 }) ])
dropped nobody none u e h = rw e refl
dropped nobody (some g) u e h = rw (e, setgid-setuid u g h) refl

-- Where one of the two users is known and is not root, a process of root gives up its user, and keeps the
-- group of root, as `setgid` comes too late; and it crashes where neither group is known.
pub drop_permissions-group :
    (getpwnam getgrnam : Bytes → Option ℕ) (u : ℕ)
    → or_else (getpwnam (codes "www-data")) (getpwnam (codes "nobody")) ≡ some u
    → ¬ (u ≡ 0)
    → drop_permissions getpwnam getgrnam root
      ≡ (elim (or_else (getgrnam (codes "www-data")) (getgrnam (codes "nogroup"))) [
        | none ↦ crashes
        | some g ↦ left_as (record { uid = u; gid = 0 })
      ])
unfolding drop_permissions
drop_permissions-group getpwnam getgrnam u e h = dropped _ _ u e h
