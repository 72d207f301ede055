-- ===== src/Tests/Host.antt =====
-- The mounts of the tests of internal/hostpath_test.go.
use aurforge.Common.{
  Text, codes, [], ◌∷◌, none, some, ◌≡◌, refl, List, has_prefix, has_suffix, trim_suffix, ◌⊎◌, ◌≢◌,
  ◌++◌, split, join, text_eq,
}
use aurforge.Host.{
  BindMount, host_path_from_bind_mounts, abs_path, on_host, best_mount, covers, path_has_prefix,
  resolve_host_data_root,
}
use aurforge.Host.Container.{
  current_container_id, container_id_from_cgroup, id_in_lines, first_id, id_in_segment,
  without_scope, hex_digits, take,
}
use aurforge.Host.Container.Digits.{IsId, current_container_id-IsId}
use aurforge.Host.Paths.{
  clean, clean_parts, push_parts, push_part, is_abs, join_path, relative_path, differ,
}
use aurforge.Host.Mounts.{
  IsLongest, host_path_from_bind_mounts-IsLongest, IsDataRoot, resolve_host_data_root-IsDataRoot,
}

abbrev two_mounts : List BindMount
two_mounts =
    record { destination = codes "/var/lib"; source = codes "/wrong" }
    ∷ record { destination = codes "/var/lib/aurforge"; source = codes "/pool/data" }
    ∷ []

cache_path :
    host_path_from_bind_mounts none (codes "/var/lib/aurforge/cache") two_mounts
    ≡ some (codes "/pool/data/cache")
unfolding host_path_from_bind_mounts abs_path best_mount covers path_has_prefix on_host clean
    clean_parts push_parts push_part is_abs join_path relative_path differ has_prefix split join
    text_eq
cache_path = refl

clean_path : clean (codes "/a/./b/../../c//d/") ≡ codes "/c/d"
unfolding clean clean_parts push_parts push_part is_abs has_prefix split join text_eq
clean_path = refl

host_path_from_bind_mounts-IsLongest_example :
    (path : Text) × (best : BindMount) × (abs_path none (codes "/var/lib/aurforge/cache")
      ≡ some path)
    × IsLongest path two_mounts best
    × (on_host path best ≡ some (codes "/pool/data/cache"))
host_path_from_bind_mounts-IsLongest_example =
    host_path_from_bind_mounts-IsLongest none (codes "/var/lib/aurforge/cache")
      (codes "/pool/data/cache") two_mounts cache_path

resolve_host_data_root-IsDataRoot_example :
    IsDataRoot none (codes "/srv/aurforge") (resolve_host_data_root none (codes "/srv/aurforge"))
resolve_host_data_root-IsDataRoot_example =
    resolve_host_data_root-IsDataRoot none (codes "/srv/aurforge")

-- The last line of a container that systemd runs.
abbrev scope_file : Text
scope_file = codes "1:name=x:/" ++ 10 ∷ codes "0::/system.slice/docker-6F1b2c3d4e5f.scope"

scope_id : current_container_id (some scope_file) (some (codes "box")) ≡ some (codes "6F1b2c3d4e5f")
unfolding current_container_id container_id_from_cgroup id_in_lines first_id id_in_segment
    without_scope hex_digits take text_eq split trim_suffix has_suffix has_prefix
scope_id = refl

current_container_id-IsId_example :
    ((container_id_from_cgroup (some scope_file) ≡ some (codes "6F1b2c3d4e5f"))
      × IsId (codes "6F1b2c3d4e5f"))
    ⊎ ((container_id_from_cgroup (some scope_file) ≡ none)
        × (some (codes "box") ≡ some (codes "6F1b2c3d4e5f"))
        × (codes "6F1b2c3d4e5f" ≢ []))
current_container_id-IsId_example =
    current_container_id-IsId (some scope_file) (some (codes "box")) (codes "6F1b2c3d4e5f") scope_id
