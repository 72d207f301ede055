-- ===== src/Host.antt =====
-- internal/hostpath.go: the path on the host of a path in the worker's container.
pub mod Paths
pub mod Container
pub mod Mounts
use aurforge.Common.{
  and_then, ℕ, Text, codes, Bool, true, false, ◌||◌, not, ◌&&◌, List, [], ◌∷◌, ◌++◌, Option, none,
  some, ltb, length, if◌then◌else◌, text_eq, has_prefix, split, cut, map, trim_space, trim_suffix,
}
use aurforge.Host.Paths.{clean, is_abs, join_path, relative_path}

pub record BindMount : Type 0 where
  pub destination : Text
  pub source : Text

abbrev pub is_empty : Text → Bool
is_empty [] = true
is_empty (_ ∷ _) = false

unfoldable pub path_has_prefix : Text → Text → Bool
unfolding clean
path_has_prefix path prefix =
    text_eq (clean path) (clean prefix) || has_prefix (clean prefix ++ codes "/") (clean path)

-- The working directory is what os.Getwd returns; `none` is an error.
unfoldable pub abs_path : Option Text → Text → Option Text
unfolding clean is_abs join_path
abs_path working_directory path =
    if is_abs path
    then some (clean path)
    else and_then working_directory (λ directory. some (join_path directory path))

unfoldable pub covers : Text → BindMount → Bool
covers path mount = not (is_empty mount.source) && path_has_prefix path mount.destination

abbrev pub longer : Option BindMount → BindMount → Bool
longer none mount = true
longer (some best) mount = ltb (length best.destination) (length mount.destination)

-- The loop over the mounts, with `best` as it is before.
unfoldable pub best_mount : Text → Option BindMount → List BindMount → Option BindMount
unfolding covers
best_mount path best [] = best
best_mount path best (mount ∷ mounts) =
    best_mount path (if covers path mount && longer best mount then some mount else best) mounts

abbrev pub under_source : Text → Text → Text
under_source source relative =
    if text_eq relative (codes ".") then source else join_path source relative

unfoldable pub on_host : Text → BindMount → Option Text
unfolding relative_path
on_host path best =
    and_then (relative_path best.destination path)
      (λ relative. some (under_source best.source relative))

unfoldable pub host_path_from_bind_mounts : Option Text → Text → List BindMount → Option Text
unfolding abs_path best_mount on_host
host_path_from_bind_mounts working_directory container_path mounts =
    and_then (abs_path working_directory container_path)
      (λ path. and_then (best_mount path none mounts) (on_host path))

-- The lines that docker inspect prints; a carriage return at the end of a line is not part of it.
unfoldable pub mounts_of_lines : List Text → List BindMount
unfolding cut trim_suffix clean
mounts_of_lines [] = []
mounts_of_lines (line ∷ lines) =
    let rest = mounts_of_lines lines in
    elim (cut (9 ∷ []) (trim_suffix (13 ∷ []) line)) [
      | none ↦ rest
      | some (destination, source) ↦
          if is_empty destination || is_empty source
          then rest
          else record { destination = clean destination; source = source } ∷ rest
    ]

abbrev pub unless_no_mounts : List BindMount → Option (List BindMount)
unless_no_mounts [] = none
unless_no_mounts (m ∷ ms) = some (m ∷ ms)

unfoldable pub docker_container_mounts : Option Text → Option (List BindMount)
unfolding mounts_of_lines trim_space
docker_container_mounts printed =
    and_then printed (λ text. unless_no_mounts (mounts_of_lines (split 10 (trim_space text))))

-- The container's id, what docker inspect prints for it and the working directory are arguments.
unfoldable pub host_path_for : Option Text → (Text → Option Text) → Option Text → Text → Option Text
unfolding docker_container_mounts host_path_from_bind_mounts
host_path_for container_id inspect working_directory path = and_then container_id (λ id.
    and_then (docker_container_mounts (inspect id))
      (λ mounts. host_path_from_bind_mounts working_directory path mounts))

-- `source` is what lookupHostPath returns for the data root. The second test of the source is made
-- where the first finds an error only, since it is there for the text of the error.
abbrev pub configured_root : Text → Option Text
configured_root configured = if is_abs configured then some configured else none

unfoldable pub resolve_host_data_root : Option Text → Text → Option Text
unfolding is_abs
resolve_host_data_root none configured =
    if not (is_empty configured) && not (is_abs configured)
    then none
    else configured_root configured
resolve_host_data_root (some source) configured =
    if is_abs source then some source else configured_root configured
