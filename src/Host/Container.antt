-- ===== src/Host/Container.antt =====
-- currentContainerID and containerIDFromCgroup of internal/hostpath.go.
pub mod Digits
use aurforge.Common.{
  ℕ, zero, suc, ◌+◌, Text, codes, text_eq, Bool, true, false, ◌&&◌, ◌||◌, List, [], ◌∷◌, Option,
  none, some, if◌then◌else◌, and_then, drop, length, leb, map, split, trim_suffix,
}
use mathlib.Core.List.{reverse}
use aurforge.Import.Local.{lower}

-- [0-9a-f] where (?i) stands in front.
abbrev pub is_hex : ℕ → Bool
is_hex c = leb b'0' c && leb c b'9' || leb b'a' (lower c) && leb (lower c) b'f'

unfoldable pub take : ℕ → Text → Text
take zero s = []
take (suc n) [] = []
take (suc n) (c ∷ s) = c ∷ take n s

-- (?:\.scope)?$, of a text that is read from its end.
unfoldable pub without_scope : Text → Text
unfolding take text_eq
without_scope backwards =
    if text_eq (map lower (take 6 backwards)) (codes "epocs.") then drop 6 backwards else backwards

-- ([0-9a-f]{12,64}), read from its end: the digits, at most so many, that stand there.
unfoldable pub hex_digits : ℕ → Text → Text
hex_digits zero s = []
hex_digits (suc n) [] = []
hex_digits (suc n) (c ∷ s) = let rest = hex_digits n s in if is_hex c then c ∷ rest else []

-- The group of the first match of containerIDPattern, which is bound to the end of the segment. The
-- prefix in the pattern may be absent, so the group does not depend on it.
unfoldable pub id_in_segment : Text → Option Text
unfolding without_scope hex_digits
id_in_segment segment =
    let found = hex_digits 64 (without_scope (reverse segment)) in
    if leb 12 (length found) then some (reverse found) else none

-- The first of two that is found.
abbrev pub or_else : Option Text → Option Text → Option Text
or_else none o = o
or_else (some id) o = some id

unfoldable pub first_id : List Text → Option Text
unfolding id_in_segment
first_id [] = none
first_id (segment ∷ segments) = or_else (id_in_segment segment) (first_id segments)

abbrev pub last_of : Text → List Text → Text
last_of part [] = part
last_of part (p ∷ ps) = last_of p ps

-- The part behind the last colon, where there are two of them.
abbrev pub payload_of : Text → List Text → Text
payload_of line (p ∷ q ∷ r ∷ ps) = last_of r ps
payload_of line _ = line

unfoldable pub id_in_lines : List Text → Option Text
unfolding first_id split
id_in_lines [] = none
id_in_lines (line ∷ lines) =
    or_else (first_id (split b'/' (payload_of line (split b':' line)))) (id_in_lines lines)

-- A carriage return at the end of a line is not part of it.
unfoldable pub container_id_from_cgroup : Option Text → Option Text
unfolding id_in_lines trim_suffix
container_id_from_cgroup printed =
    and_then printed (λ text. id_in_lines (map (trim_suffix (13 ∷ [])) (split 10 text)))

abbrev pub host_name : Option Text → Option Text
host_name none = none
host_name (some []) = none
host_name (some (c ∷ name)) = some (c ∷ name)

-- `cgroup` is what reading /proc/self/cgroup returns, and `hostname` what os.Hostname does.
unfoldable pub current_container_id : Option Text → Option Text → Option Text
unfolding container_id_from_cgroup
current_container_id cgroup hostname =
    or_else (container_id_from_cgroup cgroup) (host_name hostname)
