-- ===== src/Container/Classify.antt =====
-- src/backend/linux/CgroupParse.h: the chain of containers that a path is in, from the outermost to the
-- innermost.
pub mod Chain
pub mod Path
use qiftop.Common.{
  ℕ, zero, suc, ◌+◌, ◌-◌, ◌≡◌, Bool, true, false, not, ◌&&◌, ◌||◌, List, [], ◌∷◌, ◌++◌, Option,
  none, some, leb, ltb, if◌then◌else◌, ◌==◌, nat_eq, list_eq, length, take, drop,
}
use qiftop.Flow.Types.{Text, ContainerInfo, is_empty}
use qiftop.Flow.Wire.{utf16}
use qiftop.Container.Text.{
  map_option, strip_prefix, strip_suffix, all_of, is_between, is_hex, is_pod_char, is_name_char,
  longest, split,
}

pub data CgroupHint : Type 0 where
  auto prefer_crio : CgroupHint

abbrev pub and_then {ℓ κ} : {A : Type ℓ} {B : Type κ} → Option A → (A → Option B) → Option B
and_then none f = none
and_then (some x) f = f x

abbrev pub or_else {ℓ} : {A : Type ℓ} → Option A → Option A → Option A
or_else none y = y
or_else (some x) y = some x

-- A text that passes a test.
abbrev pub checked : (Text → Bool) → Text → Option Text
checked p s = if p s then some s else none

abbrev pub some_name : Text → Bool
some_name s = not (is_empty s)

abbrev pub lxd_name : Text → Bool
lxd_name s = some_name s && all_of (λ c. is_name_char c && not (c == b'.')) s

abbrev pub is_hex64 : Text → Bool
is_hex64 s = length s == 64 && all_of is_hex s

abbrev pub is_pod_uid : Text → Bool
is_pod_uid s = leb 32 (length s) && leb (length s) 72 && all_of is_pod_char s

abbrev is_unit_char : ℕ → Bool
is_unit_char c =
    is_between b'A' b'Z' c
    || is_between b'a' b'z' c
    || is_between b'0' b'9' c
    || c == b'@'
    || c == b'_'
    || c == b'.'
    || c == b'-'

-- `^prefix(...)suffix$`
abbrev pub captured : Text → Text → (Text → Bool) → Text → Option Text
captured prefix suffix p s =
    and_then (strip_prefix prefix s) (λ rest. and_then (strip_suffix suffix rest) (checked p))

-- `left(12)` of a number, and a name in full.
abbrev pub numbered : Text → Text → ContainerInfo
numbered runtime id = record { runtime = runtime; id = take 12 id; name = [] }

abbrev pub named : Text → Text → ContainerInfo
named runtime id = record { runtime = runtime; id = id; name = [] }

abbrev pub is_long : Text → Bool
is_long s = leb 32 (length s)

-- `pod([0-9a-fA-F_-]{32,72})`, the first place where it matches.
pub pod_within : Text → Option Text
pod_within [] = none
pod_within (x ∷ xs) =
    let here =
      and_then (strip_prefix (utf16 "pod") (x ∷ xs))
        (λ rest. checked is_long (longest is_pod_char 72 rest)) in
    or_else here (pod_within xs)

-- A segment holds no newline, since extractPath reads single lines; only there would `$` and `.` of
-- the patterns differ from what is said here.
pub classify_segment : Text → Option ContainerInfo
unfolding pod_within
classify_segment seg =
    let scope = utf16 ".scope" in
    or_else
      (map_option (numbered (utf16 "containerd"))
        (captured (utf16 "cri-containerd-") scope is_hex64 seg))
      (or_else (map_option (numbered (utf16 "cri-o")) (captured (utf16 "crio-") scope is_hex64 seg))
        (or_else
          (map_option (numbered (utf16 "docker")) (captured (utf16 "docker-") scope is_hex64 seg))
          (or_else
            (map_option (numbered (utf16 "podman")) (captured (utf16 "libpod-") scope is_hex64 seg))
            (or_else
              (map_option (numbered (utf16 "podman")) (captured (utf16 "libpod-") [] is_hex64 seg))
              (or_else
                (map_option (named (utf16 "lxd"))
                  (captured (utf16 "lxd-") (utf16 ".service") lxd_name seg))
                (or_else
                  (map_option (named (utf16 "nspawn"))
                    (captured (utf16 "machine-") scope some_name seg))
                  (or_else
                    (map_option (named (utf16 "nspawn"))
                      (captured (utf16 "systemd-nspawn@") (utf16 ".service") some_name seg))
                    (or_else
                      (map_option (numbered (utf16 "kubernetes"))
                        (captured (utf16 "pod") [] is_pod_uid seg))
                      (map_option (numbered (utf16 "kubernetes")) (pod_within seg))))))))))

abbrev pub leaf_runtime : CgroupHint → Text
leaf_runtime auto = utf16 "containerd"
leaf_runtime prefer_crio = utf16 "cri-o"

-- What a segment is; `prev` is `prevRuntime`.
pub classify_in : CgroupHint → Text → Text → Option ContainerInfo
unfolding classify_segment
classify_in hint prev seg = or_else (classify_segment seg) (
    if prev == utf16 "kubernetes"
    then map_option (numbered (leaf_runtime hint)) (checked is_hex64 seg)
    else none)

abbrev runtime_of : Option ContainerInfo → Text
runtime_of none = []
runtime_of (some ci) = ci.runtime

abbrev pub prepend {ℓ} : {A : Type ℓ} → Option A → List A → List A
prepend none xs = xs
prepend (some x) xs = x ∷ xs

-- The loop over the segments.
pub classify_segments : CgroupHint → Text → List Text → List ContainerInfo
unfolding classify_in
classify_segments hint prev [] = []
classify_segments hint prev (seg ∷ segs) =
    let found = classify_in hint prev seg in
    prepend found (classify_segments hint (runtime_of found) segs)

abbrev pub ends_segment : Text → Bool
ends_segment [] = true
ends_segment (x ∷ xs) = x == b'/'

-- `/docker/([0-9a-f]{64})(?:/|$)` at the start of a text.
pub docker_here : Text → Option Text
docker_here s =
    and_then (strip_prefix (utf16 "/docker/") s)
      (λ rest. if ends_segment (drop 64 rest) then checked is_hex64 (take 64 rest) else none)

-- The characters behind the first that a match takes: the number, and the slash behind it.
pub docker_skip : Option Text → Text → ℕ
docker_skip none s = 0
docker_skip (some id) s = if is_empty (drop 72 s) then 71 else 72

-- `globalMatch`: the number of characters that the match before takes of what is left, and what is left.
pub docker_legacy : ℕ → Text → List ContainerInfo
unfolding docker_here docker_skip
docker_legacy n [] = []
docker_legacy (suc n) (x ∷ xs) = docker_legacy n xs
docker_legacy zero (x ∷ xs) =
    let here = docker_here (x ∷ xs) in
    prepend (map_option (numbered (utf16 "docker")) here)
      (docker_legacy (docker_skip here (x ∷ xs)) xs)

-- `[./]([^/\s]+)`
pub lxc_name : Text → Option Text
lxc_name [] = none
lxc_name (x ∷ xs) =
    if x == b'.' || x == b'/' then checked some_name (longest is_name_char (length xs) xs) else none

-- `/lxc(?:\.payload)?[./]([^/\s]+)`, the first place where it matches.
pub lxc_within : Text → Option Text
unfolding lxc_name
lxc_within [] = none
lxc_within (x ∷ xs) =
    let here = and_then (strip_prefix (utf16 "/lxc") (x ∷ xs)) (λ rest.
      or_else (and_then (strip_prefix (utf16 ".payload") rest) lxc_name) (lxc_name rest)) in
    or_else here (lxc_within xs)

abbrev unit_stem : Text → Bool
unit_stem s = not (is_empty s) && all_of is_unit_char s

-- A segment that is the name of a unit of systemd.
pub is_unit : Text → Bool
is_unit seg = ends_in (utf16 ".service") || (ends_in (utf16 ".socket") || ends_in (utf16 ".mount"))
  where
    ends_in : Text → Bool
    ends_in suffix = is_found (and_then (strip_suffix suffix seg) (checked unit_stem))
      where
        is_found : Option Text → Bool
        is_found none = false
        is_found (some s) = true

-- The last of the segments that is a unit.
pub last_unit : List Text → Option Text
unfolding is_unit
last_unit [] = none
last_unit (seg ∷ segs) = or_else (last_unit segs) (checked is_unit seg)

abbrev pub has_segment : Text → List Text → Bool
has_segment s [] = false
has_segment s (x ∷ xs) = x == s || has_segment s xs

abbrev pub to_list {ℓ} : {A : Type ℓ} → Option A → List A
to_list none = []
to_list (some x) = x ∷ []

-- `if (chain.isEmpty()) ...`
abbrev pub if_empty : List ContainerInfo → List ContainerInfo → List ContainerInfo
if_empty [] more = more
if_empty (c ∷ cs) more = c ∷ cs

pub unit_of : List Text → List ContainerInfo
unfolding last_unit
unit_of segments =
    if has_segment (utf16 "user.slice") segments
    then []
    else to_list
        (map_option (λ s. named (utf16 "systemd") (utf16 "unit:" ++ s)) (last_unit segments))

-- The chain before its depth is limited.
pub whole_chain : Text → CgroupHint → List ContainerInfo
unfolding classify_segments docker_legacy lxc_within unit_of
whole_chain path hint =
    let segments = split b'/' path in
    if_empty (classify_segments hint [] segments) (
      if_empty (docker_legacy 0 path) (
        if_empty (to_list (map_option (named (utf16 "lxc")) (lxc_within path))) (unit_of segments)))

abbrev pub max_container_chain_depth : ℕ
max_container_chain_depth = 16

unfoldable pub classify_path_chain : Text → CgroupHint → List ContainerInfo
unfolding whole_chain
classify_path_chain path hint =
    let chain = whole_chain path hint in
    if is_empty path || (path == utf16 "/" || path == utf16 "/init.scope")
    then []
    else drop (length chain - max_container_chain_depth) chain

pub last {ℓ} : {A : Type ℓ} → List A → Option A
last [] = none
last (x ∷ []) = some x
last (x ∷ y ∷ ys) = last (y ∷ ys)

pub classify_path : Text → CgroupHint → Option ContainerInfo
unfolding last classify_path_chain
classify_path path hint = last (classify_path_chain path hint)

-- A line of /proc/<pid>/cgroup, split at its first two colons: the controllers, and the path.
pub fields_of : Text → Option (Text × Text)
fields_of line = and_then (at_colon line) (λ first. at_colon first.1)
  where
    at_colon : Text → Option (Text × Text)
    at_colon [] = none
    at_colon (x ∷ xs) =
        let rest = map_option (λ f. (x ∷ f.0, f.1)) (at_colon xs) in
        if x == b':' then some ([], xs) else rest

-- The loop over the lines.
pub path_of_lines : Text → List Text → Text
unfolding fields_of
path_of_lines fallback [] = fallback
path_of_lines fallback (line ∷ lines) = elim (fields_of line) [
  | none ↦ path_of_lines fallback lines
  | some f ↦
      let rest = path_of_lines (if is_empty fallback then f.1 else fallback) lines in
      if is_empty f.0 then f.1 else rest
]

pub extract_path : Text → Text
unfolding path_of_lines
extract_path contents = path_of_lines [] (split 10 contents)

pub classify_proc_cgroup_chain : Text → CgroupHint → List ContainerInfo
unfolding extract_path classify_path_chain
classify_proc_cgroup_chain contents hint = classify_path_chain (extract_path contents) hint

pub classify_proc_cgroup : Text → CgroupHint → Option ContainerInfo
unfolding extract_path classify_path
classify_proc_cgroup contents hint = classify_path (extract_path contents) hint
