-- ===== src/Container/Classify/Path.antt =====
-- What every chain of containers is like.
use qiftop.Common.{
  ℕ, zero, suc, ◌-◌, ◌≤◌, ◌≡◌, refl, inl, inr, Bool, true, false, ◌||◌, List, [], ◌∷◌, ◌++◌, Option,
  none, some, arith, if◌then◌else◌, ◌==◌, nat_eq, list_eq, length, length-drop, take, drop, All,
  Bool-cases,
}
use qiftop.Flow.Types.{Text, ContainerInfo, container_valid, is_empty}
use qiftop.Flow.Wire.{utf16}
use qiftop.Container.Text.{map_option, strip_prefix, is_name_char, longest, split}
use qiftop.Container.Classify.{
  CgroupHint, auto, prefer_crio, leaf_runtime, ends_segment, has_segment, lxc_name, checked,
  is_hex64, some_name, numbered, named, classify_in, prepend, classify_segments, docker_here,
  docker_legacy, lxc_within, last_unit, to_list, if_empty, unit_of, whole_chain,
  max_container_chain_depth, classify_path_chain,
}
use qiftop.Container.Classify.Chain.{
  IsNamed, Found, Found-or_else, Found-checked, Found-and_then, Found-map, numbered-IsNamed,
  named-IsNamed, hex64-some, some-name, classify_segment-IsNamed,
}

leaf-IsNamed :
    (hint : CgroupHint) (seg : Text)
    → Found IsNamed (map_option (numbered (leaf_runtime hint)) (checked is_hex64 seg))
leaf-IsNamed auto seg =
    Found-map _ IsNamed _ _
      (λ id k. numbered-IsNamed (utf16 "containerd") id refl (hex64-some id k))
      (Found-checked is_hex64 seg)
leaf-IsNamed prefer_crio seg =
    Found-map _ IsNamed _ _ (λ id k. numbered-IsNamed (utf16 "cri-o") id refl (hex64-some id k))
      (Found-checked is_hex64 seg)

Found-if :
    (b : Bool) (x : Option ContainerInfo) → Found IsNamed x → Found IsNamed (if b then x else none)
Found-if true x h = h
Found-if false x h = tt

classify_in-IsNamed :
    (hint : CgroupHint) (prev seg : Text) → Found IsNamed (classify_in hint prev seg)
unfolding classify_in
classify_in-IsNamed hint prev seg =
    Found-or_else IsNamed _ _ (classify_segment-IsNamed seg)
      (Found-if (prev == utf16 "kubernetes") _ (leaf-IsNamed hint seg))

abbrev AreNamed : List ContainerInfo → Type 0
AreNamed = All IsNamed

AreNamed-prepend :
    (x : Option ContainerInfo) (cs : List ContainerInfo)
    → Found IsNamed x
    → AreNamed cs
    → AreNamed (prepend x cs)
AreNamed-prepend none cs h k = k
AreNamed-prepend (some c) cs h k = (h, k)

classify_segments-AreNamed :
    (hint : CgroupHint) (segs : List Text) (prev : Text)
    → AreNamed (classify_segments hint prev segs)
unfolding classify_segments
classify_segments-AreNamed hint [] prev = tt
classify_segments-AreNamed hint (seg ∷ segs) prev =
    AreNamed-prepend _ _ (classify_in-IsNamed hint prev seg)
      (classify_segments-AreNamed hint segs _)

docker_here-IsNamed :
    (s : Text) → Found IsNamed (map_option (numbered (utf16 "docker")) (docker_here s))
unfolding docker_here
docker_here-IsNamed s =
    Found-map (λ t. is_hex64 t ≡ true) IsNamed _ _
      (λ id k. numbered-IsNamed (utf16 "docker") id refl (hex64-some id k))
      (Found-and_then _ (strip_prefix (utf16 "/docker/") s) _
        (λ rest. found_if (ends_segment (drop 64 rest)) _ (Found-checked is_hex64 (take 64 rest))))
  where
    found_if :
        (b : Bool) (x : Option Text)
        → Found (λ t. is_hex64 t ≡ true) x
        → Found (λ t. is_hex64 t ≡ true) (if b then x else none)
    found_if true x h = h
    found_if false x h = tt

docker_legacy-AreNamed : (n : ℕ) (s : Text) → AreNamed (docker_legacy n s)
unfolding docker_legacy
docker_legacy-AreNamed n [] = tt
docker_legacy-AreNamed (suc n) (x ∷ xs) = docker_legacy-AreNamed n xs
docker_legacy-AreNamed zero (x ∷ xs) =
    AreNamed-prepend _ _ (docker_here-IsNamed (x ∷ xs)) (docker_legacy-AreNamed _ xs)

abbrev IsSome : Text → Type 0
IsSome s = some_name s ≡ true

lxc_name-IsSome : (s : Text) → Found IsSome (lxc_name s)
unfolding lxc_name
lxc_name-IsSome [] = tt
lxc_name-IsSome (x ∷ xs) = elim (Bool-cases (x == b'.' || x == b'/')) [
  | inl hit ↦ rw hit (Found-checked some_name (longest is_name_char (length xs) xs))
  | inr miss ↦ rw miss tt
]

lxc_within-IsSome : (s : Text) → Found IsSome (lxc_within s)
unfolding lxc_within
lxc_within-IsSome [] = tt
lxc_within-IsSome (x ∷ xs) =
    Found-or_else IsSome _ _
      (Found-and_then IsSome (strip_prefix (utf16 "/lxc") (x ∷ xs)) _ (λ rest.
        Found-or_else IsSome _ _
          (Found-and_then IsSome (strip_prefix (utf16 ".payload") rest) lxc_name
            (λ t. lxc_name-IsSome t))
          (lxc_name-IsSome rest)))
      (lxc_within-IsSome xs)

AreNamed-to_list : (x : Option ContainerInfo) → Found IsNamed x → AreNamed (to_list x)
AreNamed-to_list none h = tt
AreNamed-to_list (some c) h = (h, tt)

AreNamed-if_empty :
    (cs ds : List ContainerInfo) → AreNamed cs → AreNamed ds → AreNamed (if_empty cs ds)
AreNamed-if_empty [] ds h k = k
AreNamed-if_empty (c ∷ cs) ds h k = h

unit_of-AreNamed : (segments : List Text) → AreNamed (unit_of segments)
unfolding unit_of
unit_of-AreNamed segments = elim (Bool-cases (has_segment (utf16 "user.slice") segments)) [
  | inl desktop ↦ rw desktop tt
  | inr host ↦ rw host (AreNamed-to_list _ (units (last_unit segments)))
]
  where
    units :
        (x : Option Text)
        → Found IsNamed (map_option (λ s. named (utf16 "systemd") (utf16 "unit:" ++ s)) x)
    units none = tt
    units (some s) = refl

whole_chain-AreNamed : (path : Text) (hint : CgroupHint) → AreNamed (whole_chain path hint)
unfolding whole_chain
whole_chain-AreNamed path hint =
    AreNamed-if_empty _ _ (classify_segments-AreNamed hint (split b'/' path) []) (
      AreNamed-if_empty _ _ (docker_legacy-AreNamed 0 path) (
        AreNamed-if_empty _ _
          (AreNamed-to_list _ (
            Found-map IsSome IsNamed _ (lxc_within path)
              (λ id k. named-IsNamed (utf16 "lxc") id refl (some-name id k))
              (lxc_within-IsSome path)))
          (unit_of-AreNamed (split b'/' path))))

AreNamed-drop : (n : ℕ) (cs : List ContainerInfo) → AreNamed cs → AreNamed (drop n cs)
AreNamed-drop zero cs h = h
AreNamed-drop (suc n) [] h = tt
AreNamed-drop (suc n) (c ∷ cs) h = AreNamed-drop n cs h.1

-- Whatever the path, the chain has at most sixteen containers, and each of them has a runtime and
-- an id.
pub classify_path_chain-AreNamed :
    (path : Text) (hint : CgroupHint)
    → (length (classify_path_chain path hint) ≤ max_container_chain_depth)
      × All (λ c. container_valid c ≡ true) (classify_path_chain path hint)
unfolding classify_path_chain
classify_path_chain-AreNamed path hint =
    limited (is_empty path || (path == utf16 "/" || path == utf16 "/init.scope"))
  where
    limited :
        (b : Bool)
        → let chain =
            if b
            then []
            else drop
                (length (whole_chain path hint) - max_container_chain_depth)
                (whole_chain path hint) in
          (length chain ≤ max_container_chain_depth) × AreNamed chain
    limited true = (omega arith, tt)
    limited false =
        let whole = whole_chain path hint in
        let n = length whole - max_container_chain_depth in
        (omega (arith, length-drop n whole), AreNamed-drop n whole (whole_chain-AreNamed path hint))
