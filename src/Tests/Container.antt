-- ===== src/Tests/Container.antt =====
-- Paths of control groups.
use qiftop.Common.{◌≤◌, ◌≡◌, refl, true, [], ◌∷◌, ◌++◌, length, All}
use qiftop.Flow.Types.{Text, container_valid}
use qiftop.Flow.Wire.{utf16}
use qiftop.Container.Text.{split_from, strip_prefix, strip_suffix, all_of}
use qiftop.Container.Classify.{auto, numbered, max_container_chain_depth, classify_path_chain}
use qiftop.Container.Classify.Path.{classify_path_chain-AreNamed}

abbrev sixteen_a : Text
sixteen_a = utf16 "aaaaaaaaaaaaaaaa"

abbrev outer : Text
outer = sixteen_a ++ (sixteen_a ++ (sixteen_a ++ sixteen_a))

abbrev sixteen_b : Text
sixteen_b = utf16 "bbbbbbbbbbbbbbbb"

abbrev inner : Text
inner = sixteen_b ++ (sixteen_b ++ (sixteen_b ++ sixteen_b))

abbrev scope : Text
scope = utf16 "/system.slice/docker-" ++ (outer ++ utf16 ".scope/nginx.service")

-- One container in another, both of the driver cgroupfs.
abbrev nested : Text
nested = utf16 "/docker/" ++ (outer ++ (utf16 "/docker/" ++ inner))

classify_path_chain-AreNamed_example :
    (length (classify_path_chain scope auto) ≤ max_container_chain_depth)
    × All (λ c. container_valid c ≡ true) (classify_path_chain scope auto)
classify_path_chain-AreNamed_example = classify_path_chain-AreNamed scope auto

scope_chain : classify_path_chain scope auto ≡ numbered (utf16 "docker") outer ∷ []
unfolding classify_path_chain split_from strip_prefix strip_suffix all_of
scope_chain = refl

nested_chain : classify_path_chain nested auto ≡ numbered (utf16 "docker") outer ∷ []
unfolding classify_path_chain split_from strip_prefix strip_suffix all_of
nested_chain = refl
