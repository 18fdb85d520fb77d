-- ===== src/Container/Classify/Chain.antt =====
-- What every chain of containers is like.
use qiftop.Common.{
  ◌≡◌, refl, inl, inr, Bool, true, false, [], ◌∷◌, Option, none, some, arith, nat_eq, list_eq,
  Bool-cases,
}
use qiftop.Flow.Types.{Text, ContainerInfo, container_valid, is_empty}
use qiftop.Flow.Wire.{utf16}
use qiftop.Container.Text.{map_option, strip_prefix, strip_suffix, is_pod_char, longest}
use qiftop.Container.Classify.{
  and_then, or_else, checked, is_hex64, is_pod_uid, is_long, lxd_name, some_name, captured,
  numbered, named, pod_within, classify_segment,
}

abbrev pub IsNamed : ContainerInfo → Type 0
IsNamed c = container_valid c ≡ true

abbrev pub Found {ℓ} : {A : Type ℓ} → (A → Type 0) → Option A → Type 0
Found P none = Unit
Found P (some x) = P x

pub Found-or_else :
    {A : Type 0} (P : A → Type 0) (x y : Option A) → Found P x → Found P y → Found P (or_else x y)
Found-or_else P none y h k = k
Found-or_else P (some x) y h k = h

pub Found-checked : (p : Text → Bool) (s : Text) → Found (λ t. p t ≡ true) (checked p s)
Found-checked p s = elim (Bool-cases (p s)) [
  | inl passes ↦ rw passes passes
  | inr fails ↦ rw fails tt
]

pub Found-and_then :
    {A B : Type 0} (P : B → Type 0) (x : Option A) (f : A → Option B)
    → ((a : A) → Found P (f a))
    → Found P (and_then x f)
Found-and_then P none f h = tt
Found-and_then P (some a) f h = h a

Found-captured :
    (prefix suffix : Text) (p : Text → Bool) (s : Text)
    → Found (λ t. p t ≡ true) (captured prefix suffix p s)
Found-captured prefix suffix p s =
    Found-and_then _ (strip_prefix prefix s) _
      (λ rest. Found-and_then _ (strip_suffix suffix rest) _ (λ t. Found-checked p t))

pub Found-map :
    {A B : Type 0} (P : A → Type 0) (Q : B → Type 0) (f : A → B) (x : Option A)
    → ((a : A) → P a → Q (f a))
    → Found P x
    → Found Q (map_option f x)
Found-map P Q f none h k = tt
Found-map P Q f (some a) h k = h a k

pub numbered-IsNamed :
    (runtime id : Text)
    → is_empty runtime ≡ false
    → is_empty id ≡ false
    → IsNamed (numbered runtime id)
numbered-IsNamed runtime [] h k = cc
numbered-IsNamed runtime (x ∷ id) h k = rw h refl

pub named-IsNamed :
    (runtime id : Text)
    → is_empty runtime ≡ false
    → is_empty id ≡ false
    → IsNamed (named runtime id)
named-IsNamed runtime id h k = rw (h, k) refl

pub hex64-some : (s : Text) → is_hex64 s ≡ true → is_empty s ≡ false
hex64-some [] h = ground arith
hex64-some (x ∷ s) h = refl

pod-some : (s : Text) → is_pod_uid s ≡ true → is_empty s ≡ false
pod-some [] h = ground arith
pod-some (x ∷ s) h = refl

hex :
    (runtime prefix suffix s : Text)
    → is_empty runtime ≡ false
    → Found IsNamed (map_option (numbered runtime) (captured prefix suffix is_hex64 s))
hex runtime prefix suffix s h =
    Found-map _ IsNamed (numbered runtime) _
      (λ id k. numbered-IsNamed runtime id h (hex64-some id k))
      (Found-captured prefix suffix is_hex64 s)

name :
    (runtime prefix suffix : Text) (p : Text → Bool) (s : Text)
    → is_empty runtime ≡ false
    → ((t : Text) → p t ≡ true → is_empty t ≡ false)
    → Found IsNamed (map_option (named runtime) (captured prefix suffix p s))
name runtime prefix suffix p s h k =
    Found-map _ IsNamed (named runtime) _ (λ id e. named-IsNamed runtime id h (k id e))
      (Found-captured prefix suffix p s)

pub some-name : (s : Text) → some_name s ≡ true → is_empty s ≡ false
some-name [] h = ground arith
some-name (x ∷ s) h = refl

lxd-some : (s : Text) → lxd_name s ≡ true → is_empty s ≡ false
lxd-some [] h = ground arith
lxd-some (x ∷ s) h = refl

long-some : (s : Text) → is_long s ≡ true → is_empty s ≡ false
long-some [] h = ground arith
long-some (x ∷ s) h = refl

abbrev IsLong : Text → Type 0
IsLong s = is_long s ≡ true

pod_within-some : (s : Text) → Found IsLong (pod_within s)
unfolding pod_within
pod_within-some [] = tt
pod_within-some (x ∷ xs) =
    let uid : Text → Option Text = λ rest. checked is_long (longest is_pod_char 72 rest) in
    let start = strip_prefix (utf16 "pod") (x ∷ xs) in
    Found-or_else IsLong (and_then start uid) (pod_within xs)
      (Found-and_then IsLong start uid
        (λ rest. Found-checked is_long (longest is_pod_char 72 rest)))
      (pod_within-some xs)

pub classify_segment-IsNamed : (seg : Text) → Found IsNamed (classify_segment seg)
unfolding classify_segment
classify_segment-IsNamed seg =
    either _ _ (hex (utf16 "containerd") (utf16 "cri-containerd-") (utf16 ".scope") seg refl) (
      either _ _ (hex (utf16 "cri-o") (utf16 "crio-") (utf16 ".scope") seg refl) (
        either _ _ (hex (utf16 "docker") (utf16 "docker-") (utf16 ".scope") seg refl) (
          either _ _ (hex (utf16 "podman") (utf16 "libpod-") (utf16 ".scope") seg refl) (
            either _ _ (hex (utf16 "podman") (utf16 "libpod-") [] seg refl) (
              either _ _
                (name (utf16 "lxd") (utf16 "lxd-") (utf16 ".service") lxd_name seg refl lxd-some)
                (either _ _
                  (name (utf16 "nspawn") (utf16 "machine-") (utf16 ".scope") some_name seg refl
                    some-name)
                  (either _ _
                    (name (utf16 "nspawn") (utf16 "systemd-nspawn@") (utf16 ".service") some_name
                      seg refl some-name)
                    (either _ _ by_uid within))))))))
  where
    either :
        (x y : Option ContainerInfo)
        → Found IsNamed x
        → Found IsNamed y
        → Found IsNamed (or_else x y)
    either x y h k = Found-or_else IsNamed x y h k

    by_uid :
        Found IsNamed
          (map_option (numbered (utf16 "kubernetes")) (captured (utf16 "pod") [] is_pod_uid seg))
    by_uid =
        Found-map _ IsNamed _ _
          (λ id k. numbered-IsNamed (utf16 "kubernetes") id refl (pod-some id k))
          (Found-captured (utf16 "pod") [] is_pod_uid seg)

    within : Found IsNamed (map_option (numbered (utf16 "kubernetes")) (pod_within seg))
    within =
        Found-map _ IsNamed _ _
          (λ id k. numbered-IsNamed (utf16 "kubernetes") id refl (long-some id k))
          (pod_within-some seg)
