-- ===== src/Attribution/Tuning.antt =====
-- src/backend/ProcessResolver.h: the modes of attribution, their spelling, and their presets.
use qiftop.Common.{
  ℕ, ◌≡◌, ◌↔◌, Bool, true, false, Option, none, some, arith, if◌then◌else◌, Eq, ◌==◌, ==_iff,
  nat_eq, list_eq, nat_beq,
}
use qiftop.Common.Int.{ℤ, pos, positive_or}
use qiftop.Flow.Types.{Text}
use qiftop.Flow.Wire.{utf16}

-- AttributionEagerness
pub data Eagerness : Type 0 where
  off balanced eager : Eagerness

abbrev pub eagerness_number : Eagerness → ℕ
eagerness_number off = 0
eagerness_number balanced = 1
eagerness_number eager = 2

pub eagerness_beq_iff :
    (a b : Eagerness) → (nat_beq (eagerness_number a) (eagerness_number b) ≡ true) ↔ (a ≡ b)
eagerness_beq_iff a b = ground arith

instance abbrev pub eagerness_eq : Eq Eagerness
eagerness_eq = record {
  same = λ a b. nat_beq (eagerness_number a) (eagerness_number b);
  same_iff = eagerness_beq_iff;
}

pub record ResolverTuning : Type 0 where
  pub cache_refresh_ms : ℤ
  pub container_cache_ms : ℤ
  pub netns_refresh_ms : ℤ
  pub deep_queue_max : ℤ
  pub deep_batch_max : ℤ
  pub deep_coalesce_ms : ℤ
  pub deep_max_attempts : ℤ
  pub deep_demand_netns_scan : Bool

abbrev pub balanced_tuning : ResolverTuning
balanced_tuning = record {
  cache_refresh_ms = pos 1000;
  container_cache_ms = pos 2000;
  netns_refresh_ms = pos 5000;
  deep_queue_max = pos 8192;
  deep_batch_max = pos 256;
  deep_coalesce_ms = pos 100;
  deep_max_attempts = pos 12;
  deep_demand_netns_scan = false;
}

abbrev pub eager_tuning : ResolverTuning
eager_tuning = record balanced_tuning {
  cache_refresh_ms = pos 250;
  container_cache_ms = pos 1000;
  netns_refresh_ms = pos 1000;
  deep_batch_max = pos 2048;
  deep_coalesce_ms = pos 50;
  deep_demand_netns_scan = true;
}

abbrev pub off_tuning : ResolverTuning
off_tuning = record balanced_tuning {
  cache_refresh_ms = pos 0;
  container_cache_ms = pos 0;
  netns_refresh_ms = pos 0;
}

-- The two overrides, each where it is positive.
pub overridden : ResolverTuning → ℤ → ℤ → ResolverTuning
overridden t cache_refresh netns_refresh =
    let t' =
      if positive_or cache_refresh 0 == 0
      then t
      else record t { cache_refresh_ms = cache_refresh; container_cache_ms = cache_refresh } in
    if positive_or netns_refresh 0 == 0 then t' else record t' { netns_refresh_ms = netns_refresh }

unfoldable pub resolver_tuning_for : Eagerness → ℤ → ℤ → ResolverTuning
unfolding overridden
resolver_tuning_for off cache_refresh netns_refresh = off_tuning
resolver_tuning_for balanced cache_refresh netns_refresh =
    overridden balanced_tuning cache_refresh netns_refresh
resolver_tuning_for eager cache_refresh netns_refresh =
    overridden eager_tuning cache_refresh netns_refresh

pub eagerness_to_string : Eagerness → Text
eagerness_to_string off = utf16 "off"
eagerness_to_string balanced = utf16 "balanced"
eagerness_to_string eager = utf16 "eager"

-- From the trimmed text in lower case on; trimming and lower-casing are Qt's.
pub eagerness_from_lower : Text → Option Eagerness
eagerness_from_lower t =
    if t == utf16 "off"
    then some off
    else if t == utf16 "balanced"
    then some balanced
    else if t == utf16 "eager"
    then some eager
    else none

pub eagerness_from_string : (Text → Text) → (Text → Text) → Text → Option Eagerness
unfolding eagerness_from_lower
eagerness_from_string trimmed to_lower s = eagerness_from_lower (to_lower (trimmed s))

-- A text is read as a mode of attribution exactly if, trimmed and in lower case, it is what the
-- mode is written as.
pub eagerness_from_string_iff :
    (trimmed to_lower : Text → Text) (s : Text) (m : Eagerness)
    → (eagerness_from_string trimmed to_lower s ≡ some m)
      ↔ (to_lower (trimmed s) ≡ eagerness_to_string m)
unfolding eagerness_from_string eagerness_to_string
eagerness_from_string_iff trimmed to_lower s m = ((λ h. there m h), (λ h. back m h))
  where
    there :
        (m : Eagerness)
        → eagerness_from_string trimmed to_lower s ≡ some m
        → to_lower (trimmed s) ≡ eagerness_to_string m
    there m h = ground (
      arith,
      ==_iff (to_lower (trimmed s)) (utf16 "off"),
      ==_iff (to_lower (trimmed s)) (utf16 "balanced"),
      ==_iff (to_lower (trimmed s)) (utf16 "eager"),
    )

    back :
        (m : Eagerness)
        → to_lower (trimmed s) ≡ eagerness_to_string m
        → eagerness_from_string trimmed to_lower s ≡ some m
    back off h = rw h
    back balanced h = rw h
    back eager h = rw h
