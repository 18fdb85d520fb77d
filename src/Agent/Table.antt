-- ===== src/Agent/Table.antt =====
-- The table of hints that both managers keep: one hint to a sender, each with an expiry, and at
-- most 64 senders.
use qiftop.Common.{
  ℕ, ◌≤◌, ◌≡◌, Bool, false, not, ◌&&◌, arith, leb, nat_eq, list_eq, length, keep, length-keep-le,
}
use qiftop.Containers.Map.{
  Map, contains, put, remove, Unique, length-put, length-remove-le, Unique-put, Unique-remove,
  Unique-keep,
}
use qiftop.Flow.Types.{Text}

abbrev pub max_hints : ℕ
max_hints = 64

pub record Hint {ℓ} (A : Type ℓ) : Type ℓ where
  pub value : A
  pub expires_at_ms : ℕ

abbrev pub Hints {ℓ} : Type ℓ → Type ℓ
Hints A = Map Text (Hint A)

module _ {ℓ} {A : Type ℓ} where
  -- `!(it->expiresAtMs <= now)`
  abbrev pub is_live : ℕ → Text × Hint A → Bool
  is_live now (sender, h) = not (leb h.expires_at_ms now)

  -- The loop that erases the expired hints.
  abbrev pub prune : ℕ → Hints A → Hints A
  prune now m = keep (is_live now) m

  -- `!m_hints.contains(sender) && m_hints.size() >= kMaxHints`
  abbrev pub is_refused : Text → Hints A → Bool
  is_refused sender m = not (contains sender m) && leb max_hints (length m)

  -- The table keeps within its limit, with one hint to a sender.
  pub record IsTable (m : Hints A) : Type ℓ where
    pub within : length m ≤ max_hints
    pub unique : Unique m

module _ {ℓ} {A : Type ℓ} where
  pub prune-IsTable : (now : ℕ) {m : Hints A} → IsTable m → IsTable (prune now m)
  prune-IsTable now {m} t = record {
    within = omega (arith, length-keep-le (is_live now) m, t.within);
    unique = Unique-keep (is_live now) m t.unique;
  }

  pub put-IsTable :
      (sender : Text) (h : Hint A) {m : Hints A}
      → is_refused sender m ≡ false
      → IsTable m
      → IsTable (put sender h m)
  put-IsTable sender h {m} ok t = record {
    within = ground (arith, length-put sender h m, t.within);
    unique = Unique-put sender h m t.unique;
  }

  pub remove-IsTable : (sender : Text) {m : Hints A} → IsTable m → IsTable (remove sender m)
  remove-IsTable sender {m} t = record {
    within = omega (arith, length-remove-le sender m, t.within);
    unique = Unique-remove sender m t.unique;
  }
