-- ===== src/Flow/Key.antt =====
-- src/backend/Connection.h: the canonical key of a flow. `QString::arg` with numbers and
-- QHostAddress::toString are parameters.
use qiftop.Common.{ℕ, ◌≡◌, ◌↔◌, refl, [], ◌∷◌, ◌++◌, arith, All, All-append, ◌≢◌, sym}
use qiftop.Flow.Types.{
  Text, Address, Connection, Endpoint, proto_number, direction_number, proto_number-injective,
  direction_number-injective,
}

-- Qt's texts for the parts of a key. `arg` puts an argument in place of a marker such as `%3` and
-- would take a `%` in an address for another marker, so the texts of addresses hold none.
pub record KeyText : Type 0 where
  pub decimal : ℕ → Text
  pub address_text : Address → Text

abbrev pub bar : ℕ
bar = b'|'

abbrev pub dot : ℕ
dot = b'.'

abbrev pub Without : ℕ → Text → Type 0
Without c = All (λ x. x ≢ c)

pub record IsPlain (q : KeyText) : Type 0 where
  pub decimal_bar : (n : ℕ) → Without bar (q.decimal n)
  pub decimal_dot : (n : ℕ) → Without dot (q.decimal n)
  pub decimal_injective : (m n : ℕ) → q.decimal m ≡ q.decimal n → m ≡ n
  pub address_bar : (a : Address) → Without bar (q.address_text a)
  pub address_percent : (a : Address) → Without b'%' (q.address_text a)
  pub address_injective : (a b : Address) → q.address_text a ≡ q.address_text b → a ≡ b

-- `"%3.%4"`
unfoldable pub endpoint_key : KeyText → Endpoint → Text
endpoint_key q e = q.address_text e.address ++ (dot ∷ q.decimal e.port)

-- Connection::key, for addresses whose texts hold no `%`, as those of link-local ones with a scope may.
unfoldable pub connection_key : KeyText → Connection → Text
unfolding endpoint_key
connection_key q c =
    q.decimal (proto_number c.proto)
    ++ (bar
        ∷ (q.decimal (direction_number c.direction)
            ++ (bar ∷ (endpoint_key q c.local ++ (bar ∷ endpoint_key q c.remote)))))

-- Text before the first mark, and what follows it.
split_first :
    (c : ℕ) (xs ys s t : Text)
    → Without c xs
    → Without c ys
    → xs ++ (c ∷ s) ≡ ys ++ (c ∷ t)
    → (xs ≡ ys) × (s ≡ t)
split_first c [] [] s t hx hy h = ground arith
split_first c [] (y ∷ ys) s t hx hy h = absurd (hy.0 (ground arith))
split_first c (x ∷ xs) [] s t hx hy h = absurd (hx.0 (ground arith))
split_first c (x ∷ xs) (y ∷ ys) s t hx hy h = ground (arith, split_first c xs ys s t hx.1 hy.1)

not-Without : (c : ℕ) (xs t : Text) → ¬ Without c (xs ++ (c ∷ t))
not-Without c [] t h = h.0 refl
not-Without c (x ∷ xs) t h = not-Without c xs t h.1

-- Text before the last mark, and what follows it.
pub split_last :
    (c : ℕ) (xs ys s t : Text)
    → Without c s
    → Without c t
    → xs ++ (c ∷ s) ≡ ys ++ (c ∷ t)
    → (xs ≡ ys) × (s ≡ t)
split_last c [] [] s t hs ht h = ground arith
split_last c [] (y ∷ ys) s t hs ht h = absurd (not-Without c ys t (rw (tail_eq h) at hs))
  where
    tail_eq : c ∷ s ≡ y ∷ (ys ++ (c ∷ t)) → s ≡ ys ++ (c ∷ t)
    tail_eq e = cc
split_last c (x ∷ xs) [] s t hs ht h = absurd (not-Without c xs s (rw (tail_eq (sym h)) at ht))
  where
    tail_eq : c ∷ t ≡ x ∷ (xs ++ (c ∷ s)) → t ≡ xs ++ (c ∷ s)
    tail_eq e = cc
split_last c (x ∷ xs) (y ∷ ys) s t hs ht h = ground (arith, split_last c xs ys s t hs ht)

module _ {q : KeyText} (plain : IsPlain q) where
  endpoint_key-injective : (a b : Endpoint) → endpoint_key q a ≡ endpoint_key q b → a ≡ b
  unfolding endpoint_key
  endpoint_key-injective a b h =
      let parts = split_last dot _ _ _ _ (plain.decimal_dot a.port) (plain.decimal_dot b.port) h in
      let same = plain.address_injective _ _ parts.0 in
      let port = plain.decimal_injective _ _ parts.1 in ground arith

  endpoint_key-bar : (a : Endpoint) → Without bar (endpoint_key q a)
  unfolding endpoint_key
  endpoint_key-bar a =
      All-append (λ x. x ≢ bar) _ _ (plain.address_bar a.address)
        (omega arith, plain.decimal_bar a.port)

  -- Given texts of numbers and addresses that are distinct and hold no mark, two flows have one
  -- key exactly when protocol, direction and both endpoints agree.
  pub connection_key-injective :
      (c d : Connection)
      → (connection_key q c ≡ connection_key q d) ↔ (
          (c.proto ≡ d.proto)
          × (c.direction ≡ d.direction)
          × (c.local ≡ d.local)
          × (c.remote ≡ d.remote))
  unfolding connection_key
  connection_key-injective c d = (there, λ e. rw (e.0, e.1, e.2, e.3))
    where
      there :
          connection_key q c ≡ connection_key q d
          → (c.proto ≡ d.proto)
            × (c.direction ≡ d.direction)
            × (c.local ≡ d.local)
            × (c.remote ≡ d.remote)
      there h =
          let a = split_first bar _ _ _ _ (plain.decimal_bar _) (plain.decimal_bar _) h in
          let b = split_first bar _ _ _ _ (plain.decimal_bar _) (plain.decimal_bar _) a.1 in
          let e =
            split_first bar _ _ _ _ (endpoint_key-bar c.local) (endpoint_key-bar d.local) b.1 in
          (
            proto_number-injective _ _ (plain.decimal_injective _ _ a.0),
            direction_number-injective _ _ (plain.decimal_injective _ _ b.0),
            endpoint_key-injective _ _ e.0,
            endpoint_key-injective _ _ e.1,
          )
