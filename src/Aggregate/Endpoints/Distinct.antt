-- ===== src/Aggregate/Endpoints/Distinct.antt =====
-- When the texts of endpoints tell them apart.
use qiftop.Common.{
  ℕ, ◌≡◌, ◌≢◌, refl, sym, ◌∙◌, inl, inr, Bool, true, false, [], ◌∷◌, ◌++◌, arith, if◌then◌else◌,
  ◌==◌, ==_refl, nat_eq, list_eq, Bool-cases,
}
use qiftop.Flow.Types.{Text, Address, Endpoint}
use qiftop.Flow.Wire.{utf16}
use qiftop.Flow.Key.{Without, split_last}
use qiftop.Aggregate.Endpoints.{
  AddressText, View, display_host, port_text, host_and_port, endpoint_text,
}

-- Texts of numbers are distinct and hold neither a colon nor a star, and those of addresses are distinct
-- and begin with no bracket.
pub record IsNumeric (q : AddressText) : Type 0 where
  pub decimal_colon : (n : ℕ) → Without b':' (q.decimal n)
  pub decimal_star : (n : ℕ) → q.decimal n ≢ utf16 "*"
  pub decimal_injective : (m n : ℕ) → q.decimal m ≡ q.decimal n → m ≡ n
  pub address_bracket : (a : Address) (t : Text) → q.address_text a ≢ b'[' ∷ t
  pub address_injective : (a b : Address) → q.address_text a ≡ q.address_text b → a ≡ b

module _ {q : AddressText} (numeric : IsNumeric q) where
  port_text-colon : (n : ℕ) → Without b':' (port_text q n)
  unfolding port_text
  port_text-colon n = elim (Bool-cases (n == 0)) [
    | inl any ↦ rw any ((omega arith), tt)
    | inr given ↦ rw given (numeric.decimal_colon n)
  ]

  port_text-injective : (m n : ℕ) → port_text q m ≡ port_text q n → m ≡ n
  unfolding port_text
  port_text-injective m n h = elim (Bool-cases (m == 0)) [
    | inl any ↦ elim (Bool-cases (n == 0)) [
      | inl both ↦ ground arith
      | inr given ↦ absurd (numeric.decimal_star n (sym (rw (any, given) at h)))
    ]
    | inr given ↦ elim (Bool-cases (n == 0)) [
      | inl any ↦ absurd (numeric.decimal_star m (rw (given, any) at h))
      | inr both ↦ numeric.decimal_injective m n (rw (given, both) at h)
    ]
  ]

  -- What stands before the last colon.
  abbrev bracketed : Bool → Address → Text
  bracketed b a = if b then b'[' ∷ (q.address_text a ++ b']' ∷ []) else q.address_text a

  tail_eq : {x : ℕ} {s t : Text} → x ∷ s ≡ x ∷ t → s ≡ t
  tail_eq h = cc

  bracketed-injective : (b c : Bool) (x y : Address) → bracketed b x ≡ bracketed c y → x ≡ y
  bracketed-injective false false x y h = numeric.address_injective x y h
  bracketed-injective true false x y h = absurd (numeric.address_bracket y _ (sym h))
  bracketed-injective false true x y h = absurd (numeric.address_bracket x _ h)
  bracketed-injective true true x y h =
      numeric.address_injective x y (split_last b']' _ _ [] [] tt tt (tail_eq h)).0

  endpoint_text-bracketed :
      (v : View) (e : Endpoint)
      → v.resolve_enabled ≡ false
      → endpoint_text q v e
        ≡ bracketed (q.is_ipv6 e.address) e.address ++ (b':' ∷ port_text q e.port)
  unfolding endpoint_text display_host host_and_port
  endpoint_text-bracketed v e off = elim (Bool-cases (q.is_ipv6 e.address)) [
    | inl v6 ↦ rw (off, v6, ==_refl (q.address_text e.address)) refl
    | inr v4 ↦ rw (off, v4) refl
  ]

  -- With no names resolved, endpoints with one text are the same, given distinct texts of numbers
  -- without colons and stars and distinct texts of addresses that begin with no bracket.
  pub endpoint_text-injective :
      (v : View) (a b : Endpoint)
      → v.resolve_enabled ≡ false
      → endpoint_text q v a ≡ endpoint_text q v b
      → a ≡ b
  endpoint_text-injective v a b off h =
      let same = sym (endpoint_text-bracketed v a off) ∙ h ∙ endpoint_text-bracketed v b off in
      let parts = split_last b':' _ _ _ _ (port_text-colon a.port) (port_text-colon b.port) same in
      let address = bracketed-injective _ _ a.address b.address parts.0 in
      let port = port_text-injective a.port b.port parts.1 in ground arith
