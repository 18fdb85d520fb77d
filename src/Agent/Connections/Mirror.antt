-- ===== src/Agent/Connections/Mirror.antt =====
-- The records that the service sends, its flows and its index, in step.
use qiftop.Common.{
  ℕ, zero, suc, ◌+◌, ◌≡◌, refl, sym, ◌∙◌, ap, inl, inr, Bool, true, false, List, [], ◌∷◌, ◌++◌,
  Option, none, some, arith, ==_iff, Bool-cases, length, length-append, map, subst, modify,
  get_elem?, ◌==◌,
}
use qiftop.Containers.Map.{Map, find, put, find-put}
use qiftop.Flow.Types.{Connection}
use qiftop.Attribution.Request.{AttributionFlowKey, flow_key_eq, key_of, DeepAttributionUpdate}
use qiftop.Agent.Snapshot.{HostContext, prepared}
use qiftop.Dbus.Dto.{HostText, to_dto, to_dtos}
use qiftop.Agent.Connections.{
  Service, map_option, Refinement, index_conns, refined, patch_row, refine_row, refine_at,
  refine_all, on_connections_updated, on_deep_refined,
}

-- The key of the flow in a row.
abbrev pub key_at : List Connection → ℕ → Option AttributionFlowKey
key_at cs i = map_option key_of (get_elem? cs i)

abbrev pub IsIndex : List Connection → Map AttributionFlowKey ℕ → Type 0
IsIndex cs m = (k : AttributionFlowKey) (i : ℕ) → find k m ≡ some i → key_at cs i ≡ some k

get_elem?-append :
    (pre cs : List Connection) (c : Connection) → get_elem? (pre ++ c ∷ cs) (length pre) ≡ some c
get_elem?-append [] cs c = refl
get_elem?-append (x ∷ pre) cs c = get_elem?-append pre cs c

append_assoc : (pre cs : List Connection) (c : Connection) → (pre ++ c ∷ []) ++ cs ≡ pre ++ c ∷ cs
append_assoc [] cs c = refl
append_assoc (x ∷ pre) cs c = ap (◌∷◌ x) (append_assoc pre cs c)

some-injective : {A : Type 0} {x y : A} → some x ≡ some y → x ≡ y
some-injective e = cc

index_conns-IsIndex :
    (pre cs : List Connection) (m : Map AttributionFlowKey ℕ)
    → IsIndex (pre ++ cs) m
    → IsIndex (pre ++ cs) (index_conns (length pre) cs m)
unfolding index_conns
index_conns-IsIndex pre [] m h = h
index_conns-IsIndex pre (c ∷ cs) m h =
    let next : length pre + 1 ≡ length (pre ++ c ∷ []) =
      omega (arith, length-append pre (c ∷ [])) in
    rw next (
      subst
        (λ all.
          IsIndex all (index_conns (length (pre ++ c ∷ [])) cs (put (key_of c) (length pre) m)))
        (append_assoc pre cs c)
        (index_conns-IsIndex (pre ++ c ∷ []) cs (put (key_of c) (length pre) m) (
          subst (λ all. IsIndex all (put (key_of c) (length pre) m)) (sym (append_assoc pre cs c))
            placed)))
  where
    placed : IsIndex (pre ++ c ∷ cs) (put (key_of c) (length pre) m)
    placed k i e =
        let there = find-put k (key_of c) (length pre) m in
        elim (Bool-cases (key_of c == k)) [
          | inl hit ↦
              let same = (==_iff (key_of c) k).0 hit in
              let at_end = get_elem?-append pre cs c in
              let here : some (length pre) ≡ some i = sym (rw hit at there) ∙ e in
              ap (key_at (pre ++ c ∷ cs)) (sym (some-injective here))
              ∙ ap (map_option key_of) at_end
              ∙ ap some same
          | inr miss ↦ h k i (sym (rw miss at there) ∙ e)
        ]

map-modify :
    {A B : Type 0} (f : A → B) (y : A) (i : ℕ) (xs : List A)
    → map f (modify (λ x. y) i xs) ≡ modify (λ x. f y) i (map f xs)
map-modify f y i [] = refl
map-modify f y zero (x ∷ xs) = refl
map-modify f y (suc i) (x ∷ xs) = ap (◌∷◌ (f x)) (map-modify f y i xs)

key_at-modify :
    (y c : Connection) (i j : ℕ) (cs : List Connection)
    → get_elem? cs i ≡ some c
    → key_of y ≡ key_of c
    → key_at (modify (λ x. y) i cs) j ≡ key_at cs j
key_at-modify y c i j [] e k = refl
key_at-modify y c zero zero (x ∷ cs) e k = ap some (k ∙ ap key_of (sym (some-injective e)))
key_at-modify y c zero (suc j) (x ∷ cs) e k = refl
key_at-modify y c (suc i) zero (x ∷ cs) e k = refl
key_at-modify y c (suc i) (suc j) (x ∷ cs) e k = key_at-modify y c i j cs e k

-- The records are those of the flows, and the index leads each key to a row with that key.
pub record IsMirror (q : HostText) (s : Service) : Type 0 where
  pub same : s.last ≡ to_dtos q s.last_conns
  pub indexed : IsIndex s.last_conns s.key_index

pub on_connections_updated-IsMirror :
    (q : HostText) (ctx : HostContext) (s : Service) (now : ℕ) (conns : List Connection)
    → IsMirror q (on_connections_updated q ctx s now conns).0
unfolding on_connections_updated
on_connections_updated-IsMirror q ctx s now conns = record {
  same = refl;
  indexed =
      index_conns-IsIndex [] (prepared ctx s.resolver s.want_container_chain conns) []
        (λ k i e. unfold find in cc);
}

-- What a refinement of rows keeps.
record Keeps (q : HostText) (m : Map AttributionFlowKey ℕ) (r : Refinement) : Type 0 where
  pub same : r.dtos ≡ to_dtos q r.conns
  pub indexed : IsIndex r.conns m

key_of-refined : (u : DeepAttributionUpdate) (c : Connection) → key_of (refined u c).0 ≡ key_of c
unfolding refined
key_of-refined u c = refl

patch_row-Keeps :
    (q : HostText) (m : Map AttributionFlowKey ℕ) (i : ℕ) (c c' : Connection) (b : Bool)
    (r : Refinement)
    → get_elem? r.conns i ≡ some c
    → key_of c' ≡ key_of c
    → Keeps q m r
    → Keeps q m (patch_row q i c' b r)
unfolding patch_row to_dtos
patch_row-Keeps q m i c c' false r e same k = k
patch_row-Keeps q m i c c' true r e same k = record {
  same = rw k.same (sym (map-modify (to_dto q) c' i r.conns));
  indexed = λ key j found. key_at-modify c' c i j r.conns e same ∙ k.indexed key j found;
}

refine_row-Keeps :
    (q : HostText) (m : Map AttributionFlowKey ℕ) (u : DeepAttributionUpdate) (i : ℕ)
    (x : Option Connection) (r : Refinement)
    → get_elem? r.conns i ≡ x
    → Keeps q m r
    → Keeps q m (refine_row q u i x r)
unfolding refine_row
refine_row-Keeps q m u i none r e k = k
refine_row-Keeps q m u i (some c) r e k =
    patch_row-Keeps q m i c (refined u c).0 (refined u c).1 r e (key_of-refined u c) k

refine_at-Keeps :
    (q : HostText) (m : Map AttributionFlowKey ℕ) (u : DeepAttributionUpdate) (x : Option ℕ)
    (r : Refinement)
    → Keeps q m r
    → Keeps q m (refine_at q u x r)
unfolding refine_at
refine_at-Keeps q m u none r k = k
refine_at-Keeps q m u (some i) r k = refine_row-Keeps q m u i (get_elem? r.conns i) r refl k

refine_all-Keeps :
    (q : HostText) (m : Map AttributionFlowKey ℕ) (us : List DeepAttributionUpdate) (r : Refinement)
    → Keeps q m r
    → Keeps q m (refine_all q m us r)
unfolding refine_all
refine_all-Keeps q m [] r k = k
refine_all-Keeps q m (u ∷ us) r k =
    refine_all-Keeps q m us _ (refine_at-Keeps q m u (find u.key m) r k)

pub on_deep_refined-IsMirror :
    (q : HostText) (s : Service) (now : ℕ) (updates : List DeepAttributionUpdate)
    → IsMirror q s
    → IsMirror q (on_deep_refined q s now updates).0
unfolding on_deep_refined
on_deep_refined-IsMirror q s now updates h =
    let k =
      refine_all-Keeps q s.key_index updates _ (record { same = h.same; indexed = h.indexed }) in
    record { same = k.same; indexed = k.indexed }
