-- ===== src/Grouping/Proxy/Steps.antt =====
-- The tree of groups in a grouped mode, and what sorting and regrouping leave of it.
use qiftop.Common.{
  ℕ, zero, suc, ◌+◌, ◌≤◌, ◌<◌, ◌≡◌, ◌⊎◌, refl, sym, ◌∙◌, ap, subst, ltb→lt, inl, inr, Bool, true,
  false, not, ◌&&◌, ◌||◌, List, [], ◌∷◌, Option, none, some, arith, ltb, leb, if◌then◌else◌, ◌==◌,
  ==_iff, nat_eq, list_eq, length, get_elem?, Bool-cases,
}
use qiftop.Containers.Map.{find}
use qiftop.Flow.Types.{Text, Connection, is_empty}
use qiftop.Aggregate.Real.{Real}
use qiftop.Grouping.Keys.{ViewMode, group_key_for}
use qiftop.Grouping.Groups.{Group, place, place_rows, index_groups, regroup_from}
use qiftop.Grouping.Groups.Emptied.{Inhabited, Inhabited-place}
use qiftop.Grouping.Groups.Moves.{IsPlaced, IsPlaced-place, IsPlaced-agree, IsPlaced-present}
use qiftop.Grouping.Groups.Position.{find-index_groups-locate}
use qiftop.Grouping.Groups.Regroup.{
  index_groups-regroup_from, regroup_from-IsPlaced, regroup_from-Inhabited,
}
use qiftop.Grouping.Order.{Variants, Column, SourceRow}
use qiftop.Grouping.Order.Kept.{sort_groups-IsPlaced, sort_groups-Inhabited}
use qiftop.Grouping.Tree.{
  GroupProxy, is_flat, refresh_src_index, orders_differ, key_at, label_at, sorted_by, resort,
}
use qiftop.Grouping.Proxy.{regroup_source_row, regroup_rows}

pub record IsTree (mode : ViewMode) (key_of : ℕ → Option Text) (present : ℕ → Bool) (p : GroupProxy)
    : Type 0 where
  pub kind : p.mode ≡ mode
  pub placed : IsPlaced key_of present p.groups
  pub inhabited : Inhabited p.groups
  pub indexed : p.src_index ≡ index_groups 0 p.groups []

-- Rows are placed one after the other.
pub place_rows-IsPlaced :
    (keys labels : ℕ → Text) (key_of : ℕ → Option Text) (present : ℕ → Bool) (n r : ℕ)
    (gs : List Group)
    → ((x : ℕ) → r ≤ x → x < r + n → key_of x ≡ some (keys x))
    → ((x : ℕ) → r ≤ x → x < r + n → present x ≡ false)
    → IsPlaced key_of present gs
    → Inhabited gs
    → IsPlaced key_of
        (λ x. (leb r x && ltb x (r + n)) || present x)
        (place_rows keys labels n r gs).0
      × Inhabited (place_rows keys labels n r gs).0
unfolding place_rows
place_rows-IsPlaced keys labels key_of present zero r gs known new p h =
    (IsPlaced-present p _ (λ x. ground (arith)), h)
place_rows-IsPlaced keys labels key_of present (suc n) r gs known new p h =
    let here =
      IsPlaced-place p (keys r) (labels r) r (known r (omega arith) (omega arith))
        (new r (omega arith) (omega arith)) in
    let rest =
      place_rows-IsPlaced keys labels key_of (λ x. r == x || present x) n (r + 1)
        (place (keys r) (labels r) r gs).0 (λ x lo hi. known x (omega arith) (omega arith))
        (λ x lo hi. ground (arith, new x)) here (Inhabited-place (keys r) (labels r) r gs h) in
    (IsPlaced-present rest.0 _ (λ x. ground (arith)), rest.1)

pub still_outside :
    (n r x : ℕ) → (r == x) ≡ false → (x < r + 1) ⊎ (r + 1 + n ≤ x) → (x < r) ⊎ (r + suc n ≤ x)
still_outside n r x miss outside = elim (Bool-cases (ltb x r)) [
  | inl below ↦ inl (ltb→lt x r below)
  | inr above ↦ inr (ground arith)
]

module _ {Num : Type 0} (d : Real Num) (q : Variants Num) (decimal : ℕ → Text) (unread : Connection)
    (mode : ViewMode) (tree : is_flat mode ≡ false) where
  abbrev pub key_option : Option (SourceRow Num) → Option Text
  key_option none = none
  key_option (some s) = some (group_key_for decimal mode s.connection)

  -- The key of a row of the source.
  abbrev pub key_of : List (SourceRow Num) → ℕ → Option Text
  key_of src r = key_option (get_elem? src r)

  get_elem?_lt :
      {A : Type 0} (xs : List A) (r : ℕ) → r < length xs → (x : A) × (get_elem? xs r ≡ some x)
  get_elem?_lt [] r h = elim h [ ]
  get_elem?_lt (x ∷ xs) zero h = (x, refl)
  get_elem?_lt (x ∷ xs) (suc r) h = get_elem?_lt xs r (omega arith)

  pub key_of_lt :
      (src : List (SourceRow Num)) (r : ℕ)
      → r < length src
      → key_of src r ≡ some (key_at d q decimal unread mode src r)
  unfolding key_at
  key_of_lt src r h = let (s, e) = get_elem?_lt src r h in rw e refl

  pub refresh-IsTree :
      (key : ℕ → Option Text) (present : ℕ → Bool) (p : GroupProxy)
      → p.mode ≡ mode
      → IsPlaced key present p.groups
      → Inhabited p.groups
      → IsTree mode key present (refresh_src_index p)
  unfolding refresh_src_index
  refresh-IsTree key present p kind placed h = record {
    kind = kind;
    placed = placed;
    inhabited = h;
    indexed = rw (ap is_flat kind ∙ tree) refl;
  }

  pub sorted_by-IsPlaced :
      (column : Option Column) (src : List (SourceRow Num)) (p : GroupProxy) (key : ℕ → Option Text)
      (present : ℕ → Bool)
      → IsPlaced key present p.groups
      → IsPlaced key present (sorted_by d q decimal unread column src p)
  sorted_by-IsPlaced none src p key present h = h
  sorted_by-IsPlaced (some col) src p key present h =
      sort_groups-IsPlaced d q src col p.ascending p.sort_within_groups key present p.groups h

  pub sorted_by-Inhabited :
      (column : Option Column) (src : List (SourceRow Num)) (p : GroupProxy)
      → Inhabited p.groups
      → Inhabited (sorted_by d q decimal unread column src p)
  sorted_by-Inhabited none src p h = h
  sorted_by-Inhabited (some col) src p h =
      sort_groups-Inhabited d q src col p.ascending p.sort_within_groups p.groups h

  pub resort-IsTree :
      (key : ℕ → Option Text) (present : ℕ → Bool) (src : List (SourceRow Num)) (p : GroupProxy)
      → IsTree mode key present p
      → IsTree mode key present (resort d q decimal unread src p).0
  unfolding resort
  resort-IsTree key present src p t =
      let sorted = sorted_by d q decimal unread p.sort_column src p in
      elim (Bool-cases
        (is_flat p.mode || (is_empty p.groups || not (orders_differ sorted p.groups)))) [
          | inl same ↦ rw same t
          | inr differs ↦ rw differs (
              refresh-IsTree key present (record p { groups = sorted }) t.kind
                (sorted_by-IsPlaced p.sort_column src p key present t.placed)
                (sorted_by-Inhabited p.sort_column src p t.inhabited))
        ]

  module _ (src : List (SourceRow Num)) (present : ℕ → Bool) where
    regrouped :
        (key' : ℕ → Option Text) (at : Option (ℕ × ℕ)) (k label : Text) (r : ℕ) (p : GroupProxy)
        → p.mode ≡ mode
        → p.src_index ≡ index_groups 0 p.groups []
        → IsPlaced key' present (regroup_from at k label r p.groups).0
        → Inhabited (regroup_from at k label r p.groups).0
        → let (gs, moved, signals) = regroup_from at k label r p.groups in
          let p' = record p { groups = gs } in
          IsTree mode key' present (if moved then refresh_src_index p' else p')
    regrouped key' at k label r p kind indexed placed full =
        let p' = record p { groups = (regroup_from at k label r p.groups).0 } in
        elim (Bool-cases (regroup_from at k label r p.groups).1) [
          | inl moved ↦ rw moved (refresh-IsTree key' present p' kind placed full)
          | inr stayed ↦ rw stayed (record {
            kind = kind;
            placed = placed;
            inhabited = full;
            indexed = indexed ∙ sym (index_groups-regroup_from at k label r p.groups stayed);
          })
        ]

    pub regroup_source_row-IsTree :
        (key key' : ℕ → Option Text) (r : ℕ) (p : GroupProxy)
        → present r ≡ true
        → key' r ≡ some (key_at d q decimal unread mode src r)
        → ((x : ℕ) → (r == x) ≡ false → key' x ≡ key x)
        → IsTree mode key present p
        → IsTree mode key' present (regroup_source_row d q decimal unread r src p).0
    unfolding regroup_source_row
    regroup_source_row-IsTree key key' r p known is_new others t =
        let k = key_at d q decimal unread p.mode src r in
        let label = label_at d q decimal unread p.mode src r in
        let here =
          ap (find r) t.indexed
          ∙ find-index_groups-locate r p.groups (ground (arith, t.placed.complete r)) in
        let is_new' = is_new ∙ ap (λ m. some (key_at d q decimal unread m src r)) (sym t.kind) in
        let placed =
          regroup_from-IsPlaced key key' present r k label p.groups t.placed known is_new' others in
        let full =
          regroup_from-Inhabited key key' present r k label p.groups t.placed known is_new' others
            t.inhabited in
        regrouped key' (find r p.src_index) k label r p t.kind t.indexed
          (subst (λ o. IsPlaced key' present (regroup_from o k label r p.groups).0) (sym here)
            placed)
          (subst (λ o. Inhabited (regroup_from o k label r p.groups).0) (sym here) full)

    -- The keys while the loop runs: those of the source before row `r`, the ones before from there on.
    pub regroup_rows-IsTree :
        (n r : ℕ) (key key' : ℕ → Option Text) (p : GroupProxy)
        → ((x : ℕ) → r ≤ x → x < r + n → present x ≡ true)
        → ((x : ℕ) → r ≤ x → x < r + n → key' x ≡ some (key_at d q decimal unread mode src x))
        → ((x : ℕ) → (x < r) ⊎ (r + n ≤ x) → key' x ≡ key x)
        → IsTree mode key present p
        → IsTree mode key' present (regroup_rows d q decimal unread n r src p).0
    unfolding regroup_rows
    regroup_rows-IsTree zero r key key' p known is_new others t = record {
      kind = t.kind;
      placed =
          IsPlaced-agree t.placed key' (λ x here. others x (ground (arith, Bool-cases (ltb x r))));
      inhabited = t.inhabited;
      indexed = t.indexed;
    }
    regroup_rows-IsTree (suc n) r key key' p known is_new others t =
        let middle : ℕ → Option Text = λ x. if r == x then key' r else key x in
        let step =
          regroup_source_row-IsTree key middle r p (known r (omega arith) (omega arith))
            (ground (arith, is_new r (omega arith) (omega arith))) (λ x other. rw other refl) t in
        regroup_rows-IsTree n (r + 1) middle key' (regroup_source_row d q decimal unread r src p).0
          (λ x lo hi. known x (omega arith) (omega arith))
          (λ x lo hi. is_new x (omega arith) (omega arith))
          (λ x outside. elim (Bool-cases (r == x)) [
            | inl hit ↦ rw hit (ap key' (sym ((==_iff r x).0 hit)))
            | inr miss ↦ rw miss (others x (still_outside n r x miss outside))
          ])
          step
