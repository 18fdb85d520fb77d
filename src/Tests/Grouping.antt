-- ===== src/Tests/Grouping.antt =====
-- ConnectionGroupProxy over a few flows, grouped by interface, and the titles of processes.
use qiftop.Common.{
  ℕ, ◌+◌, ◌≡◌, refl, true, false, List, [], ◌∷◌, some, arith, ltb, if◌then◌else◌, ◌==◌, nat_eq,
  list_eq, map,
}
use qiftop.Containers.Map.{find, put}
use qiftop.Flow.Types.{Text, Connection}
use qiftop.Flow.Wire.{utf16}
use qiftop.Grouping.Keys.{by_interface, by_process, group_label_for}
use qiftop.Grouping.Groups.Content.{count}
use qiftop.Grouping.Order.{
  Variant, text, integer, number, invalid, PartialOrdering, less, equivalent, greater, rx_total,
  Variants, SourceRow,
}
use qiftop.Grouping.Source.{insert_rows, change_rows}
use qiftop.Grouping.Tree.{GroupProxy, rebuild, resort}
use qiftop.Grouping.Proxy.{set_sort_within_groups}
use qiftop.Grouping.Proxy.Current.{IsCurrent, rebuild-IsCurrent}
use qiftop.Grouping.Proxy.History.{
  Event, inserted, removed, changed, sorts, sorts_within, run, ArePossible, run-rebuild,
}
use qiftop.Grouping.Proxy.Mapping.{child, map_to_source, map_from_source, index, parent}
use qiftop.Grouping.Proxy.Mapping.Back.{map_to_source-map_from_source}
use qiftop.Grouping.Proxy.Persist.{resort_index}
use qiftop.Grouping.Proxy.Persist.Kept.{shown_key, resort-resort_index}
use qiftop.Grouping.Proxy.Rebuild.{rows_of}
use qiftop.Grouping.View.{shape}
use qiftop.Grouping.View.Sync.{watch, watch-run}
use qiftop.Tests.Data.{whole, flow_of}

-- Values of one kind by what they hold, and those of two kinds by their kind.
abbrev content : Variant ℕ → List ℕ
content invalid = []
content (integer n) = 1 ∷ n ∷ []
content (number n) = 2 ∷ n ∷ []
content (text t) = 3 ∷ t

abbrev order : List ℕ → List ℕ → PartialOrdering
order [] [] = equivalent
order [] (y ∷ ys) = less
order (x ∷ xs) [] = greater
order (x ∷ xs) (y ∷ ys) = if ltb x y then less else if x == y then order xs ys else greater

abbrev to_number : Variant ℕ → ℕ
to_number invalid = 0
to_number (integer n) = n
to_number (number n) = n
to_number (text t) = 0

abbrev values : Variants ℕ
values = record { compare = λ a b. order (content a) (content b); to_double = to_number }

abbrev digits : ℕ → Text
digits n = (b'0' + n) ∷ []

abbrev bare : Connection
bare = flow_of 1 0

-- A flow on an interface, which sorts by its bytes in every column.
abbrev row_on : Text → ℕ → SourceRow ℕ
row_on iface bytes = record {
  connection = record bare { iface = iface; rx_bytes = bytes };
  rx_rate_role = 0;
  tx_rate_role = 0;
  sort_role = λ column. integer bytes;
}

abbrev eth : Text
eth = utf16 "eth0"

abbrev wlan : Text
wlan = utf16 "wlan0"

abbrev two_rows : List (SourceRow ℕ)
two_rows = row_on eth 10 ∷ row_on wlan 20 ∷ []

abbrev fresh : GroupProxy
fresh = record {
  mode = by_interface;
  groups = [];
  src_index = [];
  sort_column = some rx_total;
  ascending = false;
  sort_within_groups = false;
}

-- A flow comes, another changes its interface, one goes, and the user sorts.
abbrev events : List (Event ℕ)
events =
    inserted 1 (row_on eth 30 ∷ [])
    ∷ changed true 0 (row_on wlan 15 ∷ [])
    ∷ removed 1 1
    ∷ sorts (some rx_total) true
    ∷ sorts_within true
    ∷ []

possible : ArePossible whole values digits bare by_interface refl events two_rows
unfolding insert_rows change_rows
possible = (omega arith, ((omega arith, tt), ((omega arith, omega arith), (tt, (tt, tt)))))

run-rebuild_example :
    let (src, p) =
      run whole values digits bare events two_rows
        (rebuild whole values digits bare two_rows fresh) in
    count 0 (rows_of wlan p.groups)
    ≡ count 0 (rows_of wlan (rebuild whole values digits bare src p).groups)
run-rebuild_example =
    run-rebuild whole values digits bare by_interface refl events two_rows fresh refl possible wlan
      0

abbrev start : GroupProxy
start = rebuild whole values digits bare two_rows fresh

start-IsCurrent : IsCurrent whole values digits bare by_interface refl two_rows start
start-IsCurrent = rebuild-IsCurrent whole values digits bare by_interface refl two_rows fresh refl

watch-run_example :
    watch whole values digits bare events two_rows start (shape start.groups)
    ≡ some (shape (run whole values digits bare events two_rows start).1.groups)
watch-run_example =
    watch-run whole values digits bare by_interface refl events two_rows start possible
      start-IsCurrent

abbrev three_rows : List (SourceRow ℕ)
three_rows = row_on eth 10 ∷ row_on wlan 20 ∷ row_on eth 30 ∷ []

abbrev grouped : GroupProxy
grouped = rebuild whole values digits bare three_rows fresh

grouped-IsCurrent : IsCurrent whole values digits bare by_interface refl three_rows grouped
grouped-IsCurrent =
    rebuild-IsCurrent whole values digits bare by_interface refl three_rows fresh refl

map_to_source-map_from_source_example :
    let i = map_from_source 3 grouped 2 0 in
    (map_to_source 3 10 grouped i ≡ some (2, 0))
    × ((c : ℕ) × (gi : ℕ) × (i ≡ child gi c 0) × (index 3 grouped c 0 (parent grouped i) ≡ i))
map_to_source-map_from_source_example =
    map_to_source-map_from_source whole values digits bare by_interface refl three_rows grouped 2 0
      10 grouped-IsCurrent (omega arith) (omega arith)

-- The same in ascending order, which puts the other group first.
abbrev turned : GroupProxy
turned = record grouped { ascending = true }

turned-IsCurrent : IsCurrent whole values digits bare by_interface refl three_rows turned
turned-IsCurrent = record {
  kind = grouped-IsCurrent.kind;
  placed = grouped-IsCurrent.placed;
  inhabited = grouped-IsCurrent.inhabited;
  indexed = grouped-IsCurrent.indexed;
}

resort-resort_index_example :
    let p' = (resort whole values digits bare three_rows turned).0 in
    let i = resort_index whole values digits bare three_rows turned (child 0 1 0) in
    (map_to_source 3 10 p' i ≡ map_to_source 3 10 turned (child 0 1 0))
    × (shown_key whole values digits bare by_interface refl p' i
        ≡ shown_key whole values digits bare by_interface refl turned (child 0 1 0))
resort-resort_index_example =
    resort-resort_index whole values digits bare by_interface refl three_rows turned 3 10
      (child 0 1 0) turned-IsCurrent

-- The louder interface stands first, and its louder flow.
grouped_rows :
    (map (λ g. g.key) grouped.groups ≡ eth ∷ wlan ∷ [])
    × (map (λ g. g.src_rows) grouped.groups ≡ (2 ∷ 0 ∷ []) ∷ (1 ∷ []) ∷ [])
unfolding rebuild find put
grouped_rows = (refl, refl)

-- What was at row 1 of the first group is at row 0 of the second.
turned_index : resort_index whole values digits bare three_rows turned (child 0 1 0) ≡ child 1 0 0
unfolding rebuild resort_index find put
turned_index = refl

-- The groups keep the order that sorting gave them when sorting of groups is switched off.
kept_order :
    map
      (λ g. g.key)
      (set_sort_within_groups whole values digits bare true three_rows
        (resort whole values digits bare three_rows turned).0).0.groups
    ≡ wlan ∷ eth ∷ []
unfolding rebuild set_sort_within_groups resort find put
kept_order = refl

-- A process whose name is a place marker loses its name to its pid.
abbrev marked : Connection
marked = record bare { process = record bare.process { pid = 5; comm = utf16 "%1" } }

marked_title : group_label_for digits by_process marked ≡ utf16 "5  [pid %2]"
unfolding group_label_for
marked_title = refl
