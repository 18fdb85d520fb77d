-- ===== src/Tests/Aggregate.antt =====
-- ConnectionAggregator with two flows, and rates in whole numbers.
use qiftop.Common.{
  ℕ, ◌+◌, ◌%◌, ◌^◌, ◌≡◌, refl, Bool, true, false, List, [], ◌∷◌, none, some, arith, leb, ◌==◌,
  nat_eq, list_eq, length,
}
use qiftop.Containers.Map.{find}
use qiftop.Flow.Types.{Text, Address, Endpoint, Connection, process_valid, container_valid}
use qiftop.Flow.Heuristics.{mem}
use qiftop.Flow.Key.{KeyText, connection_key}
use qiftop.Aggregate.Runs.{runs_of}
use qiftop.Aggregate.Udp.{no_state, rx_total, tx_total}
use qiftop.Aggregate.Udp.Totals.{
  IsWide, Event, observes, expires, course, rx_gains, tx_gains, course-total,
}
use qiftop.Aggregate.Rows.{Channel, rows_updated, new_row}
use qiftop.Aggregate.Rows.Lookup.{by_key, position}
use qiftop.Aggregate.Rows.Adapter.{idle, receive_all}
use qiftop.Aggregate.Update.{Aggregator, patch, update_connections, apply_attribution_patch}
use qiftop.Aggregate.Update.Rows.{
  IsSound, incoming, expected, update_connections-IsSound, update_connections-rows,
}
use qiftop.Aggregate.Update.Patch.{has_chain, map_option, patch_lem}
use qiftop.Aggregate.Update.PatchRows.{patched, apply_attribution_patch-rows}
use qiftop.Aggregate.Update.Protocol.{update_connections-receive}
use qiftop.Aggregate.Smoothing.{far_apart, step, on_resolved, rows_with}
use qiftop.Aggregate.Endpoints.{
  AddressText, View, source, display_host, host_and_port, endpoint_text, endpoint_copy_text,
  copy_text_for_endpoint, cached_hostname, cached_name, proto_label, port_text, end_of,
  copy_text_for_flow, peer_address_text,
}
use qiftop.Aggregate.Endpoints.Distinct.{IsNumeric, endpoint_text-injective}
use qiftop.Flow.Wire.{utf16, l4_proto_to_string}
use qiftop.Tests.Data.{flow_of, whole}

abbrev keys : KeyText
keys = record { decimal = λ n. n ∷ []; address_text = λ a. a ∷ [] }

abbrev is_null : Address → Bool
is_null a = a == 0

abbrev start : Aggregator ℕ
start = record {
  rows = [];
  key_to_idx = [];
  prev = [];
  last_elapsed_ms = 0;
  udp_agg = [];
  settings = record {
    stale_retention_ms = 15000;
    stale_retention_ms_udp = 60000;
    udp_aggregate_by_peer = true;
    window_ms = 30000;
    rate_smoothing_ms = 500;
    poll_interval_ms = 1000;
  };
  resolve_enabled = true;
  local_addrs = 7 ∷ [];
  loopback_addrs = 1 ∷ [];
  ephemeral_low = 32768;
  ephemeral_high = 60999;
}

start-IsSound : IsSound whole keys start
unfolding find position
start-IsSound = record { unique = tt; indexed = λ k. refl }

abbrev two : List Connection
two = flow_of 1000 50 ∷ flow_of 2000 70 ∷ []

abbrev one : List Connection
one = flow_of 1000 90 ∷ []

abbrev first : Aggregator ℕ
first = (update_connections whole keys is_null 1000 two start).0

abbrev key : Text
key = connection_key keys (flow_of 1000 0)

update_connections-IsSound_example : IsSound whole keys first
update_connections-IsSound_example =
    update_connections-IsSound whole keys is_null 1000 two start start-IsSound

update_connections-rows_example :
    find key (by_key keys (update_connections whole keys is_null 3000 one first).0.rows)
    ≡ expected whole keys is_null 3000 one first key
        (find key (incoming whole keys is_null 3000 one first))
        (find key (by_key keys first.rows))
update_connections-rows_example =
    update_connections-rows whole keys is_null 3000 one first key update_connections-IsSound_example

update_connections-receive_example :
    let (a', signals) = update_connections whole keys is_null 90000 one first in
    receive_all signals (length first.rows, idle) ≡ some (length a'.rows, idle)
update_connections-receive_example = update_connections-receive whole keys is_null 90000 one first

abbrev owned : Connection
owned = record (flow_of 1000 0) {
  process = record { pid = 12; comm = 99 ∷ []; cmdline = []; exe = []; uid = 1000 };
}

apply_attribution_patch-rows_example :
    let a' = (apply_attribution_patch keys (owned ∷ []) first).0 in
    IsSound whole keys a'
    × ((k : Text)
        → find k (by_key keys a'.rows)
          ≡ map_option keys (patched keys k (owned ∷ [])) (find k (by_key keys first.rows)))
apply_attribution_patch-rows_example =
    apply_attribution_patch-rows keys whole (owned ∷ []) first update_connections-IsSound_example

patch_lem_example :
    let c = (patch owned (flow_of 1000 50)).0 in
    (c ≡ record (flow_of 1000 50) {
      process = c.process;
      reason = c.reason;
      container = c.container;
      container_chain = c.container_chain;
    })
    × (process_valid (flow_of 1000 50).process ≡ true → process_valid c.process ≡ true)
    × (container_valid (flow_of 1000 50).container ≡ true → container_valid c.container ≡ true)
    × (has_chain (flow_of 1000 50).container_chain ≡ true → has_chain c.container_chain ≡ true)
    × (patch owned c ≡ (c, false))
patch_lem_example = patch_lem owned (flow_of 1000 50)

three_rows : runs_of (1 ∷ 2 ∷ 5 ∷ []) ≡ (1, 2) ∷ (5, 5) ∷ []
unfolding runs_of
three_rows = refl

-- A member that counts on, starts again, and expires.
abbrev events : List Event
events =
    observes key (flow_of 1000 50) 10 ∷ observes key (flow_of 1000 20) 20 ∷ expires 90000 60000 ∷ []

no_state-IsWide : IsWide no_state
no_state-IsWide = record { rx = omega arith; tx = omega arith }

course-total_example :
    (rx_total (course no_state events) % 2 ^ 64
      ≡ (rx_total no_state + rx_gains no_state events) % 2 ^ 64)
    × (tx_total (course no_state events) % 2 ^ 64
        ≡ (tx_total no_state + tx_gains no_state events) % 2 ^ 64)
course-total_example = course-total events no_state no_state-IsWide

-- Numbers and addresses as single characters above the punctuation; addresses from 10 on are of IPv6.
abbrev characters : AddressText
characters = record {
  decimal = λ n. (n + 100) ∷ [];
  address_text = λ a. (a + 100) ∷ [];
  is_ipv6 = λ a. leb 10 a;
  is_null = λ a. a == 0;
}

character-injective : (m n : ℕ) → (m + 100) ∷ [] ≡ (n + 100) ∷ [] → m ≡ n
character-injective m n h = ground arith

characters-IsNumeric : IsNumeric characters
characters-IsNumeric = record {
  decimal_colon = λ n. ((λ h. omega arith), tt);
  decimal_star = λ n h. ground arith;
  decimal_injective = character-injective;
  address_bracket = λ a t h. ground arith;
  address_injective = character-injective;
}

abbrev numeric_view : View
numeric_view = record {
  resolve_enabled = false;
  resolver = none;
  alias_iface_addrs_as_localhost = true;
  local_addrs = 7 ∷ [];
  loopback_addrs = [];
}

abbrev far_end : Endpoint
far_end = record { address = 12; port = 443 }

endpoint_text-injective_example : far_end ≡ far_end
endpoint_text-injective_example =
    endpoint_text-injective characters-IsNumeric numeric_view far_end far_end refl refl

in_brackets :
    endpoint_text characters numeric_view (record { address = 12; port = 0 })
    ≡ b'[' ∷ 112 ∷ utf16 "]:*"
unfolding endpoint_text display_host cached_name host_and_port port_text
in_brackets = refl

-- On the screen the address of an interface is `localhost`; its copy is the number.
shown_as_localhost :
    (endpoint_text characters (record numeric_view { resolve_enabled = true }) (flow_of 5 1).local
      ≡ utf16 "localhost:i")
    × (endpoint_copy_text characters
          (record numeric_view { resolve_enabled = true })
          (flow_of 5 1).local
        ≡ utf16 "k:i")
unfolding endpoint_text display_host cached_name host_and_port port_text endpoint_copy_text mem
shown_as_localhost = (refl, refl)

abbrev resolving : View
resolving = record numeric_view { resolve_enabled = true; resolver = some (λ a. utf16 "peer") }

flow_as_copied :
    copy_text_for_flow characters resolving (some (flow_of 5 1)) ≡ utf16 "TCPv4  k:i → peer:ȟ"
unfolding copy_text_for_flow copy_text_for_endpoint endpoint_copy_text end_of proto_label
    display_host cached_name host_and_port port_text l4_proto_to_string mem
flow_as_copied = refl

no_such_row : copy_text_for_endpoint characters resolving none source ≡ []
unfolding copy_text_for_endpoint
no_such_row = refl

peer_of_flow : peer_address_text characters (some (flow_of 5 1)) ≡ utf16 "m"
unfolding peer_address_text
peer_of_flow = refl

names_only_when_enabled :
    (cached_hostname resolving 9 ≡ utf16 "peer")
    × (cached_hostname (record resolving { resolve_enabled = false }) 9 ≡ [])
unfolding cached_hostname cached_name
names_only_when_enabled = (refl, refl)

no_gap : (x : ℕ) → whole.lt (whole.of_nat 1) (whole.sub x x) ≡ false
no_gap x = ground arith

-- The rates start to rise at 3000, and are shown as they are meant to be 1000 ms later.
abbrev smooth : Aggregator ℕ
smooth =
    let cfg = record start.settings { rate_smoothing_ms = 1; poll_interval_ms = 1000 } in
    (update_connections whole keys is_null 3000 one (record first { settings = cfg })).0

-- From 20 to 80 within 10 ms from 5 on: at the end, and before the start.
abbrev rising : Channel ℕ
rising = record {
  rate = 20;
  raw = 80;
  target = 80;
  anim_from = 20;
  anim_start_ms = 5;
  anim_dur_ms = 10;
  samples = [];
  sum = 0;
}

risen :
    (step whole 15 rising ≡ (record rising { rate = 80; anim_dur_ms = 0 }, true))
    × (step whole 5 rising ≡ (rising, false))
unfolding step far_apart
risen = (refl, refl)

abbrev resolving_rows : Aggregator ℕ
resolving_rows = record start {
  rows = new_row whole 0 (flow_of 1000 1) ∷ new_row whole 0 (flow_of 2000 1) ∷ [];
  resolve_enabled = true;
}

resolved_rows :
    (on_resolved 9 resolving_rows ≡ rows_updated 0 1 ∷ []) × (on_resolved 3 resolving_rows ≡ [])
unfolding rows_with on_resolved runs_of
resolved_rows = (refl, refl)
