-- ===== src/Filter/Eval.antt =====
-- src/util/ConnectionFilter.cpp: from a flow to the value of a filter.
pub mod Depth
pub mod Negation
use qiftop.Common.{
  ℕ, zero, suc, ◌≡◌, Bool, true, false, not, ◌&&◌, ◌||◌, List, [], ◌∷◌, ◌++◌, Option, none, some,
  if◌then◌else◌,
}
use qiftop.Attribution.Request.{add64}
use qiftop.Flow.Types.{
  Text, is_empty, L4Proto, tcp, udp, icmp, icmp_v6, Direction, outbound, inbound, Connection,
  ContainerInfo,
}
use qiftop.Flow.Wire.{utf16, attribution_reason_to_string}
use qiftop.Filter.Qt.{Qt}
use qiftop.Filter.Ast.{
  Field, proto, src, dst, host, sport, dport, port, iface, family, direction, bytes_in, bytes_out,
  bytes, pkts_in, pkts_out, pkts, rate_in, rate_out, rate, pid, uid, comm, runtime, container,
  chain_has, reason, Op, contains, equals, not_equals, regex, lt, le, gt, ge, Predicate, ExprPtr,
  null, predicate, not_expr, and_expr, or_expr,
}

pub record Context (Num : Type 0) : Type 0 where
  pub c : Connection
  pub rx_rate : Num
  pub tx_rate : Num
  pub hostname_local : Text
  pub hostname_remote : Text

pub proto_name : L4Proto → Text
proto_name tcp = utf16 "tcp"
proto_name udp = utf16 "udp"
proto_name icmp = utf16 "icmp"
proto_name icmp_v6 = utf16 "icmpv6"
proto_name L4Proto.unknown = utf16 "?"

pub direction_name : Direction → Text
direction_name outbound = utf16 "out"
direction_name inbound = utf16 "in"
direction_name Direction.unknown = utf16 "?"

abbrev pub newline : ℕ
newline = b'\n'

-- runtime, id and name on lines of their own
abbrev container_lines : ContainerInfo → Text
container_lines ci = ci.runtime ++ (newline ∷ (ci.id ++ (newline ∷ ci.name)))

pub container_text : ContainerInfo → Text
container_text ci =
    if is_empty ci.runtime && is_empty ci.id && is_empty ci.name then [] else container_lines ci

-- The loop over the chain, with what was joined so far.
pub chain_text : Text → List ContainerInfo → Text
chain_text out [] = out
chain_text out (ci ∷ chain) =
    let joined = if is_empty out then out else out ++ newline ∷ [] in
    chain_text (joined ++ container_lines ci) chain

-- Fields whose text is a list of lines.
pub is_multi_line_field : Field → Bool
is_multi_line_field host = true
is_multi_line_field container = true
is_multi_line_field chain_has = true
is_multi_line_field _ = false

pub is_numeric_field : Field → Bool
is_numeric_field sport = true
is_numeric_field dport = true
is_numeric_field port = true
is_numeric_field bytes_in = true
is_numeric_field bytes_out = true
is_numeric_field bytes = true
is_numeric_field pkts_in = true
is_numeric_field pkts_out = true
is_numeric_field pkts = true
is_numeric_field rate_in = true
is_numeric_field rate_out = true
is_numeric_field rate = true
is_numeric_field pid = true
is_numeric_field uid = true
is_numeric_field _ = false

abbrev pub is_port : Field → Bool
is_port port = true
is_port _ = false

module _ {Num Rx : Type 0} (q : Qt Num Rx) where
  pub family_name : Connection → Text
  family_name c =
      if q.is_ipv6 c.local.address || q.is_ipv6 c.remote.address then utf16 "v6" else utf16 "v4"

  pub extract_text : Field → Context Num → Text
  unfolding proto_name direction_name container_text chain_text family_name
  extract_text proto ctx = proto_name ctx.c.proto
  extract_text src ctx = q.address_text ctx.c.local.address
  extract_text dst ctx = q.address_text ctx.c.remote.address
  extract_text host ctx =
      q.address_text ctx.c.local.address
      ++ (newline
          ∷ (q.address_text ctx.c.remote.address
              ++ (newline ∷ (ctx.hostname_local ++ (newline ∷ ctx.hostname_remote)))))
  extract_text iface ctx = ctx.c.iface
  extract_text family ctx = family_name ctx.c
  extract_text direction ctx = direction_name ctx.c.direction
  extract_text comm ctx = ctx.c.process.comm
  extract_text reason ctx = attribution_reason_to_string ctx.c.reason
  extract_text runtime ctx = ctx.c.container.runtime
  extract_text container ctx = container_text ctx.c.container
  extract_text chain_has ctx = chain_text [] ctx.c.container_chain
  extract_text _ ctx = []

  pub extract_number : Field → Context Num → Num
  extract_number sport ctx = q.of_nat ctx.c.local.port
  extract_number dport ctx = q.of_nat ctx.c.remote.port
  extract_number port ctx = q.of_nat ctx.c.local.port
  extract_number bytes_in ctx = q.of_nat ctx.c.rx_bytes
  extract_number bytes_out ctx = q.of_nat ctx.c.tx_bytes
  extract_number bytes ctx = q.of_nat (add64 ctx.c.rx_bytes ctx.c.tx_bytes)
  extract_number pkts_in ctx = q.of_nat ctx.c.rx_packets
  extract_number pkts_out ctx = q.of_nat ctx.c.tx_packets
  extract_number pkts ctx = q.of_nat (add64 ctx.c.rx_packets ctx.c.tx_packets)
  extract_number rate_in ctx = ctx.rx_rate
  extract_number rate_out ctx = ctx.tx_rate
  extract_number rate ctx = q.num_add ctx.rx_rate ctx.tx_rate
  extract_number pid ctx = q.of_nat ctx.c.process.pid
  extract_number uid ctx = q.of_nat ctx.c.process.uid
  extract_number _ ctx = q.of_nat 0

  -- The switch on the operator, for a value against the number of the predicate.
  pub compare_number : Op → Num → Num → Bool
  compare_number contains v n = q.num_eq v n
  compare_number equals v n = q.num_eq v n
  compare_number not_equals v n = not (q.num_eq v n)
  compare_number lt v n = q.num_lt v n
  compare_number le v n = q.num_le v n
  compare_number gt v n = q.num_lt n v
  compare_number ge v n = q.num_le n v
  compare_number regex v n = false

  abbrev is_not_equals : Op → Bool
  is_not_equals not_equals = true
  is_not_equals _ = false

  -- Either end for `port`, both for `!=`; the field's own number otherwise.
  pub eval_numeric : Field → Op → Num → Context Num → Bool
  unfolding compare_number extract_number
  eval_numeric f op n ctx =
      let lo = compare_number op (q.of_nat ctx.c.local.port) n in
      let ro = compare_number op (q.of_nat ctx.c.remote.port) n in
      if is_port f
      then (if is_not_equals op then lo && ro else lo || ro)
      else compare_number op (extract_number f ctx) n

  any_line : (Text → Bool) → List Text → Bool
  any_line test [] = false
  any_line test (l ∷ ls) = test l || any_line test ls

  pub eval_regex : Predicate Num Rx → Context Num → Bool
  unfolding extract_text any_line is_multi_line_field
  eval_regex p ctx =
      let s = extract_text p.field ctx in
      if is_port p.field
      then q.rx_match p.rx (q.decimal ctx.c.local.port)
        || q.rx_match p.rx (q.decimal ctx.c.remote.port)
      else if is_multi_line_field p.field
      then any_line (q.rx_match p.rx) (q.split_lines s)
      else q.rx_match p.rx s

  -- `cmpLine`
  pub compare_line : Op → Text → Text → Bool
  compare_line equals val line = q.equals_ci line val
  compare_line not_equals val line = not (q.equals_ci line val)
  compare_line _ val line = q.contains_ci line val

  -- The loop over the lines, with `any` and `all` so far; empty lines are skipped.
  pub eval_lines : Op → Text → List Text → Bool → Bool → Bool
  unfolding compare_line
  eval_lines op val [] any all = if is_not_equals op then all else any
  eval_lines op val (l ∷ ls) any all =
      let m = compare_line op val l in
      eval_lines op val ls (if is_empty l then any else any || m)
        (if is_empty l then all else all && m)

  -- The last switch; ordering operators do not apply to text.
  pub compare_text : Op → Text → Text → Bool
  compare_text contains val s = q.contains_ci s val
  compare_text equals val s = q.equals_ci s val
  compare_text not_equals val s = not (q.equals_ci s val)
  compare_text _ val s = false

  pub eval_text : Predicate Num Rx → Context Num → Bool
  unfolding extract_text eval_lines compare_text is_multi_line_field
  eval_text p ctx =
      let s = extract_text p.field ctx in
      if is_multi_line_field p.field
      then eval_lines p.op p.text_value (q.split_lines s) false true
      else compare_text p.op p.text_value s

  abbrev numeric_or_text : Predicate Num Rx → Context Num → Option Num → Bool
  numeric_or_text p ctx none = eval_text p ctx
  numeric_or_text p ctx (some n) =
      if is_numeric_field p.field then eval_numeric p.field p.op n ctx else eval_text p ctx

  abbrev is_regex : Op → Bool
  is_regex regex = true
  is_regex _ = false

  unfoldable pub eval_predicate : Predicate Num Rx → Context Num → Bool
  unfolding eval_regex eval_numeric eval_text is_numeric_field
  eval_predicate p ctx =
      if is_regex p.op then eval_regex p ctx else numeric_or_text p ctx p.num_value

  -- `evalExpr`, by the levels left below kMaxExprDepth.
  unfoldable pub eval_expr : ℕ → ExprPtr Num Rx → Context Num → Bool
  eval_expr d null ctx = true
  eval_expr zero e ctx = false
  eval_expr (suc d) (predicate p) ctx = eval_predicate p ctx
  eval_expr (suc d) (not_expr e) ctx = not (eval_expr d e ctx)
  eval_expr (suc d) (and_expr a b) ctx = eval_expr d a ctx && eval_expr d b ctx
  eval_expr (suc d) (or_expr a b) ctx = eval_expr d a ctx || eval_expr d b ctx

abbrev pub max_expr_depth : ℕ
max_expr_depth = 64

unfoldable pub matches : {Num Rx : Type 0} → Qt Num Rx → ExprPtr Num Rx → Context Num → Bool
unfolding eval_expr eval_predicate
matches q e ctx = eval_expr q max_expr_depth e ctx
