-- ===== src/Flow/Types.antt =====
-- src/backend/Connection.h: the enums, endpoints and flow records, with their equality; from
-- src/backend/ProcessResolver.h the records ProcessInfo and ContainerInfo.
use qiftop.Common.{
  ℕ, ◌≡◌, Bool, true, false, not, ◌&&◌, List, [], ◌∷◌, arith, ltb, Eq, ◌==◌, ==_iff, nat_beq,
  nat_eq, list_eq, ◌↔◌,
}

abbrev pub Text : Type 0
Text = List ℕ

abbrev pub Address : Type 0
Address = ℕ

pub data L4Proto : Type 0 where
  unknown tcp udp icmp icmp_v6 : L4Proto

pub data Direction : Type 0 where
  unknown outbound inbound : Direction

pub data TcpState : Type 0 where
  none syn_sent syn_recv established fin_wait close_wait last_ack time_wait close : TcpState
  syn_sent2 : TcpState

pub data AttributionReason : Type 0 where
  resolved no_local_socket orphaned forwarded : AttributionReason

-- The enumerators' values, `static_cast<int>`.
abbrev pub proto_number : L4Proto → ℕ
proto_number L4Proto.unknown = 0
proto_number tcp = 1
proto_number udp = 2
proto_number icmp = 3
proto_number icmp_v6 = 4

abbrev pub direction_number : Direction → ℕ
direction_number Direction.unknown = 0
direction_number outbound = 1
direction_number inbound = 2

pub proto_number-injective : (a b : L4Proto) → proto_number a ≡ proto_number b → a ≡ b
proto_number-injective a b h = ground arith

pub direction_number-injective : (a b : Direction) → direction_number a ≡ direction_number b → a ≡ b
direction_number-injective a b h = ground arith

pub proto_beq_iff : (a b : L4Proto) → (nat_beq (proto_number a) (proto_number b) ≡ true) ↔ (a ≡ b)
proto_beq_iff a b = ground (arith, proto_number-injective a b)

instance abbrev pub proto_eq : Eq L4Proto
proto_eq = record {
  same = λ a b. nat_beq (proto_number a) (proto_number b);
  same_iff = proto_beq_iff;
}

pub direction_beq_iff :
    (a b : Direction) → (nat_beq (direction_number a) (direction_number b) ≡ true) ↔ (a ≡ b)
direction_beq_iff a b = ground (arith, direction_number-injective a b)

instance abbrev pub direction_eq : Eq Direction
direction_eq = record {
  same = λ a b. nat_beq (direction_number a) (direction_number b);
  same_iff = direction_beq_iff;
}

pub record Endpoint : Type 0 where
  pub address : Address
  pub port : ℕ

pub record ProcessInfo : Type 0 where
  pub pid : ℕ
  pub comm : Text
  pub cmdline : Text
  pub exe : Text
  pub uid : ℕ

pub record ContainerInfo : Type 0 where
  pub runtime : Text
  pub id : Text
  pub name : Text

-- QString::isEmpty, QList::isEmpty
abbrev pub is_empty {ℓ} : {A : Type ℓ} → List A → Bool
is_empty [] = true
is_empty (x ∷ xs) = false

abbrev pub process_valid : ProcessInfo → Bool
process_valid p = ltb 0 p.pid

abbrev pub container_valid : ContainerInfo → Bool
container_valid c = not (is_empty c.runtime) && not (is_empty c.id)

abbrev pub no_process : ProcessInfo
no_process = record { pid = 0; comm = []; cmdline = []; exe = []; uid = 0 }

abbrev pub no_container : ContainerInfo
no_container = record { runtime = []; id = []; name = [] }

pub process_beq_iff :
    (a b : ProcessInfo)
    → ((a.pid == b.pid
          && a.comm == b.comm
          && a.cmdline == b.cmdline
          && a.exe == b.exe
          && a.uid == b.uid)
        ≡ true)
      ↔ (a ≡ b)
process_beq_iff a b =
    ground (arith, ==_iff a.comm b.comm, ==_iff a.cmdline b.cmdline, ==_iff a.exe b.exe)

instance abbrev pub process_eq : Eq ProcessInfo
process_eq = record {
  same = λ a b.
      a.pid == b.pid
      && a.comm == b.comm
      && a.cmdline == b.cmdline
      && a.exe == b.exe
      && a.uid == b.uid;
  same_iff = process_beq_iff;
}

pub container_beq_iff :
    (a b : ContainerInfo)
    → ((a.runtime == b.runtime && a.id == b.id && a.name == b.name) ≡ true) ↔ (a ≡ b)
container_beq_iff a b =
    ground (arith, ==_iff a.runtime b.runtime, ==_iff a.id b.id, ==_iff a.name b.name)

instance abbrev pub container_eq : Eq ContainerInfo
container_eq = record {
  same = λ a b. a.runtime == b.runtime && a.id == b.id && a.name == b.name;
  same_iff = container_beq_iff;
}

pub record Connection : Type 0 where
  pub local : Endpoint
  pub remote : Endpoint
  pub proto : L4Proto
  pub rx_bytes : ℕ
  pub tx_bytes : ℕ
  pub rx_packets : ℕ
  pub tx_packets : ℕ
  pub iface : Text
  pub if_index : ℕ
  pub direction : Direction
  pub tcp_state : TcpState
  pub reason : AttributionReason
  pub process : ProcessInfo
  pub container : ContainerInfo
  pub container_chain : List ContainerInfo
