-- ===== src/Lib.antt =====
-- A verification library for qiftop, which shows the network flows of a host with the processes and
-- containers that they belong to.
--
-- The parts of the program that are modelled, and how they interact:
--   An agent dumps the flows of the host, attributes each to a process and a container, and serves
--   the result to the clients. Attribution asks a chain of resolvers in one pass over a snapshot;
--   one of them answers from a cache of the births of flows. Flows that the pass leaves open go to a
--   background worker with a bounded queue, which tries them again and emits refinements. Clients
--   send hints that set how eagerly the agent attributes and how often it polls. The service of
--   connections puts this together: it cuts a snapshot down to the loudest flows, adds directions,
--   owners and reasons, sends the flows as flat records, gives the weak ones to the worker, and
--   applies what the worker finds. Front ends turn the snapshots into rows with rates, group UDP
--   flows by peer, patch rows with refinements, and let the user write a filter, which is parsed
--   once and evaluated on every flow. A proxy between the rows and the view groups them by
--   interface, container or process, and follows what the rows' model announces.
--
-- Where it is:
--   Common, Containers      shared names, Boolean tests, equality as an interface, lists on native
--                           numbers; QHash as an association list with distinct keys
--   Flow/Types, Wire, Key   src/backend/Connection.h; ProcessInfo and ContainerInfo are those of
--                           src/backend/ProcessResolver.h
--   Flow/Heuristics         src/util/ConnectionHeuristics.h: isForwardedFlow, attributionReason,
--                           inferDirection
--   Attribution/BirthCache, BirthResolver
--                           src/backend/BirthCache.h and BpfBirthResolver.h, a function for a
--                           method
--   Attribution/Request, DeepQueue, Worker
--                           src/backend/DeepAttribution.h, DeepAttributionQueue.h,
--                           ResolverDeepWorker.h and ResolverDeepWorker.cpp
--   Attribution/Pass        src/backend/Attribution.cpp: attributeFlows
--   Attribution/Tuning      src/backend/ProcessResolver.h: modes and presets
--   Capture/Orient, TopK    src/backend/linux/ConntrackOrient.h and FlowTopK.h
--   Agent/Table, Hints, Idle
--                           src/agent/AttributionHintManager.h and .cpp, IdleManager.h and .cpp
--   Agent/Snapshot, Connections, Details
--                           src/agent/ConnectionsService.h and .cpp: the flows that are kept and
--                           what is added to them; the slots and methods; the details of a process
--   Aggregate/Runs, Udp, Rows, Update, Endpoints, Smoothing
--                           src/aggregate/ConnectionAggregator.h and .cpp: RowUpdateRuns, the groups
--                           of UDP flows, the loops over the rows, the handlers, the texts of
--                           endpoints, and the animation of rates; Real holds what is taken of
--                           doubles, and emaUpdate and easeOutCubic of
--                           src/util/ConnectionHeuristics.h
--   Aggregate/Interfaces    src/aggregate/InterfaceAggregator.h and .cpp, and InterfaceStats of
--                           src/backend/NetworkMonitor.h
--   Container/Text, Classify
--                           src/backend/linux/CgroupParse.h; each regular expression is a function
--   Dbus/Dto                src/dbus/Types.h and Types.cpp: flows as flat records and back
--   Filter                  src/util/ConnectionFilter.h and .cpp: Ast, Eval, Lexer and Parser in
--                           files of their own; Qt holds what is taken of Qt and of doubles
--   Grouping/Keys, Groups, Order, Tree, Proxy
--                           src/ui/ConnectionGroupProxy.h and .cpp: the keys and titles of groups,
--                           the loops over the groups, the comparisons, the object with rebuild and
--                           resortGroupsPreservingIndexes, and its handlers; Proxy/Mapping has the
--                           model indexes and Proxy/Persist the persistent ones; Source is what the
--                           rows' model does to its own rows, View what a view makes of the
--                           signals, and Arg what is taken of QString::arg
--   Tests                   runs on small inputs
--
-- How the state corresponds:
--   An object is a record of its fields, and a method a function from the record and the arguments to
--   the new record and what the method returns, emits or applies. A mutex makes a method one step;
--   BpfBirthResolver::resolvePid, which lets go of its mutex while it asks for a start time, is one
--   step here as well. Clocks are arguments, natural numbers of milliseconds; a negative difference
--   of times is 0. A pid that is not positive is 0, and so is a capacity, a window or an interval.
--   A QString is the list of its UTF-16 units and a QHostAddress a number without structure. The
--   order of a QHash is that of the list, which no statement depends on. std::partial_sort leaves
--   the order of equal elements open; the sort here keeps that of the list. Byte counts are added
--   modulo 2 ^ 64. What a resolver answers may change during a pass, so each flow of a snapshot
--   comes with the answers that are given while it is handled.
--   The collector's heap is a list in order of bytes: std::push_heap and std::pop_heap promise the
--   front of the heap only, and the front is all that the collector reads.
--   A proxy reads its source's rows while it handles a signal, so each handler takes them as they are
--   then. A QModelIndex of the proxy is one of three kinds: invalid, of the top level, or of a flow
--   in a group. std::sort leaves the order of equal elements open; the one here is an insertion sort.
--   What a service or an aggregator emits, applies or asks for is a list of signals, in order.
--   A pointer to a manager or a worker that may be null is an option, and the object that it points
--   to a part of the state.
--
-- Bounds and fuel:
--   The parser's recursion is on the levels left below kMaxExprDepth, 64 at the start, as in the
--   source. The loops of parseOr and parseAnd have as much fuel as the input that is left is long,
--   and two more: each round takes a token of at least one character, so that is enough, and a
--   message that the source does not have would tell otherwise. The lexer's loops are recursion on
--   the input. All other loops are recursion on a list, or on the number of rows that are left.
--
-- Parameters: texts of numbers and addresses, lower-casing, doubles and regular expressions (the
--   records Qt, KeyText, HostText, AddressText, TextCase and Real), the comparison of QVariants (the
--   record Variants), the sort of the rows' model, the accounts of the platform, the answers of
--   resolvers, the details of processes, and the probe for start times.
--
-- Not modelled: the conntrack, netlink, sock_diag, procfs, BPF and BSD back ends, which read kernel
--   interfaces; D-Bus wiring and marshalling; the setters of ConnectionAggregator;
--   configuration and settings; the terminal front end, and of the graphical one all but the
--   grouping of rows: its wiring to the source, chips, details and tooltips are left out too; logging.
pub mod Common
pub mod Capture
pub mod Containers
pub mod Flow
pub mod Attribution
pub mod Agent
pub mod Aggregate
pub mod Dbus
pub mod Container
pub mod Filter
pub mod Grouping
pub mod Tests
