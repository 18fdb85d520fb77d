-- ===== src/Agent/Connections/Reach.antt =====
-- The mirror, through every call of the service.
use qiftop.Common.{
  ℕ, ◌≡◌, refl, ◌∙◌, Bool, true, false, List, [], ◌∷◌, Option, none, some, if◌then◌else◌,
}
use qiftop.Flow.Types.{Text, Connection}
use qiftop.Attribution.Request.{flow_key_eq, DeepAttributionUpdate}
use qiftop.Attribution.Tuning.{Eagerness}
use qiftop.Agent.Hints
use qiftop.Agent.Hints.{HintManager}
use qiftop.Agent.Idle.{IdleManager}
use qiftop.Agent.Details.{Accounts, ProcessDetails, Caller}
use qiftop.Agent.Snapshot.{HostContext}
use qiftop.Dbus.Dto.{HostText}
use qiftop.Agent.Connections.{
  Service, Signal, TextCase, accounting_changed, note_to, note, note_if, hint_interval, announced,
  answered, hint_eagerness, on_effective_eagerness_changed, get_connections, get_process_details,
  set_desired_interval_ms, set_desired_attribution_eagerness, on_accounting_unavailable,
  on_connections_updated, on_deep_refined,
}
use qiftop.Agent.Connections.Mirror.{
  IsMirror, on_connections_updated-IsMirror, on_deep_refined-IsMirror,
}

-- What the service is called with.
pub data Call : Type 0 where
  snapshot : HostContext → ℕ → List Connection → Call
  refinement : ℕ → List DeepAttributionUpdate → Call
  poll : ℕ → Call
  details : Accounts → (ℕ → Option ProcessDetails) → ℕ → Caller → ℕ → Call
  interval : ℕ → Text → ℕ → Call
  eagerness : TextCase → ℕ → Text → Text → Call
  unavailable : Call

pub serve : HostText → Service → Call → Service
serve q s (snapshot ctx now conns) = (on_connections_updated q ctx s now conns).0
serve q s (refinement now updates) = (on_deep_refined q s now updates).0
serve q s (poll now) = (get_connections s now).0
serve q s (details accounts read now who pid) = (get_process_details accounts read s now who pid).0
serve q s (interval now sender ms) = (set_desired_interval_ms s now sender ms).0
serve q s (eagerness case now sender mode) =
    (set_desired_attribution_eagerness case s now sender mode).0
serve q s unavailable = (on_accounting_unavailable s).0

pub serve_all : HostText → Service → List Call → Service
serve_all q s [] = s
serve_all q s (c ∷ cs) = serve_all q (serve q s c) cs

-- The three fields that the mirror is made of.
record SameRows (s t : Service) : Type 0 where
  last : t.last ≡ s.last
  conns : t.last_conns ≡ s.last_conns
  index : t.key_index ≡ s.key_index

itself : (s : Service) → SameRows s s
itself s = record { last = refl; conns = refl; index = refl }

note_if-SameRows : (b : Bool) (s : Service) (now : ℕ) → SameRows s (note_if b s now).0
unfolding note_if note
note_if-SameRows false s now = itself s
note_if-SameRows true s now = to s.idle
  where
    to : (x : Option IdleManager) → SameRows s (note_to x s now).0
    to none = itself s
    to (some m) = record { last = refl; conns = refl; index = refl }

hint_interval-SameRows :
    (x : Option IdleManager) (s : Service) (now : ℕ) (sender : Text) (ms : ℕ)
    → SameRows s (hint_interval x s now sender ms).0
unfolding hint_interval
hint_interval-SameRows none s now sender ms = itself s
hint_interval-SameRows (some m) s now sender ms =
    let e = note_if-SameRows _ _ now in record { last = e.last; conns = e.conns; index = e.index }

announced-SameRows : (s : Service) (x : Option Eagerness) → SameRows s (announced s x).0
unfolding announced on_effective_eagerness_changed
announced-SameRows s none = itself s
announced-SameRows s (some mode) = record { last = refl; conns = refl; index = refl }

answered-SameRows :
    (x : Option Hints.Answer) (m : HintManager) (s : Service) (now : ℕ)
    → SameRows s (answered x m s now).0
unfolding answered
answered-SameRows none m s now = itself s
answered-SameRows (some a) m s now =
    let e = announced-SameRows (record s { attr_hints = some a.manager }) a.emitted in
    let f =
      note_if-SameRows a.accepted (announced (record s { attr_hints = some a.manager }) a.emitted).0
        now in
    record { last = f.last ∙ e.last; conns = f.conns ∙ e.conns; index = f.index ∙ e.index }

hint_eagerness-SameRows :
    (q : TextCase) (x : Option HintManager) (s : Service) (now : ℕ) (sender mode : Text)
    → SameRows s (hint_eagerness q x s now sender mode).0
unfolding hint_eagerness
hint_eagerness-SameRows q none s now sender mode = itself s
hint_eagerness-SameRows q (some m) s now sender mode = answered-SameRows _ m s now

on_accounting_unavailable-SameRows : (s : Service) → SameRows s (on_accounting_unavailable s).0
unfolding on_accounting_unavailable
on_accounting_unavailable-SameRows s = to s.accounting_enabled
  where
    to :
        (b : Bool)
        → let r : Service × List Signal =
            if b
            then (record s { accounting_enabled = false }, accounting_changed false ∷ [])
            else (s, []) in
          SameRows s r.0
    to true = record { last = refl; conns = refl; index = refl }
    to false = itself s

SameRows-IsMirror : (q : HostText) (s t : Service) → SameRows s t → IsMirror q s → IsMirror q t
SameRows-IsMirror q s t e h = record {
  same = rw (e.last, e.conns) h.same;
  indexed = rw (e.conns, e.index) h.indexed;
}

serve-IsMirror : (q : HostText) (s : Service) (c : Call) → IsMirror q s → IsMirror q (serve q s c)
unfolding serve get_connections get_process_details set_desired_interval_ms
    set_desired_attribution_eagerness
serve-IsMirror q s (snapshot ctx now conns) h = on_connections_updated-IsMirror q ctx s now conns
serve-IsMirror q s (refinement now updates) h = on_deep_refined-IsMirror q s now updates h
serve-IsMirror q s (poll now) h = SameRows-IsMirror q s _ (note_if-SameRows true s now) h
serve-IsMirror q s (details accounts read now who pid) h =
    SameRows-IsMirror q s _ (note_if-SameRows true s now) h
serve-IsMirror q s (interval now sender ms) h =
    SameRows-IsMirror q s _ (hint_interval-SameRows s.idle s now sender ms) h
serve-IsMirror q s (eagerness case now sender mode) h =
    SameRows-IsMirror q s _ (hint_eagerness-SameRows case s.attr_hints s now sender mode) h
serve-IsMirror q s unavailable h = SameRows-IsMirror q s _ (on_accounting_unavailable-SameRows s) h

-- Whatever the service is called with, its records stay those of its flows, row by row, and its
-- index leads each key that it has to a row with that key.
pub serve_all-IsMirror :
    (q : HostText) (s : Service) (calls : List Call)
    → IsMirror q s
    → IsMirror q (serve_all q s calls)
unfolding serve_all
serve_all-IsMirror q s [] h = h
serve_all-IsMirror q s (c ∷ calls) h =
    serve_all-IsMirror q (serve q s c) calls (serve-IsMirror q s c h)
