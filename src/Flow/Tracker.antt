-- ===== src/Flow/Tracker.antt =====
-- `FlowTracker`: the tables of open, closing and draining flows, and every method of the class.
-- A method returns the events it emits and the new state.
use algo_guard.Prelude.{
  ℕ, ◌+◌, ◌-◌, Bool, true, false, ◌&&◌, ◌||◌, not, Option, none, some, List, [], ◌∷◌, ◌++◌, String,
  ltb, leb, str_eq, has_char, if◌then◌else◌, length, drop, count_if, ◌==◌,
}
use algo_guard.Prelude.Dict.{Dict, has, put}
use algo_guard.Flow.Packet.{PacketInfo}
use algo_guard.Flow.State.{FlowKey, FlowKey-discrete, FlowState, flip, forward_key}
use algo_guard.Flow.Features.{EndReason, idle_timeout, Event, History, emit}

-- In microseconds.
abbrev pub sweep_interval : ℕ
sweep_interval = 1_000_000

abbrev pub close_hold : ℕ
close_hold = 50_000

abbrev pub drain_time : ℕ
drain_time = 2_000_000

abbrev pub connection_window : ℕ
connection_window = 100

pub record Closing : Type 0 where
  pub flow : FlowState
  pub reason : EndReason
  pub deadline : ℕ

pub record Connection : Type 0 where
  pub src : String
  pub dst : String
  pub service : String

pub record Tracker : Type 0 where
  pub idle_limit : ℕ
  pub active_limit : ℕ
  pub flows : Dict FlowKey FlowState
  pub closing : Dict FlowKey Closing
  pub draining : Dict FlowKey ℕ
  pub recent : List Connection
  pub last_sweep_ts : ℕ
  pub flows_emitted : ℕ

unfoldable pub init : ℕ → ℕ → Tracker
init idle active = record {
  idle_limit = idle;
  active_limit = active;
  flows = [];
  closing = [];
  draining = [];
  recent = [];
  last_sweep_ts = 0;
  flows_emitted = 0;
}

-- (key, is_forward) of `_lookup`: a packet of a known flow keeps that flow's orientation.
unfoldable pub lookup_key : Tracker → PacketInfo → FlowKey × Bool
lookup_key t info =
    if has FlowKey-discrete (forward_key info) t.flows
    then (forward_key info, true)
    else if has FlowKey-discrete (flip (forward_key info)) t.flows
    then (flip (forward_key info), false)
    else (forward_key info, true)

-- "S" in flags and "A" not in flags
unfoldable pub opens : PacketInfo → Bool
opens info =
    str_eq info.proto "tcp" && (has_char b'S' info.tcp_flags && not (has_char b'A' info.tcp_flags))

unfoldable pub same_end : String → ℕ → String → ℕ → Bool
same_end ip port ip' port' = str_eq ip ip' && port == port'

-- The sets {source, destination} of the packet and of the flow are equal.
unfoldable pub same_ends : PacketInfo → FlowState → Bool
unfolding same_end
same_ends info f =
    ((same_end info.src_ip info.src_port f.src_ip f.src_port
        || same_end info.src_ip info.src_port f.dst_ip f.dst_port)
      && (same_end info.dst_ip info.dst_port f.src_ip f.src_port
          || same_end info.dst_ip info.dst_port f.dst_ip f.dst_port))
    && ((same_end f.src_ip f.src_port info.src_ip info.src_port
          || same_end f.src_ip f.src_port info.dst_ip info.dst_port)
        && (same_end f.dst_ip f.dst_port info.src_ip info.src_port
            || same_end f.dst_ip f.dst_port info.dst_ip info.dst_port))

unfoldable pub replaces : Option PacketInfo → FlowState → Bool
unfolding opens same_ends
replaces none f = false
replaces (some info) f = opens info && same_ends info f

unfoldable pub is_due : ℕ → Option PacketInfo → Closing → Bool
unfolding replaces
is_due now info c = ltb c.deadline now || replaces info c.flow

-- What a loop over a table leaves: the events, the entries that stay, the drain markers.
pub record Closed : Type 0 where
  pub due : List Event
  pub kept : Dict FlowKey Closing
  pub drains : Dict FlowKey ℕ

-- The loop of `_close_due`.
unfoldable pub close_loop : ℕ → Option PacketInfo → Dict FlowKey Closing → Dict FlowKey ℕ → Closed
close_loop now info [] drains = record { due = []; kept = []; drains = drains }
close_loop now info ((k, c) ∷ rest) drains =
    let due_now = is_due now info c in
    let marked =
      if due_now then put FlowKey-discrete k (c.deadline + drain_time) drains else drains in
    let r = close_loop now info rest marked in
    if due_now
    then record r { due = emit c.flow c.reason ∷ r.due }
    else record r { kept = (k, c) ∷ r.kept }

-- _close_due(now_ts, info)
unfoldable pub close_due_flows : ℕ → Option PacketInfo → Tracker → List Event × Tracker
unfolding close_loop
close_due_flows now info t =
    let r = close_loop now info t.closing t.draining in
    (r.due, record t { closing = r.kept; draining = r.drains })

unfoldable pub is_idle : ℕ → ℕ → FlowState → Bool
is_idle idle now f = leb (f.last_ts + idle) now

-- The loop over the open flows of `advance`.
unfoldable pub expire_loop : ℕ → ℕ → Dict FlowKey FlowState → List Event × Dict FlowKey FlowState
unfolding is_idle
expire_loop idle now [] = ([], [])
expire_loop idle now ((k, f) ∷ rest) =
    let (events, kept) = expire_loop idle now rest in
    if is_idle idle now f then (emit f idle_timeout ∷ events, kept) else (events, (k, f) ∷ kept)

unfoldable pub drop_drained : ℕ → Dict FlowKey ℕ → Dict FlowKey ℕ
drop_drained now [] = []
drop_drained now ((k, deadline) ∷ rest) =
    let kept = drop_drained now rest in if ltb deadline now then kept else (k, deadline) ∷ kept

unfoldable pub advance : ℕ → Tracker → List Event × Tracker
unfolding expire_loop drop_drained
advance now t =
    if ltb now (t.last_sweep_ts + sweep_interval)
    then ([], t)
    else (let (expired, kept) = expire_loop t.idle_limit now t.flows in
        (
          expired,
          record t { last_sweep_ts = now; draining = drop_drained now t.draining; flows = kept },
        ))

-- A deque of at most `connection_window` entries.
unfoldable pub push_recent : List Connection → Connection → List Connection
push_recent recent c =
    let longer = recent ++ c ∷ [] in drop (length longer - connection_window) longer

unfoldable pub same_pair : Connection → Connection → Bool
same_pair c d = str_eq d.src c.src && str_eq d.dst c.dst

unfoldable pub same_dst : Connection → Connection → Bool
same_dst c d = str_eq d.dst c.dst

unfoldable pub same_service : Connection → Connection → Bool
same_service c d = str_eq d.dst c.dst && str_eq d.service c.service

abbrev pub connection_of : Event → Connection
connection_of e = record { src = e.source_ip; dst = e.destination_ip; service = e.features.service }

unfoldable pub history_of : Connection → List Connection → History
history_of c recent = record {
  ct_dst_src_ltm = count_if (same_pair c) recent;
  ct_dst_ltm = count_if (same_dst c) recent;
  ct_srv_dst = count_if (same_service c) recent;
}

unfoldable pub count_loop : List Event → List Connection → List Event × List Connection
count_loop [] recent = ([], recent)
count_loop (e ∷ events) recent =
    let longer = push_recent recent (connection_of e) in
    let (counted, last) = count_loop events longer in
    (record e { history = some (history_of (connection_of e) longer) } ∷ counted, last)

-- _count(events)
unfoldable pub count_events : List Event → Tracker → List Event × Tracker
unfolding count_loop
count_events events t =
    let (counted, recent) = count_loop events t.recent in
    (counted, record t { recent = recent; flows_emitted = t.flows_emitted + length counted })

-- emitted.extend(self.advance(now)); return self._count(emitted)
unfoldable pub settle : List Event → ℕ → Tracker → List Event × Tracker
unfolding advance count_events
settle emitted now t = let (expired, t') = advance now t in count_events (emitted ++ expired) t'
