-- ===== src/Flow/Feed/Torn.antt =====
-- Where the drain markers come from: every one was set with the event of a connection that was
-- closed.
use algo_guard.Prelude.{ℕ, ◌+◌, ◌≤◌, ◌≡◌, refl, ap, ◌∙◌, Bool, Option, arith, ◌⊎◌}
use algo_guard.Flow.Packet.{PacketInfo}
use algo_guard.Flow.State.{FlowKey, FlowState, key_of, new_flow, add_to_flow}
use algo_guard.Flow.Features.{fin_close, rst_close, Event, History, emit}
use algo_guard.Flow.Tracker.{Closing, close_hold, drain_time}
use algo_guard.Flow.Feed.{closed_as, late_closing}
use algo_guard.Flow.Feed.Lifetime.{Lifetime}

-- The event reports the connection of this key as closed, at most the hold and the drain time
-- before the deadline.
pub record IsClose (k : FlowKey) (deadline : ℕ) (e : Event) : Type 0 where
  pub src : e.source_ip ≡ k.src_ip
  pub sport : e.source_port ≡ k.src_port
  pub dst : e.destination_ip ≡ k.dst_ip
  pub dport : e.destination_port ≡ k.dst_port
  pub proto : e.protocol ≡ k.proto
  pub reason : (e.end_reason ≡ fin_close) ⊎ (e.end_reason ≡ rst_close)
  pub soon : deadline ≤ e.last_ts + close_hold + drain_time

-- The flows that a tracker closes.
pub record Ends (k : FlowKey) (c : Closing) : Type 0 where
  pub key : key_of c.flow ≡ k
  pub reason : (c.reason ≡ fin_close) ⊎ (c.reason ≡ rst_close)
  pub soon : c.deadline ≤ c.flow.last_ts + close_hold

pub key_of-add :
    (f : FlowState) (info : PacketInfo) (b : Bool) → key_of (add_to_flow f info b) ≡ key_of f
unfolding add_to_flow
key_of-add f info b = ground arith

pub key_of-new : (k : FlowKey) (ts : ℕ) → key_of (new_flow k ts) ≡ k
unfolding new_flow
key_of-new k ts = refl

pub late-Ends :
    (k : FlowKey) (c : Closing) (info : PacketInfo) → Ends k c → Ends k (late_closing info c)
unfolding late_closing add_to_flow
late-Ends k c info e = record {
  key = unfold late_closing in (key_of-add c.flow info _ ∙ e.key);
  reason = e.reason;
  soon = ground (arith, e.soon);
}

pub closed-Ends :
    (k : FlowKey) (f : FlowState) (info : PacketInfo)
    → info.ts ≤ f.last_ts
    → key_of f ≡ k
    → Ends k (closed_as info f)
closed-Ends k f info last key = record {
  key = key;
  reason = ground arith;
  soon = omega (arith, last);
}

abbrev pub closes : (active : ℕ) → Lifetime active
closes active = record {
  Good = λ i. Unit {0};
  Opened = λ k f. key_of f ≡ k;
  Ending = Ends;
  Reports = λ e. Unit {0};
  new_law = key_of-new;
  add_law = λ k f info b g room o. key_of-add f info b ∙ o;
  slice_law = λ k f ts o. key_of-new (key_of f) ts ∙ o;
  close_law = λ k f info room last o. closed-Ends k f info last o;
  late_law = λ k c info g due e. late-Ends k c info e;
  emit_law = λ k f r o. tt;
  ending_law = λ k c e. tt;
  history_law = λ e h r. tt;
}

pub emit-IsClose :
    (k : FlowKey) (c : Closing) (h : Option History)
    → Ends k c
    → IsClose k (c.deadline + drain_time) (record (emit c.flow c.reason) { history = h })
unfolding emit
emit-IsClose k c h e = record {
  src = ap (λ (j : FlowKey). j.src_ip) e.key;
  sport = ap (λ (j : FlowKey). j.src_port) e.key;
  dst = ap (λ (j : FlowKey). j.dst_ip) e.key;
  dport = ap (λ (j : FlowKey). j.dst_port) e.key;
  proto = ap (λ (j : FlowKey). j.proto) e.key;
  reason = e.reason;
  soon = omega (arith, e.soon);
}
