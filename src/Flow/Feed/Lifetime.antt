-- ===== src/Flow/Feed/Lifetime.antt =====
-- What holds of every flow from its first packet to its event: laws for each change of a flow, and
-- what follows for the tables.
use algo_guard.Prelude.{
  ℕ, ◌+◌, ◌≤◌, ◌<◌, ◌≡◌, Bool, false, Option, List, [], ◌∷◌, arith, inl, inr, Bool-cases, All,
}
use algo_guard.Prelude.Dict.{Dict, put, Entries}
use algo_guard.Flow.Packet.{PacketInfo}
use algo_guard.Flow.State.{FlowKey, FlowKey-discrete, FlowState, new_flow, add_to_flow, key_of}
use algo_guard.Flow.Features.{EndReason, Event, History, emit, idle_timeout}
use algo_guard.Flow.Tracker.{
  Tracker, Closing, Connection, drain_time, is_due, is_idle, close_loop, expire_loop, count_loop,
  count_events,
}
use algo_guard.Flow.Feed.{closed_as, late_closing}

pub record Lifetime (active : ℕ) : Type 1 where
  pub Good : PacketInfo → Type 0
  pub Opened : FlowKey → FlowState → Type 0
  pub Ending : FlowKey → Closing → Type 0
  pub Reports : Event → Type 0
  pub new_law : (k : FlowKey) (ts : ℕ) → Opened k (new_flow k ts)
  pub add_law :
      (k : FlowKey) (f : FlowState) (info : PacketInfo) (b : Bool)
      → Good info
      → info.ts < f.first_ts + active
      → Opened k f
      → Opened k (add_to_flow f info b)
  pub slice_law :
      (k : FlowKey) (f : FlowState) (ts : ℕ) → Opened k f → Opened k (new_flow (key_of f) ts)
  pub close_law :
      (k : FlowKey) (f : FlowState) (info : PacketInfo)
      → info.ts < f.first_ts + active
      → info.ts ≤ f.last_ts
      → Opened k f
      → Ending k (closed_as info f)
  pub late_law :
      (k : FlowKey) (c : Closing) (info : PacketInfo)
      → Good info
      → info.ts ≤ c.deadline
      → Ending k c
      → Ending k (late_closing info c)
  pub emit_law : (k : FlowKey) (f : FlowState) (r : EndReason) → Opened k f → Reports (emit f r)
  pub ending_law : (k : FlowKey) (c : Closing) → Ending k c → Reports (emit c.flow c.reason)
  pub history_law :
      (e : Event) (h : Option History) → Reports e → Reports (record e { history = h })

not_due :
    (now : ℕ) (info : Option PacketInfo) (c : Closing)
    → is_due now info c ≡ false
    → now ≤ c.deadline
unfolding is_due
not_due now info c h = ground arith

module _ {active : ℕ} (l : Lifetime active) where
  open l use {Good, Opened, Ending, Reports}

  pub record Lives (t : Tracker) : Type 0 where
    pub limit : t.active_limit ≡ active
    pub opened : Entries FlowKey-discrete Opened t.flows
    pub ending : Entries FlowKey-discrete Ending t.closing

  abbrev pub Reported : List Event → Type 0
  Reported = All Reports

  -- The entries that a timed close leaves are not yet due.
  abbrev pub Waiting : ℕ → FlowKey → Closing → Type 0
  Waiting now k c = Ending k c × (now ≤ c.deadline)

  pub close_loop-Lives :
      (now : ℕ) (info : Option PacketInfo) (d : Dict FlowKey Closing) (drains : Dict FlowKey ℕ)
      → Entries FlowKey-discrete Ending d
      → Reported (close_loop now info d drains).due
        × Entries FlowKey-discrete (Waiting now) (close_loop now info d drains).kept
  unfolding close_loop
  close_loop-Lives now info [] drains e = (tt, tt)
  close_loop-Lives now info ((k, c) ∷ d) drains e = elim (Bool-cases (is_due now info c)) [
    | inl b ↦
        let r =
          close_loop-Lives now info d (put FlowKey-discrete k (c.deadline + drain_time) drains)
            e.1 in
        rw (b, close_loop) ((l.ending_law k c e.0, r.0), r.1)
    | inr b ↦
        let r = close_loop-Lives now info d drains e.1 in
        rw (b, close_loop) (r.0, ((e.0, not_due now info c b), r.1))
  ]

  pub expire_loop-Lives :
      (idle now : ℕ) (d : Dict FlowKey FlowState)
      → Entries FlowKey-discrete Opened d
      → Reported (expire_loop idle now d).0
        × Entries FlowKey-discrete Opened (expire_loop idle now d).1
  unfolding expire_loop
  expire_loop-Lives idle now [] e = (tt, tt)
  expire_loop-Lives idle now ((k, f) ∷ d) e =
      let r = expire_loop-Lives idle now d e.1 in
      elim (Bool-cases (is_idle idle now f)) [
        | inl b ↦ rw (b, expire_loop) ((l.emit_law k f idle_timeout e.0, r.0), r.1)
        | inr b ↦ rw (b, expire_loop) (r.0, (e.0, r.1))
      ]

  count_loop-Reported :
      (events : List Event) (recent : List Connection)
      → Reported events
      → Reported (count_loop events recent).0
  unfolding count_loop
  count_loop-Reported [] recent r = tt
  count_loop-Reported (e ∷ events) recent r =
      (l.history_law e _ r.0, count_loop-Reported events _ r.1)

  -- A call's events are reported, and the tables it leaves are in order.
  abbrev pub Sane : List Event × Tracker → Type 0
  Sane (events, t) = Reported events × Lives t

  pub count_events-Sane :
      (events : List Event) (t : Tracker) → Reported events → Lives t → Sane (count_events events t)
  unfolding count_events
  count_events-Sane events t r v = (
    count_loop-Reported events t.recent r,
    record { limit = v.limit; opened = v.opened; ending = v.ending },
  )
