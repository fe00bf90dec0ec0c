-- ===== src/Flow/Feed/Captures.antt =====
-- Whole captures: from the first packet to the flush.
use mathlib.Core.List.{Sublist, nil-sublist}
use mathlib.Core.List.Sublist
use algo_guard.Prelude.{
  ℕ, ◌+◌, ◌<◌, ◌≤◌, ◌≡◌, refl, ◌∙◌, none, some, List, [], ◌∷◌, ◌++◌, arith, ◌⊎◌, inl, inr, total,
  total-append, All, All-left, All-right, All-mono,
}
use algo_guard.Prelude.Dict.{get-Entries}
use algo_guard.Flow.Packet.{PacketInfo}
use algo_guard.Flow.State.{FlowKey, FlowKey-discrete}
use algo_guard.Flow.Features.{Event}
use algo_guard.Flow.Tracker.{Tracker, close_due_flows, lookup_key, init}
use algo_guard.Flow.Feed.{Input, packet, sweep, hold, step, run, add_packet}
use algo_guard.Flow.Feed.Invariant.{Inv, init-Inv}
use algo_guard.Flow.Feed.Keeps.{step-Inv}
use algo_guard.Flow.Feed.Measure.{Measure, held, packets, bytes}
use algo_guard.Flow.Feed.Amount.{
  reported, close_due_flows-keeps, settle-keeps, count_events-keeps, flush-keeps,
}
use algo_guard.Flow.Feed.Conservation.{IsTail, Names, add_packet-Counted}
use algo_guard.Flow.Feed.Lifetime.{Lives}
use algo_guard.Flow.Feed.Events.{step-Sane}
use algo_guard.Flow.Feed.Torn.{IsClose, closes}
use algo_guard.Flow.Feed.Marks.{Marks, Torn, add_open-Given, close_due_flows-Marks, step-Marks}

abbrev pub packets_of : List Input → List PacketInfo
packets_of [] = []
packets_of (packet info ∷ rest) = info ∷ packets_of rest
packets_of (_ ∷ rest) = packets_of rest

-- The packet comes no later than the hold and the drain time after an event with `Q` that reports
-- a connection of its own, in one direction or the other, as closed by FIN or by RST.
abbrev pub Follows : (Event → Type 0) → PacketInfo → Type 0
Follows Q info =
    (e : Event) × (k : FlowKey) × (deadline : ℕ) × Q e
    × Names k info
    × IsClose k deadline e
    × (info.ts ≤ deadline)

module _ (Q : Event → Type 0) (m : Measure) where
  abbrev pub sent : List PacketInfo → ℕ
  sent = total m.of_packet

  -- The packets that the tracker swallowed: all of them tails of connections whose events have `Q`.
  pub record Balance (before : ℕ) (fed : List PacketInfo) (events : List Event) : Type 0 where
    pub swallowed : List PacketInfo
    pub among : Sublist swallowed fed
    pub tails : All IsTail swallowed
    pub follow : All (Follows Q) swallowed
    pub sums : reported m events + sent swallowed ≡ before + sent fed

  timer-keeps :
      (t : Tracker) (now : ℕ)
      → (reported m (step t (sweep now)).0 + held m (step t (sweep now)).1 ≡ held m t)
        × (reported m (step t (hold now)).0 + held m (step t (hold now)).1 ≡ held m t)
  unfolding step
  timer-keeps t now =
      let (due, t') = close_due_flows now none t in
      (
        settle-keeps m due now t' ∙ close_due_flows-keeps m now none t,
        count_events-keeps m due t' ∙ close_due_flows-keeps m now none t,
      )

  -- One more call before the rest of a capture.
  timer-Balance :
      (t t' : Tracker) (events later : List Event) (fed : List PacketInfo)
      → reported m events + held m t' ≡ held m t
      → Balance (held m t') fed later
      → Balance (held m t) fed (events ++ later)
  timer-Balance t t' events later fed keeps b = record {
    swallowed = b.swallowed;
    among = b.among;
    tails = b.tails;
    follow = b.follow;
    sums = omega (arith, total-append m.of_event events later, b.sums);
  }

  -- A call for a packet: the packet is counted, or it is swallowed and follows a close.
  packet-Balance :
      (t t' : Tracker) (info : PacketInfo) (events later : List Event) (fed : List PacketInfo)
      → (reported m events + held m t' ≡ held m t + m.of_packet info)
        ⊎ ((reported m events + held m t' ≡ held m t) × IsTail info × Follows Q info)
      → Balance (held m t') fed later
      → Balance (held m t) (info ∷ fed) (events ++ later)
  unfolding total
  packet-Balance t t' info events later fed (inl e) b = record {
    swallowed = b.swallowed;
    among = Sublist.cons info b.among;
    tails = b.tails;
    follow = b.follow;
    sums = omega (arith, total-append m.of_event events later, b.sums);
  }
  packet-Balance t t' info events later fed (inr (e, tail, follows)) b = record {
    swallowed = info ∷ b.swallowed;
    among = Sublist.cons-cons info b.among;
    tails = (tail, b.tails);
    follow = (follows, b.follow);
    sums = omega (arith, total-append m.of_event events later, b.sums);
  }

  module _ {active : ℕ} where
    add_packet-Follows :
        (t : Tracker) (info : PacketInfo)
        → Inv t
        → Lives (closes active) t
        → Marks (Torn Q) t
        → All Q (add_packet t info).0
        → (reported m (add_packet t info).0 + held m (add_packet t info).1
            ≡ held m t + m.of_packet info)
          ⊎ ((reported m (add_packet t info).0 + held m (add_packet t info).1 ≡ held m t)
              × IsTail info
              × Follows Q info)
    unfolding add_packet
    add_packet-Follows t info inv v marks q =
        let r = close_due_flows info.ts (some info) t in
        let given = add_open-Given Q r.1 info r.0 (lookup_key r.1 info) q in
        let marked = close_due_flows-Marks Q info.ts (some info) t v given marks in
        elim (add_packet-Counted m t info inv) [
          | inl e ↦ inl e
          | inr (e, (tail, (k, deadline, own, there, soon), same)) ↦
              let (event, seen, close) =
                get-Entries FlowKey-discrete (Torn Q) k r.1.draining deadline marked there in
              inr (e, tail, (event, k, deadline, seen, own, close, soon))
        ]

    pub run-Balance :
        (pos : 0 < active) (t : Tracker) (inputs : List Input)
        → Inv t
        → Lives (closes active) t
        → Marks (Torn Q) t
        → All Q (run t inputs).0
        → Balance (held m t) (packets_of inputs) (run t inputs).0
    unfolding run
    run-Balance pos t [] inv v marks q = record {
      swallowed = [];
      among = nil-sublist [];
      tails = tt;
      follow = tt;
      sums = unfold total in omega (arith, flush-keeps m t);
    }
    run-Balance pos t (packet info ∷ inputs) inv v marks q =
        let r = step t (packet info) in
        let first = All-left Q r.0 (run r.1 inputs).0 q in
        packet-Balance t r.1 info _ _ (packets_of inputs)
          (add_packet-Follows t info inv v marks first)
          (run-Balance pos r.1 inputs (step-Inv t (packet info) inv)
            (step-Sane (closes active) pos t (packet info) tt inv v).1
            (step-Marks Q t (packet info) v first marks) (All-right Q r.0 (run r.1 inputs).0 q))
    run-Balance pos t (sweep now ∷ inputs) inv v marks q =
        let r = step t (sweep now) in
        timer-Balance t r.1 _ _ (packets_of inputs) (timer-keeps t now).0 (
          run-Balance pos r.1 inputs (step-Inv t (sweep now) inv)
            (step-Sane (closes active) pos t (sweep now) tt inv v).1
            (step-Marks Q t (sweep now) v (All-left Q r.0 (run r.1 inputs).0 q) marks)
            (All-right Q r.0 (run r.1 inputs).0 q))
    run-Balance pos t (hold now ∷ inputs) inv v marks q =
        let r = step t (hold now) in
        timer-Balance t r.1 _ _ (packets_of inputs) (timer-keeps t now).1 (
          run-Balance pos r.1 inputs (step-Inv t (hold now) inv)
            (step-Sane (closes active) pos t (hold now) tt inv v).1
            (step-Marks Q t (hold now) v (All-left Q r.0 (run r.1 inputs).0 q) marks)
            (All-right Q r.0 (run r.1 inputs).0 q))

-- The event is one of the list.
abbrev pub IsOf : List Event → Event → Type 0
IsOf [] e = ⊥
IsOf (x ∷ events) e = (e ≡ x) ⊎ IsOf events e

All-IsOf : (events : List Event) → All (IsOf events) events
All-IsOf [] = tt
All-IsOf (e ∷ events) =
    (inl refl, All-mono (IsOf events) (IsOf (e ∷ events)) (λ x. inr) events (All-IsOf events))

-- Over a whole capture from an empty tracker, in packets and in bytes alike: what the events report
-- together with the packets that were swallowed is every packet sent. Each swallowed packet is a
-- bare acknowledgement or a reset of TCP, and an event of the capture reports a connection of its
-- own, in one direction or the other, as closed by FIN or RST, with its last packet at most the
-- closing hold and the drain time before the swallowed one.
pub run-conserves :
    (idle active : ℕ) (inputs : List Input)
    → 0 < active
    → let events = (run (init idle active) inputs).0 in
      Balance (IsOf events) packets 0 (packets_of inputs) events
      × Balance (IsOf events) bytes 0 (packets_of inputs) events
unfolding init total
run-conserves idle active inputs pos =
    let t = init idle active in
    let events = (run t inputs).0 in
    let v : Lives (closes active) t = record { limit = refl; opened = tt; ending = tt } in
    let all = All-IsOf events in
    (
      run-Balance (IsOf events) packets pos t inputs (init-Inv idle active) v tt all,
      run-Balance (IsOf events) bytes pos t inputs (init-Inv idle active) v tt all,
    )
