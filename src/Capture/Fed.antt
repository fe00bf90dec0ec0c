-- ===== src/Capture/Fed.antt =====
-- The live capture as a run of the tracker's calls.
use mathlib.Core.List.{append_assoc, append-nil}
use algo_guard.Prelude.{
  ℕ, ◌+◌, ◌≡◌, refl, sym, ap, ◌∙◌, subst, Bool, true, false, ◌||◌, Option, none, some, List, [],
  ◌∷◌, ◌++◌, arith, Bool-cases, inl, inr, leb, ltb, ◌==◌, map, count_if, count_if-append,
  if◌then◌else◌,
}
use algo_guard.Flow.Packet.{PacketInfo}
use algo_guard.Flow.Features.{Event}
use algo_guard.Flow.Tracker.{Tracker}
use algo_guard.Flow.Feed.{Input, packet, sweep, hold, step, close_due}
use algo_guard.Capture.Connections.{Registry, matches}
use algo_guard.Capture.Live.{
  Moment, Live, Own, web, cloud, is_among, is_web, is_syn, cloud_kind, own_traffic_kind, emit_flows,
  sort_info, process_info, expire_check, expire, Received, process_all, pass_ignored, track_turn,
  idle_check,
}
use algo_guard.Capture.Calls.{
  feed, feed-append, uses_port, own_of, Kinds, sort_all, call_of, ignored_call, timer_calls,
  is_foreign, is_own, is_cloud,
}

-- From `s` to `s'` the tracker has had these calls and nothing else has changed it; the flows that
-- it gave wait behind those that waited; the packets have been counted by their owners.
pub record Fed (kinds : Kinds) (inputs : List Input) (s s' : Live) : Type 0 where
  pub queued : s'.flows ≡ s.flows ++ (feed s.tracker inputs).0
  pub tracked : s'.tracker ≡ (feed s.tracker inputs).1
  pub captured : s'.packets_captured ≡ s.packets_captured + count_if is_foreign kinds
  pub excluded : s'.packets_excluded ≡ s.packets_excluded + count_if is_own kinds
  pub in_cloud : s'.packets_excluded_cloud ≡ s.packets_excluded_cloud + count_if is_cloud kinds
  pub dropped : s'.packets_dropped ≡ s.packets_dropped
  pub emitted : s'.flows_emitted ≡ s.flows_emitted
  pub ports : s'.exclude_ports ≡ s.exclude_ports

then-Fed :
    (ks ls : Kinds) (xs ys : List Input) (s t u : Live)
    → Fed ks xs s t
    → Fed ls ys t u
    → Fed (ks ++ ls) (xs ++ ys) s u
then-Fed ks ls xs ys s t u a b =
    let first = feed s.tracker xs in
    let second = feed first.1 ys in
    let whole = feed-append s.tracker xs ys in
    let rest : feed t.tracker ys ≡ second = ap (λ k. feed k ys) a.tracked in
    record {
      queued =
          b.queued
          ∙ ap (λ (r : List Event × Tracker). t.flows ++ r.0) rest
          ∙ ap (λ flows. flows ++ second.0) a.queued
          ∙ append_assoc s.flows first.0 second.0
          ∙ ap (λ (r : List Event × Tracker). s.flows ++ r.0) (sym whole);
      tracked =
          b.tracked
          ∙ ap (λ (r : List Event × Tracker). r.1) rest
          ∙ ap (λ (r : List Event × Tracker). r.1) (sym whole);
      captured = omega (arith, a.captured, b.captured, count_if-append is_foreign ks ls);
      excluded = omega (arith, a.excluded, b.excluded, count_if-append is_own ks ls);
      in_cloud = omega (arith, a.in_cloud, b.in_cloud, count_if-append is_cloud ks ls);
      dropped = b.dropped ∙ a.dropped;
      emitted = b.emitted ∙ a.emitted;
      ports = b.ports ∙ a.ports;
    }

-- A call of the tracker whose flows go to the queue, where the counters have been set.
call-Fed :
    (kinds : Kinds) (i : Input) (s t : Live)
    → t.flows ≡ s.flows
    → t.tracker ≡ s.tracker
    → t.packets_captured ≡ s.packets_captured + count_if is_foreign kinds
    → t.packets_excluded ≡ s.packets_excluded + count_if is_own kinds
    → t.packets_excluded_cloud ≡ s.packets_excluded_cloud + count_if is_cloud kinds
    → t.packets_dropped ≡ s.packets_dropped
    → t.flows_emitted ≡ s.flows_emitted
    → t.exclude_ports ≡ s.exclude_ports
    → Fed kinds (i ∷ []) s (emit_flows (step s.tracker i) t)
unfolding emit_flows feed
call-Fed kinds i s t flows tracker captured excluded in_cloud dropped emitted ports = record {
  queued =
      ap (λ f. f ++ (step s.tracker i).0) flows
      ∙ ap (λ e. s.flows ++ e) (sym (append-nil (step s.tracker i).0));
  tracked = refl;
  captured = captured;
  excluded = excluded;
  in_cloud = in_cloud;
  dropped = dropped;
  emitted = emitted;
  ports = ports;
}

-- A call of a timer, which counts nothing.
timer-Fed :
    (i : Input) (s : Live) (last : ℕ)
    → Fed [] (i ∷ []) s (emit_flows (step s.tracker i) (record s { last_idle_check = last }))
unfolding count_if
timer-Fed i s last =
    call-Fed [] i s (record s { last_idle_check = last }) refl refl (omega arith) (omega arith)
      (omega arith) refl refl refl

same-Fed : (s : Live) → Fed [] [] s s
unfolding feed count_if
same-Fed s = record {
  queued = sym (append-nil s.flows);
  tracked = refl;
  captured = omega arith;
  excluded = omega arith;
  in_cloud = omega arith;
  dropped = refl;
  emitted = refl;
  ports = refl;
}

sort_info-Fed :
    (info : PacketInfo) (s : Live) (kind : Option Own) (owned : Registry)
    → Fed ((info, kind) ∷ []) (call_of (info, kind) ∷ []) s (sort_info info s (kind, owned))
unfolding sort_info step count_if
sort_info-Fed info s (some web) owned =
    call-Fed ((info, some web) ∷ []) (sweep info.ts) s _ refl refl (omega arith) refl refl refl refl
      refl
sort_info-Fed info s (some cloud) owned =
    call-Fed ((info, some cloud) ∷ []) (sweep info.ts) s _ refl refl (omega arith) refl refl refl
      refl refl
sort_info-Fed info s none owned =
    call-Fed ((info, none) ∷ []) (packet info) s _ refl refl refl (omega arith) (omega arith) refl
      refl refl

-- The look-up of the registry and the time of the last check are not touched by the tracker.
sort_info-others :
    (info : PacketInfo) (s : Live) (kind : Option Own × Registry)
    → ((sort_info info s kind).owned ≡ kind.1)
      × ((sort_info info s kind).last_idle_check ≡ s.last_idle_check)
unfolding sort_info emit_flows
sort_info-others info s (some own, owned) = (refl, refl)
sort_info-others info s (none, owned) = (refl, refl)

is_among-count :
    (port : ℕ) (ports : List ℕ) → is_among port ports ≡ ltb 0 (count_if (λ p. port == p) ports)
unfolding is_among count_if
is_among-count port [] = refl
is_among-count port (p ∷ ports) = ground (arith, is_among-count port ports)

is_web-uses_port : (ports : List ℕ) (info : PacketInfo) → is_web ports info ≡ uses_port ports info
unfolding is_web
is_web-uses_port ports info =
    ground (arith, is_among-count info.src_port ports, is_among-count info.dst_port ports)

cloud_kind-eq :
    (m : Moment) (info : PacketInfo) (r : Bool × Registry)
    → cloud_kind m info r
      ≡ (if r.0 || m.maintenance info (is_syn info) then some cloud else none, r.1)
unfolding cloud_kind
cloud_kind-eq m info (true, owned) = refl
cloud_kind-eq m info (false, owned) = refl

own_traffic_kind-own_of :
    (m : Moment) (info : PacketInfo) (ports : List ℕ) (owned : Registry)
    → own_traffic_kind m info ports owned ≡ own_of ports m info owned
unfolding own_traffic_kind own_of
own_traffic_kind-own_of m info ports owned =
    rw
      (
        is_web-uses_port ports info,
        cloud_kind-eq m info (matches m.canonical m.opened m.clock info owned),
      )
      refl

-- The packets of the turn, whose owners are those that the registry tells one after the other.
record Sorted (sorted : Kinds × Registry) (s s' : Live) : Type 0 where
  fed : Fed sorted.0 (map call_of sorted.0) s s'
  owned : s'.owned ≡ sorted.1
  idle : s'.last_idle_check ≡ s.last_idle_check

process_all-Sorted :
    (infos : List (Moment × PacketInfo)) (ports : List ℕ) (owned : Registry) (s : Live)
    → s.exclude_ports ≡ ports
    → s.owned ≡ owned
    → Sorted (sort_all ports owned infos) s (process_all infos s)
unfolding process_all sort_all
process_all-Sorted [] ports owned s p o = record { fed = same-Fed s; owned = o; idle = refl }
process_all-Sorted ((m, info) ∷ infos) ports owned s p o =
    let k = own_of ports m info owned in
    let next = sort_info info s k in
    let one = sort_info-Fed info s k.0 k.1 in
    let others = sort_info-others info s k in
    let same : process_info m info s ≡ next =
      unfold process_info in
      ap (sort_info info s) (
        ap (λ q. own_traffic_kind m info q s.owned) p
        ∙ ap (own_traffic_kind m info ports) o
        ∙ own_traffic_kind-own_of m info ports owned) in
    let rest = process_all-Sorted infos ports k.1 next (one.ports ∙ p) others.0 in
    let sorted = sort_all ports k.1 infos in
    subst (λ u. Sorted ((info, k.0) ∷ sorted.0, sorted.1) s (process_all infos u)) (sym same)
      (record {
        fed =
            then-Fed ((info, k.0) ∷ []) sorted.0 (call_of (info, k.0) ∷ []) (map call_of sorted.0) s
              next (process_all infos next) one rest.fed;
        owned = rest.owned;
        idle = rest.idle ∙ others.1;
      })

pass_ignored-Fed :
    (ignored : Option ℕ) (s : Live) → Fed [] (ignored_call ignored) s (pass_ignored ignored s)
unfolding pass_ignored step
pass_ignored-Fed none s = same-Fed s
pass_ignored-Fed (some ts) s = timer-Fed (sweep ts) s s.last_idle_check

expire_check-Fed :
    (now : ℕ) (s : Live)
    → Fed []
        (if leb (s.last_idle_check + idle_check) now then sweep now ∷ [] else [])
        s
        (expire_check now s)
unfolding expire_check step
expire_check-Fed now s = elim (Bool-cases (leb (s.last_idle_check + idle_check) now)) [
  | inl b ↦ rw (b, expire_check) (timer-Fed (sweep now) s now)
  | inr b ↦ rw (b, expire_check) (same-Fed s)
]

expire-Fed : (now : ℕ) (s : Live) → Fed [] (timer_calls s.last_idle_check now) s (expire now s)
unfolding expire step emit_flows
expire-Fed now s =
    let held = emit_flows (close_due now s.tracker) s in
    then-Fed [] [] (hold now ∷ []) _ s held (expire_check now held)
      (timer-Fed (hold now) s s.last_idle_check) (expire_check-Fed now held)

-- The time of the last check for idle flows, after one at the time `now`.
abbrev pub checked_at : ℕ → ℕ → ℕ
checked_at last now = if leb (last + idle_check) now then now else last

expire-others :
    (now : ℕ) (s : Live)
    → ((expire now s).owned ≡ s.owned)
      × ((expire now s).last_idle_check ≡ checked_at s.last_idle_check now)
unfolding expire expire_check emit_flows
expire-others now s = ground arith

pass_ignored-others :
    (ignored : Option ℕ) (s : Live)
    → ((pass_ignored ignored s).owned ≡ s.owned)
      × ((pass_ignored ignored s).last_idle_check ≡ s.last_idle_check)
unfolding pass_ignored emit_flows
pass_ignored-others none s = (refl, refl)
pass_ignored-others (some ts) s = (refl, refl)

-- The calls that a turn makes of the tracker, by what was received.
abbrev pub turn_calls : Received → ℕ → Live → Kinds → List Input
turn_calls r now s kinds =
    map call_of kinds ++ (ignored_call r.ignored_ts ++ timer_calls s.last_idle_check now)

-- What one turn does with the packets that it has received.
pub record Turned (r : Received) (now : ℕ) (s s' : Live) : Type 0 where
  pub fed :
      let kinds = (sort_all s.exclude_ports s.owned r.infos).0 in
      Fed kinds
        (turn_calls r now s kinds)
        (record s { packets_dropped = s.packets_dropped + r.dropped })
        s'
  pub owned : s'.owned ≡ (sort_all s.exclude_ports s.owned r.infos).1
  pub idle : s'.last_idle_check ≡ checked_at s.last_idle_check now

-- One turn of the live capture is a run of the tracker's calls, and which calls these are is told
-- by what was received: for each packet in order, the packet itself or, where it is the
-- application's own, the passing of its time; the passing of the time of the last packet without IP;
-- the closing of connections at the end of the turn, and, a second after the last time, the check
-- for idle flows. A packet is the web server's by its ports, or the cloud's by the registry of
-- connections, as the look-ups of the earlier packets leave it, or by the maintainer's tools. The
-- flows that these calls give are those that the queue gains, in order, the counters of captured,
-- excluded and cloud packets grow by the packets of each kind, and what the capture process has
-- dropped is added.
pub track_turn-Turned : (r : Received) (now : ℕ) (s : Live) → Turned r now s (track_turn r now s)
unfolding track_turn
track_turn-Turned r now s =
    let start = record s { packets_dropped = s.packets_dropped + r.dropped } in
    let handled = process_all r.infos start in
    let passed = pass_ignored r.ignored_ts handled in
    let sorted = process_all-Sorted r.infos s.exclude_ports s.owned start refl refl in
    let kinds = (sort_all s.exclude_ports s.owned r.infos).0 in
    let others = pass_ignored-others r.ignored_ts handled in
    let last = expire-others now passed in
    let same = others.1 ∙ sorted.idle in
    let timers =
      subst (λ t. Fed [] (timer_calls t now) passed (expire now passed)) same
        (expire-Fed now passed) in
    let end =
      then-Fed [] [] (ignored_call r.ignored_ts) (timer_calls s.last_idle_check now) handled passed
        (expire now passed) (pass_ignored-Fed r.ignored_ts handled) timers in
    record {
      fed =
          subst (λ (k : Kinds). Fed k (turn_calls r now s kinds) start (expire now passed))
            (append-nil kinds)
            (then-Fed kinds [] (map call_of kinds) _ start handled (expire now passed) sorted.fed
              end);
      owned = last.0 ∙ others.0 ∙ sorted.owned;
      idle = last.1 ∙ ap (λ t. checked_at t now) same;
    }
