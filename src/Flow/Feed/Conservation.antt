-- ===== src/Flow/Feed/Conservation.antt =====
-- A measure over the whole of `add_packet`.
use algo_guard.Prelude.{
  ℕ, ◌+◌, ◌≤◌, ◌≡◌, refl, ap, ◌∙◌, true, false, ◌&&◌, some, List, arith, leb, ◌⊎◌, inl, inr,
  Bool-cases, Option-cases, str_eq, has_char,
}
use algo_guard.Prelude.Dict.{get, remove}
use algo_guard.Flow.Packet.{PacketInfo}
use algo_guard.Flow.State.{FlowKey, FlowKey-discrete, flip, forward_key}
use algo_guard.Flow.Features.{Event}
use algo_guard.Flow.Tracker.{Tracker, close_due_flows, lookup_key, settle}
use algo_guard.Flow.Feed.{
  slot_for, add_step, add_late, late_flow, track, swallow_or_track, add_open, drain_key,
  is_teardown_tail, add_packet,
}
use algo_guard.Flow.Feed.Apart.{slot_for-some, entry_slot, Absent-none}
use algo_guard.Flow.Feed.Invariant.{Inv, Clear, slot_for-Sound, slot_clear, lookup_key-Preferred}
use algo_guard.Flow.Feed.Keeps.{late_flow-get, late_flow-Clear, without_drain, close_due_flows-Inv}
use algo_guard.Flow.Feed.Measure.{Measure, held, packets, bytes}
use algo_guard.Flow.Feed.Amount.{reported, close_due_flows-keeps, settle-keeps, add_late-keeps}
use algo_guard.Flow.Feed.Balance.{Free, slot_for-Balanced, add_step-keeps}

-- A reset or a bare acknowledgement of TCP, with no SYN, FIN or PSH beside the latter.
abbrev pub IsTail : PacketInfo → Type 0
IsTail info =
    (str_eq info.proto "tcp" ≡ true)
    × (has_char b'S' info.tcp_flags ≡ false)
    × ((has_char b'R' info.tcp_flags ≡ true)
        ⊎ ((has_char b'A' info.tcp_flags ≡ true)
            × (has_char b'F' info.tcp_flags ≡ false)
            × (has_char b'P' info.tcp_flags ≡ false)))

is_teardown_tail-IsTail : (info : PacketInfo) → is_teardown_tail info ≡ true → IsTail info
unfolding is_teardown_tail
is_teardown_tail-IsTail info h = ground arith

-- The packet's key, in one direction or the other.
abbrev pub Names : FlowKey → PacketInfo → Type 0
Names k info = (k ≡ forward_key info) ⊎ (k ≡ flip (forward_key info))

-- A connection of the packet is on record as closed, and its drain time has not passed.
abbrev pub Drained : Tracker → PacketInfo → Type 0
Drained t info =
    (k : FlowKey) × (deadline : ℕ) × Names k info
    × (get FlowKey-discrete k t.draining ≡ some deadline)
    × (info.ts ≤ deadline)

-- The packet is swallowed: it is a tail that comes in the drain time of a connection of its own,
-- and the call does what a timer does at that time.
abbrev pub Swallowed : Tracker → PacketInfo → List Event → List Event × Tracker → Type 0
Swallowed t info emitted r = IsTail info × Drained t info × (r ≡ settle emitted info.ts t)

drain_key-Names :
    (t : Tracker) (info : PacketInfo) → Names (drain_key t info (lookup_key t info).0) info
unfolding drain_key lookup_key
drain_key-Names t info = ground arith

module _ (m : Measure) (info : PacketInfo) where
  -- What comes out and what stays is what was there and the packet's amount, or the packet is
  -- swallowed and they are what was there.
  abbrev pub Accounted : ℕ → Tracker → List Event → List Event × Tracker → Type 0
  Accounted before t emitted r =
      (reported m r.0 + held m r.1 ≡ before + m.of_packet info)
      ⊎ ((reported m r.0 + held m r.1 ≡ before) × Swallowed t info emitted r)

  module _ (emitted : List Event) where
    free : (t : Tracker) → Inv t → Free m info (entry_slot t emitted (lookup_key t info))
    free t v = elim (lookup_key-Preferred t info v emitted) [
      | inl own ↦ inr own
      | inr absent ↦ inl (Absent-none (forward_key info) t.flows absent)
    ]

    track-keeps :
        (t : Tracker)
        → Inv t
        → Clear t info
        → reported m (track t info emitted (lookup_key t info)).0
            + held m (track t info emitted (lookup_key t info)).1
          ≡ reported m emitted + held m t + m.of_packet info
    unfolding track
    track-keeps t v clear =
        let s = slot_for t info emitted (lookup_key t info) in
        let sound = slot_for-Sound t info v emitted in
        omega (
          arith,
          settle-keeps m s.ended info.ts (add_step t info s),
          add_step-keeps m t info s _
              (slot_for-Balanced m t info emitted (lookup_key t info) v.flows_unique (free t v))
              (slot_for-some t info emitted (lookup_key t info))
              (slot_clear t info v clear s sound).0,
        )

    swallow_or_track-Accounted :
        (t : Tracker)
        → Inv t
        → Clear t info
        → Accounted
            (reported m emitted + held m t)
            t
            emitted
            (swallow_or_track t info emitted (lookup_key t info))
    unfolding swallow_or_track lookup_key
    swallow_or_track-Accounted t v clear =
        let dk = drain_key t info (lookup_key t info).0 in
        let drains = remove FlowKey-discrete dk t.draining in
        elim (Option-cases (get FlowKey-discrete dk t.draining)) [
          | inl e ↦ rw (e, swallow_or_track) (inl (track-keeps t v clear))
          | inr (deadline, e) ↦ elim (Bool-cases (leb info.ts deadline && is_teardown_tail info)) [
            | inl b ↦
                rw (e, swallow_or_track)
                  (rw b (
                    inr (
                      settle-keeps m emitted info.ts t,
                      (
                        is_teardown_tail-IsTail info (ground arith),
                        (dk, deadline, drain_key-Names t info, e, ground arith),
                        refl,
                      ),
                    )))
            | inr b ↦
                rw (e, swallow_or_track)
                  (rw b (
                    inl (
                      track-keeps (record t { draining = drains })
                        (without_drain info emitted t drains v) clear)))
          ]
        ]

    add_open-Accounted :
        (t : Tracker)
        → Inv t
        → Accounted
            (reported m emitted + held m t)
            t
            emitted
            (add_open t info emitted (lookup_key t info))
    unfolding add_open
    add_open-Accounted t v =
        elim (Option-cases (late_flow t (lookup_key t info).0 (flip (forward_key info)))) [
          | inl e ↦ rw (e, add_open) (swallow_or_track-Accounted t v (late_flow-Clear t info v e))
          | inr ((k, c), e) ↦
              rw (e, add_open)
                (inl (
                  omega (
                    arith,
                    settle-keeps m emitted info.ts (add_late t info (k, c)),
                    add_late-keeps m t info k c (late_flow-get t _ _ k c e),
                  )))
        ]

-- The packet and the connections that are due before it.
abbrev pub Counted : Measure → Tracker → PacketInfo → Type 0
Counted m t info =
    let (due, t') = close_due_flows info.ts (some info) t in
    Accounted m info (held m t) t' due (add_packet t info)

pub add_packet-Counted : (m : Measure) (t : Tracker) (info : PacketInfo) → Inv t → Counted m t info
unfolding add_packet
add_packet-Counted m t info v =
    let (due, t') = close_due_flows info.ts (some info) t in
    let before = close_due_flows-keeps m info.ts (some info) t in
    let v' = close_due_flows-Inv info.ts (some info) t v in
    elim (add_open-Accounted m info due t' v') [
      | inl e ↦ inl (e ∙ ap (λ n. n + m.of_packet info) before)
      | inr (e, swallowed) ↦ inr (e ∙ before, swallowed)
    ]

-- From tables that are kept apart, no packet is lost and none is counted twice, in packets and in
-- bytes alike: what `add_packet` reports together with what the tables hold afterwards is what
-- they held before and the packet; or the packet is a bare acknowledgement or a reset of TCP that
-- comes in the drain time of a closed connection of its own, and the call does just what a timer
-- does at that time once the connections that are due have been closed.
pub add_packet-conserves :
    (t : Tracker) (info : PacketInfo) → Inv t → Counted packets t info × Counted bytes t info
add_packet-conserves t info v =
    (add_packet-Counted packets t info v, add_packet-Counted bytes t info v)
