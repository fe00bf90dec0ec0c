-- ===== src/Flow/Feed/Balance.antt =====
-- A measure over the steps of `add_packet` from a table's flow to the packet's slot.
use algo_guard.Prelude.{
  ℕ, ◌+◌, ◌≡◌, ◌≢◌, refl, Bool, false, none, List, [], ◌∷◌, arith, total, total-append, ◌⊎◌, inl,
  inr, Option-cases,
}
use algo_guard.Prelude.Dict.{
  get, has, put, remove, Unique, weigh-remove, weigh-put_old, weigh-put_new, Unique-put,
  Unique-remove, get-put, get-remove, get-none-has, has-remove,
}
use algo_guard.Flow.Packet.{PacketInfo}
use algo_guard.Flow.State.{FlowKey, FlowKey-discrete, new_flow, add_to_flow, forward_key, key_of}
use algo_guard.Flow.Features.{Event, emit, idle_timeout, active_timeout}
use algo_guard.Flow.Tracker.{Tracker, Closing}
use algo_guard.Flow.Feed.{Slot, idle_step, active_step, fresh_step, slot_for, add_step, closed_as}
use algo_guard.Flow.Feed.Apart.{entry_slot}
use algo_guard.Flow.Feed.Measure.{Measure, held}
use algo_guard.Flow.Feed.Amount.{reported, open_weight, closing_weight}

module _ (m : Measure) where
  open m use {of_flow, of_event, of_packet, event-emit, event-history, flow-add, flow-new}

  -- A slot between the steps of `add_packet`: the local `flow` is the table's, and the events
  -- and the open flows weigh `base` together.
  pub record Balanced (base : ℕ) (s : Slot) : Type 0 where
    pub in_table : get FlowKey-discrete s.key s.flows ≡ s.flow
    pub unique : Unique FlowKey-discrete s.flows
    pub weight : reported m s.ended + open_weight m s.flows ≡ base

  -- The packet's own key is free, or it is the slot's.
  abbrev pub Free : PacketInfo → Slot → Type 0
  Free info s =
      (get FlowKey-discrete (forward_key info) s.flows ≡ none) ⊎ (s.key ≡ forward_key info)

  idle_step-Balanced :
      (idle : ℕ) (info : PacketInfo) (base : ℕ) (s : Slot)
      → Free info s
      → Balanced base s
      → Balanced base (idle_step idle info s)
  unfolding idle_step total
  idle_step-Balanced idle info base s free b = elim (Option-cases s.flow) [
    | inl e ↦ rw (e, idle_step) b
    | inr (f, e) ↦ ground (
      arith,
      get-remove FlowKey-discrete s.key (forward_key info) s.flows,
      Unique-remove FlowKey-discrete s.key s.flows b.unique,
      weigh-remove FlowKey-discrete of_flow s.key s.flows f b.unique,
      total-append of_event s.ended (emit f idle_timeout ∷ []),
      event-emit f idle_timeout,
    )
  ]

  active_step-Balanced :
      (active : ℕ) (info : PacketInfo) (base : ℕ) (s : Slot)
      → Balanced base s
      → Balanced base (active_step active info s)
  unfolding active_step total
  active_step-Balanced active info base s b = elim (Option-cases s.flow) [
    | inl e ↦ rw (e, active_step) b
    | inr (f, e) ↦
        let slice = new_flow (key_of f) info.ts in
        let rest = remove FlowKey-discrete s.key s.flows in
        ground (
          arith,
          get-put FlowKey-discrete s.key s.key slice rest,
          has-remove FlowKey-discrete s.key s.key s.flows,
          Unique-remove FlowKey-discrete s.key s.flows b.unique,
          Unique-put FlowKey-discrete s.key slice rest,
          weigh-remove FlowKey-discrete of_flow s.key s.flows f b.unique,
          weigh-put_new FlowKey-discrete of_flow s.key slice rest,
          total-append of_event s.ended (emit f active_timeout ∷ []),
          event-emit f active_timeout,
          flow-new (key_of f) info.ts,
        )
  ]

  fresh_step-Balanced :
      (info : PacketInfo) (base : ℕ) (s : Slot)
      → Balanced base s
      → Balanced base (fresh_step info s)
  unfolding fresh_step
  fresh_step-Balanced info base s b = elim (Option-cases s.flow) [
    | inr (f, e) ↦ rw (e, fresh_step) b
    | inl e ↦
        let fresh = new_flow (forward_key info) info.ts in
        ground (
          arith,
          get-put FlowKey-discrete s.key s.key fresh s.flows,
          get-none-has FlowKey-discrete s.key s.flows,
          Unique-put FlowKey-discrete s.key fresh s.flows,
          weigh-put_new FlowKey-discrete of_flow s.key fresh s.flows,
          flow-new (forward_key info) info.ts,
        )
  ]

  pub slot_for-Balanced :
      (t : Tracker) (info : PacketInfo) (emitted : List Event) (at : FlowKey × Bool)
      → Unique FlowKey-discrete t.flows
      → Free info (entry_slot t emitted at)
      → Balanced (reported m emitted + open_weight m t.flows) (slot_for t info emitted at)
  unfolding slot_for
  slot_for-Balanced t info emitted at u free =
      let base = reported m emitted + open_weight m t.flows in
      let s0 = entry_slot t emitted at in
      let s1 = idle_step t.idle_limit info s0 in
      fresh_step-Balanced info base _ (
        active_step-Balanced t.active_limit info base s1 (
          idle_step-Balanced t.idle_limit info base s0 free
            (record { in_table = refl; unique = u; weight = refl })))

  -- A packet's amount goes to its flow, wherever that flow ends up.
  pub add_step-keeps :
      (t : Tracker) (info : PacketInfo) (s : Slot) (base : ℕ)
      → Balanced base s
      → s.flow ≢ none
      → has FlowKey-discrete s.key t.closing ≡ false
      → reported m s.ended + held m (add_step t info s)
        ≡ base + closing_weight m t.closing + of_packet info
  unfolding add_step
  add_step-keeps t info s base b opened free = elim (Option-cases s.flow) [
    | inl n ↦ absurd (opened n)
    | inr (f, e) ↦
        let f' = add_to_flow f info s.is_forward in
        let flows' = put FlowKey-discrete s.key f' s.flows in
        ground (
          arith,
          flow-add f info s.is_forward,
          weigh-put_old FlowKey-discrete of_flow s.key f' f s.flows,
          get-put FlowKey-discrete s.key s.key f' s.flows,
          Unique-put FlowKey-discrete s.key f' s.flows b.unique,
          weigh-remove FlowKey-discrete of_flow s.key flows' f',
          weigh-put_new FlowKey-discrete (λ (c : Closing). of_flow c.flow) s.key (closed_as info f')
              t.closing,
        )
  ]
