-- ===== src/Flow/Feed/Invariant.antt =====
-- The invariant of the tables, and the packet that finds no closing flow.
use algo_guard.Prelude.{
  ℕ, ◌≡◌, ◌≢◌, refl, ◌∙◌, ◌&&◌, ◌||◌, none, List, arith, ◌⊎◌, inl, inr, str_eq, Bool-cases,
  Option-cases,
}
use algo_guard.Prelude.Dict.{
  Dict, has, put, remove, Unique, Unique-put, Unique-remove, get-none-has, get-some-has, has-put,
  has-remove,
}
use algo_guard.Flow.Packet.{PacketInfo}
use algo_guard.Flow.State.{FlowKey, FlowKey-discrete, FlowState, flip, forward_key, add_to_flow}
use algo_guard.Flow.Features.{Event}
use algo_guard.Flow.Tracker.{Tracker, Closing, init, lookup_key, Connection}
use algo_guard.Flow.Feed.{Slot, idle_step, active_step, fresh_step, slot_for, add_step}
use algo_guard.Flow.Feed.Apart.{
  Member, Absent, OneWay, OneWay-sub, Member-remove, Sound, Preferred, idle_step-Sound,
  active_step-Sound, fresh_step-Sound, entry_slot,
}

pub record Inv (t : Tracker) : Type 0 where
  pub flows_unique : Unique FlowKey-discrete t.flows
  pub closing_unique : Unique FlowKey-discrete t.closing
  pub one_way : OneWay t.flows
  pub apart : (k : FlowKey) → Member k t.flows → Absent k t.closing × Absent (flip k) t.closing

pub init-Inv : (idle active : ℕ) → Inv (init idle active)
unfolding init has
init-Inv idle active = record {
  flows_unique = tt;
  closing_unique = tt;
  one_way = λ k p. cc;
  apart = λ k p. cc;
}

-- Neither key of the packet's conversation is closing.
abbrev pub Clear : Tracker → PacketInfo → Type 0
Clear t info = Absent (forward_key info) t.closing × Absent (flip (forward_key info)) t.closing

-- The slot's table holds old keys and the slot's key.
abbrev pub Within : Dict FlowKey FlowState → Slot → Type 0
Within d s = (k : FlowKey) → Member k s.flows → Member k d ⊎ (s.key ≡ k)

module _ (d : Dict FlowKey FlowState) (info : PacketInfo) (s : Slot) (w : Within d s) where
  idle_step-Within : (idle : ℕ) → Within d (idle_step idle info s)
  unfolding idle_step
  idle_step-Within idle k h = ground (arith, w k, has-remove FlowKey-discrete s.key k s.flows)

  active_step-Within : (active : ℕ) → Within d (active_step active info s)
  unfolding active_step
  active_step-Within active k h =
      grind (arith, w k, has-put, has-remove FlowKey-discrete s.key k s.flows)

  fresh_step-Within : Within d (fresh_step info s)
  unfolding fresh_step
  fresh_step-Within k h = grind (arith, w k, has-put)

module _ (t : Tracker) (info : PacketInfo) (v : Inv t) where
  lookup_key-Sound : (emitted : List Event) → Sound info (entry_slot t emitted (lookup_key t info))
  unfolding lookup_key
  lookup_key-Sound emitted = record {
    at_packet = ground arith;
    in_table = refl;
    unique = v.flows_unique;
    one_way = v.one_way;
    fresh = λ n. ground (arith, get-none-has FlowKey-discrete (lookup_key t info).0 t.flows);
  }

  pub lookup_key-Preferred :
      (emitted : List Event) → Preferred info (entry_slot t emitted (lookup_key t info))
  unfolding lookup_key
  lookup_key-Preferred emitted = ground arith

  -- The slot before a new flow is opened in it.
  pub active_step-Sound_at :
      (emitted : List Event)
      → Sound info (
          active_step t.active_limit info
            (idle_step t.idle_limit info (entry_slot t emitted (lookup_key t info))))
  active_step-Sound_at emitted =
      let s0 = entry_slot t emitted (lookup_key t info) in
      active_step-Sound t.active_limit info (idle_step t.idle_limit info s0) (
        idle_step-Sound t.idle_limit info s0 (lookup_key-Preferred emitted)
          (lookup_key-Sound emitted))

  pub slot_for-Sound :
      (emitted : List Event) → Sound info (slot_for t info emitted (lookup_key t info))
  unfolding slot_for
  slot_for-Sound emitted = fresh_step-Sound info _ (active_step-Sound_at emitted)

  pub slot_for-Within :
      (emitted : List Event) → Within t.flows (slot_for t info emitted (lookup_key t info))
  unfolding slot_for
  slot_for-Within emitted =
      let s0 = entry_slot t emitted (lookup_key t info) in
      let s1 = idle_step t.idle_limit info s0 in
      let s2 = active_step t.active_limit info s1 in
      let w1 = idle_step-Within t.flows info s0 (λ k h. inl h) t.idle_limit in
      fresh_step-Within t.flows info s2 (active_step-Within t.flows info s1 w1 t.active_limit)

module _ (t : Tracker) (info : PacketInfo) (v : Inv t) (clear : Clear t info) (s : Slot) where
  pub slot_clear : Sound info s → Absent s.key t.closing × Absent (flip s.key) t.closing
  slot_clear sound = elim sound.at_packet [ inl e ↦ rw e clear | inr e ↦ rw e (clear.1, clear.0) ]

  Within-clear :
      Sound info s
      → Within t.flows s
      → (k : FlowKey) → Member k s.flows
      → Absent k t.closing × Absent (flip k) t.closing
  Within-clear sound w k h = elim (w k h) [
    | inl m ↦ v.apart k m
    | inr e ↦ rw (← e) (slot_clear sound)
  ]

  module _ (sound : Sound info s) (there : Member s.key s.flows) (w : Within t.flows s) where
    same_members :
        (f : FlowState) (k : FlowKey)
        → Member k (put FlowKey-discrete s.key f s.flows)
        → Member k s.flows
    same_members f k h = ground (arith, has-put FlowKey-discrete s.key k f s.flows)

    -- The packet's flow stays open.
    stays-Inv : (f : FlowState) → Inv (record t { flows = put FlowKey-discrete s.key f s.flows })
    stays-Inv f = record {
      flows_unique = Unique-put FlowKey-discrete s.key f s.flows sound.unique;
      closing_unique = v.closing_unique;
      one_way = OneWay-sub s.flows _ (same_members f) sound.one_way;
      apart = λ k h. Within-clear sound w k (same_members f k h);
    }

    -- What stays open once the slot's flow goes.
    other_members :
        (f : FlowState) (k : FlowKey)
        → Member k (remove FlowKey-discrete s.key (put FlowKey-discrete s.key f s.flows))
        → Member k s.flows × (s.key ≢ k)
    other_members f k h =
        let r = Member-remove s.key k (put FlowKey-discrete s.key f s.flows) h in
        (same_members f k r.0, r.1)

    -- Two keys of one conversation are both in the slot's table only as one key.
    only_key : (k : FlowKey) → Member k s.flows → s.key ≢ k → s.key ≢ flip k
    only_key k h ne e = ne (e ∙ sound.one_way k h (rw (← e) there))

    -- The packet's flow closes.
    closes-Inv :
        (f : FlowState) (c : Closing)
        → Inv (record t {
          flows = remove FlowKey-discrete s.key (put FlowKey-discrete s.key f s.flows);
          closing = put FlowKey-discrete s.key c t.closing;
        })
    closes-Inv f c = record {
      flows_unique =
          Unique-remove FlowKey-discrete s.key _
            (Unique-put FlowKey-discrete s.key f s.flows sound.unique);
      closing_unique = Unique-put FlowKey-discrete s.key c t.closing v.closing_unique;
      one_way = OneWay-sub s.flows _ (λ k h. (other_members f k h).0) sound.one_way;
      apart = λ k h.
          let m = other_members f k h in
          let free = Within-clear sound w k m.0 in
          let other = only_key k m.0 m.1 in
          let ne = m.1 in
          (
            ground (arith, has-put FlowKey-discrete s.key k c t.closing),
            ground (arith, has-put FlowKey-discrete s.key (flip k) c t.closing),
          );
    }

  pub add_step-Inv : Sound info s → s.flow ≢ none → Within t.flows s → Inv (add_step t info s)
  unfolding add_step
  add_step-Inv sound opened w = elim (Option-cases s.flow) [
    | inl n ↦ absurd (opened n)
    | inr (f, e) ↦
        let f' = add_to_flow f info s.is_forward in
        let there = get-some-has FlowKey-discrete s.key s.flows f (sound.in_table ∙ e) in
        elim (Bool-cases
          (str_eq info.proto "tcp" && (f'.saw_rst || f'.fin_forward && f'.fin_reverse))) [
            | inl b ↦ rw (e, add_step) (rw b (closes-Inv sound there w f' _))
            | inr b ↦ rw (e, add_step) (rw b (stays-Inv sound there w f'))
          ]
  ]

-- `Inv` speaks of the keys alone: it goes over to tables with fewer entries.
module _ (t : Tracker) (v : Inv t) where
  pub shrink-Inv :
      (flows : Dict FlowKey FlowState) (closing : Dict FlowKey Closing) (drains : Dict FlowKey ℕ)
      (recent : List Connection) (swept emitted : ℕ)
      → Unique FlowKey-discrete flows
      → Unique FlowKey-discrete closing
      → ((k : FlowKey) → Member k flows → Member k t.flows)
      → ((k : FlowKey) → Member k closing → Member k t.closing)
      → Inv (record t {
        flows = flows;
        closing = closing;
        draining = drains;
        recent = recent;
        last_sweep_ts = swept;
        flows_emitted = emitted;
      })
  shrink-Inv flows closing drains recent swept emitted uf uc mf mc = record {
    flows_unique = uf;
    closing_unique = uc;
    one_way = OneWay-sub t.flows flows mf v.one_way;
    apart = λ k h. let a = v.apart k (mf k h) in (absent k a.0, absent (flip k) a.1);
  }
    where
      absent : (k : FlowKey) → Absent k t.closing → Absent k closing
      absent k h = elim (Bool-cases (has FlowKey-discrete k closing)) [
        | inl m ↦ cc (mc k m)
        | inr n ↦ n
      ]
