-- ===== src/Flow/Feed/Apart.antt =====
-- The tables of the tracker through the stages of a packet's slot.
use algo_guard.Prelude.{
  ℕ, ◌+◌, ◌≡◌, ◌≢◌, refl, sym, ap, ◌∙◌, Bool, true, false, none, List, arith, leb, ◌⊎◌, inl, inr,
  Bool-cases, Option-cases,
}
use algo_guard.Prelude.Dict.{
  Dict, get, has, put, remove, Unique, Unique-put, Unique-remove, get-put, get-remove, get-some-has,
  has-put, has-remove,
}
use algo_guard.Flow.Packet.{PacketInfo}
use algo_guard.Flow.State.{
  FlowKey, FlowKey-discrete, FlowState, flip, new_flow, forward_key, key_of,
}
use algo_guard.Flow.Features.{Event}
use algo_guard.Flow.Tracker.{Tracker, is_idle}
use algo_guard.Flow.Feed.{Slot, idle_step, active_step, fresh_step, slot_for}

abbrev pub Member : {V : Type 0} → FlowKey → Dict FlowKey V → Type 0
Member k d = has FlowKey-discrete k d ≡ true

abbrev pub Absent : {V : Type 0} → FlowKey → Dict FlowKey V → Type 0
Absent k d = has FlowKey-discrete k d ≡ false

pub Absent-none :
    (k : FlowKey) (d : Dict FlowKey FlowState) → Absent k d → get FlowKey-discrete k d ≡ none
Absent-none k d h = elim (Option-cases (get FlowKey-discrete k d)) [
  | inl e ↦ e
  | inr (f, e) ↦ cc (get-some-has FlowKey-discrete k d f e)
]

-- No conversation stands under both of its keys.
abbrev pub OneWay : Dict FlowKey FlowState → Type 0
OneWay d = (k : FlowKey) → Member k d → Member (flip k) d → flip k ≡ k

pub OneWay-sub :
    (d e : Dict FlowKey FlowState) → ((k : FlowKey) → Member k e → Member k d) → OneWay d → OneWay e
OneWay-sub d e sub o = λ k p q. o k (sub k p) (sub (flip k) q)

pub Member-remove :
    {V : Type 0} (k j : FlowKey) (d : Dict FlowKey V)
    → Member j (remove FlowKey-discrete k d)
    → Member j d × (k ≢ j)
Member-remove k j d h = ground (arith, has-remove FlowKey-discrete k j d)

pub Member-put :
    {V : Type 0} (k j : FlowKey) (v : V) (d : Dict FlowKey V)
    → Member j (put FlowKey-discrete k v d)
    → (k ≡ j) ⊎ Member j d
Member-put k j v d h = ground (arith, has-put FlowKey-discrete k j v d)

OneWay-put :
    (k : FlowKey) (v : FlowState) (d : Dict FlowKey FlowState)
    → Absent (flip k) d
    → OneWay d
    → OneWay (put FlowKey-discrete k v d)
OneWay-put k v d a o = λ j p q. elim (Member-put k j v d p) [
  | inl e ↦ elim (Member-put k (flip j) v d q) [
    | inl e' ↦ sym e' ∙ e
    | inr m ↦ cc (ap (λ i. has FlowKey-discrete (flip i) d) e)
  ]
  | inr m ↦ elim (Member-put k (flip j) v d q) [
    | inl e' ↦ cc (ap (λ i. has FlowKey-discrete (flip i) d) e')
    | inr m' ↦ o j m m'
  ]
]

-- What `add_packet` knows of its local key and flow between its steps.
pub record Sound (info : PacketInfo) (s : Slot) : Type 0 where
  pub at_packet : (s.key ≡ forward_key info) ⊎ (s.key ≡ flip (forward_key info))
  pub in_table : get FlowKey-discrete s.key s.flows ≡ s.flow
  pub unique : Unique FlowKey-discrete s.flows
  pub one_way : OneWay s.flows
  pub fresh :
      s.flow ≡ none
      → (s.key ≡ forward_key info)
        × Absent (forward_key info) s.flows
        × Absent (flip (forward_key info)) s.flows

-- A packet's own key comes first in the lookup.
abbrev pub Preferred : PacketInfo → Slot → Type 0
Preferred info s = (s.key ≡ forward_key info) ⊎ Absent (forward_key info) s.flows

-- The table without a stale flow of this conversation, whichever way that flow ran.
removed-Sound :
    (info : PacketInfo) (key : FlowKey) (ended : List Event) (d : Dict FlowKey FlowState)
    → Member key d
    → (key ≡ forward_key info) ⊎ (key ≡ flip (forward_key info))
    → (key ≡ forward_key info) ⊎ Absent (forward_key info) d
    → Unique FlowKey-discrete d
    → OneWay d
    → Sound info (record {
      key = forward_key info;
      is_forward = true;
      flow = none;
      ended = ended;
      flows = remove FlowKey-discrete key d;
    })
removed-Sound info key ended d there at pref u o = record {
  at_packet = inl refl;
  in_table = ground (arith, get-remove FlowKey-discrete key own d, Absent-none own d);
  unique = Unique-remove FlowKey-discrete key d u;
  one_way = OneWay-sub d _ (λ k h. (Member-remove key k d h).0) o;
  fresh = λ _. (
    refl,
    ground (arith, has-remove FlowKey-discrete key own d),
    ground (arith, has-remove FlowKey-discrete key (flip own) d, o own),
  );
}
  where
    own : FlowKey
    own = forward_key info

pub idle_step-Sound :
    (idle : ℕ) (info : PacketInfo) (s : Slot)
    → Preferred info s
    → Sound info s
    → Sound info (idle_step idle info s)
unfolding idle_step
idle_step-Sound idle info s pref v = elim (Option-cases s.flow) [
  | inl e ↦ rw (e, idle_step) v
  | inr (f, e) ↦ elim (Bool-cases (is_idle idle info.ts f)) [
    | inr b ↦ rw (e, idle_step) (rw b v)
    | inl b ↦
        rw (e, idle_step)
          (rw b (
            removed-Sound info s.key _ s.flows
              (get-some-has FlowKey-discrete s.key s.flows f (v.in_table ∙ e)) v.at_packet pref
              v.unique v.one_way))
  ]
]

pub active_step-Sound :
    (active : ℕ) (info : PacketInfo) (s : Slot)
    → Sound info s
    → Sound info (active_step active info s)
unfolding active_step
active_step-Sound active info s v = elim (Option-cases s.flow) [
  | inl e ↦ rw (e, active_step) v
  | inr (f, e) ↦ elim (Bool-cases (leb (f.first_ts + active) info.ts)) [
    | inr b ↦ rw (e, active_step) (rw b v)
    | inl b ↦
        let slice = new_flow (key_of f) info.ts in
        let rest = remove FlowKey-discrete s.key s.flows in
        let there = get-some-has FlowKey-discrete s.key s.flows f (v.in_table ∙ e) in
        rw (e, active_step)
          (rw b (record {
            at_packet = v.at_packet;
            in_table = ground (arith, get-put FlowKey-discrete s.key s.key slice rest);
            unique =
                Unique-put FlowKey-discrete s.key slice rest
                  (Unique-remove FlowKey-discrete s.key s.flows v.unique);
            one_way =
                OneWay-sub s.flows _
                  (λ k h. elim (Member-put s.key k slice rest h) [
                    | inl same ↦ cc (ap (λ i. has FlowKey-discrete i s.flows) same)
                    | inr m ↦ (Member-remove s.key k s.flows m).0
                  ])
                  v.one_way;
            fresh = λ n. cc;
          }))
  ]
]

pub fresh_step-Sound :
    (info : PacketInfo) (s : Slot) → Sound info s → Sound info (fresh_step info s)
unfolding fresh_step
fresh_step-Sound info s v = elim (Option-cases s.flow) [
  | inr (f, e) ↦ rw (e, fresh_step) v
  | inl e ↦
      let fresh = new_flow (forward_key info) info.ts in
      let at = v.fresh e in
      rw (e, fresh_step)
        (record {
          at_packet = v.at_packet;
          in_table = ground (arith, get-put FlowKey-discrete s.key s.key fresh s.flows);
          unique = Unique-put FlowKey-discrete s.key fresh s.flows v.unique;
          one_way = OneWay-put s.key fresh s.flows (rw at.0 at.2) v.one_way;
          fresh = λ n. cc;
        })
]

-- After the three steps there is a flow.
pub fresh_step-some : (info : PacketInfo) (s : Slot) → (fresh_step info s).flow ≢ none
unfolding fresh_step
fresh_step-some info s h = ground arith

-- The locals of `add_packet` before those steps.
abbrev pub entry_slot : Tracker → List Event → FlowKey × Bool → Slot
entry_slot t emitted (key, b) = record {
  key = key;
  is_forward = b;
  flow = get FlowKey-discrete key t.flows;
  ended = emitted;
  flows = t.flows;
}

pub slot_for-some :
    (t : Tracker) (info : PacketInfo) (emitted : List Event) (at : FlowKey × Bool)
    → (slot_for t info emitted at).flow ≢ none
unfolding slot_for
slot_for-some t info emitted at =
    fresh_step-some info
      (active_step t.active_limit info (idle_step t.idle_limit info (entry_slot t emitted at)))
