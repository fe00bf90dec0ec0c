-- ===== src/Monitor/Counts.antt =====
-- The totals of a session, for the whole of a run.
use algo_guard.Prelude.{ℕ, ◌+◌, ◌≤◌, ◌≡◌, refl, Option, none, some, arith}
use algo_guard.Monitor.Session.{
  Label, attack, normal, Totals, no_totals, agreement, mismatch, present, counted, max_persisted,
  of_attack, of_normal,
}

-- Totals that agree with each other and with the number of the last event.
pub record Consistent (seq : ℕ) (t : Totals) : Type 0 where
  pub flows_numbered : t.flows ≡ seq
  pub verdicts : t.attacks + t.normals ≡ t.flows
  pub alerts_persisted : t.alerts ≤ t.persisted
  pub persisted_flows : t.persisted ≤ t.flows
  pub persisted_bounded : t.persisted ≤ max_persisted
  pub mismatches_labelled : t.mismatches ≤ t.labelled
  pub labelled_flows : t.labelled ≤ t.flows

-- A verdict is one of two.
of_one : (l : Label) → of_attack l + of_normal l ≡ 1
of_one attack = refl
of_one normal = refl

mismatch-le : (actual : Option Label) (l : Label) → mismatch (agreement actual l) ≤ present actual
mismatch-le none l = omega arith
mismatch-le (some attack) attack = omega arith
mismatch-le (some attack) normal = omega arith
mismatch-le (some normal) attack = omega arith
mismatch-le (some normal) normal = omega arith

pub present-le {ℓ} : {A : Type ℓ} (x : Option A) → present x ≤ 1
present-le none = omega arith
present-le (some x) = omega arith

-- One more flow, stored or not; it raises an alert only where it is stored.
pub counted-Consistent :
    (l : Label) (actual : Option Label) (prediction_id alert_id : Option ℕ) (seq : ℕ) (t : Totals)
    → Consistent seq t
    → t.persisted + present prediction_id ≤ max_persisted
    → present alert_id ≤ present prediction_id
    → Consistent (seq + 1) (counted l actual prediction_id alert_id t)
unfolding counted
counted-Consistent l actual prediction_id alert_id seq t c room stored =
    let fn = c.flows_numbered in
    let v = c.verdicts in
    let ap = c.alerts_persisted in
    let pf = c.persisted_flows in
    let ml = c.mismatches_labelled in
    let lf = c.labelled_flows in
    record {
      flows_numbered = omega arith;
      verdicts = omega (arith, of_one l);
      alerts_persisted = omega arith;
      persisted_flows = omega (arith, present-le prediction_id);
      persisted_bounded = room;
      mismatches_labelled = omega (arith, mismatch-le actual l);
      labelled_flows = omega (arith, present-le actual);
    }

pub no_totals-Consistent : Consistent 0 no_totals
no_totals-Consistent = record {
  flows_numbered = refl;
  verdicts = refl;
  alerts_persisted = omega arith;
  persisted_flows = omega arith;
  persisted_bounded = omega arith;
  mismatches_labelled = omega arith;
  labelled_flows = omega arith;
}
