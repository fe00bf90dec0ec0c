-- ===== src/Flow/History.antt =====
-- The connection-history features that `_count` adds to each event.
use algo_guard.Prelude.{
  ℕ, zero, suc, ◌+◌, ◌-◌, ◌≤◌, ◌≡◌, refl, ap, Bool, true, some, List, [], ◌∷◌, ◌++◌, arith, All,
  length, length-append, length-drop, drop, count_if, count_if-le, count_if-append, count_if_mono,
  str_eq_iff,
}
use algo_guard.Flow.Features.{Event, History}
use algo_guard.Flow.Tracker.{
  Tracker, Connection, connection_window, push_recent, history_of, connection_of, count_loop,
  count_events, same_pair, same_dst, same_service,
}

-- The features of one event: itself is counted, and nothing outside the window is.
pub record IsCounted (e : Event) : Type 0 where
  pub counts : History
  pub given : e.history ≡ some counts
  pub itself : 1 ≤ counts.ct_dst_src_ltm
  pub itself_service : 1 ≤ counts.ct_srv_dst
  pub pair : counts.ct_dst_src_ltm ≤ counts.ct_dst_ltm
  pub service : counts.ct_srv_dst ≤ counts.ct_dst_ltm
  pub window : counts.ct_dst_ltm ≤ connection_window

length-push_recent-le :
    (recent : List Connection) (c : Connection) → length (push_recent recent c) ≤ connection_window
unfolding push_recent
length-push_recent-le recent c =
    omega (arith, length-drop (length (recent ++ c ∷ []) - connection_window) (recent ++ c ∷ []))

-- The newest entry stays.
count_if-drop_last :
    (p : Connection → Bool) (n : ℕ) (xs : List Connection) (c : Connection)
    → n ≤ length xs
    → p c ≡ true
    → 1 ≤ count_if p (drop n (xs ++ c ∷ []))
unfolding count_if
count_if-drop_last p zero xs c h t = rw (count_if-append p xs (c ∷ [])) (ground arith)
count_if-drop_last p (suc n) [] c h t = absurd (omega arith)
count_if-drop_last p (suc n) (x ∷ xs) c h t = count_if-drop_last p n xs c (omega arith) t

count_if-push_recent :
    (p : Connection → Bool) (recent : List Connection) (c : Connection)
    → length recent ≤ connection_window
    → p c ≡ true
    → 1 ≤ count_if p (push_recent recent c)
unfolding push_recent
count_if-push_recent p recent c h t =
    count_if-drop_last p (length (recent ++ c ∷ []) - connection_window) recent c
      (omega (arith, length-append recent (c ∷ []))) t

module _ (c : Connection) where
  same_pair_self : same_pair c c ≡ true
  unfolding same_pair
  same_pair_self = ground (arith, str_eq_iff c.src c.src, str_eq_iff c.dst c.dst)

  same_service_self : same_service c c ≡ true
  unfolding same_service
  same_service_self = ground (arith, str_eq_iff c.dst c.dst, str_eq_iff c.service c.service)

  same_pair-dst : (d : Connection) → same_pair c d ≡ true → same_dst c d ≡ true
  unfolding same_pair same_dst
  same_pair-dst d h = ground arith

  same_service-dst : (d : Connection) → same_service c d ≡ true → same_dst c d ≡ true
  unfolding same_service same_dst
  same_service-dst d h = ground arith

history_of-IsCounted :
    (e : Event) (recent : List Connection)
    → length recent ≤ connection_window
    → IsCounted (record e {
      history = some (history_of (connection_of e) (push_recent recent (connection_of e)));
    })
unfolding history_of
history_of-IsCounted e recent h =
    let c = connection_of e in
    let longer = push_recent recent c in
    record {
      counts = history_of c longer;
      given = refl;
      itself = count_if-push_recent (same_pair c) recent c h (same_pair_self c);
      itself_service = count_if-push_recent (same_service c) recent c h (same_service_self c);
      pair = count_if_mono (same_pair c) (same_dst c) (same_pair-dst c) longer;
      service = count_if_mono (same_service c) (same_dst c) (same_service-dst c) longer;
      window = omega (arith, count_if-le (same_dst c) longer, length-push_recent-le recent c);
    }

count_loop-IsCounted :
    (events : List Event) (recent : List Connection)
    → length recent ≤ connection_window
    → All IsCounted (count_loop events recent).0
      × (length (count_loop events recent).1 ≤ connection_window)
      × (length (count_loop events recent).0 ≡ length events)
unfolding count_loop
count_loop-IsCounted [] recent h = (tt, h, refl)
count_loop-IsCounted (e ∷ events) recent h =
    let r =
      count_loop-IsCounted events (push_recent recent (connection_of e))
        (length-push_recent-le recent (connection_of e)) in
    ((history_of-IsCounted e recent h, r.0), r.1, ap suc r.2)

-- From a window of at most 100 connections, `_count` gives every event its three counts: each
-- counts the event itself, those of the source and of the service are at most the destination's,
-- none exceeds 100; the window stays within 100, and every event is added to the number emitted.
pub count_events-IsCounted :
    (events : List Event) (t : Tracker)
    → length t.recent ≤ connection_window
    → All IsCounted (count_events events t).0
      × (length (count_events events t).1.recent ≤ connection_window)
      × ((count_events events t).1.flows_emitted ≡ t.flows_emitted + length events)
unfolding count_events
count_events-IsCounted events t h =
    let r = count_loop-IsCounted events t.recent h in (r.0, r.1, omega (arith, r.2))
