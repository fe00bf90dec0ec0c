-- ===== src/Monitor/Window.antt =====
-- The feed as a window over the numbers of the events.
use algo_guard.Prelude.{
  ℕ, zero, suc, ◌+◌, ◌-◌, ◌≤◌, ◌<◌, ◌≡◌, refl, ap, ◌∙◌, subst, List, [], ◌∷◌, ◌++◌, min, max, ltb,
  length, length-append, length-drop, drop, arith, ltb→lt, if_elim,
}
use algo_guard.Monitor.Session.{FeedEvent, feed_maxlen, push_event}
use algo_guard.Monitor.Status.{newer, last_events, max_events_per_poll}

abbrev pub seqs : List FeedEvent → List ℕ
seqs [] = []
seqs (e ∷ events) = e.seq ∷ seqs events

-- The k numbers after a.
abbrev pub after : ℕ → ℕ → List ℕ
after a zero = []
after a (suc k) = suc a ∷ after (suc a) k

-- The events are the newest ones, all numbers up to n, as many as the feed holds.
pub record Window (n : ℕ) (events : List FeedEvent) : Type 0 where
  pub size : length events ≡ min n feed_maxlen
  pub numbers : seqs events ≡ after (n - length events) (length events)

after-snoc : (a k : ℕ) → after a k ++ suc (a + k) ∷ [] ≡ after a (suc k)
after-snoc a zero = ap (λ i. suc i ∷ []) (omega arith)
after-snoc a (suc k) =
    ap (λ xs. suc a ∷ xs)
      (subst (λ i. after (suc a) k ++ suc i ∷ [] ≡ after (suc a) (suc k)) (omega arith)
        (after-snoc (suc a) k))

seqs-append : (xs ys : List FeedEvent) → seqs (xs ++ ys) ≡ seqs xs ++ seqs ys
seqs-append [] ys = refl
seqs-append (x ∷ xs) ys = ap (λ zs. x.seq ∷ zs) (seqs-append xs ys)

-- Without its first j events a run of numbers starts j later.
seqs-drop :
    (j a : ℕ) (events : List FeedEvent)
    → seqs events ≡ after a (length events)
    → seqs (drop j events) ≡ after (min (a + j) (a + length events)) (length (drop j events))
seqs-drop zero a events e = subst (λ i. seqs events ≡ after i (length events)) (omega arith) e
seqs-drop (suc j) a [] e = refl
seqs-drop (suc j) a (x ∷ events) e =
    subst (λ i. seqs (drop j events) ≡ after i (length (drop j events))) (omega arith)
      (seqs-drop j (suc a) events (cc e))

seqs-push :
    (a : ℕ) (events : List FeedEvent) (e : FeedEvent)
    → seqs events ≡ after a (length events)
    → e.seq ≡ suc (a + length events)
    → seqs (events ++ e ∷ []) ≡ after a (length (events ++ e ∷ []))
seqs-push a events e run next =
    let appended : seqs events ++ e.seq ∷ [] ≡ after a (suc (length events)) =
      rw (run, next) (after-snoc a (length events)) in
    let size : suc (length events) ≡ length (events ++ e ∷ []) =
      omega (arith, length-append events (e ∷ [])) in
    seqs-append events (e ∷ []) ∙ appended ∙ ap (after a) size

pub push_event-Window :
    (n : ℕ) (events : List FeedEvent) (e : FeedEvent)
    → Window n events
    → e.seq ≡ n + 1
    → Window (n + 1) (push_event events e)
unfolding push_event
push_event-Window n events e w next =
    let s = w.size in
    let longer = events ++ e ∷ [] in
    let a = n - length events in
    let j = length longer - feed_maxlen in
    let run : seqs longer ≡ after a (length longer) =
      seqs-push a events e w.numbers (omega arith) in
    record {
      size = omega (arith, length-append events (e ∷ []), length-drop j longer);
      numbers =
          subst (λ i. seqs (drop j longer) ≡ after i (length (drop j longer)))
            (omega (arith, length-append events (e ∷ []), length-drop j longer))
            (seqs-drop j a longer run);
    }

pub no_events-Window : Window 0 []
no_events-Window = record { size = omega arith; numbers = refl }

newer_head :
    (since a : ℕ) (ns : List ℕ) (k n : ℕ)
    → n ≡ suc a
    → since < n
    → ns ≡ after (max (suc a) since) k
    → n ∷ ns ≡ after (max a since) (suc k)
newer_head since a ns k n head above later =
    let e : max (suc a) since ≡ suc a = omega arith in
    let f : max a since ≡ a = omega arith in rw (head, later, e, f) refl

-- The events after a number are those of the run behind it.
newer-after :
    (since a : ℕ) (events : List FeedEvent)
    → seqs events ≡ after a (length events)
    → seqs (newer since events) ≡ after (max a since) (length (newer since events))
unfolding newer
newer-after since a [] e = refl
newer-after since a (x ∷ events) e =
    let head : x.seq ≡ suc a = cc e in
    let rest = newer since events in
    let later : seqs rest ≡ after (max (suc a) since) (length rest) =
      newer-after since (suc a) events (cc e) in
    if_elim (λ (r : List FeedEvent). seqs r ≡ after (max a since) (length r)) (ltb since x.seq)
      {x = x ∷ rest} {y = rest}
      (λ yes.
        newer_head since a (seqs rest) (length rest) x.seq head (ltb→lt since x.seq yes) later)
      (λ no. subst (λ i. seqs rest ≡ after i (length rest)) (ground (arith, no, head)) later)

length-newer :
    (since a : ℕ) (events : List FeedEvent)
    → seqs events ≡ after a (length events)
    → length (newer since events) ≡ (a + length events) - max a since
unfolding newer
length-newer since a [] e = omega arith
length-newer since a (x ∷ events) e =
    let head : x.seq ≡ suc a = cc e in
    ground (arith, head, length-newer since (suc a) events (cc e))

-- A poll is given the newest events behind `since`, all of them up to its limit.
pub last_events-newest :
    (n since : ℕ) (events : List FeedEvent)
    → Window n events
    → since ≤ n
    → seqs (last_events (newer since events))
      ≡ after (n - min (n - since) max_events_per_poll) (min (n - since) max_events_per_poll)
unfolding last_events
last_events-newest n since events w below =
    let s = w.size in
    let a = n - length events in
    let b = max a since in
    let fresh = newer since events in
    let j = length fresh - max_events_per_poll in
    let count = length-newer since a events w.numbers in
    let size : length (drop j fresh) ≡ min (n - since) max_events_per_poll =
      omega (arith, count, length-drop j fresh) in
    let start : min (b + j) (b + length fresh) ≡ n - min (n - since) max_events_per_poll =
      omega (arith, count) in
    subst (λ i. seqs (drop j fresh) ≡ after i (min (n - since) max_events_per_poll)) start
      (subst (λ k. seqs (drop j fresh) ≡ after (min (b + j) (b + length fresh)) k) size
        (seqs-drop j b fresh (newer-after since a events w.numbers)))
