-- ===== src/Monitor/Tests.antt =====
-- The monitor run on a short session.
use algo_guard.Prelude.{
  ℕ, ◌≤◌, ◌≡◌, ◌≢◌, ◌↔◌, refl, true, false, none, some, List, [], ◌∷◌, length, if◌then◌else◌,
}
use algo_guard.Monitor.Session.{attack, save_attacks, save_all, pcap, live, Scored, new_session}
use algo_guard.Monitor.Loop.{
  max_batch, got_event, got_nothing, got_end, Poll, collect_batch, Progress, Turn, scored, quiet,
  run_loop,
}
use algo_guard.Monitor.Control.{
  initial, Action, start, ready, classify, pause, signal, wait, final_stopped, act_all,
  session_active, start_session, publish,
}
use algo_guard.Monitor.Status.{get_status, last_seq}
use algo_guard.Monitor.Sound.{WhenSome, new_session-Sound}
use algo_guard.Monitor.Window.{seqs}
use algo_guard.Monitor.Interleaved.{Inv, act_all-Inv}
use algo_guard.Monitor.Polls.{owed, goes_on_from, get_status-newest, start_session-exclusive}
use algo_guard.Monitor.Batches.{IsBatch, events_of, collect_batch-IsBatch}
use algo_guard.Monitor.Endings.{Tallied, Ended, run_loop-Ended}

abbrev an_attack : Scored
an_attack = record {
  predicted_value = 1;
  actual = some attack;
  lag = some 40;
  saved = some (7, some 3);
}

abbrev a_normal : Scored
a_normal = record { predicted_value = 0; actual = some attack; lag = none; saved = none }

-- A session that is paused and stopped between two flows.
abbrev actions : List Action
actions =
    start 1 pcap save_attacks
    ∷ ready 10
    ∷ classify 0 5 an_attack
    ∷ pause
    ∷ classify 1 5 a_normal
    ∷ signal
    ∷ wait 1
    ∷ []

act_all-Inv_example : Inv (act_all actions initial)
act_all-Inv_example = act_all-Inv actions

polled : seqs (get_status 0 none (act_all actions initial)).0 ≡ 1 ∷ 2 ∷ []
unfolding get_status act_all new_session
polled = refl

get_status-newest_example :
    (let m = act_all actions initial in
      let (events, last) = get_status 1 (some 1) m in
      (seqs events ≡ owed (goes_on_from 1 (some 1) m.session) last) × (last ≡ last_seq m.session))
get_status-newest_example = get_status-newest actions 1 (some 1)

start_session-exclusive_example :
    (let m = act_all actions initial in
      ((start_session 2 live save_all m ≡ none) ↔ (session_active m.session ≡ true))
      × (start_session 2 live save_all (publish final_stopped m) ≢ none))
start_session-exclusive_example = start_session-exclusive actions final_stopped 2 live save_all

abbrev polls : List (Poll ℕ)
polls =
    record { in_window = true; backlog = true; got = got_event 5 }
    ∷ record { in_window = true; backlog = true; got = got_nothing }
    ∷ record { in_window = true; backlog = true; got = got_event 6 }
    ∷ record { in_window = true; backlog = true; got = got_end }
    ∷ []

collected : collect_batch false 4 polls ≡ (4 ∷ 5 ∷ 6 ∷ [], true)
unfolding collect_batch
collected = refl

collect_batch-IsBatch_example :
    IsBatch (4 ∷ []) (events_of polls) (collect_batch false 4 polls).0
    × (length (collect_batch false 4 polls).0 ≤ (if false then 1 else max_batch))
collect_batch-IsBatch_example = collect_batch-IsBatch false 4 polls

abbrev fresh : Progress
fresh = record {
  session = new_session 1 pcap save_attacks;
  events = [];
  row_index = 0;
  raised = false;
}

fresh-Tallied : Tallied fresh
unfolding new_session
fresh-Tallied = record { progress_sound = new_session-Sound 1 pcap save_attacks; rows = refl }

abbrev busy : Turn
busy = record {
  stop_seen = false;
  pull = scored 5 (an_attack ∷ a_normal ∷ []) false;
  stop_in_pace = false;
}

abbrev stop_turn : Turn
stop_turn = record { stop_seen = true; pull = quiet; stop_in_pace = false }

run_loop-Ended_example : WhenSome Ended (run_loop true (busy ∷ stop_turn ∷ []) fresh)
run_loop-Ended_example = run_loop-Ended true (busy ∷ stop_turn ∷ []) fresh fresh-Tallied refl
