-- ===== src/Outbox/Tests.antt =====
-- The outbox run on single events.
use algo_guard.Prelude.{
  String-discrete, ℕ, ◌*◌, ◌≡◌, refl, true, false, none, some, [], ◌∷◌, arith, map, ◌⊎◌, count_if,
  ℕ_discrete,
}
use algo_guard.Prelude.Dict.{get, has, remove, put}
use algo_guard.Outbox.Spool.{Receipt, Owner, acknowledge, select_where, is_pending}
use algo_guard.Outbox.State.{Event, Host, Item, Outbox, get_or}
use algo_guard.Outbox.Handoff.{submit, submit_item, memory_of}
use algo_guard.Outbox.Writer.{
  Disk, full, write_next, write_from, row_of, persist, outcome, transact, conclude,
}
use algo_guard.Outbox.Retention.{expire_rows, forget_times}
use algo_guard.Outbox.Queued.{Inv, submit-Inv, submit_item-Inv, slots}
use algo_guard.Outbox.Writing.{write_next-Inv}
use algo_guard.Outbox.Saving.{
  IsSaved, IsLost, Extends, write_from-Fate, Answers, submit_item-Answers,
}
use algo_guard.Outbox.Upload.{acknowledged, acknowledge-eq-map}
use algo_guard.Outbox.Expiry.{is_fresh, expire_rows-keeps_pending, Expired, expire_rows-Expired}

abbrev host : Host
host = record {
  dumps = λ e. some e.body;
  parse_uuid = λ s. some 7;
  parse_int = λ s. some 1;
  utf8_bytes = λ s. 100;
  sha256 = λ s. s;
}

abbrev owner : Owner
owner = record { user_id = 1; profile_id = 2; node_id = 3 }

abbrev event : Event
event = record { event_uuid = "7"; deployment_id = "1"; body = "{\"flow\": 1}" }

abbrev item : Item
item = record {
  event_id = 7;
  owner = owner;
  session_id = "s";
  deployment_id = 1;
  created_at = 5;
  payload = "{\"flow\": 1}";
  capped = true;
}

abbrev empty : Outbox
empty = record {
  total_bytes = 104_857_600;
  flow_budget = 100_000_000;
  max_queue = 1000;
  queue = [];
  reservations = [];
  reservation_times = [];
  memory_status = [];
  lost = [];
  session_dropped = [];
  dropped = 0;
  summaries_dropped = 0;
  disk_failed = false;
  loss_reason = none;
  events = [];
  saved_reservations = [];
}

abbrev waiting : Outbox
waiting = (submit_item item empty).1

abbrev healthy : Disk
healthy = record { directory_bytes = 0; used_bytes = 0; read_fault = none; fault = none }

abbrev broken : Disk
broken = record { directory_bytes = 0; used_bytes = 0; read_fault = none; fault = some full }

empty-Inv : Inv empty
unfolding get_or slots count_if get
empty-Inv = record {
  in_queue = refl;
  once = tt;
  bounded = omega arith;
  capped = λ s. omega arith;
  held = λ s. omega arith;
}

waiting-Inv : Inv waiting
waiting-Inv = submit_item-Inv item empty empty-Inv

submit-Inv_example : Inv (submit host owner "s" event true 5 empty).1
submit-Inv_example = submit-Inv host owner "s" event true 5 empty empty-Inv

write_next-Inv_example : (o' : Outbox) × (write_next host broken waiting ≡ some o') × Inv o'
write_next-Inv_example = write_next-Inv host broken waiting waiting-Inv

-- The event as the healthy disk stores it.
abbrev saved : Outbox
saved = record waiting {
  queue = [];
  memory_status = [];
  events = row_of host item ∷ [];
  saved_reservations = ("s", record { accepted = 1; created_at = 5 }) ∷ [];
}

writes : write_from host healthy waiting (item ∷ []) ≡ some saved
unfolding write_from persist outcome transact conclude submit_item get remove put ℕ_discrete
writes = refl

write_from-Fate_example :
    (IsSaved host item saved ⊎ IsLost item waiting saved) × Extends host item waiting saved
write_from-Fate_example = write_from-Fate host healthy item [] waiting saved writes

submit_item-Answers_example : Answers item empty (submit_item item empty)
submit_item-Answers_example = submit_item-Answers item empty

abbrev receipt : Receipt
receipt = record { event_uuid = 7; prediction_id = 11; alert_id = none }

acknowledge-eq-map_example :
    acknowledge owner (receipt ∷ []) saved.events
    ≡ map (acknowledged owner (receipt ∷ [])) saved.events
acknowledge-eq-map_example = acknowledge-eq-map owner (receipt ∷ []) saved.events

-- Eight days on.
abbrev later : ℕ
later = 8 * 86_400_000_000

expire_rows-keeps_pending_example :
    select_where (λ r. is_pending r.status) (expire_rows later saved.events)
    ≡ select_where (is_fresh later) saved.events
expire_rows-keeps_pending_example = expire_rows-keeps_pending later saved.events

expire_rows-Expired_example : Expired later (expire_rows later saved.events)
expire_rows-Expired_example = expire_rows-Expired later saved.events

-- A saved event that is handed in once more, in a session that began over seven days ago.
abbrev again : Outbox
again = record saved {
  queue = item ∷ [];
  memory_status = (7, memory_of item) ∷ [];
  reservations = ("s", 2) ∷ [];
  reservation_times = ("s", 5) ∷ [];
}

-- `expire` forgets the session though one of its events is queued.
forgotten : (forget_times later again.reservation_times again.reservations).1 ≡ []
unfolding forget_times remove String-discrete
forgotten = refl

-- Then the writer ends by a KeyError.
writer_ends :
    write_next host healthy (record again { reservations = []; reservation_times = [] }) ≡ none
unfolding write_next persist outcome transact conclude submit_item get has
writer_ends = refl
