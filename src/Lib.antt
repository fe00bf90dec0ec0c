-- ===== src/Lib.antt =====
-- AlgoGuard: live capture turns packets into flow events, a model scores them, and an outbox on
-- disk hands them to the cloud. This library models the parts in which data could be lost, counted
-- twice or bounded wrongly.
--
-- Parts, and how they interact:
--
-- Flow (services/flow_tracker_service.py). `packet_info_from_scapy` reads a packet, `FlowTracker`
-- groups packets into bidirectional flows, and a flow that ends is emitted as an event with its
-- features. Flow/Packet is the conversion, Flow/State `_FlowState` and `_add_to_flow`,
-- Flow/Features the features and `_emit`, Flow/Tracker the tables, `_close_due`, `advance` and
-- `_count`, Flow/Feed `add_packet` with the timers and `flush`. Each stage of `add_packet` is a
-- function of its own, in the order of the source: `add_open` (closing hold), `swallow_or_track`
-- (drain markers), `idle_step`, `active_step`, `fresh_step`, `add_step`. A method is a function
-- from the state to the events and the new state. `run` feeds a capture and flushes.
--
-- Outbox (cloud_outbox.py). A scored event is handed to `submit`, which never blocks; one writer
-- thread moves it to the SQLite spool, from which the upload side takes it. Outbox/State is the
-- object, Outbox/Handoff `submit`, Outbox/Writer `_persist` and `recheck_capacity`, Outbox/Spool
-- the `event` table and the upload side, Outbox/Reporting `wait_durable` and `statuses`,
-- Outbox/Retention `expire`, Outbox/Summaries the `lifecycle` table.
--
-- Sync (cloud_sync.py). `SyncWorker` uploads the pending rows of each signed-in user. Sync/Store
-- is `_store`, which splits a batch that the cloud refuses for good, Sync/Upload `_store_parallel`
-- and `_upload`, Sync/Worker the state of the worker: `register`, `unregister`, the state that
-- `status` shows, `_approval_restored`, `_renew`, and what a pass leaves behind by how it ended
-- (the `with` blocks of `sync_once` and the `except` branch of `_run`), Sync/Reports `_summaries`,
-- `_heartbeat` and `_due`, Sync/Pass the whole of `sync_once`, over the worker, the outbox and the
-- summaries; what a pass meets, the clock included, is the record `Meets`. What the cloud answers
-- is the record `Server`: a function of the events sent, since no batch of a round is sent twice.
-- The threads of a round share no event and are taken in the order of the batches.
--
-- Pipe (services/process_pipe.py). `send` and `receive` over a list of bytes; `pickle` is the
-- record `Pickle`.
--
-- Capture (services/traffic_source_service.py, cloud_connections.py). The sources of flows over
-- the tracker. Capture/Pcap is `PcapReplaySource`, in sequential order (`prepare`,
-- `_next_sequential_flow`, `next_event`) and in random order (`_prepare_buffered`); what the
-- reader gives, a cancellation included, is a list of turns, and `drain` asks until the source
-- ends. Capture/Connections is `OwnedConnections`, the registry by which the application knows its
-- own traffic; whether a socket is open, the clock and `_canonical_ip` (the ipaddress package) are
-- arguments, and one call sees one time. Capture/Live is `LiveCaptureSource`: `_own_traffic_kind`,
-- `_process_info`, `_expire`, and one turn of `_track`, which ends in the queue that `next_event`
-- takes flows from. `SharedConnections`, which the maintainer tools write, is a field of the
-- record `Moment`.
--
-- Monitor (services/live_monitor_service.py). Monitor/Session is one session, with what a scored
-- flow does to its totals and to the feed; Monitor/Loop `collect_batch` and the loop of
-- `_run_worker`, over what the source, the scorer and the stop event give at each turn;
-- Monitor/Control `start_session`, `pause_session`, `resume_session`, `stop_session` in its two
-- locked parts, and the points at which the worker takes the lock; Monitor/Status the events of
-- `get_status`. An `Action` is one critical section, so a list of actions is an interleaving of
-- the users' threads with the worker. Left out of a session are averages, messages, capture
-- counters and the fields that only describe the source.
--
-- Tokens (token_verification.py). Tokens/Keys is `JwksCache` and `_fetch_json`, Tokens/Verify
-- `verify_token`. PyJWT is the record `Jwt`: the unverified header of a token, and `decode` with
-- one algorithm allowed. A call says which requests it made, and takes what the endpoint would
-- answer.
--
-- Deploy (services/deployment_service.py, services/model_registry.py, and the tables of
-- services/database_service.py). Deploy/Tables is `get_model_result`, `record_deployment` and
-- `get_active_deployment`, Deploy/Artifact the eligibility of a result and the validation of an
-- artifact over what scikit-learn tells of it, Deploy/Promotion `_deploy_model_unlocked` and
-- `load_active_artifact` over the files; the record `Disk` says which calls of joblib, of the file
-- system and of the database work. A metric is a whole number of some small unit.
--
-- `expire` forgets the reservations of sessions over seven days old, whatever is queued, so it is
-- not among the calls that the invariant of Outbox/Queued is about.
--
-- Choices. Times are whole microseconds in ℕ where the source has floats of seconds, so sums and
-- differences are exact; a quotient is the exact rational rounded half to even, as `round(x, 6)`
-- does. Dictionaries are lists of pairs in insertion order, a SQL table is the list of its rows in
-- the order of their rowids, and a UUID is a number. JSON, UUID parsing, SHA-256 and UTF-8 are the
-- record `Host` of functions; what the disk does in one transaction is the record `Disk`. The turn
-- of the writer is one step, as `submit` sees it under the lock: the event of a turn stays in
-- memory until the turn ends. `str` has one more than the number as its fuel, more than its
-- digits; `upload_loop` has ten, one for each batch of a pass, and `batches_of` the number of
-- events.
--
-- Where the model and the program could part: the slot that a session gets back for an event that
-- was known already stops at 0, where the program would count below it, and the invariant of
-- Outbox/Queued keeps it above; a token whose `alg` is neither a text nor hashable is refused,
-- where the program raises a TypeError; of several active deployments, which the program never
-- leaves, `first_active` takes the one with the least rowid; a read of the pending rows that
-- raises an error is not among what a pass meets, while the other calls of the spool are.
--
-- Not modelled: network, the set-up of a monitoring worker, the replay of CSV files, SQLite's own
-- schema and files, the user interface, machine learning, and the other modules of the program.
pub mod Prelude
pub mod Flow
pub mod Outbox
pub mod Sync
pub mod Pipe
pub mod Capture
pub mod Monitor
pub mod Tokens
pub mod Deploy
