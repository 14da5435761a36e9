-- ===== src/Lib.antt =====
-- Verification library of swarph-cli: the mesh gateway's authorization, registry and queues, the ledger
-- of drained messages of a peer, and the spool and outbox of the services that answer them.
--
-- The program. Peers talk through one gateway, src/swarph_cli/gateway/server.py, a FastAPI service over
-- SQLite. Every request is authenticated (`_authorize`), most are bound to the actor that they name
-- (`_check_caller_binding`), and each handler reads and writes a few tables. On the peer's side the
-- daemon drains its messages into a durable ledger, src/swarph_cli/delivery_queue.py, from which a
-- service claims them and which they leave with a receipt. The service works in a spool of files,
-- src/swarph_cli/peer_executor.py, where a job is claimed, answered and receipted under a fencing token,
-- and an outbox, src/swarph_cli/peer_service_reply.py, sends the answer back to the peer that asked.
--
-- The files.
--   Prelude         Boolean tests and equality (Tests), tables as lists of rows (Lists, Updates),
--                   Python's str methods (Text), JSON values with Python's == (Python, Dicts, Values),
--                   json.dumps with sorted keys (Json), datetime.isoformat (Times).
--   Gateway/Db      the tables of src/swarph_cli/gateway/schema.sql as records, and the database.
--   Gateway/Monad   a handler: Db → Result A × Db, where a result is a reply or an HTTPException.
--   Gateway/Frames  rules for what a handler keeps, preserves and leaves alone when it raises;
--                   Replies has one for the reply and the database together.
--   Gateway/Config  the environment, and the third-party calls as parameters.
--   Gateway/Auth    _authorize, _is_revoked, _check_caller_binding; Credentials and Binding.
--   Gateway/PeerRows  the rows and statements of the peer tables; Gateway/Registry has peers_register,
--                   peer_ratify, peer_deregister and peer_unrevoke; Bound (rules for handlers that
--                   start with the caller binding), Listed (the rows that are ratified), Orphans (the
--                   foreign key of the audit), Revoked, Minted, Ratified, Audited and Actors.
--   Gateway/TaskQueue  the rows and statements of claude_tasks; Gateway/Tasks has task_create,
--                   task_claim, task_complete, task_fail and task_unblock; Order, Claims, Errors,
--                   Chains and Loops.
--   Gateway/CouncilJobs  the rows and statements of council_jobs, council_batch_get and
--                   council_reclaim_stuck; Gateway/Council has council_batch_post, council_claim_post,
--                   council_complete_post and council_fail_post; Valid, Rows, Settled, Limits, Guards,
--                   Order, Again and Reposted.
--   Gateway/Channels  channel_create, channel_join, channel_leave and the listings; Membership, Gates.
--   Gateway/Grants  the rows of groups, _group_grants_for and authz_check; Gateway/Groups has
--                   groups_create to groups_grant_remove; Audit, Access and Virtual.
--   Delivery        Entries (the data), Digest (int(x, 16)), Operations and Receipts (the methods of
--                   DeliveryQueue), Status, Steps (each method as one step), Invariant, Fits, Obligations,
--                   Capacity, Claims and Reconcile; Files and Loading (_persist, _load and
--                   _migrate_entry), Restart and Migration.
--   Spool           Files (the directories of PeerSpool and their atomic writes), Envelopes (the checks
--                   of jobs and receipts), Claims and Results (the methods), Requests (the calls, cut
--                   by crashes, and PeerService), Changes and Steps (each call as guarded writes),
--                   Evidence, Acceptance, Texts, Invariant, Lasting, Phases, Rest and Retry.
--   Handoff         PeerSpoolStager (src/swarph_cli/peer_staging.py) and PeerReceiptReconciler
--                   (src/swarph_cli/peer_reconciliation.py) between the ledger and the spool; Served.
--   Outbox          ReceiptGatedReplyOutbox (src/swarph_cli/peer_service_reply.py): drains as lists of
--                   effects; Outcomes, Backed and Once.
--
-- Correspondence. A handler is a definition of the same name that takes the configuration, the time
-- (`_utcnow_iso()`) and the AuthContext that `_authorize` returned; its guards stand in the order of the
-- source. Each statement commits by itself, so the state is returned beside an error. `serve` sends a
-- request of a component to its handler and leaves the reply out. The methods of DeliveryQueue keep their
-- names and return the queue beside the result; `refused` is DeliveryQueueError. A method of PeerSpool
-- answers with a result and the list of its writes, since all of its reads come first; `cut n` makes the
-- first n of them, as a crash may, and `refused` stands for any exception.
--
-- Conventions and bounds. Timestamps are microseconds, but for the gate `not_before` of a task, which is
-- the client's text and is compared with the text `isoformat now`; amounts of money are opaque numbers;
-- JSON columns are held parsed; ORDER BY ties fall in table order. `_chain_depth` walks `max_depth` = 10
-- rows at most, as in the source, and so needs no fuel of its own; all other loops run over a list.
-- `decimal` takes n + 1 steps for n, which has fewer digits. Texts are lists of code points, ages stop
-- at 0.
--
-- Not modelled. The local command bootstrap-ratify (src/swarph_cli/commands/gateway.py) and the
-- grandfather migration of `_init_db`, which ratify peers without a witness; SQLite faults other than the
-- declared constraints; the verification of a JWT (`verify_jwt`) and SHA-256 (`sha256`), which are
-- parameters (`HasDigests`: 64 hexadecimal digits); logging; the decimal digits of Unicode beyond ASCII in
-- int(); lists and floats inside entries and receipts; file locks, unreadable files of the spool,
-- json.loads and file names on Windows; the transport of the outbox, which is the list of its calls; the
-- parts of the program that only format, call other programs or talk HTTP; the gateway's messages,
-- schedules, lanes and brain proxy, and its listings of peers; the commands, bench, triage and parsers.
pub mod Prelude
pub mod Gateway
pub mod Spool
pub mod Delivery
pub mod Handoff
pub mod Outbox
