-- ===== src/Lib.antt =====
-- Verification of the MongoDB high-availability images.
--
-- A deploy runs one `mongo-wrapper` next to each mongod, and an haproxy edge that routes to the member
-- whose wrapper answers 200 at /role. Before its mongod is a member of a replica
-- set the wrapper decides whether to initiate a set or to join one; afterwards it watches the set,
-- removes members that are gone and reports on replication. This library models that core.
--
-- Files, and the source that they model:
--   Rs/Decide, Rs/Gone, Rs/Orchestrate  mongo-wrapper/src/rs.rs: `standing_of`, `decide`,
--     `GoneTracker`, `add_self_through_primary` and the loop of `orchestrate`. A round takes what it
--     learns from outside (the status of its own mongod, the peers' answers, the resolver, the
--     clock, the replies of the primary) as its input, and yields the next loop variables and the list
--     of calls that it makes. Rs/Orchestrate/Stability and Waivers follow the loop over any history
--     of rounds.
--   Peers  mongo-wrapper/src/peers.rs: the answers of a peer.
--   Peers/Fetch  `query_peer` and `fetch_keyfile` on the response of the HTTP client.
--   DnsProbe  mongo-wrapper/src/dns_probe.rs: the question, `decode_rcode` and the verdict on a name.
--   Mongo  mongo-wrapper/src/mongo.rs: error codes, members, `has_majority`.
--   Mongo/Config  the builders of the next set config, over any implementation of BSON documents.
--   Mongo/Recovery  `classify`, `RecoveryPolicy`, and the pooled client: `rebuild`, `recovering`,
--     `swap_password`. What concurrent callers do between a failure and the rebuild is a function on
--     the handle.
--   Rs/Standalone  `standalone_duties`, once the final mongod answers.
--   Rs/State, Rs/Duties  mongo-wrapper/src/rs.rs: `local_rs_state`; `prune_round`, `replication_health_round` and
--     `member_duties`, one tick at a time.
--   Mongo/Leftovers  `drop_stale_replset_config`, command by command, and the password and root probes.
--   Mongo/Address, Mongo/Status  `split_host_port`, and what `rs_status`, `rs_config` and `oplog_window`
--     make of mongod's replies.
--   Fcv  mongo-wrapper/src/fcv.rs: `parse_series`, `decide`, `round`, `raise` and one pass of `reconcile`.
--   HealthServer  mongo-wrapper/src/health_server.rs: the answers of the endpoints and the failure log.
--   AuthPin  mongo-wrapper/src/auth_pin.rs: `resolve_boot_credentials`, `write_password_pin` and one pass of
--     `resolver`; `replay_needed` of standalone_recovery.rs. The derivation of a keyfile is a
--     parameter.
--   Credentials  mongo-wrapper/src/credentials.rs: `healthy_set` and the phases of `apply`. The wait of a key
--     phase for the restarted mongod is one answer: whether it is up with the target key in time.
--   Credentials/Request  `rotate`, with the limit of 35 s as a node the interrupted phase left, and a round of
--     `reconcile`.
--   Credentials/Adopt  `reconcile_keyfile_at_boot`, with rs.rs `discover_live_set_keyfile_with_password`.
--   HealthAuth  mongo-wrapper/src/health_auth.rs: `live_credential`, `basic_payload`, `constant_time_eq`,
--     `authorized` and `require`, over any base64 decoder.
--   HealthAuth/Carried  what a header carries and which password is live, told apart from the code.
--   WrapperConfig  mongo-wrapper/src/config.rs and the readers of common/src/config.rs that it calls.
--   Passthrough  mongo-wrapper/src/passthrough.rs: the options of the args and the merge with the
--     wrapper's own flags.
--   Recovery  mongo-wrapper/src/standalone_recovery.rs: `forward_log`, `early_exit_verdict`, `stop_cleanly` and
--     `replay_oplog_as_standalone`. The turns of its two loops are lists; `none` is a boot that still runs.
--   Boot  mongo-wrapper/src/main.rs: what a boot does up to `supervise`, as a function of the
--     configuration, the volume and what the machine answers. The pin is the one that is read after
--     `reconcile_keyfile_at_boot`.
--   Supervise  mongo-wrapper/src/process_manager.rs, demote_on_shutdown.rs: the turns of `supervise`.
--   Haproxy  haproxy/src/nodes.rs, config.rs and monitoring.rs; Haproxy/Template  haproxy/src/template.rs.
--   Telemetry  common/src/telemetry.rs.
--   KernelCompat  mongo-wrapper/src/kernel_compat.rs.
--   StartupDns  mongo-wrapper/src/startup_dns.rs: the wait for a name that resolves here. 62 rounds of fuel are
--     enough, since each takes 2 s at least of the 120 s.
--   VolumeLock  mongo-wrapper/src/volume_lock.rs.
--   ReplicationMonitor  mongo-wrapper/src/replication_monitor.rs: the state tracker, the thresholds
--     and the dedupe keys.
-- Shared:
--   Base  tests on numbers, options and lists; durations and instants in nanoseconds.
--   Text  strings as lists of code points, with the string functions that the source calls, and
--     their UTF-8 form.
--   Maps  `HashMap` and `HashSet` by association lists.
--   Int64  i64 and i32 with their wrap-around.
--   Bson  the `bson` crate as an interface with the laws of its documents; Bson/Sample is an
--     implementation for the tests.
--
-- Network, files, processes and the clock are inputs. Log lines are kept only where a variable
-- decides whether they are written. There is no fuel: a loop is given by what one round of it does, and
-- followed over lists of rounds. A number is printed with at most 20 digits, which is enough for u64.
-- Not modelled: the writing of files, the HTTP and DNS exchanges, the timed sequence of a switchover,
-- and the payload of the telemetry.
mod Base
pub mod Text
pub mod Maps
pub mod Int64
pub mod Bson
pub mod Mongo
pub mod Passthrough
pub mod HealthAuth
pub mod WrapperConfig
pub mod Peers
pub mod DnsProbe
pub mod ReplicationMonitor
pub mod Rs
pub mod Fcv
pub mod AuthPin
pub mod Credentials
pub mod Recovery
pub mod Boot
pub mod Supervise
pub mod KernelCompat
pub mod StartupDns
pub mod VolumeLock
pub mod Haproxy
pub mod Telemetry
pub mod HealthServer
