-- ===== src/Lib.antt =====
-- Verification of net_port, a proxy that makes devices behind NAT reachable over TCP. A device
-- opens a connection to a tunnel port of the server, a user connects to the input port that
-- belongs to it, and the server passes the bytes on between the two. Devices register at a control
-- port; for each of them the server starts a pair of listening ports and stops it again.
--
-- The parts and how they interact
-- Security models server/proxy/server/security_features.c, the checks that the device manager
-- (server/proxy/server/device_manager.c) makes before it accepts a device or a message:
--   Security/State       the static state, set-up, configuration and statistics
--   Security/RateLimit   check_rate_limit; below it Table (the table as a map), Valid (the invariant),
--                        Limiter (one limiter for each key), History (sequences of checks), Quota,
--                        Penalty and LongKey
--   Security/Lifecycle   security_features_init, _reset_rate_limits, _configure_rate_limit
--   Security/Access      check_ip_access, add_temporary_blacklist
--   Security/Gate        validate_device_token, validate_session_token_security
--   Security/Scan        detect_port_scanning
--   Security/Json        validate_json_input
--   Security/Tests       runs and concrete cases
-- Proxy models server/proxy/server/proxy_server.c:
--   Proxy/Forward        the write loops of connection_input_handler and connection_output_handler
--   Proxy/Sockets        the pairs of connections of a server and how the listener threads
--                        (serverInputThread, serverOutputThread) choose one
--   Proxy/Dynamic        the servers of devices: State, Stop (stop_dynamic_server_runtime,
--                        stop_dynamic_runtimes_for_device, cleanup_dynamic_server_slot), Open (sockets,
--                        TLS, threads), Registry (register_dynamic_server_runtime,
--                        find_healthy_dynamic_server), Start (start_dynamic_server_at_index,
--                        create_dynamic_server_for_device, ensure_dynamic_server_for_device), and the
--                        theorems in Healthy, Isolation, Closing, Tls, Descriptors, Growth, Creation, Recycling
--   Proxy/Tests, Proxy/DynamicTests   runs and concrete cases
-- Devices models server/proxy/server/device_manager.c:
--   Devices/Pending      the queue of TLS reloads (device_manager_set_tls_reload_pending,
--                        device_manager_consume_tls_reload_pending)
--   Devices/Control      the administrator's requests of process_json_message, with
--                        terminate_device_by_device_id and reload_dynamic_server_tls_for_device, which
--                        act on Proxy/Dynamic
--   Devices/Json, Sql    JSON values, and the statements that go to PostgreSQL
--   Devices/Session      the queries for a device and for a session
--   Devices/Token        generate_session_token
--   Devices/Register     process_registration_request; the theorems are in Laws and Access
--   Devices/Traffic      the statements that store traffic
--   Devices/Heartbeats   process_heartbeat_request, process_statistics_request
--   Devices/Response, Messages   the answers as JSON, and process_json_message
--   Devices/Tests, ExchangeTests   runs and concrete cases
-- Client models client/proxy/client (device_heartbeat.c, proxy_client_device_integration.c,
-- proxy_client.c):
--   Client/Device        the registration and the settings of the tunnel
--   Client/Exchange      the heartbeat's request and its answer
--   Client/Pump          the write loops and the traffic counters
--   Client/Report        the counters against the heartbeats
--   Client/Tunnel        the connections, their threads and the TLS context
--   Client/Connect       the connection loop with its waits
--   Client/Side          what the two threads of a connection share
--   Client/Reader        server_input_thread; Laws is on its descriptors, Leak on its TLS objects, Counts
--                        on its counters
--   Client/Writer        server_output_thread; Laws is on its descriptors and TLS objects, Flags on its flags
--   Client/Heartbeat     the heartbeat thread and the registration wait; the theorems are in Bounds and
--                        Revoked
--   Client/Tests, TunnelTests, ReaderTests   runs and concrete cases
-- Switcher models the servers that the database names (server/db/db_func.c, and
-- server/proxy/server/proxy_server.c):
--   Switcher             the data, and what PostgreSQL offers for the statistics
--   Switcher/Totals      the totals of a server: loaded, saved, updated, cleaned up
--   Switcher/Rows        get_user_server_ports
--   Switcher/Start       set-up, start and stop, and the statistics saver
--   Switcher/Tests       runs and concrete cases
-- Monitoring models server/proxy/server/monitoring_statistics.c:
--   Monitoring           the structures, the totals and the performance metrics
--   Monitoring/Service   the functions with g_monitoring_mutex; Locking says which calls return
--   Monitoring/Totals    the totals against sums over the devices online
--   Monitoring/Metrics   the counters and the times of requests
--   Monitoring/Prometheus  the text for Prometheus
--   Monitoring/Tests     runs and concrete cases
-- Proxy/Handler has the two threads of a pair of connections, with Ends and Stream for the theorems.
-- Proxy/Crossing has the pair as a step relation; Isolation and Leak say what crosses.
-- Devices/Server is the control server, Devices/Integration how it is set up and shut down.
-- Protocol has both ends of an exchange: Registration, Answers and Report.
-- Base holds what they share: tests on numbers, lists, C strings, decimal numbers, and runs that may fault.
--
-- How the code is represented
-- A C string is the list of its bytes before the NUL. uint32_t and uint16_t counters wrap where
-- the code adds to them; time_t is a natural number and is passed in. A static variable or struct
-- is a record, an operation a function from the record before to the record after; an access
-- through a NULL pointer or beyond an array is `fault`. A descriptor or pointer is an Option,
-- `none` for a negative number or NULL. A runtime is addressed by its number in the list of
-- runtimes, which are never freed once they are registered. What the C library, the kernel, the
-- threads and OpenSSL answer are arguments, and so are the results of queries to the database: the
-- answers of malloc, calloc and realloc, the rounds of a write loop, the fields of Env and Ends.
-- Each operation runs as one step, as the code's mutexes provide, except for the accept loop and
-- the handler threads, whose steps are separate in Proxy/Sockets and in Proxy/Crossing. The loops
-- recur over the list that they walk, or over the rounds of the environment; none needs fuel, except
-- the search from a random place, which has one round for each socket.
--
-- What is not modelled: log output, PostgreSQL, OpenSSL and jansson themselves (the
-- statements and the JSON values are data, the answers arguments), the report
-- of the monitoring, what a thread of the client does to the descriptor and the TLS object of the other
-- side, the client for Windows, the web interface and the scripts.
pub mod Base
pub mod Security
pub mod Proxy
pub mod Devices
pub mod Client
pub mod Protocol
pub mod Monitoring
pub mod Switcher
