-- ===== src/Lib.antt =====
-- nyasniproxy: a local proxy that reads the host of a connection, from the server name of a TLS
-- ClientHello or the Host field of an HTTP request, and relays the connection through an upstream
-- proxy chosen by the configuration's rules.
--
-- A client connects because the hosts file sends the configured names to the listening address
-- (src/hosts.rs). The program reads the first bytes (src/http.rs, src/tls.rs), looks the host up
-- in the rules (src/router.rs), opens a tunnel through the first upstream proxy that accepts
-- (src/proxy.rs), sends on the bytes that it has read, and relays both directions (src/main.rs).
-- The configuration is fetched and checked (src/config.rs) and polled for changes
-- (src/reload.rs); a watchdog ends the process if the accept loops stop (src/watchdog.rs).
--
-- Files, by the code that they model:
-- - Base, Base/*: bytes, lists, results, the operations of str and of numbers' texts, UTF-8, and
--   streams as lists of reads;
-- - Target, Target/*: src/target.rs, Target, parse_host_port, format_target, is_valid_hostname;
-- - Http, Http/*: src/http.rs, read_until_header_end, header_end, parse_http_host;
-- - Tls, Tls/*: src/tls.rs, read_https_target, parse_tls_sni;
-- - Hosts, Hosts/*: src/hosts.rs, render_block, replace_managed_block, write_atomic, sync_hosts;
-- - Proxy, Proxy/*: src/proxy.rs, ProxyConfig, http_connect, socks5_connect, connect, and the
--   streams of a tunnel, PrefixedStream and ProxyStream;
-- - Config, Config/*: src/config.rs, the YAML visitors, parse_yaml, fetch_config_limited,
--   merge_settings, warn_ignored_runtime_changes;
-- - Router, Router/*: src/router.rs, Runtime::from_yaml, Router::lookup, connect_with_fallback;
-- - Reload, Reload/*: src/reload.rs, DefaultFetcher, InFlightFetches, reload_once, poll_source,
--   watch_file, run_reload_loop;
-- - Watchdog: src/watchdog.rs, Heartbeat and the watchdog's loop;
-- - Server, Server/*: src/main.rs, accept_loop, handle_connection, and the relay with its idle timer;
-- - Startup, Startup/*: src/main.rs, main up to its loops;
-- - Session, Session/*: src/main.rs, one connection through the whole program;
-- - System, System/*: src/main.rs, the running program: the accept loops, the tasks of the
--   connections, the reloads and the watchdog, as a step relation and the states it reaches;
-- - Tests/*: runs on concrete inputs.
--
-- Text is its UTF-8 bytes, numbers of a fixed width are natural numbers with the bounds of the
-- code written out. A stream is the list of the reads that it completes before the deadline: a
-- future that is still pending then has timed out. A round of the relay carries the outcome of the
-- write that its branch awaits; one that stays pending for ever blocks the relay and its timer. The file system, the network, serde_yaml,
-- Url::parse, the base64 encoder and the hash function are parameters. A HashMap is a list of
-- entries in the order in which it is walked. Errors carry the outermost message.
--
-- The loops over extensions and names of a ClientHello run on fuel, the length of the list that
-- they walk; each round takes at least one byte of it, so the fuel is enough. The other loops
-- are structural on their input.
--
-- Time is a number given with each event, in nanoseconds for the heartbeat and in milliseconds
-- for the watching of the file. The tasks of the program share the permits of the semaphore, the
-- heartbeat, the slots of the fetches and the current runtime; their interleaving is the order
-- of the list of turns, or of the steps of the running program. One step is the part of a task
-- between two of its uses of what the tasks share.
--
-- Not modelled: the parsing of the command line by clap, the log lines and the texts of Display,
-- how the HTTP and TLS clients are built, and the exit of the process in watchdog_suicide, which
-- call other libraries only; of Debug the fields that ProxyConfig shows are modelled, not their
-- layout. Of the tests in src the ClientHellos that they make are modelled, as functions of the
-- host, and Runtime::single_proxy.
pub mod Base
pub mod Target
pub mod Http
pub mod Tls
pub mod Hosts
pub mod Proxy
pub mod Config
pub mod Router
pub mod Reload
pub mod Watchdog
pub mod Server
pub mod Startup
pub mod Session
pub mod System
pub mod Tests
