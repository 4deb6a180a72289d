-- ===== src/Lib.antt =====
-- The request path of phorklift, an HTTP server and proxy in C.
--
-- A connection accepts requests; each request runs through ten steps, which receive it, find the
-- Host and Path scope of the configuration that serve it, run the filter and content modules of
-- that Path over it and write the response; a content module may need an upstream server, which the
-- upstream part picks and connects to. The C files are named by
-- their paths below src/ of the repository. The parts and their files:
--
-- - Prelude: names of the library, Booleans, lists over the native numbers, and C strings as lists of
--   byte values (Prelude/Lists, Prelude/Strings).
-- - Conf/Path, for phl_conf_path.c and the overwrite check of phl_conf_host.c: how a request path is
--   matched with pathnames (phl_conf_path_name_match, phl_conf_path_locate), and the check that no
--   pathname hides a later one. Conf/Path/Matching and Conf/Path/Shadowing hold the proofs.
-- - Conf/Host, for phl_conf_host.c: how host names are registered (phl_conf_host_add_name,
--   phl_conf_host_register) and looked up, wildcards included (phl_conf_host_locate). The dictionary
--   of libwuya is the record Dict of operations and laws, which a section takes as a parameter and
--   the tests fill with an association list.
-- - Request/State, for struct phl_request and the return values; Request/Filters, for
--   phl_module_filter_run of phl_module.c; Request/Body, for phl_request_append_body and
--   phl_request_set_host; Request/Steps, for the steps of phl_request.c, one function each, and
--   phl_request_redirect; Request/Run, for phl_request_run, the loop over them and its errors. A step
--   is a function from a request to a return value and a request. What the steps call of other files
--   (the modules' callbacks, the HTTP/1 reader, the writers of the response, the lookup of hosts and
--   paths) is the record Env. Request/Steps/Contract says what is asked of it.
-- - Connection, for phl_connection.c: the send buffer, its flush, its close and the timers. A stream
--   of libloop is a function that tells how many bytes of a buffer it takes.
-- - Upstream/Failure, for phl_upstream.c: the counters of the passive health check.
-- - Upstream/Pool, for phl_upstream.c: the idle and the active connections of an address
--   (phl_upstream_get_connection once the address is picked, phl_upstream_release_connection,
--   phl_upstream_connection_close), and the relation of what can happen to them.
-- - Upstream/Retry, for phl_upstream_retry_connection.
-- - Upstream/Random, for loadbalances/phl_upstream_random.c: the array of addresses with the sums of
--   their weights, its binary search, and phl_upstream_random_pick. The array is a function, weights
--   are natural numbers of a unit, and the random numbers are a sequence that the pick reads.
-- - Upstream/Stream, for phl_upstream.c: phl_upstream_connection_read with the bytes that
--   phl_upstream_connection_read_notfinish keeps, and phl_upstream_connection_write.
-- - Acl, for modules/phl_acl.c: the rules, how they are read (one round of phl_acl_conf_post), and
--   the decision of phl_acl_process_headers.
-- - Http1, for phl_http1.c: phl_http1_request_body with its loop over chunks, the chunks of a response
--   (phl_http1_response_body_packfix and phl_http1_response_body_pack), phl_http1_set_state and
--   phl_http1_request_close. The decoder of chunks of libwuya is a parameter, and so is "%-8x".
-- - Limit, for modules/phl_limit_req.c: the table of meters in shared memory (buckets, the list of the
--   least recently used, the free list), and Limit/Setup for the layout of that memory. The buckets are kept
--   apart from the nodes. A place in the
--   memory is a number; the meter and the hash of libwuya are parameters.
-- - Upstream/Content, for phl_upstream_content.c: the attempts of a request, what is sent and read on
--   its connection, and the release of it. The operations of the content module, the pool of
--   connections and the sockets are one record, Upstream, of functions on a world.
-- - Upstream/Hash, for loadbalances/phl_upstream_hash.c: the ring of virtual nodes, its rebuild and
--   phl_upstream_hash_pick. The hash of libwuya and qsort are parameters.
-- - Dynamic, for phl_dynamic.c: phl_dynamic_get with the holders for which requests wait, and
--   phl_dynamic_delete. The dictionary is a list of subs, searched by a parameter.
-- - Request/Response, for phl_request_response_body: where the bytes of a response come from, how many
--   fit, the filters and the framing, and when the body is complete. It is modelled by itself; in the
--   loop of Request/Run the step is a parameter.
-- - FileCache, for modules/phl_file_cache.c: looking a response up, storing its headers and its body, and
--   giving up. The system calls are one record, Files, of functions on a state.
-- - Upstream/Proxy, for modules/phl_proxy.c: what is sent to the upstream server and how its response is
--   read, and the proxy as a content module of Upstream/Content. The parsers of libwuya are parameters.
-- - Upstream/Healthcheck, for phl_upstream_healthcheck.c: a probe of an address, the verdict on its
--   response, and the counters.
-- - Upstream/Resolve, for phl_upstream_resolve.c: an address is a number in a store, and the lists hold
--   such numbers. Resolve/Stats is the table of counters, Resolve/Diff the merge of an answer, and
--   Resolve/Rounds the steps of a round, its end, and the release of addresses; Resolve/Setup is the
--   start, from the hostnames of a configuration.
-- - Modules, for phl_module.c and phl_module.h: the registry of modules and the walk over it;
--   Modules/Filters is the order and the ranks of the filters, and Modules/Loading the loading of
--   dynamic modules. Ranks are of any type of numbers with its == and <.
-- - Request/Closing, for phl_request_stats and phl_request_access_log: the counters of a path, and the
--   log of a request.
-- - Log, for phl_log.c: a log file with its buffer, and what is written to it.
-- - Static, for modules/phl_static.c: the response headers of a file.
-- Bounds and fuel: phl_request_run calls itself, so its model has fuel. The measure in
-- Request/Run/Termination counts the redirects that are left (at most 11), whether the request is
-- broken, and the steps that are left, which gives 287 calls under the contract of the steps; a step
-- that breaks the contract may need more than any fuel. The search of the random balancer has one
-- round of fuel more than it has addresses, since each round makes its interval smaller, and its pick
-- one visit of the label `retry` more, since each visit takes an address from the available ones. The
-- loop over the chunks of a request has one round for each byte, since a decoder that gives a piece
-- moves on, and so do the loops over header lines and chunks of the proxy. The attempts of
-- Upstream/Content have one call of fuel for each retry and one more; the search of the hash balancer
-- one round for each vnode; the step that makes a response body one call more than the string has
-- bytes; and the loop that wakes the requests of a dynamic sub one round for each request that waits. A
-- loop over the modules has one call more than there are modules, and a round of resolving one answer
-- for each hostname.
-- Lengths and counters are numbers without an upper bound: the C code keeps them in int and size_t,
-- and no value that the configuration and the buffers allow comes near the limits of those. The one
-- exception is the rest of a file in phl_request_response_body, where Request/Response writes the
-- conversions to int and size_t out.
--
-- Not modelled: memory (a string is a list of its bytes, and the copy that a function changes in
-- place is a new value), the event loop, TLS, HTTP/2 framing (libhttp2), the Lua calls, the
-- configuration tables, log output except for the access log and the pointer it reads, subrequests,
-- the release of closed requests, and the other modules: they are glue to Lua, zlib, the system or
-- libhttp2, or small filters that the list of components names.
pub mod Prelude
pub mod Conf
pub mod Request
pub mod Connection
pub mod Upstream
pub mod Acl
pub mod Dynamic
pub mod FileCache
pub mod Http1
pub mod Limit
pub mod Log
pub mod Modules
pub mod Static
