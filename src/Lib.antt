-- ===== src/Lib.antt =====
-- The FastCGI application server: how a request is read, dispatched and answered, and the pool of
-- database connections that its handlers share.
--
-- A worker thread (src/server/fcgi_server.cpp) accepts a request, makes an `fcgi_request` of it, which
-- parses the query (src/server/fcgi_handler.cpp), and calls the handler that the server's tables name
-- for the path. In a worker (src/server/worker.cpp), which the main process starts again when it ends
-- (src/server/main.cpp), these are the blog's and the map's of the site. A handler may call
-- `parse_form_data`, which gives the body in chunks to a `formdata_parser`, and takes connections of a
-- `DBPool` (src/db/db_pool.h), whose idle connections a maintenance thread deletes
-- (src/db/db_pool.cpp).
--
-- * Common has the shared names, and bytes, maps and decimals as the C++ library has them: a
--   `std::string` is a list of byte codes, a `std::map` a list sorted by key, a `std::multimap` one
--   that keeps entries of one key in the order of insertion. A position is of 64 bits, `npos` the
--   largest. A `char` is signed, as on x86: where one is computed with, or compared with an
--   `unsigned char`, the code is taken so.
-- * Exception is the exceptions of src/server/fcgi_handler.h.
-- * Query is `fcgi_request::parse_query_args` and the lookups `has_param` and `get_param`; Query.Pieces
--   describes the loop by the pieces of the text, Query.Pairs draws what a handler sees.
-- * Multipart is `formdata_parser`: one function for each of its methods, and one for each state of
--   the loop of `upload_process_buf`. An iterator into the boundary is an index; `header` and `output`
--   are what the two buffers hold. Setup is the constructor and the end. Safety has the bounds, Feeds
--   reads byte by byte, Values, Scan and Head follow a value and a part's header, RoundTrip reads a
--   whole body.
-- * Form is `fcgi_request::parse_form_data`. The body is the list of the bytes that are still to be
--   read; a read gives fewer bytes than it is asked for only at the end. Whole and Fields follow the
--   loop over a form's body, Reads has what a handler reads then.
-- * Server is `fcgi_server`: the two tables and `invoke_handler`; Order, Dispatch and Invoke follow its
--   two loops, Exact is on the mappings with '='. Lifetime is `init`, `shutdown` and the destructor.
-- * Worker is `fcgi_server::worker_thread` on a list of rounds. The FastCGI library is a function from
--   names to values, and a handler is a function that gives what it writes and throws: both are
--   arguments. Threads has the threads that `fcgi_server::run` starts, as places in the loop and steps
--   over what they share; a handler may not return there, and its thread hangs. Counts and Once are on
--   what they keep, Progress on whether they go on.
-- * Url is the constructor of `URL` in src/server/url.h.
-- * Json is the values of src/server/json.h and the printer of src/server/json.cpp; Reader is a reader
--   of JSON that takes only what RFC 8259 takes, View the tree that a value stands for, Steps and Text
--   read the printed text. Memory is what the objects allocate and delete, Owned counts it.
-- * Date is `Date` of src/server/date.h: Calendar has the dates, Quants the quarters of an hour.
-- * MainProcess is `MainProcess` of src/server/main.h and src/server/main.cpp: the table of the worker
--   processes and the rounds of `run`. What waitpid and fork give in a round are arguments. Workers and
--   Spawn have what the table keeps, Rounds and Lifetime the invariant, Shutdown the end. Options is
--   `main`, with what getopt_long and fork give as arguments.
-- * Database is `DBStmt` of src/db/db_pool.h. The MySQL client is a function from statements and
--   their parameters to rows. Columns are the texts of a row's columns, Timestamps and Numbers read
--   them back, Binding is on the parameters. Lock is `DBScopedLock`.
-- * Xml is the trees that src/server/xml.h builds by libxml2; how a document is written is an argument.
-- * Handling has what the handlers share: how a call ends that uses the database, the loop over a
--   statement's rows, and the answers; Values is on what is read from a row, Ends on defined ends.
-- * Sitemap is `sitemap_handler::handle` with its statements in turn; Urls has the bodies of its loops,
--   Paging the numbers of pages; Rows and Defined are on how its calls end.
-- * Blog is `wp_handler`; Pages has its routing, Contents the mark in a post, Posts and Single the
--   answers with posts.
-- * Service is src/server/worker.cpp: how a worker's server, handlers and pool are put together, and
--   `drop_permissions`, with the system's users and groups as arguments. Routes composes the server's
--   tables with the handlers. Process is `worker_process` as a whole, as what it does in turn.
-- * Pool is `DBPool`: what a thread does with `m_lock` held is one call. Owners and Maintenance have
--   what each call keeps, System the threads' interleavings as steps, Faults the unguarded cases.
--   The MySQL client is an argument: the connection that it makes, or none. Startup is the calls that
--   start and join the maintenance thread, and its loop, which a pool's locked mutex holds up, as steps;
--   Counts, Kept and Started are on what these keep, Moves and Joined on their end, Jams on a pool's mutex
--   that stays locked, Races on the list of pools. Holder is `DBConnHolder`.
-- * Regex and Gearman are the wrappers of src/server/regex.h and of src/server/gearman.h,
--   gearman_client.h and gearman_worker.h, with the libraries as arguments; Freed is on what the latter
--   free.
-- * Tests has the theorems at concrete inputs.
--
-- Fuel: the loop of `upload_process_buf` gets two rounds for each byte, as a byte is read again at most
-- once; the loop of `parse_query_args` one for each byte and one more, as each round but the last uses
-- a byte of its own; the loop of `parse_form_data` likewise. The loops
-- over a list's pages get one round for each post and one more, as a round takes at least a post away.
-- The theorems on these functions show that the runs end.
--
-- Not modelled: allocation failures other than a failed connection, threads that cannot be created, the
-- log (src/logger only calls syslog), signals, the classes of src/server/scoped_lock.h, which only call
-- pthread and which nothing uses, and the rounding of doubles (Date takes them as exact, and says why).
pub mod Common
pub mod Exception
pub mod Query
pub mod Multipart
pub mod Form
pub mod Server
pub mod Worker
pub mod Gearman
pub mod Url
pub mod Json
pub mod Regex
pub mod Date
pub mod MainProcess
pub mod Database
pub mod Xml
pub mod Handling
pub mod Sitemap
pub mod Blog
pub mod Service
pub mod Pool
pub mod Tests
