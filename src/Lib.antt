-- ===== src/Lib.antt =====
-- pgcat: a pooler and sharding proxy for Postgres. Clients speak the Postgres protocol with it; it picks
-- a server by shard and role, forwards messages, and hands connections on from client to client.
--
-- Parts and files. Paths are from the repository's root.
--   Prelude      lists, tests and dictionaries over native numbers, machine words, Rust results
--   Errors       src/errors.rs, the Error enum without the texts
--   Wire         src/messages.rs: read_string of a cursor (`read_string`) and of a BytesMut
--                (`read_string_mut`), CString::new (`to_c_string`); Wire/Stream: read_message;
--                Wire/Sink: write_all, write_all_half and write_all_flush
--   Messages     src/messages.rs: Parse, Bind, Describe and Close, each with `..._try_from`,
--                `..._to_bytes`, renaming and hashing; Messages/Reply: the messages that pgcat makes;
--                Messages/ErrorFields: PgErrorMsg::parse; Messages/Startup: parse_params and
--                parse_startup
--   Server       src/server.rs: Server/Parameters is ServerParameters; Server/State the fields of
--                Server; Server/Recv the loop of recv, one function for each message code;
--                Server/Query send, query, sync_parameters; Server/Prepared
--                register_prepared_statement with its cache; Server/Checkin checkin_cleanup
--   Client       src/client.rs: Client/Startup is get_startup, Client/Extended buffer_parse, buffer_bind
--                and buffer_describe, Client/Sync the arm of the Sync message in handle up to the sending, with
--                ensure_prepared_statement_is_on_server and register_parse_to_server_cache;
--                Client/Session is the state of a session with what it waits for, Client/Relay
--                send_server_message, receive_server_message and send_and_receive_loop, Client/Arms the
--                arms of the transaction loop in handle, Client/Transaction that loop, Client/Outside
--                what handle does between transactions, Client/Custom handle_custom_protocol,
--                Client/Cancel the map of clients to servers, Client/Handle handle and the drop
--   Router       src/query_router.rs: QueryRouter; Router/Command is try_execute_command, Router/Infer
--                is infer, Router/FromBind is infer_shard_from_bind; Router/Syntax the trees of
--                statements, Router/Parse is parse, Router/Tables the conditions and tables of a
--                statement and the cache of written tables, Router/Selection infer_shard,
--                selection_parser and assignment_parser, Router/Trees what infer reads of the trees;
--                Router/Plugins is src/plugins/table_access.rs with execute_plugins
--   Sharding     src/sharding.rs: Sharder, with its hash functions in Sharding/Hash
--   Config       src/config.rs: Role and Address with their equality; Config/Validate the checks of
--                users, shards, pools and the whole configuration
--   Pool         src/pool.rs: Pool/Bans is ban, unban, is_banned and try_unban; Pool/Checkout is get
--                with run_health_check; Pool/Statements is PreparedStatementCache
--   Runs         concrete inputs for the theorems, with a codec that has the laws of `IsCodec`
--
-- How they interact. The pool bans servers that fail and lends connections of the others; recv cuts
-- messages from a connection's stream by read_message and reads their fields by read_string and
-- PgErrorMsg::parse; query sends simple_query and calls recv until no data is left; checkin_cleanup
-- runs queries before a connection is lent again. The names of prepared statements that clients use are
-- replaced in Parse, Bind, Describe and Close messages by names of the pool, when the client buffers
-- them; at the Sync the server registers those that it lacks. The router gives the shard and the role that
-- a checkout asks for. The handle loop reads a message, lets the router look at it, checks out a server,
-- claims it for requests to cancel, and runs the transaction loop, whose arms send to the server and relay
-- what it answers; at its end checkin_cleanup is run, and the claim and the connection are given back.
--
-- Conventions. A byte is a number below 256 and an integer of w bits the number of its bit pattern, with
-- wrap-around as in a release build. A text is its list of bytes. A panic is a result of its own. The byte
-- order of the crate bytes and UTF-8 checks of std are the record `Codec`, whose documented laws are
-- `IsCodec`; the cache of the crate lru is the record `Lru`; the SHA-1 digest and the hasher are
-- arguments, and so is the clock. The single-byte reads, `advance` and `copy_to_slice` of the trait Buf are
-- written out as what they do to the list of bytes left: a read past its end panics. A socket that is
-- read is the list of the bytes that it will deliver; one that is written is what was written, with a
-- list of faults to come. Regular expressions are functions from a text to what they capture. Of the
-- statements of the crate sqlparser the router's model has what it reads: Router/Infer stands on the
-- kinds of the statements, Router/Tables and Router/Selection on their trees, Router/Trees joins the two, and
-- the session on a parameter `Ast` with the functions that the router applies to it. What a session meets is given to it: the messages
-- of the client with their timeouts are a list of `Incoming`, the tries of a checkout and the configuration
-- at each turn of the handle loop a `Round`. The map of clients to servers is a dictionary. What bb8 and the
-- timer do at an attempt to connect is the record `Attempt`: the clock, the connection if one is got, how
-- long it was idle, and the server as it is left if the health check times out.
--
-- Bounds. The loops of recv, query and registration run on the length of the inbox plus one. Each round
-- reads a message of at least five bytes, so this fuel is enough; the outcome `stuck` of the model stands
-- for a loop that has used it up. The relay of a response runs on the length of the inbox plus one, and
-- the handle loop on the number of the client's messages plus one, as each turn takes one.
--
-- Not modelled: login of clients and of servers, the creation of pools, mirrors, the rules of the intercept
-- plugin (its result is given), authentication, admin clients with their database, statistics of clients and
-- of servers, DNS, TLS and logging. Of the modelled methods, only what statistics, logs and mirrors read is
-- left out; an address's error counter is a field of the pool, as its clones share it. A tick of the collector
-- is one step: counts that other tasks add while it runs are left out.
pub mod Prelude
pub mod Client
pub mod Config
pub mod Sharding
pub mod Stats
pub mod Errors
pub mod Wire
pub mod Messages
pub mod Server
pub mod Pool
pub mod Router
pub mod Runs
