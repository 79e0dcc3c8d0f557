-- ===== src/Errors.antt =====
-- src/errors.rs: the error values. The texts and identifiers that they carry for the log are left out.
use pgcat.Prelude.{ℕ}

pub data Error : Type 0 where
  socket_error client_socket_error client_general_error : Error
  client_auth_impossible client_auth_passthrough_error client_bad_startup : Error
  protocol_sync_error bad_query server_error server_message_parser_error : Error
  server_startup_error server_auth_error bad_config all_servers_down client_error : Error
  tls_error statement_timeout dns_cached_error shutting_down parse_bytes_error : Error
  auth_error auth_passthrough_error unsupported_statement : Error
  query_router_parser_error query_router_error : Error
  invalid_shard_id : ℕ → Error
  prepared_statement_error : Error
