-- ===== src/Server/Serve.antt =====
-- The server of src/main.py: each route's handler, and a request behind the middleware.
use distributed_sync_system.Base.{ℕ, Option, none, some, String, Outcome, returned}
use distributed_sync_system.Access.Roles.{
  bypassed, unauthorized, forbidden, allowed, auth_middleware,
}
use distributed_sync_system.Audit.Log.{Content, get_recent, verify_integrity}
use distributed_sync_system.Cache.Node.{invalidate, peek}
use distributed_sync_system.Lock.Api.{}
use distributed_sync_system.Queue.Message.{Codec}
use distributed_sync_system.Queue.Node.{acknowledge}
use distributed_sync_system.Queue.Store.{Redis}
use distributed_sync_system.Raft.Append.{handle_append_entries}
use distributed_sync_system.Raft.Client.{get_status}
use distributed_sync_system.Raft.Vote.{handle_request_vote}
use distributed_sync_system.Server.Routes.{
  Route, health, lock_status, queue_status, cache_status, get_metrics, raft_status, audit_verify,
  raft_vote, raft_append, acquire_route, release_route, queue_produce, queue_consume, queue_ack,
  queue_store, cache_read, cache_write, cache_invalidate, cache_peek, cache_invalidate_rpc,
  audit_logs, method_of, path_of,
}
use distributed_sync_system.Server.Handlers.{
  lock_acquire, lock_release, produce_handler, consume_handler, write_handler, read_handler,
  store_handler, append_handler, lock_status_handler, queue_status_handler, cache_status_handler,
}
use distributed_sync_system.Server.State.{
  Details, App, Given, Reply, snapshot, healthy, done, voted, raft_report, peeked, entries,
  verified, refused, or_text, number_or,
}

module _ {J V : Type 0} (codec : Codec J) (db : Redis) (digest : Content (Details J) → String)
    (position : String → ℕ) where
  abbrev pub returning : App db.Store J V × Reply J V → App db.Store J V × Outcome (Reply J V)
  returning (s, r) = (s, returned r)

  -- The handler of a route, with the client of the request's key.
  unfoldable pub handle :
      Route J V
      → Option String
      → Given db.Store J V
      → App db.Store J V
      → App db.Store J V × Outcome (Reply J V)
  unfolding lock_acquire lock_release produce_handler consume_handler write_handler read_handler
      store_handler append_handler lock_status_handler queue_status_handler cache_status_handler
      handle_append_entries handle_request_vote invalidate peek acknowledge get_recent
      verify_integrity get_status
  handle (raft_vote req) client given s =
      let (raft, r) = handle_request_vote given.now req s.raft in
      (record s { raft = raft }, returned (voted r))
  handle (raft_append req) client given s =
      let (raft, ended) = handle_append_entries given.now req s.raft in
      append_handler codec db digest position given.now ended raft s
  handle (acquire_route body) client given s =
      returning (lock_acquire codec db digest position body client given s)
  handle (release_route body) client given s =
      returning (lock_release codec db digest position body client given s)
  handle (queue_produce body) client given s =
      produce_handler codec db digest position body client given s
  handle (queue_consume body) client given s = consume_handler codec db digest position body given s
  handle (queue_ack body) client given s = (
    record s {
      queue = acknowledge db (or_text "default" body.queue) (or_text "" body.message_id) s.queue;
    },
    returned done,
  )
  handle (queue_store body) client given s = store_handler codec db digest position body s
  handle (cache_read key) client given s = read_handler codec db digest position key given s
  handle (cache_write key value) client given s =
      write_handler codec db digest position key value client given s
  handle (cache_invalidate key) client given s =
      (record s { cache = invalidate key given.now s.cache }, returned done)
  handle (cache_invalidate_rpc key) client given s =
      (record s { cache = invalidate key given.now s.cache }, returned done)
  handle (cache_peek key) client given s = (s, returned (peeked (peek key s.cache)))
  handle (audit_logs n) client given s =
      (s, returned (entries (get_recent (number_or 50 n) s.log_file)))
  handle audit_verify client given s =
      (s, returned (verified (verify_integrity digest s.audit s.log_file)))
  handle raft_status client given s = (s, returned (raft_report (get_status s.raft)))
  handle health client given s = (s, returned (healthy s.raft.node_id s.raft.state))
  handle lock_status client given s = lock_status_handler codec db digest position s
  handle queue_status client given s = queue_status_handler codec db digest position s
  handle cache_status client given s = cache_status_handler codec db digest position s
  handle get_metrics client given s = (s, returned snapshot)

  -- A request behind the middleware: `header` is its X-API-Key.
  unfoldable pub serve :
      Option String
      → Route J V
      → Given db.Store J V
      → App db.Store J V
      → App db.Store J V × Outcome (Reply J V)
  unfolding handle auth_middleware method_of path_of
  serve header route given s = elim (auth_middleware (method_of route) (path_of route) header) [
    | bypassed ↦ handle route none given s
    | allowed role client ↦ handle route (some client) given s
    | unauthorized ↦ (s, returned (refused 401))
    | forbidden role permission ↦ (s, returned (refused 403))
  ]
