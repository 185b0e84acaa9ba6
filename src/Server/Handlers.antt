-- ===== src/Server/Handlers.antt =====
-- The route handlers of src/main.py that do more than one thing. While a handler waits for the Raft log,
-- the other tasks of its node run.
use distributed_sync_system.Base.{ℕ, Option, none, some, String, Dict, Outcome, returned, raised}
use distributed_sync_system.Access.Roles.{}
use distributed_sync_system.Audit.Log.{Content, log}
use distributed_sync_system.Cache.Node.{read, write}
use distributed_sync_system.Lock.Api.{
  acquire_command, acquire_answer, release_command, release_answer,
}
use distributed_sync_system.Lock.Status.{get_status as lock_table}
use distributed_sync_system.Cache.Status.{get_status as cache_table}
use distributed_sync_system.Queue.Status.{get_status as queue_table}
use distributed_sync_system.Lock.Machine.{Command}
use distributed_sync_system.Queue.Message.{Value, Codec}
use distributed_sync_system.Queue.Node.{produce, consume, queue_store_internal}
use distributed_sync_system.Queue.Store.{Redis}
use distributed_sync_system.Raft.Append.{AppendReply}
use distributed_sync_system.Raft.Client.{ClientReply, not_leader, submit, await_commit, get_status}
use distributed_sync_system.Raft.State.{RaftNode}
use distributed_sync_system.Server.Routes.{AcquireBody, ReleaseBody, ProduceBody, ConsumeBody}
use distributed_sync_system.Server.State.{
  Details, no_details, acquire_details, message_details, App, Given, Reply, done, appended, locked,
  produced, consumed, was_read, or_text, client_of, payload_of, number_or, status_text, lock_report,
  queue_report, cache_report,
}

module _ {J V : Type 0} (codec : Codec J) (db : Redis) (digest : Content (Details J) → String)
    (position : String → ℕ) where
  -- `await audit.log(client_id, action, resource, status, details)`
  unfoldable pub audit_log :
      String → String → String → String → Details J → ℕ → App db.Store J V → App db.Store J V
  unfolding log
  audit_log client_id action resource status details now s =
      let (audit, log_file, _) =
        log digest
          (record {
            timestamp = now;
            client_id = client_id;
            action = action;
            resource = resource;
            status = status;
            details = details;
          })
          s.audit s.log_file in
      record s { audit = audit; log_file = log_file }

  -- The ends of `lock_acquire` and `lock_release`, with what the Raft log made of the command.
  unfoldable pub acquire_end :
      AcquireBody
      → Option String
      → String
      → ClientReply
      → ℕ
      → App db.Store J V
      → App db.Store J V × Reply J V
  unfolding audit_log acquire_answer or_text client_of status_text
  acquire_end body client request_id result now s =
      let lock_id = or_text "" body.lock_id in
      let (metrics, answer) = acquire_answer request_id lock_id result s.locks.metrics in
      (
        audit_log (client_of body.client_id client) "LOCK_ACQUIRE" lock_id (status_text answer)
            (acquire_details body) now (record s { locks = record s.locks { metrics = metrics } }),
        locked answer,
      )

  unfoldable pub release_end :
      ReleaseBody
      → Option String
      → ClientReply
      → ℕ
      → App db.Store J V
      → App db.Store J V × Reply J V
  unfolding audit_log release_answer or_text client_of status_text
  release_end body client result now s =
      let lock_id = or_text "" body.lock_id in
      let (metrics, answer) = release_answer lock_id result s.locks.metrics in
      (
        audit_log (client_of body.client_id client) "LOCK_RELEASE" lock_id (status_text answer)
            no_details now (record s { locks = record s.locks { metrics = metrics } }),
        locked answer,
      )

  -- A command that is not taken ends its handler at once. For another the handler waits, while the node
  -- goes on, and ends with what became of its entry.
  unfoldable pub submit_command :
      Command
      → (ClientReply → App db.Store J V → App db.Store J V × Reply J V)
      → Given db.Store J V
      → App db.Store J V
      → App db.Store J V × Reply J V
  unfolding submit await_commit
  submit_command command finish given s =
      let (raft, index) = submit command s.raft in
      elim index [
        | none ↦ finish (not_leader s.raft.current_leader) s
        | some i ↦
            let s' = given.meanwhile (record s { raft = raft }) in
            let (raft', result) = await_commit i s'.raft in
            finish result (record s' { raft = raft' })
      ]

  unfoldable pub lock_acquire :
      AcquireBody
      → Option String
      → Given db.Store J V
      → App db.Store J V
      → App db.Store J V × Reply J V
  unfolding acquire_end submit_command acquire_command
  lock_acquire body client given s =
      submit_command
        (acquire_command given.fresh_id (or_text "" body.lock_id) (client_of body.client_id client)
          (or_text "exclusive" body.lock_type) body.timeout given.lock_timeout given.now)
        (λ result. acquire_end body client given.fresh_id result given.later) given s

  unfoldable pub lock_release :
      ReleaseBody
      → Option String
      → Given db.Store J V
      → App db.Store J V
      → App db.Store J V × Reply J V
  unfolding release_end submit_command release_command
  lock_release body client given s =
      submit_command (release_command (or_text "" body.lock_id) (client_of body.client_id client))
        (λ result. release_end body client result given.later) given s

  -- The message that the audit names is that of the answer.
  unfoldable pub produce_handler :
      ProduceBody J
      → Option String
      → Given db.Store J V
      → App db.Store J V
      → App db.Store J V × Outcome (Reply J V)
  unfolding produce audit_log
  produce_handler body client given s =
      let producer = client_of body.producer_id client in
      let queue = or_text "default" body.queue in
      let (q, _, ended) =
        produce codec db position given.fresh_id queue (payload_of body) producer given.now
          given.forwarded s.queue in
      elim ended [
        | raised e ↦ (record s { queue = q }, raised e)
        | returned message_id ↦ (
          audit_log producer "QUEUE_PRODUCE" queue "produced" (message_details message_id)
              given.later (record s { queue = q }),
          returned (produced message_id),
        )
      ]

  unfoldable pub consume_handler :
      ConsumeBody → Given db.Store J V → App db.Store J V → App db.Store J V × Outcome (Reply J V)
  unfolding consume
  consume_handler body given s =
      let (q, ended) =
        consume codec db (or_text "default" body.queue) (number_or 30 body.ack_timeout) given.now
          given.later s.queue in
      (
        record s { queue = q },
        elim ended [ raised e ↦ raised e | returned r ↦ returned (consumed r) ],
      )

  unfoldable pub write_handler :
      String
      → Option V
      → Option String
      → Given db.Store J V
      → App db.Store J V
      → App db.Store J V × Outcome (Reply J V)
  unfolding write audit_log
  write_handler key value client given s =
      let (c, _, ended) = write key given.now value s.cache in
      elim ended [
        | raised e ↦ (record s { cache = c }, raised e)
        | returned _ ↦ (
          audit_log (client_of none client) "CACHE_WRITE" key "written" no_details given.later
              (record s { cache = c }),
          returned done,
        )
      ]

  unfoldable pub read_handler :
      String → Given db.Store J V → App db.Store J V → App db.Store J V × Outcome (Reply J V)
  unfolding read
  read_handler key given s =
      let (c, ended) = read key given.now given.peeked s.cache in
      (
        record s { cache = c },
        elim ended [ raised e ↦ raised e | returned r ↦ returned (was_read r) ],
      )

  unfoldable pub store_handler :
      Dict (Value J) → App db.Store J V → App db.Store J V × Outcome (Reply J V)
  unfolding queue_store_internal
  store_handler body s =
      let (q, ended) = queue_store_internal codec db body s.queue in
      (record s { queue = q }, elim ended [ raised e ↦ raised e | returned _ ↦ returned done ])

  unfoldable pub append_handler :
      ℕ
      → Outcome AppendReply
      → RaftNode Command
      → App db.Store J V
      → App db.Store J V × Outcome (Reply J V)
  append_handler now ended raft s = (
    record s { raft = raft },
    elim ended [ raised e ↦ raised e | returned r ↦ returned (appended r) ],
  )

  -- The reports, under the name of the node.
  unfoldable pub lock_status_handler : App db.Store J V → App db.Store J V × Outcome (Reply J V)
  unfolding get_status lock_table
  lock_status_handler s =
      let (m, status) = lock_table (get_status s.raft) s.locks in
      (record s { locks = m }, returned (lock_report status))

  unfoldable pub queue_status_handler : App db.Store J V → App db.Store J V × Outcome (Reply J V)
  unfolding queue_table
  queue_status_handler s =
      let (q, ended) = queue_table db s.queue in
      (
        record s { queue = q },
        elim ended [ raised e ↦ raised e | returned r ↦ returned (queue_report r) ],
      )

  unfoldable pub cache_status_handler : App db.Store J V → App db.Store J V × Outcome (Reply J V)
  unfolding cache_table
  cache_status_handler s = (s, returned (cache_report (cache_table s.raft.node_id s.cache)))
