-- ===== src/Server/Trail.antt =====
-- What the requests to the server of src/main.py leave in the audit log.
use distributed_sync_system.Base.{
  Outcome, returned, ℕ, ◌≡◌, ◌⊎◌, inl, inr, refl, Option, none, some, String, Option-cases,
  Outcome-cases,
}
use distributed_sync_system.Access.Roles.{
  Verdict, bypassed, unauthorized, forbidden, allowed, auth_middleware,
}
use distributed_sync_system.Audit.Log.{Content, Request, log}
use distributed_sync_system.Audit.Chain.{IsValid, log-IsValid}
use distributed_sync_system.Cache.Node.{write}
use distributed_sync_system.Lock.Api.{acquire_command, release_command}
use distributed_sync_system.Lock.Machine.{Command}
use distributed_sync_system.Queue.Message.{Codec}
use distributed_sync_system.Queue.Node.{produce}
use distributed_sync_system.Queue.Store.{Redis}
use distributed_sync_system.Raft.Client.{ClientReply, not_leader, submit, await_commit}
use distributed_sync_system.Raft.State.{RaftNode}
use distributed_sync_system.Server.Routes.{
  AcquireBody, ReleaseBody, ProduceBody, Route, health, raft_status, lock_status, queue_status,
  cache_status, get_metrics, audit_verify, raft_vote, raft_append, acquire_route, release_route,
  queue_produce, queue_consume, queue_ack, queue_store, cache_read, cache_write, cache_invalidate,
  cache_peek, cache_invalidate_rpc, audit_logs, method_of, path_of,
}
use distributed_sync_system.Server.State.{
  Details, no_details, acquire_details, message_details, App, Given, Reply, locked, produced, done,
  or_text, client_of, payload_of, status_text,
}
use distributed_sync_system.Server.Handlers.{
  audit_log, acquire_end, release_end, submit_command, lock_acquire, lock_release, produce_handler,
  consume_handler, write_handler, read_handler, store_handler, append_handler,
}
use distributed_sync_system.Server.Guard.{Verdict-cases}
use distributed_sync_system.Server.Serve.{returning, handle, serve}

module _ {J V : Type 0} where
  -- The entry that a request makes: of its route, its answer, the client of its key and the time.
  unfoldable pub entered :
      Route J V → Outcome (Reply J V) → Option String → ℕ → Option (Request (Details J))
  entered (acquire_route body) (returned (locked answer)) client now = some (record {
    timestamp = now;
    client_id = client_of body.client_id client;
    action = "LOCK_ACQUIRE";
    resource = or_text "" body.lock_id;
    status = status_text answer;
    details = acquire_details body;
  })
  entered (release_route body) (returned (locked answer)) client now = some (record {
    timestamp = now;
    client_id = client_of body.client_id client;
    action = "LOCK_RELEASE";
    resource = or_text "" body.lock_id;
    status = status_text answer;
    details = no_details;
  })
  entered (queue_produce body) (returned (produced message_id)) client now = some (record {
    timestamp = now;
    client_id = client_of body.producer_id client;
    action = "QUEUE_PRODUCE";
    resource = or_text "default" body.queue;
    status = "produced";
    details = message_details message_id;
  })
  entered (cache_write key value) (returned done) client now = some (record {
    timestamp = now;
    client_id = client_of none client;
    action = "CACHE_WRITE";
    resource = key;
    status = "written";
    details = no_details;
  })
  entered _ _ client now = none

  -- A request that the middleware refuses makes none.
  unfoldable pub entry_for :
      Verdict → Route J V → Outcome (Reply J V) → ℕ → Option (Request (Details J))
  unfolding entered
  entry_for bypassed r ended now = entered r ended none now
  entry_for (allowed role client) r ended now = entered r ended (some client) now
  entry_for unauthorized r ended now = none
  entry_for (forbidden role permission) r ended now = none

module _ {J V : Type 0} (codec : Codec J) (db : Redis) (digest : Content (Details J) → String)
    (position : String → ℕ) where
  -- The log of the second node is that of the first, with the entry at its end where there is one.
  abbrev pub Adds : Option (Request (Details J)) → App db.Store J V → App db.Store J V → Type 0
  Adds none s s' = (s'.audit ≡ s.audit) × (s'.log_file ≡ s.log_file)
  Adds (some q) s s' =
      let (audit, log_file, _) = log digest q s.audit s.log_file in
      (s'.audit ≡ audit) × (s'.log_file ≡ log_file)

  -- The node as the request finds it, or as the other tasks have left it after the wait for the Raft log.
  abbrev pub Before : Given db.Store J V → App db.Store J V → App db.Store J V → Type 0
  Before given s b =
      (b ≡ s) ⊎ ((raft : RaftNode Command) × (b ≡ given.meanwhile (record s { raft = raft })))

  abbrev Audits :
      (Outcome (Reply J V) → Option (Request (Details J)))
      → Given db.Store J V
      → App db.Store J V
      → App db.Store J V × Outcome (Reply J V)
      → Type 0
  Audits entry given s r = (b : App db.Store J V) × Before given s b × Adds (entry r.1) b r.0

  -- The end of a lock's handler adds its entry, to whatever node and with whatever result.
  abbrev Ends :
      (Outcome (Reply J V) → Option (Request (Details J)))
      → (ClientReply → App db.Store J V → App db.Store J V × Reply J V)
      → Type 0
  Ends entry finish =
      (result : ClientReply) (s : App db.Store J V)
      → let r = finish result s in Adds (entry (returned r.1)) s r.0

  frame :
      (q : Option (Request (Details J))) (b s' : App db.Store J V) (raft : RaftNode Command)
      → Adds q (record b { raft = raft }) s'
      → Adds q b s'
  unfolding log
  frame none b s' raft h = h
  frame (some q) b s' raft h = h

  submit-Audits :
      (entry : Outcome (Reply J V) → Option (Request (Details J))) (command : Command)
      (finish : ClientReply → App db.Store J V → App db.Store J V × Reply J V)
      (given : Given db.Store J V) (s : App db.Store J V)
      → Ends entry finish
      → Audits entry given s (
          returning codec db digest position
            (submit_command codec db digest position command finish given s))
  unfolding submit_command
  submit-Audits entry command finish given s ends = elim (Option-cases (submit command s.raft).1) [
    | inl e ↦ rw (e, submit_command) (s, inl refl, ends (not_leader s.raft.current_leader) s)
    | inr (i, e) ↦
        let raft = (submit command s.raft).0 in
        let b = given.meanwhile (record s { raft = raft }) in
        let (raft', result) = await_commit i b.raft in
        let r = finish result (record b { raft = raft' }) in
        rw (e, submit_command)
          (
            b,
            inr (raft, refl),
            frame (entry (returned r.1)) b r.0 raft' (ends result (record b { raft = raft' })),
          )
  ]

  acquire_end-Ends :
      (body : AcquireBody) (client : Option String) (request_id : String) (now : ℕ)
      → Ends
          (λ o. entered (acquire_route body) o client now)
          (λ result. acquire_end codec db digest position body client request_id result now)
  unfolding acquire_end entered audit_log
  acquire_end-Ends body client request_id now result s = (refl, refl)

  release_end-Ends :
      (body : ReleaseBody) (client : Option String) (now : ℕ)
      → Ends
          (λ o. entered (release_route body) o client now)
          (λ result. release_end codec db digest position body client result now)
  unfolding release_end entered audit_log
  release_end-Ends body client now result s = (refl, refl)

  -- What the handler of the route adds is the entry of its answer.
  abbrev HandlerAudits :
      Route J V
      → Option String
      → Given db.Store J V
      → App db.Store J V
      → App db.Store J V × Outcome (Reply J V)
      → Type 0
  HandlerAudits r client given s out = Audits (λ o. entered r o client given.later) given s out

  produce-Audits :
      (body : ProduceBody J) (client : Option String) (given : Given db.Store J V)
      (s : App db.Store J V)
      → HandlerAudits
          (queue_produce body)
          client
          given
          s
          (produce_handler codec db digest position body client given s)
  unfolding produce_handler entered audit_log
  produce-Audits body client given s =
      let producer = client_of body.producer_id client in
      let queue = or_text "default" body.queue in
      let p =
        produce codec db position given.fresh_id queue (payload_of body) producer given.now
          given.forwarded s.queue in
      elim (Outcome-cases p.2) [
        | inl (i, e) ↦ rw (e, produce_handler) (s, inl refl, (refl, refl))
        | inr (x, e) ↦ rw (e, produce_handler) (s, inl refl, (refl, refl))
      ]

  write-Audits :
      (key : String) (value : Option V) (client : Option String) (given : Given db.Store J V)
      (s : App db.Store J V)
      → HandlerAudits
          (cache_write key value)
          client
          given
          s
          (write_handler codec db digest position key value client given s)
  unfolding write_handler entered audit_log
  write-Audits key value client given s =
      let p = write key given.now value s.cache in
      elim (Outcome-cases p.2) [
        | inl (i, e) ↦ rw (e, write_handler) (s, inl refl, (refl, refl))
        | inr (x, e) ↦ rw (e, write_handler) (s, inl refl, (refl, refl))
      ]

  handle-Audits :
      (r : Route J V) (client : Option String) (given : Given db.Store J V) (s : App db.Store J V)
      → HandlerAudits r client given s (handle codec db digest position r client given s)
  unfolding handle entered consume_handler read_handler store_handler append_handler lock_acquire
      lock_release
  handle-Audits (acquire_route body) client given s =
      submit-Audits (λ o. entered (acquire_route body) o client given.later)
        (acquire_command given.fresh_id (or_text "" body.lock_id) (client_of body.client_id client)
          (or_text "exclusive" body.lock_type) body.timeout given.lock_timeout given.now)
        (λ result.
          acquire_end codec db digest position body client given.fresh_id result given.later)
        given s (acquire_end-Ends body client given.fresh_id given.later)
  handle-Audits (release_route body) client given s =
      submit-Audits (λ o. entered (release_route body) o client given.later)
        (release_command (or_text "" body.lock_id) (client_of body.client_id client))
        (λ result. release_end codec db digest position body client result given.later) given s
        (release_end-Ends body client given.later)
  handle-Audits (queue_produce body) client given s = produce-Audits body client given s
  handle-Audits (cache_write key value) client given s = write-Audits key value client given s
  handle-Audits (raft_vote req) client given s = (s, inl refl, (refl, refl))
  handle-Audits (raft_append req) client given s = (s, inl refl, (refl, refl))
  handle-Audits (queue_consume body) client given s = (s, inl refl, (refl, refl))
  handle-Audits (queue_ack body) client given s = (s, inl refl, (refl, refl))
  handle-Audits (queue_store body) client given s = (s, inl refl, (refl, refl))
  handle-Audits (cache_read key) client given s = (s, inl refl, (refl, refl))
  handle-Audits (cache_invalidate key) client given s = (s, inl refl, (refl, refl))
  handle-Audits (cache_invalidate_rpc key) client given s = (s, inl refl, (refl, refl))
  handle-Audits (cache_peek key) client given s = (s, inl refl, (refl, refl))
  handle-Audits (audit_logs n) client given s = (s, inl refl, (refl, refl))
  handle-Audits audit_verify client given s = (s, inl refl, (refl, refl))
  handle-Audits raft_status client given s = (s, inl refl, (refl, refl))
  handle-Audits health client given s = (s, inl refl, (refl, refl))
  handle-Audits lock_status client given s = (s, inl refl, (refl, refl))
  handle-Audits queue_status client given s = (s, inl refl, (refl, refl))
  handle-Audits cache_status client given s = (s, inl refl, (refl, refl))
  handle-Audits get_metrics client given s = (s, inl refl, (refl, refl))

  serve-Audits :
      (header : Option String) (r : Route J V) (given : Given db.Store J V) (s : App db.Store J V)
      → Audits
          (λ o. entry_for (auth_middleware (method_of r) (path_of r) header) r o given.later)
          given
          s
          (serve codec db digest position header r given s)
  unfolding serve entry_for
  serve-Audits header r given s =
      elim (Verdict-cases (auth_middleware (method_of r) (path_of r) header)) [
        | inl e ↦ rw (e, serve) (handle-Audits r none given s)
        | inr (inl e) ↦ rw (e, serve) (s, inl refl, (refl, refl))
        | inr (inr (inl (a, b, e))) ↦ rw (e, serve) (s, inl refl, (refl, refl))
        | inr (inr (inr (role, client, e))) ↦ rw (e, serve) (handle-Audits r (some client) given s)
      ]

  Adds-IsValid :
      (q : Option (Request (Details J))) (b s' : App db.Store J V)
      → Adds q b s'
      → IsValid digest b.audit b.log_file
      → IsValid digest s'.audit s'.log_file
  Adds-IsValid none b s' (ea, ef) v = rw ea (rw ef v)
  Adds-IsValid (some q) b s' (ea, ef) v = rw ea (rw ef (log-IsValid digest q b.audit b.log_file v))

  -- A request adds to the audit log exactly the entry of its route and answer, or nothing where it has
  -- none: a lock's acquisition and release have one with the status of the answer, also when it is an
  -- error, a message that is produced and a value that is written have one unless an exception ends them,
  -- and other requests and those that are refused have none. It is added to the log as the request
  -- finds it, or as the node's other tasks have left it while the request waits for the Raft log. Where
  -- those tasks keep the log valid, it is valid afterwards.
  pub serve-IsValid :
      (header : Option String) (r : Route J V) (given : Given db.Store J V) (s : App db.Store J V)
      → ((t : App db.Store J V)
          → IsValid digest t.audit t.log_file
          → let t' = given.meanwhile t in IsValid digest t'.audit t'.log_file)
      → IsValid digest s.audit s.log_file
      → let (s', ended) = serve codec db digest position header r given s in
        let entry =
          entry_for (auth_middleware (method_of r) (path_of r) header) r ended given.later in
        ((b : App db.Store J V) × Before given s b × Adds entry b s')
        × IsValid digest s'.audit s'.log_file
  serve-IsValid header r given s keeps v =
      let (b, before, adds) = serve-Audits header r given s in
      let (s', ended) = serve codec db digest position header r given s in
      let entry =
        entry_for (auth_middleware (method_of r) (path_of r) header) r ended given.later in
      (
        (b, before, adds),
        Adds-IsValid entry b s' adds (elim before [
          | inl e ↦ rw e v
          | inr (raft, e) ↦ rw e (keeps (record s { raft = raft }) v)
        ]),
      )
