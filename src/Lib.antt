-- ===== src/Lib.antt =====
-- The EDYSOR security operations platform: a sensor on each endpoint collects events and runs
-- commands, the backend takes the events in, detects, groups into incidents and responds, and the
-- intelligence engine runs playbooks and workflows.
--
-- The way of an event, and the files that model it. The sensor (sensor/edysor_sensor.py) collects
-- events, spools them to a file and posts them in a batch: Sensor.Spool is read_spool,
-- write_spool, clear_spool and the flush of run_cycle, with the answer of send_events: an event that
-- the backend refuses in a batch that it takes is delivered and dropped, not spooled. Sensor.Collectors is the state of the
-- collectors with collect_processes, its children Connections, Files and Auth are collect_network,
-- collect_files with collect_win_persistence, and collect_auth; Sensor.Snapshots is the difference
-- of two scans and Sensor.Events the events with their hints. The backend takes the batch in
-- (backend/app/api/v1/events.py): Ingest is ingest_events with _validate_event and _parse_ts.
-- Rules look at the events (backend/app/detection/rules.py): Detection.Rules and Detection.Match
-- are the rules of one event, Detection.Batch the one of a batch. The scan of a tenant
-- (detection/engine.py) is Detection.Scan, with its passes over the rules, and Detection.Tenant,
-- with the anomaly pass and the watermark; the scoring at ingest (detection/realtime.py) is
-- Detection.Realtime; the grouping into incidents (detection/correlate.py) is Detection.Correlate,
-- and what an analyst does with an incident (api/v1/incidents.py) is Incidents. The known
-- destinations that the rules look up come from the feeds (backend/app/intel/refresh.py): Intel is
-- refresh_source, and Intel.Feeds refresh_all with the cached sets. The response policy
-- (backend/app/response/policy.py) is Response.Policy: evaluate is _evaluate with its proposals,
-- its gates and its modes. The commands that it queues are polled and acknowledged
-- (backend/app/response/api.py): Response.Queue is poll_commands and ack_command. The sensor
-- executes them: Sensor.Commands is _execute_command with the handlers of the actions, of which
-- Sensor.Persistence is one, on the machine of Sensor.Endpoint. Store holds the tables that these
-- share (backend/app/domain/models.py), a list of rows for each.
--
-- Beside it stand the services of the backend (backend/app): Platform.Breaker is
-- resilience/circuit_breaker.py, Platform.Cache is cache/cache_manager.py, Platform.Access is
-- auth/rbac.py, Platform.Sessions is auth/session_manager.py, Platform.Limiter is
-- security/rate_limiter.py and Platform.AuditLog is audit_logging/audit_logger.py. Who a request
-- is from and what it may call (api/middleware/auth_middleware.py and api/deps.py) is
-- Platform.Requests, and Platform.Requests.Keys is the lifecycle of API keys (api/v1/api_keys.py).
-- Retrain is the decision when the models are trained again (ml/auto_retrain.py). Of the
-- intelligence engine (intelligence_engine/soar), Soar.Playbooks is playbook_engine.py,
-- Soar.Workflow is core/playbook_parser.py, with the checks that a document passes, and
-- Soar.Execution is core/dag_executor.py, with the tasks of its nodes.
--
-- How state and errors are modelled. A handler takes the tables and gives the tables, with every
-- early return as a branch and every error status as a value. An exception is `none` of Option,
-- `type_error` of Attempt, or the case that the handler turns it into. Python values after JSON
-- decoding are Json.Value with its truthiness, `or`, `get` and `==`. A timestamp is a natural
-- number. What Python's standard library does (text case, addresses, regular expressions, hashing)
-- is the record Python; SHA-256 of the audit log, the JSON codec of the spool, the operating
-- system of the endpoint, the feeds, the decoding of tokens, the time parser and the anomaly model
-- are parameters too, each with the laws that the code relies on. Tasks of a workflow interleave:
-- a schedule is the list of the tasks that resume.
--
-- Loops and their bounds. Loops over lists are structural. The visits of the cycle check take as
-- many rounds as the graph has nodes, which is enough because each round takes another node from
-- the queue. A workflow is run for as many rounds as there is work: two per node and one per edge
-- at most. Limits of the source are its numbers: 50 commands per poll, 1000 events per batch, 200
-- per scoring, 20 failed logins, 20000 remembered connections, 500 lines of a log, 1024 characters
-- of an indicator, 600 seconds of a cached set.
--
-- Not modelled: text for people (titles, reasons, log lines) and database failures other than the
-- read of the response mode; floating-point scores; the Windows event log of the sensor, and the
-- HTTP calls of the feeds; routes that only read or write one row; machine learning, which is
-- numerical libraries; connectors, brokers and graph databases, which are other products; the
-- front ends, which are not Python; and istio, which is vendored.
pub mod Prelude
pub mod Ingest
pub mod Intel
pub mod Json
pub mod Python
pub mod Store
pub mod Response
pub mod Detection
pub mod Incidents
pub mod Retrain
pub mod Platform
pub mod Soar
pub mod Sensor
pub mod Tests
