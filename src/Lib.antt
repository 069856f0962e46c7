-- ===== src/Lib.antt =====
-- Verification library of sirius-api-proxy, a proxy between API clients and the game's servers.
--
-- A call goes through a region's client: the path breaker admits it, the account pool leases an
-- account, the upstream answers, and the outcome is recorded on the path and charged to the account
-- or to the path. Global accounts log in under rate limits, with an SDK session that all regions of a
-- deployment share and that a state file carries over restarts. A read may go to another node
-- instead: the router tries targets in order, each with its own cooldown. Public reads may be answered
-- from a cache. Dispatches of asset jobs are kept in a ledger that is written before network work; a
-- worker observes new resources, posts the pending dispatches to the updaters and follows their jobs.
--
-- Every file says which source file it is about, by its path from the repository's root:
--
-- Base                 names, Boolean tests, options, lists, words and texts that all share
-- Error                src/error.rs: AppError, its codes and HTTP status
-- Accounts.Health      src/accounts.rs: Health, PoolPolicy, Charge and the Account methods on them
-- Accounts.Login       src/global_account.rs: LoginState (prune, next_allowed)
-- Accounts.Signal      src/accounts.rs: Account::global_signal and Lease::report
-- Accounts.Pool        src/accounts.rs: Pool (public_index, select, inherit_login_history), Lease
-- SdkSession           src/sdk_session.rs: State, SdkSession and its state file
-- PathHealth           src/path_health.rs: PathHealth (record, admit, charge, status), Ticket
-- AssetOutbox          src/asset_outbox.rs: Outbox (its ledger, archive and every method)
-- AssetJobs            src/asset_jobs.rs: Client (new, with_user_agent, submit, get, send)
-- Resources            src/resources.rs: ResourceSnapshot, select_platform; src/master.rs: safe_version
-- AssetDispatch        src/asset_dispatch.rs: Config, Worker (observe, reconcile, cycles);
--                      src/asset_dispatch_admin.rs: DispatchStatus, summarize, handle
-- NodeRouting          src/node_routing.rs: Config, Target health, Permit, Router::call_inner
-- Peer                 src/peer.rs: Failure, query; src/peer_transport.rs: Error
-- ResponseCache        src/response_cache.rs: Config, Memory, Cache (ttl, get_with_state, put_with_ttl)
-- GameClient           src/client.rs: State (observe, version_need, ensure_version), execute, settle_charge
-- ClientAuth           src/client_auth.rs: Config, verify, Authenticator; src/master_database.rs: Config
-- MasterAdmission      src/master_admission.rs: Gate and Held
-- Region               src/region.rs: Region and its names
--
-- State is passed explicitly: a method that takes a mutex is one step on the guarded record, and
-- interleavings are step relations or lists of events. Instants and times of day are natural numbers
-- in milliseconds or seconds, and what the clock reads is an argument. Counters of 32 bits saturate
-- and counters of 64 bits wrap as in the source. No definition takes fuel: every loop is structural.
--
-- Not under src/, and so parameters: the reader of a token's `exp` and the test of header values
-- (SdkSession.Env), the readers of URLs, header values, UUIDs and JSON of the job client, its hash
-- and the updaters' answers (AssetJobs.Env, Io), the hash of a dispatch's identity and the reader
-- of UUIDs (AssetOutbox.Env), the parser of a node's destination (NodeRouting.Config.Env), the
-- client's upstream and the readers of releases (GameClient.Versions.Env,
-- Resources.Selection.Readers), the codecs and hash of client tokens and the user store's answers
-- (ClientAuth.Tokens.Codecs, ClientAuth.Decisions.Call), the semaphore and body of a table read,
-- the JSON of a payload and its length. Whether a file operation succeeds is an argument. The JSON
-- of a file that the program wrote is taken to be read back as it was written.
--
-- Not modelled: HTTP routing, gRPC and Protobuf codecs, TLS and proxies, the Git, Redis and
-- PostgreSQL back ends' queries, the logins of the game client, the reload of its protocol, a stop of
-- the worker amid a pass, log lines, and the loading of configuration, which are input and output or calls of other
-- libraries.
pub mod Base
pub mod Error
pub mod SdkSession
pub mod Accounts
pub mod PathHealth
pub mod GameClient
pub mod Region
pub mod AssetOutbox
pub mod AssetJobs
pub mod Resources
pub mod AssetDispatch
pub mod Peer
pub mod NodeRouting
pub mod ResponseCache
pub mod ClientAuth
pub mod MasterAdmission
