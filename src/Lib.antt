-- ===== src/Lib.antt =====
-- LiteLLM Relay: a model of the parts of the daemon that decide who may act through it, and theorems on them.
--
-- The program. Relay is a daemon on a developer's device. Clients reach it over Unix sockets: one socket
-- hands out Gateway credentials to processes that pass a code-signing check (src/broker), another serves the
-- tools of the Gateway's MCP servers (src/mcp). `relay mcp` (src/mcp/stdio.rs) is the MCP server that an AI
-- client starts; it relays each call to the daemon's socket and carries the daemon's questions to the user.
-- In the daemon, `McpService` (src/mcp/service.rs) admits the peer through the broker, keeps one session with
-- its catalog of tools (src/mcp/catalog.rs) and activated servers, asks the user before a tool that is not
-- known to read only (src/mcp/verdict.rs) and bounds the calls that run at once (`CallSlots`). The identity
-- token that the onboarded tools share is renewed by src/ai_tools/token.rs, and src/ai_tools/gateway_credential.rs
-- exchanges it for a Gateway credential. The broker (src/broker/mod.rs) holds such a credential and a
-- short-lived key minted with it for the Gateway, the team and the identity provider of the configuration
-- (src/config.rs), follows changes of the file, and switches the team or the environment on request.
--
-- The files.
--   Common: tests on numbers, equality as derive(PartialEq) gives it, lists, sorted maps and sets, text.
--   Json: serde_json::Value and its equality (Json.Same).
--   Mcp.Verdict: src/mcp/verdict.rs. Words is split_words and its callers, Vocabulary the two word lists.
--   Mcp.Catalog: src/mcp/catalog.rs. BTreeMap is a list that is sorted by its keys.
--   Mcp.Slots: CallSlots of src/mcp/service.rs, over the documented behaviour of tokio's Semaphore.
--     The drop of a slot is two steps: the permit goes back after the ledger is unlocked.
--   Mcp.Service: the rest of src/mcp/service.rs. Types has its data and what it reads of src/broker and
--     src/config.rs; Host what it calls, and its actions; Session the methods on the state (admission,
--     reload_settings, adopt, fetch_catalog, require_same_session, check_session); Tools search, describe,
--     call and activate; Switching the switches; Requests `handle`. Calls, Switches, Acts, Frame and
--     Coherence prove.
--   Mcp.Stdio: src/mcp/stdio.rs. Types has its data, Relay the methods of Conversation and RelayServer.
--   Broker.Caller: src/broker/caller.rs.
--   Broker: src/broker/mod.rs and src/broker/session.rs. Types has the data, with that of src/broker/key.rs,
--     Target and GatewayPatch; Host what is called and what runs beside; Hold take_gateway_hold, forget and
--     apply_saved_settings; Bearers session_credential and key_or_credential; Issue `issue` and `tick`; Serve
--     the requests for a bearer, signing in and out and the status; Switch the switches and `handle`;
--     Session the bearer for the MCP service; Key src/broker/key.rs. Held and the modules below it prove.
--   Config: src/config.rs. Settings has the sections, Environments the addresses and the managed team,
--     Carrying what an installation carries over; Trimming, Moving and Picks prove.
--   AiTools.Idp: IdpSection of src/config.rs and the claims of a token in src/ai_tools/idp.rs.
--   AiTools.Token: src/ai_tools/token.rs.
--   AiTools.Credential: src/ai_tools/gateway_credential.rs. Types, Resolve, Store and Wire have its data, the
--     renewal, the cache and the Gateway's replies; Fresh, Issuing, Resolved, Keeping, Upsert and Replies
--     prove.
--   A module Tests runs the code of its component on concrete inputs.
--
-- State and effects. A method of the service is a function from its environment, the State under the mutex,
-- the outside world and a record of events, to a result and the environment after it. The outside world is
-- abstract: the record Host holds one function for each operation of the broker, the settings, the clock,
-- the Gateway, the user and the switcher, and one more, `meanwhile`, for what the other tasks do to the
-- state while a method waits. The events say what a method did beyond the daemon, the latest first; they are
-- of the model. src/mcp/stdio.rs and src/ai_tools/token.rs are modelled in the same way.
-- src/ai_tools/gateway_credential.rs and src/broker are functions from a state to a result and a state
-- (Common.Action), what was written staying written on a failure. The state of the broker is its target, its
-- State and the outside world. `Reply::Refused` is the failure of a request. Other threads of the broker are
-- arbitrary steps on all of it wherever the code waits for a lock or reads without one; while a thread holds
-- the renewal lock they write what the code writes without that lock: the last source, the count of refused
-- callers and the proxy token. Where the code reads a page that another thread opened, the state read is
-- arbitrary, so `pending_sign_in_page` is only cleared here.
--
-- Parameters. The Unicode tables of `char` (CharClasses), the permit bound of tokio's semaphore, the process
-- table with its code-signing check, the identity provider, the cache file and its lock, serde_json's and
-- base64's decoding, the fresh request states, the url crate, the authorization server and the key routes of
-- the Gateway and the config file are arbitrary functions. The theorems on the held catalog, the held key and
-- the held credential assume of them that the other tasks keep what they keep, and the one on the endpoints
-- of the Gateway that a new path or query leaves the origin of a URL. The daemon at the
-- other end of a connection is a tree of what it says for each answer, so that it asks finitely often and `converse` is structural recursion. There is no fuel anywhere.
--
-- Bounds. Times are whole seconds since the epoch, as natural numbers, where the source has i64: a clock or
-- an expiry before the epoch and an overflow of i64 are not modelled. usize is a natural number; the counts
-- here are of tools, permits and characters. An object of JSON is the list of its fields in the order of
-- their keys, and a number is the text of it.
--
-- Left out because it cannot happen: the refusal of a call whose wait for a slot fails, since nothing closes
-- the semaphore.
--
-- Not modelled: the wording of messages, questions and log lines, McpService::status, the tool schemas of
-- `relay mcp`, the failure of a blocking task, timers (an elapsed timeout is a result that an operation may
-- have), the sockets of the broker, parsing and saving the configuration, the proxy, the onboarding of tools,
-- the account summary, the command line, the dashboard and the macOS app.
pub mod Common
pub mod Json
pub mod AiTools
pub mod Broker
pub mod Config
pub mod Mcp
