-- ===== src/Lib.antt =====
-- Cryptokorr: the chain adapter (chain_adapter/src), the TypeScript service that turns the control
-- plane's dispatches into ERC-4337 v0.7 UserOperations on Base, and reports back by callbacks; and the
-- TypeScript SDK (sdks/typescript/src), the client of the control plane's HTTP interface.
--
-- The parts of the chain adapter, and the files that model them:
--   Errors                 lib/errors.ts: error classes, with code and HTTP status.
--   Config.Chains, Assets  config/chains.ts and assets.ts: allowlists, decimals, `parseAmount`.
--   Config.Operator        config/index.ts: `readOperatorSigner`.
--   Config.Loading         config/index.ts: `loadConfig`, over an environment that is a function.
--   Contracts              contracts/schemas.ts: dispatches, permission block, callbacks, and what
--                          each zod schema lets through. A dispatch record holds the fields of the
--                          body; a body without that structure is `none`.
--   Effect                 the world of an async function: the callback counter, and the log of
--                          what left the process, newest first. `Action` is the monad of promises
--                          that may be rejected, `call_out` a logged call.
--   Trace                  a program logic over the log: runs of a step relation, and a rule for
--                          each way of building an action. The protocols below are instances:
--                          Trace.Attempts has the rules for what a step of a protocol may attempt,
--                          Trace.Signing those for signing, which every path shares, and
--                          Trace.Acknowledged what a posted callback comes to.
--   Callbacks              callbacks/client.ts: `nextCallbackId` and `send`.
--   UserOp                 chains/base/userop.ts: calldata builders, `buildAndSignUserOp`.
--   Execution.Pipeline     what chains/base/transfer.ts, swap.ts and morpho_deposit.ts share
--                          statement for statement: build, submit, compare hashes, announce, wait,
--                          report. `Plan` holds that in which the three differ; Execution.Transfer, Swap and
--                          Morpho fill it in, with the checks that precede it.
--   Execution.Protocol     the contract of one execution, as a step relation on its events.
--   Dispatch.*             dispatch/transfer.ts, swap.ts and morpho_deposit.ts: the handlers.
--   Dispatch.InFlight      dispatch/revoke.ts and grant.ts: the handlers that start a task, with the
--                          set of accounts in flight.
--   Auth                   app.ts: the bearer check before every dispatch.
--   App                    app.ts: the hook, the routes and the error handler, over the handlers; a body
--                          that Fastify cannot read goes to the error handler at once.
--   Server                 server.ts, with the checks of chains/base/client.ts: what `main` does
--                          before it listens.
--   Install.Portion        install/session_signer.ts: the adapter's signature for an install.
--   Revoke                 chains/base/revoke.ts: `executeRevoke`, its sentinel and cryptographic paths
--                          (Sentinel, Cryptographic), the guards of uninstall_validation.ts with the
--                          pin of permission_validator.ts (Guards), and the protocols of the two
--                          paths (Protocol, Sentinel.Protocol).
--   Grant                  chains/base/grant.ts: `executeGrant`, its protocol, and `redactGrantError`
--                          (Redaction).
--   Common                 Texts, Replace and Integers stand for the methods of JavaScript's strings
--                          and for `parseInt`.
--
-- The parts of the SDK, each after the file of its name:
--   TsSdk.Case             case.ts: keys, and whole JSON values.
--   TsSdk.Errors           errors.ts: the class hierarchy, `classifyError` and `decodeError`.
--   TsSdk.Redaction        redaction.ts: what is blanked out of messages and headers.
--   TsSdk.Config           config.ts: `resolveConfig` and `readConfigFromEnv`.
--   TsSdk.Wire, Transport  transport.ts: URL, headers and envelope of a request, and its retry loop.
--   TsSdk.Client           client.ts and operator.ts: the request of each method, and the polling of
--                          `waitForDecision`.
--
--   Tests                  concrete dispatches and a concrete outside, on which all this is run.
--
-- Text is a list of character codes. Everything outside the adapter's code is a field of `Env`:
-- zod's uuid and datetime formats, viem's ABI encoders and canonical hash, `Date.parse`, the clock,
-- the RPC node, the signer, the bundler and the control plane's HTTP endpoint; the ZeroDev SDK is
-- `Sdk`, and the functions on keys of the configuration are `Keys`. For the SDK it is what
-- its modules take: fetch, the clock, JSON and URLSearchParams. Each effect is answered in the
-- light of the whole log, by a value or a rejection, so a theorem holds for every behaviour of
-- them; what the start of the server meets is `Host`. No hypothesis is made on them but that an awaited
-- promise settles; for the bearer check, that no other text has the SHA-256 hash of the secret; and, for
-- the ends of the SDK's loops, that a round takes time. A zod schema is taken to be a test, and the
-- fields that no modelled code reads (`scope`) are left out. viem's hash of a UserOperation and
-- `getPluginSerializationParams` are taken not to throw.
--
-- bigints are natural numbers, as no value is ever negative. `to_string` divides on fuel; one more
-- than the number is enough, since every round divides it by two at least. The retry loop of the
-- SDK's transport and the polling of `waitForDecision` take as fuel the rounds that may still be
-- made: they go on only before a deadline, so if every round takes at least a gap of time, one round
-- more than the gaps before the deadline is enough. Nothing else needs fuel. `toUpperCase` and
-- `toLowerCase` are modelled on ASCII; milliseconds are whole, and `parseInt` is exact.
--
-- Not modelled: the log output, and the construction of viem's clients, which are I/O; the ERC-7579
-- encoding, which only calls viem; the operator's scripts; the Python SDK and the MCP server; the
-- hooks of the web assets; and the control plane, which is written in Elixir.
mod Common
pub mod Trace
pub mod Errors
pub mod Config
pub mod Contracts
pub mod Effect
pub mod Callbacks
pub mod UserOp
pub mod Execution
pub mod Dispatch
pub mod Revoke
pub mod Grant
pub mod Auth
pub mod Install
pub mod App
pub mod Server
pub mod TsSdk
mod Tests
