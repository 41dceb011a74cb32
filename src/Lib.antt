-- ===== src/Lib.antt =====
-- PM-Chat: a messenger with end-to-end encryption. A server (apps/server, Express and Socket.IO over
-- MongoDB and Redis) relays ciphertext between clients (apps/web, Next.js). This library models the
-- logic of the server and of the client's chat, and states what they promise.
--
-- The parts and their files:
--   * Sockets: the handlers of Socket.IO events in apps/server/src/socket. Sockets/Send is
--     message:send, one function for each stretch from `await` to `await`, so that handlers take
--     turns (Sockets/Send/Replay); Sockets/Status is message:delivered, message:read, key:exchange
--     and the timers of burn-after-reading; Sockets/Rooms is socket/index.ts and
--     handlers/conversation.ts; Sockets/Presence is handlers/presence.ts. Sockets/Events has the
--     state that they share and what they emit.
--   * Auth: utils/jwt.ts, middleware/auth.ts, socket/guards.ts and routes/auth.ts: the two guards,
--     and the issue, rotation and revocation of tokens. Auth/Effects is what the routes write to
--     Redis, in any order in which they take turns.
--   * Agents: apps/server/src/agents. LinkGuard (links that share a conversation), SessionProtector
--     (at most three sessions for a user), ThreatIntelligence (scores and quarantine),
--     AnomalyDetector (rates of messages, devices and addresses), ContentIntegrity (the form of
--     ciphertexts and the reuse of IVs), CryptoWatchdog (the form of public keys and the rate of
--     their exchange), PhantomGuard (watermarks and the rate of decryptions) and BehaviorAnalyzer
--     (scores for bots). Each keeps its state in tables in memory. Registry is agents/index.ts, which
--     sums all of them up in a report and keeps the last 200 reported events. The share routes call
--     LinkGuard, and the routes of security call Registry; nothing calls the others.
--   * Share: routes/share.ts, which joins the Link Guard, the conversations and the tiers.
--   * Premium: premium/tiers.ts, premium/middleware.ts and routes/premium.ts.
--   * Routes: routes/messages.ts and routes/conversations.ts (pages by cursors are Routes/Paging, for
--     both), routes/attachments.ts, and routes/security.ts, which joins the registry and the tiers.
--   * Utils and Middleware: utils/securityMonitor.ts (which message:send, the socket limiter and the
--     guards report to), utils/errorTracker.ts, middleware/socketRateLimiter.ts, and the guards that
--     createApp.ts puts in front of all routes: Middleware/Guards is middleware/securityGuards.ts,
--     Middleware/InputGuard is middleware/inputGuard.ts.
--   * Server: startup.ts, the attempt to connect, as a relation of steps, and routes/health.ts with
--     middleware/errorHandler.ts.
--   * Client: Client/ChatStore is apps/web/src/lib/store/chatStore.ts, the state of the chat in the
--     browser, and Client/Socket is apps/web/src/hooks/useSocket.ts, which applies the events of the
--     server to it; Client/Socket/Sending joins it with message:send.
--   * Models: the documents of models/Message.ts and models/Conversation.ts. Schema: the Zod
--     combinators that the handlers parse their input with.
--   * Services: Redis and MongoDB as interfaces, with the laws that the code relies on. Redis keeps a
--     key until its time to live is over and evicts none before; each operation may fail instead.
--     Services/Rest has what the routes ask of MongoDB beyond that: sorted pages, and deletions.
--     Services/Memory has instances, on which the tests run.
--   * Base, Dict, NameSet, Texts, Json: lists, JavaScript's Map and Set with string keys, the values
--     that JSON.parse gives, and lemmas.
--
-- Conventions. A function that changes state takes it and returns it with the result, and takes the
-- reading of the clock, in milliseconds, as an argument. Clocks do not go back where a subtraction of
-- times would be negative; the statements say so where they need it. Times and counts are natural
-- numbers without a bound: the source's are doubles, exact up to 2^53. Digests, bcrypt, JSON Web
-- Tokens and random identifiers are parameters or arguments. Log lines are left out.
--
-- Ids. `new Types.ObjectId(text)` is a parameter, the function `object_id` of Services/Mongo, which
-- gives the id as MongoDB shows it. The handlers and routes convert the ids of a query where the
-- source does, or where Mongoose does it for them. Rooms and payloads have the ids as they were sent,
-- so that an id which is spelt otherwise, as in capital letters, names another room.
--
-- All recursion of the model is structural: the loops of the source run over lists, and need no
-- fuel. Only the client that follows the cursors of a route (Routes/Paging/Follow), which is not code
-- of the server, takes a number of requests, and one more than there are messages is enough.
--
-- Not modelled: the entry points and the configuration of the server, the job that deletes expired
-- conversations, the limiter, the stores but the chat's, the pages and the other hooks of the
-- client, and the firmware, which is C++ for a radio device and has no part in the messenger.
-- Floating point appears in the weights of ThreatIntelligence and in averages, rates and
-- coefficients of variation (for which Agents/Regularity compares squares), where the model
-- computes exactly, and in the entropy of ContentIntegrity, which is a parameter.
pub mod Base
pub mod Dict
pub mod Texts
pub mod NameSet
pub mod Schema
pub mod Json
pub mod Models
pub mod Services
pub mod Sockets
pub mod Agents
pub mod Utils
pub mod Middleware
pub mod Premium
pub mod Auth
pub mod Share
pub mod Routes
pub mod Server
pub mod Client
