-- ===== src/Lib.antt =====
-- AIPX is a trading platform of several services. This library models the core of its Go services.
--
-- Oms follows services/order-management-service/internal, through which an order goes from a request
-- to the broker. Oms.Handler (grpc/handler.go: processOrder) checks a request and asks Oms.Limiter
-- (ratelimit/limiter.go: Allow), Oms.Risk (risk/engine.go: Validate, with the rules of risk/rules.go)
-- and Oms.Executor (broker/order_executor.go: Execute, Cancel) in turn. The executor stores the order
-- by Oms.Repository (repository/order_repo.go, and the checks and triggers of
-- migrations/001_orders.sql), sends it by Oms.Broker (broker/kis_client.go: SubmitOrder) and
-- publishes events. Each Go method is the function of the same name in snake_case; its state goes in
-- and comes out: the buckets and keys in Redis are dictionaries, the tables of PostgreSQL a record Db,
-- what reaches the broker, Kafka and the client a list of it. What an outside system answers is an
-- argument (DbEnv, RiskEnv, ExecuteEnv, Outcome, ...), so that every failure is a branch.
--
-- Recorder.Buffer follows services/data-recorder-service/internal/buffer/batch_buffer.go. Its
-- operations are functions on BatchBuffer; Recorder.Buffer.Steps has the goroutines (the callers of
-- Add, Flush and Stop, and the loop of Start) as a step relation with the orders in which they can
-- come to lie.
--
-- User follows services/user-service/internal: User.Accounts (repository/user_repo.go), User.Tokens
-- (repository/token_repo.go) and User.Auth (handlers/auth_handler.go: Login, Refresh, Logout, with the
-- claims of auth/jwt.go; Signup is User.Auth.Signup, and the test of a password User.Password).
-- The digest, the hash and the check of a password and the random token are parameters.
-- User.Lockout is the limiter in middleware/rate_limiter.go (AuthRateLimiter, in memory).
-- User.Rows has the statements of SQL on the rows of a table.
--
-- Oms.Interceptor follows services/order-management-service/internal/grpc/interceptors/auth.go: the
-- validation of a token (validateToken, Unary, Stream), with jwt.Parse as an argument; the revoked
-- tokens (RevokeToken, cleanupExpiredTokens) are Oms.Interceptor.Revocations. Oms.Server has the
-- chain that server.go builds of the interceptors of internal/grpc/interceptors.go, and StreamOrders
-- of handler.go, whose requests go on to Oms.Handler.
--
-- Ingestion follows services/data-ingestion-service: Ingestion.Parser has internal/kis/message_parser.go
-- (Parse, ValidateTickData, ValidateOrderBook) and handleMessage of cmd/server/main.go, and
-- Ingestion.Client has internal/kis/client.go, its goroutines as a step relation. What it publishes
-- goes over Kafka to Recorder.Consumer (services/data-recorder-service/internal/consumer/market_consumer.go:
-- handleMessage), which fills a Recorder.Buffer, and from there to Recorder.Writer
-- (internal/writer/timescale_writer.go: WriteMessages). Shared.MarketData has the messages of
-- shared/proto/market_data.proto. The words of Kafka and of the database are arguments.
--
-- Notification.Consumer follows services/notification-service/internal/consumer/notification_consumer.go
-- (handleMessage): an event goes to the channels that its user has chosen, each of which is tried
-- several times, and into the history. Notification.Manager (internal/channels/manager.go) routes by
-- rules and sends over several channels at once; Notification.Manager.Sends has its goroutines as a
-- step relation of their atomic actions. Notification.Slack, Notification.Telegram and
-- Notification.Email are the channels of the same names; their common loop is Notification.Retry,
-- which is a recursion on the rounds that the source allows, and what they read and print
-- alike is Notification.Format.
--
-- Notification.Ip and Notification.UrlValidator follow internal/security/url_validator.go: Notification.Ip
-- has the blocked ranges (validateIP), Notification.UrlValidator the tests of a URL (Validate) with
-- the cache of resolved names; url.Parse, ToLower, ParseIP and the resolver are parameters.
--
-- Shared.Lock follows shared/go/pkg/redis/lock.go (Lock): its scripts on a dictionary of keys with their
-- ends, and, in Shared.Lock.Exclusion, sequences of operations of several locks.
--
-- Prelude has the shared names, tests, lemmas, integers and dictionaries. Float is an interface for
-- float64: the theorems hold for every implementation of it.
--
-- Times are Unix nanoseconds as natural numbers, in Shared.Lock milliseconds. The retries of
-- SubmitOrder are the number of rounds that the source allows, and the loop is a recursion on it.
-- Counters are unbounded. The doubles of the limiter's Lua script are read as exact numbers. JSON, HTTP, signing, the circuit breaker, logs
-- and the waits between retries are left out, as are the other services, which are listed with their
-- reasons in the project's manifest.
pub mod Float
pub mod Ingestion
pub mod Notification
pub mod Oms
pub mod Prelude
pub mod Recorder
pub mod Shared
pub mod User
