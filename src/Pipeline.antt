-- ===== src/Pipeline.antt =====
-- The pipeline behind the intake, services/orchestrator and libs/drcommon: the lifecycle of an order, the
-- client of the downstream services with its circuit breaker, the tables and the outbox, the broker's
-- queues, and the orchestrator's handlers.
mod States
mod Models
mod Store
mod Breaker
mod Client
mod Broker
mod Relay
mod Orchestrator
mod System
