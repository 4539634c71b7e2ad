-- ===== src/Lib.antt =====
-- Verification of the order core of kailo-be, the back end of a service that sells and buys an asset
-- on Stellar for Indonesian rupiah.
--
-- The program: the use cases of internal/usecase price, create and settle orders through the
-- repositories of internal/repository, whose transactions on PostgreSQL keep the orders, their event
-- log, the treasury with its reservations, and an outbox from which workers take jobs. The values
-- and the order aggregate stand in internal/entity.
--
--   Prelude      numbers, integers, lists, texts, times and errors that all parts share
--   Amount       internal/entity/amount.go, parseDecimalStroops of internal/usecase/offramp_usecase.go
--   Quote        internal/usecase/onramp_quote_usecase.go
--   Order        internal/entity/order.go, and the diagrams of documentations/backend
--   Store        the tables (internal/entity/*_model.go), transactions, and the statements on them;
--                Store.Triples and Store.Frames reason about transactions; Store.Retry is
--                internal/repository/tx.go
--   Principal    internal/usecase/order_principal.go, internal/repository/order_ownership.go
--   Financial    internal/usecase/financial_usecase.go, internal/repository/financial_repository.go
--   Events       the order events and webhook events of internal/repository/onramp_repository.go
--   Onramp       internal/repository/onramp_repository.go: creation, checkouts, payments, views;
--                Onramp.Create is Create of internal/usecase/onramp_usecase.go, and Onramp.Callbacks
--                is internal/usecase/onramp_callback_usecase.go
--   Request      orderRequestHash of internal/usecase/onramp_usecase.go
--   Offramp      internal/repository/offramp_repository.go, internal/usecase/offramp_usecase.go: creation,
--                with the use case in Offramp.Create;
--                Offramp.Deposits, Retirement, Outcomes and Payouts are its later steps, Offramp.Memo is
--                OfframpDepositMemo; Offramp.Scanner and RetireWorker are
--                internal/usecase/offramp_worker_usecase.go
--   Settlement   internal/repository/settlement_repository.go, internal/usecase/settlement_usecase.go
--   Treasury     the balance of the treasury as an invariant of these operations
--   Chronicle    the event log as the history of the orders, replayed through the aggregate
--   Delivery     ClassifyWebhookDelivery of internal/usecase/webhook_delivery_usecase.go;
--                Delivery.Attempts is internal/repository/webhook_delivery_repository.go
--   System       the operations in any order, and what they keep
--
-- A transaction is a function from the database to a result with the new database; an error drops
-- the changes. It is one step, because the code locks the rows that it reads. Random ids come from a
-- supply, `time.Now` and the clock are arguments, and the constraints of migrations/*.up.sql that the
-- code can meet are checked by the statements. GORM's First without an order is the first match where
-- a unique constraint leaves one at most. JSON columns hold the values that are encoded in them.
--
-- Bounds and fuel: int64 results wrap around (Prelude.Int); digits are made by as many rounds as the
-- number is large; handleSubmission and reconcile, which call each other, run on fuel 2, and
-- Settlement.Depth shows that this is enough; a transaction has the three attempts of tx.go.
--
-- Parameters: the reader of big.Rat.SetString with a positive denominator, the answers of the Stellar
-- networks during a turn of a worker, the payments that the watcher finds, the answers of the payment
-- gateway, of the price, KYC and treasury readers and of the validators, the SHA-256 digest, what
-- interrupts the attempts of a transaction, the decoder of an outbox payload, and the check on the
-- column asset_code.
--
-- Not modelled: HTTP handlers, gateway and Stellar adapters, configuration and start-up;
-- the HTTP call and the endpoints of webhook deliveries, the wallet protocols, accounts, keys and KYC.
pub mod Prelude
pub mod Amount
pub mod Quote
pub mod Order
pub mod Store
pub mod Principal
pub mod Financial
pub mod Events
pub mod Request
pub mod Onramp
pub mod Offramp
pub mod Settlement
pub mod Treasury
pub mod Chronicle
pub mod Delivery
pub mod System
