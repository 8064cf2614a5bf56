-- ===== src/Store.antt =====
-- The database of the backend: one record of tables, whose rows are those of
-- backend/internal/store/sqlc/models.go. The statements on a table stand with the component that
-- issues them. uuids, times (in nanoseconds) and amounts in minor units are numbers; a null is `none`.
mod Outbox
mod Commerce
mod Subscriptions
mod Operations
mod Nodes
mod Instances
pub use Outbox.*
pub use Commerce.*
pub use Subscriptions.*
pub use Operations.*
pub use Nodes.*
pub use Instances.{DesiredState, ObservedState, Instance, Notification}
use vps_billing_codex.Shared.{List, []}

-- A table of the schema for each field; only the tables that the modelled components use.
pub record Database : Type 0 where
  pub products : List Product
  pub plans : List Plan
  pub subscriptions : List Subscription
  pub outbox : List OutboxEvent
  pub orders : List Order
  pub payments : List Payment
  pub order_items : List OrderItem
  pub invoices : List Invoice
  pub invoice_items : List InvoiceItem
  pub wallets : List Wallet
  pub receipts : List WebhookReceipt
  pub ledger_transactions : List LedgerTransaction
  pub ledger_entries : List LedgerEntry
  pub operations : List Operation
  pub operation_steps : List OperationStep
  pub providers : List Provider
  pub node_groups : List NodeGroup
  pub nodes : List Node
  pub reservations : List Reservation
  pub instances : List Instance
  pub notifications : List Notification

abbrev pub empty_database : Database
empty_database = record {
  products = [];
  plans = [];
  subscriptions = [];
  outbox = [];
  orders = [];
  payments = [];
  order_items = [];
  invoices = [];
  invoice_items = [];
  wallets = [];
  receipts = [];
  ledger_transactions = [];
  ledger_entries = [];
  operations = [];
  operation_steps = [];
  providers = [];
  node_groups = [];
  nodes = [];
  reservations = [];
  instances = [];
  notifications = [];
}
