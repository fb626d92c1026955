-- ===== src/EventLogs.antt =====
-- src/modules/event-logs: the scan of the contract's events and the jobs that it queues.
pub mod Parse
pub mod Scan
pub mod Consumer
pub mod Queries
pub mod Totals
pub mod ParseLaws
pub mod ValueLaws
pub mod OnceLaws
pub mod Workers
pub mod WorkerLaws
pub mod QueueLaws
pub mod DeliveryLaws
pub mod ScanLaws
pub mod RoundLaws
pub mod ConsumerLaws
pub mod DecodedLaws
pub mod JobLaws
pub mod CursorStore
pub mod CursorLaws
pub mod ExactLaws
