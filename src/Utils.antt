-- ===== src/Utils.antt =====
-- src/utils/helpers.ts and src/pipe: formatting, retries, and the transformations of query values.
pub mod Format
pub mod Retry
pub mod ParseInt
pub mod Transform
pub mod Pagination
pub mod CommasLaws
pub mod DecimalLaws
pub mod Handler
pub mod HandlerLaws
pub mod RetryLaws
pub mod TransformLaws
pub mod PaginationLaws
