-- ===== src/Api.antt =====
-- api/internal/server: the HTTP server, which stores uploads, creates jobs and reports on them.
use transcodex.Base.Int.{ℤ}
use transcodex.Db.Schema.{Text}
pub mod Create
pub mod Enqueue
pub mod Upload
pub mod Steps
pub mod Form
pub mod Accepted
pub mod Reads
pub mod Stats
pub mod Pages
pub mod Ages
pub mod Totals
pub mod Load
pub mod Shown
pub mod Priority
pub mod Delivered
pub mod Limit
pub mod Stream
pub mod Events
pub mod Metrics
pub mod Scrape

-- The fields of `Config` that the handlers read.
pub record Config : Type 0 where
  pub upload_prefix : Text
  pub upload_size_limit : ℤ
  pub worker_max_retries : ℤ
