-- ===== src/Pm/Tests.antt =====
-- The theorems on the platform's copies at concrete requests, pages and payloads.
use agentic_dev_ops.Prelude.{
  ℕ, zero, suc, ◌≤◌, ◌<◌, ◌≡◌, refl, inr, true, Option, none, some, List, [], ◌∷◌, String, length,
  concat,
}
use agentic_dev_ops.Prelude.Int.{pos}
use agentic_dev_ops.Prelude.Text.{Text, codes}
use agentic_dev_ops.Pm.Client.{
  PmError, Result, ok, raised, Reply, timeout, response, verdict_of, request, Page, PageParams,
  by_page, by_cursor, get_paginated,
}
use agentic_dev_ops.Pm.Client.Retries.{final_result, request_lem}
use agentic_dev_ops.Pm.Client.Pages.{get_paginated-Serves, get_paginated_diverges}
use agentic_dev_ops.Pm.Tables.{IssueFields, Issue, Tables, issue_by_pm_id, upsert_issue_row}
use agentic_dev_ops.Pm.Tables.Keys.{upsert_issue_row-reads_back}
use agentic_dev_ops.Pm.Mapper.{Payloads}
use agentic_dev_ops.Pm.Sync.{
  Fetched, fetch_failed, run_full_sync, full_step, users_step, run_incremental_sync,
  incremental_step,
}
use agentic_dev_ops.Pm.Sync.Cursors.{run_full_sync-failed, run_incremental_sync-failed}

abbrev no_jitter : ℕ → ℕ
no_jitter n = 0

-- A timeout, then an answer.
abbrev slow : ℕ → Reply String
slow zero = timeout
slow (suc n) = response 200 none "done"

request_lem_example :
    ((k : ℕ) (r : Result String)
      → k ≤ 3
      → ((j : ℕ) → j < k → final_result (verdict_of (slow j)) ≡ none)
      → final_result (verdict_of (slow k)) ≡ some r
      → ((request 500 no_jitter slow 3).0 ≡ r) × (length (request 500 no_jitter slow 3).1 ≡ k))
    × (((j : ℕ) → j ≤ 3 → final_result (verdict_of (slow j)) ≡ none)
        → (e : PmError) × ((request 500 no_jitter slow 3).0 ≡ raised e)
          × (length (request 500 no_jitter slow 3).1 ≡ 3))
request_lem_example = request_lem 500 no_jitter slow 3

abbrev last_page : Page ℕ
last_page = record { items = 3 ∷ []; next_cursor = none; total = none }

abbrev two_pages : PageParams → Result (Option (Page ℕ))
two_pages (by_page page page_size) =
    ok (some (record { items = 1 ∷ 2 ∷ []; next_cursor = some (codes "c"); total = none }))
two_pages (by_cursor c) = ok (some last_page)

get_paginated-Serves_example :
    get_paginated 50 two_pages 2 ≡ some (ok (concat ((1 ∷ 2 ∷ []) ∷ (3 ∷ []) ∷ [])))
get_paginated-Serves_example =
    get_paginated-Serves 50 two_pages (1 ∷ 2 ∷ []) ((3 ∷ []) ∷ []) (inr (99, [], none, refl, refl))

abbrev empty_pages : PageParams → Result (Option (Page ℕ))
empty_pages params = ok (some (record { items = []; next_cursor = none; total = some (pos 5) }))

get_paginated_diverges_example : get_paginated 50 empty_pages 1000 ≡ none
get_paginated_diverges_example = get_paginated_diverges 50 empty_pages 4 (λ n. refl) 1000

abbrev no_tables : Tables ℕ
no_tables = record {
  iterations = [];
  issues = [];
  assignments = [];
  identities = [];
  cursors = [];
  next_uuid = 0;
}

abbrev bug : IssueFields ℕ
bug = record {
  pm_issue_id = codes "17";
  issue_key = codes "WMS-17";
  title = codes "crash";
  issue_type = codes "bug";
  priority = codes "high";
  status = codes "open";
  estimate_hours = some 4;
  iteration_id = none;
  pm_created_at = none;
  pm_updated_at = some 5;
}

upsert_issue_row-reads_back_example :
    (row : Issue ℕ) × (issue_by_pm_id ℕ (codes "17") (upsert_issue_row ℕ 9 bug no_tables)
      ≡ some row)
    × (row.fields ≡ bug)
    × (row.last_synced_at ≡ 9)
upsert_issue_row-reads_back_example = upsert_issue_row-reads_back ℕ 9 bug no_tables

abbrev payloads : Payloads ℕ
payloads = record {
  Payload = ℕ;
  has_field = λ f p. true;
  iteration_dto = λ p. none;
  issue_dto = λ p. none;
  assignment_dto = λ p. none;
}

abbrev down : Text → Fetched ℕ payloads 9
down path = fetch_failed (codes "PMServerError")

run_full_sync-failed_example : (run_full_sync ℕ payloads 9 down no_tables).tables.cursors ≡ []
run_full_sync-failed_example =
    run_full_sync-failed ℕ payloads 9 down no_tables (codes "PMServerError")
      (unfold run_full_sync full_step users_step in refl)

abbrev down_after : Text → Option Text → Fetched ℕ payloads 9
down_after path cursor = fetch_failed (codes "PMServerError")

abbrev newest : List ℕ → Text
newest items = codes "2026-01-01"

run_incremental_sync-failed_example :
    (run_incremental_sync ℕ payloads 9 newest down_after no_tables).tables.cursors ≡ []
run_incremental_sync-failed_example =
    run_incremental_sync-failed ℕ payloads 9 newest down_after no_tables (codes "PMServerError")
      (unfold run_incremental_sync incremental_step in refl)
