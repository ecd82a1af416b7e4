-- ===== src/Reporting/Tests.antt =====
-- The report of one run.
use agentic_dev_ops.Prelude.{◌≡◌, true, none, Option}
use agentic_dev_ops.Prelude.Text.{Text, codes}
use agentic_dev_ops.Reporting.Service.{Content, generate_report}
use agentic_dev_ops.Reporting.Service.Atomic.{Reported, generate_report-Reported}
use agentic_dev_ops.Db.Session.{Ends}
use agentic_dev_ops.Db.Tests.{env, database}

abbrev render : Content → Text
render content = content.repository_full_name

abbrev writes : Text → Text → Option Text
writes path text = none

generate_report-Reported_example :
    Ends
      (λ report t.
        Reported render (codes "/reports") writes (λ x. true) 3 (database "scored") report t.saved)
      (λ e t. t.saved ≡ database "scored")
      (generate_report render
        (codes "/reports")
        writes
        (λ x. true)
        3
        (env.sessions.begin (database "scored")))
generate_report-Reported_example =
    generate_report-Reported render (codes "/reports") writes (λ x. true) 3
      (env.sessions.begin (database "scored"))
