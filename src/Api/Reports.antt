-- ===== src/Api/Reports.antt =====
-- app/modules/reports/report_router.py, which app/api/v1/router.py does not include.
use green_communuty_backend.Prelude.{ℕ}
use green_communuty_backend.Core.Action.{◌>>=◌, ◌>>◌, pure}
use green_communuty_backend.Core.Site.{in_session}
use green_communuty_backend.Core.Pagination.{PageParams, PageResponse}
use green_communuty_backend.Models.{User, Report}
use green_communuty_backend.Reports.Service as ReportService
use green_communuty_backend.Reports.Service.{ReportCreateRequest, ReportProcessRequest}
use green_communuty_backend.Api.Platform.{Platform, Handler}

pub data ReportCall : Type 0 where
  list_reports : PageParams → ReportCall
  add_report : ReportCreateRequest → ReportCall
  process_report : ℕ → ReportProcessRequest → ReportCall

pub data ReportReply : Type 0 where
  page : PageResponse Report → ReportReply
  one : Report → ReportReply
  no_content : ReportReply

module _ (P : Platform) where
  unfoldable pub handle_list_reports : PageParams → Handler P ReportReply
  handle_list_reports params = do
    found ← in_session P.engine P.redis P.storage (ReportService.list_reports P.engine params)
    pure (ReportReply.page found)

  unfoldable pub handle_add_report : ℕ → User → ReportCreateRequest → Handler P ReportReply
  handle_add_report now current request = do
    report ←
        in_session P.engine P.redis P.storage
          (ReportService.add_report P.engine now request current)
    pure (ReportReply.one report)

  unfoldable pub handle_process_report : ℕ → ℕ → User → ReportProcessRequest → Handler P ReportReply
  handle_process_report now id current request = do
    in_session P.engine P.redis P.storage
        (ReportService.process_report P.engine now id current.user_id request)
    pure ReportReply.no_content

  unfoldable pub reports_router : ℕ → User → ReportCall → Handler P ReportReply
  reports_router now current (ReportCall.list_reports params) = handle_list_reports params
  reports_router now current (ReportCall.add_report request) = handle_add_report now current request
  reports_router now current (ReportCall.process_report id request) =
      handle_process_report now id current request
