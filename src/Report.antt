-- ===== src/Report.antt =====
-- What a worker leaves to be seen of one message: the status code and description of its span, the
-- span's attribute `rejection_kind`, and the text of its last log line.
use devflow_pipeline.Prelude.{String, Option}

-- `codes.Code` of OpenTelemetry; a span that sets no status has `status_unset`.
pub data Code : Type 0 where
  status_unset status_error status_ok : Code

pub record Report : Type 0 where
  pub status : Code
  pub description : String
  pub rejection_kind : Option String
  pub log : String

abbrev pub report : Code → String → Option String → String → Report
report status description rejection_kind log = record {
  status = status;
  description = description;
  rejection_kind = rejection_kind;
  log = log;
}
