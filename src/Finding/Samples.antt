-- ===== src/Finding/Samples.antt =====
-- Findings for the runs of the other modules.
use plumbline.Finding.{Result, Severity, no_reason, Finding}
use plumbline.Base.{Str, codes, none, some, [], ◌∷◌, ◌++◌}

-- A finding with a result and a severity, about a subject of a check.
abbrev pub sample : Str → Str → Result → Severity → Finding
sample check_id subject result severity = record {
  check_id = check_id;
  check_module = codes "SSHD";
  title = codes "a check";
  result = result;
  unknown_reason = no_reason;
  severity = severity;
  base_severity = severity;
  detail = [];
  evidence = [];
  remediation = none;
  mappings = [];
  references = [];
  fingerprint = check_id ++ (b'/' ∷ subject);
  subject = subject;
  skipped_by = [];
  suppression = none;
}

-- The same finding after an operator accepted it.
abbrev pub accepted : Finding → Finding
accepted f = record f {
  result = Result.skipped;
  suppression =
      some (record { justification = codes "known"; expires_at = []; original_result = f.result });
}
