-- ===== src/Finding/Tests.antt =====
-- Runs of internal/finding/finding.go.
use plumbline.Finding.Fingerprint.{
  fingerprint, fingerprint_pattern-fingerprint, fingerprint_pattern,
}
use plumbline.Base.{codes, ◌≡◌, true, []}

fingerprint_pattern-fingerprint_example :
    fingerprint_pattern (fingerprint (codes "SSHD-0002") []) ≡ true
fingerprint_pattern-fingerprint_example = fingerprint_pattern-fingerprint (codes "SSHD-0002") []
