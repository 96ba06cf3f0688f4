-- ===== src/Sync/Ledger/Disk/Tests.antt =====
-- A ledger file of an older version.
use codealmanac.Prelude.{ℕ, true, ◌≡◌, refl, some, none, [], ◌∷◌, Text, codes}
use codealmanac.Sync.Ledger.{claude, LedgerStatus, SyncLedger}
use codealmanac.Sync.Ledger.Disk.{
  other, text, number, RawFields, no_object, fields, mapping, Document, document, normalize_ledger,
  dump_ledger,
}
use codealmanac.Sync.Ledger.Disk.RoundTrip.{normalize_ledger-dump_ledger}

abbrev captured : RawFields
captured = record {
  app = text (codes "claude");
  session_id = text (codes "s1");
  transcript_path = text (codes "/t/s1.jsonl");
  status = text (codes "done");
  last_absorbed_size = other;
  last_absorbed_line = other;
  last_absorbed_prefix_hash = other;
  last_absorbed_at = other;
  last_job_id = text [];
  pending_to_size = other;
  pending_to_line = other;
  pending_prefix_hash = other;
  pending_job_id = other;
  pending_started_at = other;
  last_error = other;
  last_captured_size = number 40;
  last_captured_line = number 2;
  last_captured_prefix_hash = text (codes "sha256:00");
  last_captured_at = text (codes "2026-05-01");
  pending_run_id = other;
}

abbrev old_file : Document
old_file =
    document true (text (codes "yesterday"))
      (mapping ((codes "claude:/t/s1.jsonl", fields captured) ∷ (codes "x", no_object) ∷ []))

abbrev old_ledger : SyncLedger
old_ledger = record {
  updated_at = codes "yesterday";
  sessions =
      (
        codes "claude:/t/s1.jsonl",
        record {
          app = claude;
          session_id = codes "s1";
          transcript_path = codes "/t/s1.jsonl";
          status = LedgerStatus.done;
          last_absorbed_size = 40;
          last_absorbed_line = 2;
          last_absorbed_prefix_hash = codes "sha256:00";
          last_absorbed_at = some (codes "2026-05-01");
          last_job_id = none;
          pending_to_size = none;
          pending_to_line = none;
          pending_prefix_hash = none;
          pending_job_id = none;
          pending_started_at = none;
          last_error = none;
        },
      )
      ∷ [];
}

old_file_is_read : normalize_ledger old_file ≡ some old_ledger
unfolding normalize_ledger codealmanac.Prelude.same
old_file_is_read = refl

normalize_ledger-dump_ledger_example :
    normalize_ledger (dump_ledger old_ledger (codes "2026-05-02"))
    ≡ some (record old_ledger { updated_at = codes "2026-05-02" })
normalize_ledger-dump_ledger_example =
    normalize_ledger-dump_ledger old_file old_ledger (codes "2026-05-02") old_file_is_read
