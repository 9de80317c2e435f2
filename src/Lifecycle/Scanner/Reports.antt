-- ===== src/Lifecycle/Scanner/Reports.antt =====
-- What the report of the scanner says.
use fileupload.World.Reads.{Reads}
use fileupload.Lifecycle.Scanner.Loops.{is_stored, is_off, is_unnamed, count_where}
use fileupload.Lifecycle.Scanner.{stray_parts, ScannerReport}
use fileupload.World.{World}
use fileupload.Base.{[], select, not, map, ℕ, List, Bytes}

abbrev pub orphan_paths : World → List Bytes
orphan_paths w = map (λ o. o.path) (select (is_unnamed w.db.files) w.disk)

abbrev pub lost_count : World → ℕ
lost_count w = count_where (λ b. not (is_stored w.disk b)) w.db.blobs

abbrev pub drift_count : World → ℕ
drift_count w = count_where (is_off w.db.files) w.db.blobs

abbrev report_of : ℕ → List Bytes → ℕ → ℕ → ScannerReport
report_of p o l d = record {
  orphan_parts = p;
  orphan_files = o;
  metadata_orphans = l;
  ref_count_fixes = d;
  corrupted_files = [];
}

-- the report on a state
abbrev pub report_on : World → ScannerReport
report_on w = report_of (stray_parts w.temp) (orphan_paths w) (lost_count w) (drift_count w)
