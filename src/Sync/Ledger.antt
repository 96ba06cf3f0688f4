-- ===== src/Sync/Ledger.antt =====
-- The ledger of absorbed transcripts (sync/ledger.ts, sync/discovery/types.ts).
pub mod Reconcile
pub mod Disk
use codealmanac.Prelude.{
  ℕ, zero, suc, ◌+◌, Bool, true, false, ◌&&◌, ◌||◌, Option, none, some, List, [], ◌∷◌, ◌++◌, length,
  take, Text, same, codes, leb, ltb, ◌==◌, if◌then◌else◌, or_else, or_next, drop_end,
}
use codealmanac.Sync.Utf8.{byte_length, decode_utf8}

pub data SweepApp : Type 0 where
  claude codex : SweepApp

pub record SessionCandidate : Type 0 where
  pub app : SweepApp
  pub session_id : Text
  pub transcript_path : Text
  pub cwd : Text
  pub repo_root : Text
  pub mtime_ms : ℕ
  pub size_bytes : ℕ

pub data LedgerStatus : Type 0 where
  done pending failed needs_attention : LedgerStatus

-- An absent field is `none`. The times are the strings that `toISOString` makes.
pub record LedgerEntry : Type 0 where
  pub app : SweepApp
  pub session_id : Text
  pub transcript_path : Text
  pub status : LedgerStatus
  pub last_absorbed_size : ℕ
  pub last_absorbed_line : ℕ
  pub last_absorbed_prefix_hash : Text
  pub last_absorbed_at : Option Text
  pub last_job_id : Option Text
  pub pending_to_size : Option ℕ
  pub pending_to_line : Option ℕ
  pub pending_prefix_hash : Option Text
  pub pending_job_id : Option Text
  pub pending_started_at : Option Text
  pub last_error : Option Text

-- `sessions`, in insertion order.
abbrev pub Sessions : Type 0
Sessions = List (Text × LedgerEntry)

pub record SyncLedger : Type 0 where
  pub updated_at : Text
  pub sessions : Sessions

pub record SyncCursor : Type 0 where
  pub size : ℕ
  pub line : ℕ
  pub prefix_hash : Text

abbrev pub app_name : SweepApp → Text
app_name claude = codes "claude"
app_name codex = codes "codex"

-- `${candidate.app}:${candidate.transcriptPath}`
unfoldable pub ledger_key : SweepApp → Text → Text
ledger_key app path = app_name app ++ (b':' ∷ path)

abbrev pub newline : ℕ
newline = 10

abbrev pub count_newlines : List ℕ → ℕ
count_newlines [] = 0
count_newlines (c ∷ s) = if c == newline then suc (count_newlines s) else count_newlines s

abbrev pub ends_with_newline : List ℕ → Bool
ends_with_newline [] = false
ends_with_newline (c ∷ []) = c == newline
ends_with_newline (c ∷ d ∷ s) = ends_with_newline (d ∷ s)

-- A transcript is its bytes; a newline is one byte in UTF-8.
unfoldable pub count_lines : List ℕ → ℕ
count_lines [] = 0
count_lines (c ∷ s) = count_newlines (c ∷ s) + (if ends_with_newline (c ∷ s) then 0 else 1)

abbrev pub push_line : ℕ → List (List ℕ) → List (List ℕ)
push_line c [] = (c ∷ []) ∷ []
push_line c (l ∷ ls) = (c ∷ l) ∷ ls

-- `text.split(/(?<=\n)/)`: the lines with their newlines.
unfoldable pub split_lines : List ℕ → List (List ℕ)
split_lines [] = []
split_lines (c ∷ s) =
    let rest = split_lines s in if c == newline then (c ∷ []) ∷ rest else push_line c rest

-- `rawLine.replace(/\r?\n$/, "")`
unfoldable pub strip_eol : List ℕ → List ℕ
strip_eol [] = []
strip_eol (c ∷ []) = if c == newline then [] else c ∷ []
strip_eol (c ∷ d ∷ []) = if d == newline then (if c == 13 then [] else c ∷ []) else c ∷ d ∷ []
strip_eol (c ∷ d ∷ e ∷ s) = c ∷ strip_eol (d ∷ e ∷ s)

-- `timestamp !== null && timestamp >= syncSince.getTime()`
abbrev pub is_recent : ℕ → Option ℕ → Bool
is_recent since none = false
is_recent since (some time) = leb since time

module _ (sha256 : List ℕ → Text) where
  unfoldable pub sync_cursor : List ℕ → ℕ → SyncCursor
  sync_cursor content line = record {
    size = length content;
    line = line;
    prefix_hash = sha256 content;
  }

-- `sha256` hashes bytes; `line_time` reads the timestamp of a transcript line (JSON and dates).
module _ (sha256 : List ℕ → Text) (line_time : Text → Option ℕ) where
  -- The loop of `initialLedgerCursor` over the lines of the decoded transcript.
  unfoldable pub seek_cursor : List ℕ → ℕ → ℕ → ℕ → List Text → SyncCursor
  seek_cursor content since offset line [] = record {
    size = length content;
    line = line;
    prefix_hash = sha256 content;
  }
  seek_cursor content since offset line (raw ∷ rest) =
      elim (is_recent since (line_time (strip_eol raw))) [
        | true ↦ record {
          size = offset;
          line = line;
          prefix_hash = if offset == 0 then sha256 [] else sha256 (take offset content);
        }
        | false ↦ seek_cursor content since (offset + byte_length raw) (line + 1) rest
      ]

  unfoldable pub initial_ledger_cursor : List ℕ → Option ℕ → SyncCursor
  unfolding seek_cursor split_lines strip_eol decode_utf8
  initial_ledger_cursor content none = record { size = 0; line = 0; prefix_hash = sha256 [] }
  initial_ledger_cursor [] (some since) = record { size = 0; line = 0; prefix_hash = sha256 [] }
  initial_ledger_cursor (c ∷ s) (some since) =
      seek_cursor (c ∷ s) since 0 0 (split_lines (decode_utf8 (c ∷ s)))

  unfoldable pub fresh_ledger_entry : SessionCandidate → List ℕ → Option ℕ → LedgerEntry
  unfolding initial_ledger_cursor
  fresh_ledger_entry candidate content since =
      let cursor = initial_ledger_cursor content since in
      record {
        app = candidate.app;
        session_id = candidate.session_id;
        transcript_path = candidate.transcript_path;
        status = done;
        last_absorbed_size = cursor.size;
        last_absorbed_line = cursor.line;
        last_absorbed_prefix_hash = cursor.prefix_hash;
        last_absorbed_at = none;
        last_job_id = none;
        pending_to_size = none;
        pending_to_line = none;
        pending_prefix_hash = none;
        pending_job_id = none;
        pending_started_at = none;
        last_error = none;
      }
