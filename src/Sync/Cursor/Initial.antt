-- ===== src/Sync/Cursor/Initial.antt =====
-- Where a transcript that the ledger does not know yet is taken up (`initialLedgerCursor`).
use mathlib.Core.List.{append_assoc, append-nil}
use codealmanac.Prelude.{
  ℕ, ◌+◌, ◌≤◌, true, false, ◌≡◌, ◌≢◌, refl, subst, sym, ap, ◌∙◌, ◌⊎◌, inl, inr, Option, none, some,
  List, [], ◌∷◌, ◌++◌, Text, same_iff, arith, length, length-append, take, if◌then◌else◌, ◌==◌,
  Bool-cases,
}
use codealmanac.Sync.Ledger.{
  SessionCandidate, LedgerEntry, SyncCursor, ends_with_newline, count_lines, split_lines, strip_eol,
  is_recent, seek_cursor, initial_ledger_cursor, fresh_ledger_entry,
}
use codealmanac.Sync.Utf8.{encode_utf8, decode_utf8, byte_length}
use codealmanac.Sync.Utf8.Laws.{IsUtf8, encode_utf8-append}
use codealmanac.Sync.Cursor.{snapshot_of, evaluate_sync_cursor, attention, Reason}
use codealmanac.Sync.Cursor.Progress.{take-length-append}
use codealmanac.Sync.Cursor.Lines.{
  join_lines, AreLines, IsComplete, split_lines-AreLines, join_lines-split_lines,
  count_lines-append, IsComplete-append, count_lines-encode_utf8,
}

module _ (sha256 : List ℕ → Text) (line_time : Text → Option ℕ) where
  -- The cursor stands in the transcript: its hash is that of the part before it, and its line the
  -- number of lines in that part.
  pub record StandsIn (content : List ℕ) (cursor : SyncCursor) : Type 0 where
    pub within : cursor.size ≤ length content
    pub hashed : cursor.prefix_hash ≡ sha256 (take cursor.size content)
    pub counted : cursor.line ≡ count_lines (take cursor.size content)

  StandsIn-prefix :
      (pre rest : List ℕ) (line : ℕ) (hash : Text)
      → line ≡ count_lines pre
      → hash ≡ sha256 pre
      → StandsIn (pre ++ rest) (record { size = length pre; line = line; prefix_hash = hash })
  StandsIn-prefix pre rest line hash counted hashed = record {
    within = omega (arith, length-append pre rest);
    hashed = rw (take-length-append pre rest) hashed;
    counted = rw (take-length-append pre rest) counted;
  }

  prefix_hash-eq : (pre : List ℕ) → (if length pre == 0 then sha256 [] else sha256 pre) ≡ sha256 pre
  prefix_hash-eq [] = refl
  prefix_hash-eq (c ∷ pre) = ground arith

  seek_recent :
      (content : List ℕ) (since offset line : ℕ) (l : Text) (lines : List Text)
      → is_recent since (line_time (strip_eol l)) ≡ true
      → seek_cursor sha256 line_time content since offset line (l ∷ lines) ≡ record {
        size = offset;
        line = line;
        prefix_hash = if offset == 0 then sha256 [] else sha256 (take offset content);
      }
  seek_recent content since offset line l lines h = unfold seek_cursor in rw (h, seek_cursor)

  seek_old :
      (content : List ℕ) (since offset line : ℕ) (l : Text) (lines : List Text)
      → is_recent since (line_time (strip_eol l)) ≡ false
      → seek_cursor sha256 line_time content since offset line (l ∷ lines)
        ≡ seek_cursor sha256 line_time content since (offset + byte_length l) (line + 1) lines
  seek_old content since offset line l lines h = unfold seek_cursor in rw (h, seek_cursor)

  byte_length-append : (s t : Text) → byte_length s + byte_length t ≡ byte_length (s ++ t)
  byte_length-append s t =
      sym (ap length (encode_utf8-append s t) ∙ length-append (encode_utf8 s) (encode_utf8 t))

  -- The loop behind the text `pre`, with the lines that follow it.
  abbrev seek_behind : List ℕ → ℕ → Text → List Text → SyncCursor
  seek_behind content since pre lines =
      seek_cursor sha256 line_time content since (byte_length pre) (count_lines pre) lines

  seek_behind-step :
      (content : List ℕ) (since : ℕ) (pre l : Text) (lines : List Text)
      → is_recent since (line_time (strip_eol l)) ≡ false
      → count_lines (pre ++ l) ≡ count_lines pre + 1
      → seek_behind content since pre (l ∷ lines) ≡ seek_behind content since (pre ++ l) lines
  seek_behind-step content since pre l lines old counted =
      seek_old content since (byte_length pre) (count_lines pre) l lines old
      ∙ rw (byte_length-append pre l, ← counted) refl

  seek_cursor-StandsIn :
      (content : List ℕ) (pre : Text) (lines : List Text) (since : ℕ)
      → AreLines lines
      → (lines ≢ [] → IsComplete pre)
      → content ≡ encode_utf8 pre ++ encode_utf8 (join_lines lines)
      → StandsIn content (seek_behind content since pre lines)
  seek_cursor-StandsIn content pre [] since are whole e =
      let all : encode_utf8 pre ≡ content =
        sym (e ∙ (unfold encode_utf8 in append-nil (encode_utf8 pre))) in
      subst (λ c. StandsIn c (seek_behind c since pre [])) all
        (unfold seek_cursor in
          subst
            (λ c. StandsIn c (record {
              size = length (encode_utf8 pre);
              line = count_lines pre;
              prefix_hash = sha256 (encode_utf8 pre);
            }))
            (append-nil (encode_utf8 pre))
            (StandsIn-prefix (encode_utf8 pre) [] (count_lines pre) (sha256 (encode_utf8 pre))
              (sym (count_lines-encode_utf8 pre)) refl))
  seek_cursor-StandsIn content pre (l ∷ lines) since (one, some_left, end, are) whole e =
      let rest = encode_utf8 (l ++ join_lines lines) in
      elim (Bool-cases (is_recent since (line_time (strip_eol l)))) [
        | inl recent ↦
            subst (λ c. StandsIn c (seek_behind c since pre (l ∷ lines))) (sym e)
              (rw
                (seek_recent (encode_utf8 pre ++ rest) since (byte_length pre) (count_lines pre) l
                  lines recent)
                (StandsIn-prefix (encode_utf8 pre) rest (count_lines pre) _
                  (sym (count_lines-encode_utf8 pre))
                  (rw (take-length-append (encode_utf8 pre) rest)
                    (prefix_hash-eq (encode_utf8 pre)))))
        | inr old ↦
            let complete = whole (λ e. cc e) in
            let counted = count_lines-append pre l complete one some_left in
            let parts : content ≡ encode_utf8 (pre ++ l) ++ encode_utf8 (join_lines lines) =
              e
              ∙ ap (λ t. encode_utf8 pre ++ t) (encode_utf8-append l (join_lines lines))
              ∙ sym
                  (append_assoc (encode_utf8 pre) (encode_utf8 l) (encode_utf8 (join_lines lines)))
              ∙ ap (λ t. t ++ encode_utf8 (join_lines lines)) (sym (encode_utf8-append pre l)) in
            subst (StandsIn content) (sym (seek_behind-step content since pre l lines old counted))
              (seek_cursor-StandsIn content (pre ++ l) lines since are (next_complete end some_left)
                parts)
      ]
    where
      next_complete :
          (lines ≡ []) ⊎ (ends_with_newline l ≡ true) → l ≢ [] → lines ≢ [] → IsComplete (pre ++ l)
      next_complete (inl last) some_left more = absurd (more last)
      next_complete (inr ended) some_left more = IsComplete-append pre l some_left ended

  -- If the bytes of a transcript are UTF-8, then the cursor at which it is taken up lies in the
  -- transcript, its hash is the hash of what lies before it, and its line counts the lines before
  -- it.
  pub initial_ledger_cursor-StandsIn :
      (content : List ℕ) (since : Option ℕ)
      → IsUtf8 content
      → StandsIn content (initial_ledger_cursor sha256 line_time content since)
  unfolding initial_ledger_cursor count_lines encode_utf8
  initial_ledger_cursor-StandsIn content none utf8 = record {
    within = omega arith;
    hashed = refl;
    counted = refl;
  }
  initial_ledger_cursor-StandsIn [] (some since) utf8 = record {
    within = omega arith;
    hashed = refl;
    counted = refl;
  }
  initial_ledger_cursor-StandsIn (c ∷ s) (some since) utf8 =
      let t = decode_utf8 (c ∷ s) in
      seek_cursor-StandsIn (c ∷ s) [] (split_lines t) since (split_lines-AreLines t) (λ _. refl)
        (sym (ap encode_utf8 (join_lines-split_lines t) ∙ utf8))

  -- A transcript that the ledger does not know yet, and whose bytes are UTF-8, is never reported
  -- as a prefix mismatch.
  pub fresh_ledger_entry-matches :
      (c : SessionCandidate) (content : List ℕ) (since : Option ℕ) (reason : Reason)
      (entry : LedgerEntry)
      → IsUtf8 content
      → evaluate_sync_cursor sha256
          (fresh_ledger_entry sha256 line_time c content since)
          (snapshot_of content)
        ≢ attention reason entry
  unfolding evaluate_sync_cursor fresh_ledger_entry snapshot_of
  fresh_ledger_entry-matches c content since reason entry utf8 =
      let cursor = initial_ledger_cursor sha256 line_time content since in
      let stands = initial_ledger_cursor-StandsIn content since utf8 in
      ground (arith, stands.hashed, same_iff (sha256 (take cursor.size content)) cursor.prefix_hash)
