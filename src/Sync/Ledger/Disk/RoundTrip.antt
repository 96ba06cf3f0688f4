-- ===== src/Sync/Ledger/Disk/RoundTrip.antt =====
-- A ledger is read back as it was written (sync/ledger.ts).
use codealmanac.Prelude.{
  ℕ, Bool, true, false, ◌≡◌, subst, inl, inr, Option-cases, refl, sym, ap, ◌∙◌, Option, none, some,
  List, [], ◌∷◌, map, Text, same_refl, is_empty, or_next, All, arith,
}
use codealmanac.Sync.Ledger.{
  SweepApp, claude, codex, LedgerStatus, LedgerEntry, Sessions, SyncLedger,
}
use codealmanac.Sync.Ledger.Disk.{
  Value, other, text, number, RawFields, RawEntry, no_object, fields, mapping, Document, document,
  string_value, number_value, app_of, ledger_status, ◌>>=◌, normalize_fields,
  normalize_ledger_entry, normalize_sessions, normalize_ledger, app_text, ledger_status_text,
  value_or_missing, dump_fields, dump_session, dump_ledger,
}

-- Absent, or not empty.
abbrev pub IsFilled : Option Text → Type 0
IsFilled none = Unit
IsFilled (some s) = is_empty s ≡ false

pub record HasFilledFields (e : LedgerEntry) : Type 0 where
  pub session_id : is_empty e.session_id ≡ false
  pub transcript_path : is_empty e.transcript_path ≡ false
  pub prefix_hash : is_empty e.last_absorbed_prefix_hash ≡ false
  pub job_id : IsFilled e.last_job_id
  pub pending_prefix_hash : IsFilled e.pending_prefix_hash
  pub pending_job_id : IsFilled e.pending_job_id
  pub absorbed_at : IsFilled e.last_absorbed_at
  pub pending_started_at : IsFilled e.pending_started_at
  pub last_error : IsFilled e.last_error

string_value-text : (s : Text) → is_empty s ≡ false → string_value (text s) ≡ some s
unfolding string_value
string_value-text [] h = absurd (cc h)
string_value-text (c ∷ s) h = refl

string_value-option : (o : Option Text) → IsFilled o → string_value (value_or_missing text o) ≡ o
string_value-option none h = unfold string_value in refl
string_value-option (some s) h = string_value-text s h

number_value-option : (o : Option ℕ) → number_value (value_or_missing number o) ≡ o
unfolding number_value
number_value-option none = refl
number_value-option (some n) = refl

some_injective : {A : Type 0} {a b : A} → some a ≡ some b → a ≡ b
some_injective h = cc h

or_next-none {ℓ} : {A : Type ℓ} (o : Option A) → or_next o none ≡ o
or_next-none none = refl
or_next-none (some a) = refl

app_of-text : (app : SweepApp) → app_of (text (app_text app)) ≡ some app
unfolding app_of codealmanac.Prelude.same
app_of-text claude = refl
app_of-text codex = refl

ledger_status-text :
    (status : LedgerStatus) → ledger_status (text (ledger_status_text status)) ≡ some status
unfolding ledger_status codealmanac.Prelude.same
ledger_status-text LedgerStatus.done = refl
ledger_status-text LedgerStatus.pending = refl
ledger_status-text LedgerStatus.failed = refl
ledger_status-text LedgerStatus.needs_attention = refl

normalize_fields-dump_fields :
    (e : LedgerEntry) → HasFilledFields e → normalize_fields (dump_fields e) ≡ some e
unfolding normalize_fields dump_fields
normalize_fields-dump_fields e h =
    rw
      (
        app_of-text e.app,
        string_value-text e.session_id h.session_id,
        string_value-text e.transcript_path h.transcript_path,
        ledger_status-text e.status,
        string_value-text e.last_absorbed_prefix_hash h.prefix_hash,
        string_value-option e.last_job_id h.job_id,
        string_value-option e.pending_prefix_hash h.pending_prefix_hash,
        string_value-option e.pending_job_id h.pending_job_id,
        string_value-option e.last_error h.last_error,
        string_value-option e.last_absorbed_at h.absorbed_at,
        string_value-option e.pending_started_at h.pending_started_at,
        number_value-option e.pending_to_size,
        number_value-option e.pending_to_line,
      )
      (rw (or_next-none e.last_absorbed_at, or_next-none e.pending_job_id) refl)

normalize_sessions-dump :
    (sessions : Sessions)
    → All (λ x. HasFilledFields x.1) sessions
    → normalize_sessions (map dump_session sessions) ≡ sessions
unfolding normalize_sessions normalize_ledger_entry
normalize_sessions-dump [] h = refl
normalize_sessions-dump ((key, e) ∷ sessions) (filled, h) =
    rw (normalize_fields-dump_fields e filled, normalize_sessions-dump sessions h) refl

-- What has been read has no empty texts.
IsFilled-string_value : (v : Value) → IsFilled (string_value v)
unfolding string_value
IsFilled-string_value other = tt
IsFilled-string_value (text []) = tt
IsFilled-string_value (text (c ∷ s)) = refl
IsFilled-string_value (number n) = tt

IsFilled-or_next : (a b : Option Text) → IsFilled a → IsFilled b → IsFilled (or_next a b)
IsFilled-or_next none b h k = k
IsFilled-or_next (some a) b h k = h

full_of_some : (o : Option Text) (s : Text) → IsFilled o → o ≡ some s → is_empty s ≡ false
full_of_some o s h e = subst IsFilled e h

-- A step of the chain that has given a result.
bind-some :
    {A B : Type 0} (m : Option A) (f : A → Option B) (b : B)
    → (m >>= f) ≡ some b
    → (a : A) × (m ≡ some a) × (f a ≡ some b)
bind-some none f b h = absurd (cc h)
bind-some (some a) f b h = (a, refl, h)

normalize_fields-HasFilledFields :
    (raw : RawFields) (e : LedgerEntry) → normalize_fields raw ≡ some e → HasFilledFields e
unfolding normalize_fields
normalize_fields-HasFilledFields raw e h =
    let (app, _, h1) = bind-some (app_of raw.app) _ e h in
    let (session_id, e2, h2) = bind-some (string_value raw.session_id) _ e h1 in
    let (path, e3, h3) = bind-some (string_value raw.transcript_path) _ e h2 in
    let (status, _, h4) = bind-some (ledger_status raw.status) _ e h3 in
    let (size, _, h5) =
      bind-some
        (or_next (number_value raw.last_absorbed_size) (number_value raw.last_captured_size)) _ e
        h4 in
    let (line, _, h6) =
      bind-some
        (or_next (number_value raw.last_absorbed_line) (number_value raw.last_captured_line)) _ e
        h5 in
    let hash_of =
      or_next (string_value raw.last_absorbed_prefix_hash)
        (string_value raw.last_captured_prefix_hash) in
    let (hash, e7, h7) = bind-some hash_of _ e h6 in
    let hash_filled =
      IsFilled-or_next (string_value raw.last_absorbed_prefix_hash)
        (string_value raw.last_captured_prefix_hash)
        (IsFilled-string_value raw.last_absorbed_prefix_hash)
        (IsFilled-string_value raw.last_captured_prefix_hash) in
    subst HasFilledFields (some_injective h7) (record {
      session_id =
          full_of_some (string_value raw.session_id) session_id
            (IsFilled-string_value raw.session_id) e2;
      transcript_path =
          full_of_some (string_value raw.transcript_path) path
            (IsFilled-string_value raw.transcript_path) e3;
      prefix_hash = full_of_some hash_of hash hash_filled e7;
      job_id = IsFilled-string_value raw.last_job_id;
      pending_prefix_hash = IsFilled-string_value raw.pending_prefix_hash;
      pending_job_id =
          IsFilled-or_next (string_value raw.pending_job_id) (string_value raw.pending_run_id)
            (IsFilled-string_value raw.pending_job_id) (IsFilled-string_value raw.pending_run_id);
      absorbed_at =
          IsFilled-or_next (string_value raw.last_absorbed_at) (string_value raw.last_captured_at)
            (IsFilled-string_value raw.last_absorbed_at)
            (IsFilled-string_value raw.last_captured_at);
      pending_started_at = IsFilled-string_value raw.pending_started_at;
      last_error = IsFilled-string_value raw.last_error;
    })

normalize_sessions-filled :
    (raw : List (Text × RawEntry)) → All (λ x. HasFilledFields x.1) (normalize_sessions raw)
unfolding normalize_sessions normalize_ledger_entry
normalize_sessions-filled [] = tt
normalize_sessions-filled ((key, no_object) ∷ raw) = normalize_sessions-filled raw
normalize_sessions-filled ((key, fields f) ∷ raw) = elim (Option-cases (normalize_fields f)) [
  | inl e ↦ rw e (normalize_sessions-filled raw)
  | inr (entry, e) ↦
      rw e (normalize_fields-HasFilledFields f entry e, normalize_sessions-filled raw)
]

-- Whatever the file of a ledger holds whose numbers are natural ones: if it is read, then the ledger that has been read is read
-- back as it was, with the time of the write, once it has been written.
pub normalize_ledger-dump_ledger :
    (file : Document) (ledger : SyncLedger) (now : Text)
    → normalize_ledger file ≡ some ledger
    → normalize_ledger (dump_ledger ledger now) ≡ some (record ledger { updated_at = now })
unfolding normalize_ledger dump_ledger
normalize_ledger-dump_ledger (document true (text t) (mapping raw)) ledger now h =
    let e : normalize_sessions raw ≡ ledger.sessions =
      ap (λ (l : SyncLedger). l.sessions) (some_injective h) in
    let filled : All (λ x. HasFilledFields x.1) ledger.sessions =
      subst (λ sessions. All (λ x. HasFilledFields x.1) sessions) e
        (normalize_sessions-filled raw) in
    rw (normalize_sessions-dump ledger.sessions filled) refl
normalize_ledger-dump_ledger _ ledger now h = absurd (cc h)
