-- ===== src/Gateway/Import/Job.antt =====
-- devicesImport.ts: the import job that runs once the file has been read.
use grain_guard.Prelude.{
  ℕ, ◌+◌, ◌-◌, String, Bool, true, false, not, ◌&&◌, ◌||◌, Option, none, some, List, [], ◌∷◌, ◌++◌,
  length, nat_eq, leb, ltb, if◌then◌else◌,
}
use grain_guard.Gateway.Import.{Text}

-- [A-Za-z0-9_-]
abbrev pub is_serial_char : ℕ → Bool
is_serial_char c =
    leb 65 c && leb c 90
    || leb 97 c && leb c 122
    || leb 48 c && leb c 57
    || nat_eq c 95
    || nat_eq c 45

abbrev pub every_char : Text → Bool
every_char [] = true
every_char (c ∷ cs) = is_serial_char c && every_char cs

-- /^[A-Za-z0-9_-]{3,64}$/
unfoldable pub is_serial : Text → Bool
is_serial t = every_char t && leb 3 (length t) && leb (length t) 64

-- The events of the response.
pub data Event : Type 0 where
  refused : String → Event
  row_ok row_error : ℕ → ℕ → ℕ → Text → Event
  finished : ℕ → ℕ → ℕ → Event

-- The row of bulk_import_jobs.
pub record ImportJob : Type 0 where
  pub total_rows : ℕ
  pub status : String
  pub success_rows : ℕ
  pub failed_rows : ℕ

pub record Progress : Type 0 where
  pub done : ℕ
  pub errors : ℕ
  pub created : List Text
  pub events : List Event

abbrev pub no_progress : Progress
no_progress = record { done = 0; errors = 0; created = []; events = [] }

abbrev pub job_status : ℕ → ℕ → String
job_status errors total =
    if nat_eq errors total then "failed" else if ltb 0 errors then "partial" else "completed"

abbrev pub job_of : ℕ → Progress → ImportJob
job_of total p = record {
  total_rows = total;
  status = job_status p.errors total;
  success_rows = p.done - p.errors;
  failed_rows = p.errors;
}

-- `quotaCheck.allowed` is false; a check that throws is passed over.
abbrev pub is_refused : Option Bool → Bool
is_refused none = false
is_refused (some allowed) = not allowed

-- `create` is createDevice, false where it throws; `n` is the number of the call.
module _ (create : ℕ → Text → Bool) where
  unfoldable pub import_row : ℕ → Text → Progress → Progress
  import_row total serial p =
      if is_serial serial && create p.done serial
      then record {
        done = p.done + 1;
        errors = p.errors;
        created = p.created ++ serial ∷ [];
        events = p.events ++ row_ok total (p.done + 1) p.errors serial ∷ [];
      }
      else record {
        done = p.done + 1;
        errors = p.errors + 1;
        created = p.created;
        events = p.events ++ row_error total (p.done + 1) (p.errors + 1) serial ∷ [];
      }

  unfoldable pub import_rows : ℕ → List Text → Progress → Progress
  import_rows total [] p = p
  import_rows total (serial ∷ lines) p = import_rows total lines (import_row total serial p)

  -- bb.on("finish"): the devices created, the job's row, the events. `quota` is the answer of
  -- checkDeviceQuota, none where it throws.
  unfoldable pub on_finish : Option Bool → List Text → List Text × Option ImportJob × List Event
  on_finish quota lines =
      let total = length lines in
      let p = import_rows total lines no_progress in
      if nat_eq total 0
      then ([], none, refused "empty_csv" ∷ [])
      else if ltb 1000 total
      then ([], none, refused "too_many_rows" ∷ [])
      else if is_refused quota
      then ([], none, refused "device_limit_reached" ∷ [])
      else (p.created, some (job_of total p), p.events ++ finished total total p.errors ∷ [])
