-- ===== src/Gateway/Import/Rows.antt =====
-- The bookkeeping of an import job.
use grain_guard.Prelude.{
  ℕ, ◌+◌, ◌≤◌, ◌≡◌, refl, sym, ap, ◌∙◌, ◌↔◌, Bool, true, false, Bool-cases, inl, inr, ◌&&◌, Option,
  List, [], ◌∷◌, ◌++◌, eq_iff, subst, length, append-nil, append-append, Maybe, length-append,
  select, arith, nat_eq, ltb,
}
use grain_guard.Gateway.Import.{Text}
use grain_guard.Gateway.Import.Job.{
  Progress, no_progress, ImportJob, Event, finished, row_ok, row_error, is_serial, import_row,
  import_rows, job_of, job_status, is_refused, on_finish,
}

module _ (create : ℕ → Text → Bool) where
  -- Every row so far is counted, as a device created or as an error, and has its event.
  record IsCounted (n : ℕ) (p : Progress) : Type 0 where
    rows : p.done ≡ n
    split : length p.created + p.errors ≡ n
    told : length p.events ≡ n

  import_row-IsCounted :
      (total n : ℕ) (serial : Text) (p : Progress)
      → IsCounted n p
      → IsCounted (n + 1) (import_row create total serial p)
  unfolding import_row
  import_row-IsCounted total n serial p h =
      elim (Bool-cases (is_serial serial && create p.done serial)) [
        | inl e ↦ rw e (record {
          rows = omega (arith, h.rows);
          split = omega (arith, h.split, length-append p.created (serial ∷ []));
          told = omega (
            arith,
            h.told,
            length-append p.events (row_ok total (p.done + 1) p.errors serial ∷ []),
          );
        })
        | inr e ↦ rw e (record {
          rows = omega (arith, h.rows);
          split = omega (arith, h.split);
          told = omega (
            arith,
            h.told,
            length-append p.events (row_error total (p.done + 1) (p.errors + 1) serial ∷ []),
          );
        })
      ]

  import_rows-IsCounted :
      (total n : ℕ) (lines : List Text) (p : Progress)
      → IsCounted n p
      → IsCounted (n + length lines) (import_rows create total lines p)
  unfolding import_rows
  import_rows-IsCounted total n [] p h = record {
    rows = omega (arith, h.rows);
    split = omega (arith, h.split);
    told = omega (arith, h.told);
  }
  import_rows-IsCounted total n (l ∷ lines) p h =
      let k =
        import_rows-IsCounted total (n + 1) lines (import_row create total l p)
          (import_row-IsCounted total n l p h) in
      record {
        rows = omega (arith, k.rows);
        split = omega (arith, k.split);
        told = omega (arith, k.told);
      }

  from_start :
      (total : ℕ) (lines : List Text)
      → IsCounted (length lines) (import_rows create total lines no_progress)
  from_start total lines =
      let zero_plus : 0 + length lines ≡ length lines = omega arith in
      subst (λ n. IsCounted n (import_rows create total lines no_progress)) zero_plus
        (import_rows-IsCounted total 0 lines no_progress
          (record { rows = refl; split = omega arith; told = refl }))

-- What a job's row says of the rows of the file, the devices created and the events.
abbrev pub Tells : ℕ → List Text → List Event → ImportJob → Type 0
Tells total created events j =
    (j.total_rows ≡ total)
    × (j.success_rows ≡ length created)
    × (j.success_rows + j.failed_rows ≡ total)
    × (length events ≡ total + 1)
    × ((j.status ≡ "completed") ↔ (j.failed_rows ≡ 0))
    × ((j.status ≡ "failed") ↔ (j.success_rows ≡ 0))

job_status-completed :
    (errors total : ℕ) → 1 ≤ total → (job_status errors total ≡ "completed") ↔ (errors ≡ 0)
job_status-completed errors total h =
    ground (arith, eq_iff "partial" "completed", eq_iff "failed" "completed")

job_status-failed : (errors total : ℕ) → (job_status errors total ≡ "failed") ↔ (errors ≡ total)
job_status-failed errors total =
    ground (arith, eq_iff "partial" "failed", eq_iff "completed" "failed")

module _ (create : ℕ → Text → Bool) where
  job_of-Tells :
      (total : ℕ) (p : Progress)
      → 1 ≤ total
      → IsCounted create total p
      → Tells total p.created (p.events ++ finished total total p.errors ∷ []) (job_of total p)
  job_of-Tells total p h k = (
    refl,
    omega (arith, k.rows, k.split),
    omega (arith, k.rows, k.split),
    omega (arith, k.told, length-append p.events (finished total total p.errors ∷ [])),
    job_status-completed p.errors total h,
    grind (arith, job_status-failed p.errors total, k.rows, k.split),
  )

  -- The statement holds of a job's row where there is one.
  abbrev pub Adds : ℕ → List Text × Option ImportJob × List Event → Type 0
  Adds total r = Maybe (Tells total r.0 r.2) r.1

  -- Where an import job runs, its row counts the file's rows, the devices created and the rows that
  -- failed; the response has an event for each row and a last one; the status is "completed"
  -- exactly where no row failed, "failed" exactly where no device was created.
  pub on_finish-Adds :
      (quota : Option Bool) (lines : List Text) → Adds (length lines) (on_finish create quota lines)
  unfolding on_finish
  on_finish-Adds quota lines = elim (Bool-cases (nat_eq (length lines) 0)) [
    | inl e ↦ rw e tt
    | inr e ↦ elim (Bool-cases (ltb 1000 (length lines))) [
      | inl f ↦ rw (e, f) tt
      | inr f ↦ elim (Bool-cases (is_refused quota)) [
        | inl q ↦ rw (e, f, q) tt
        | inr q ↦
            rw (e, f, q)
              (job_of-Tells (length lines) (import_rows create (length lines) lines no_progress)
                (ground arith) (from_start create (length lines) lines))
      ]
    ]
  ]

-- createDevice where it never throws.
abbrev pub always : ℕ → Text → Bool
always n serial = true

import_row_created :
    (total : ℕ) (l : Text) (p : Progress)
    → is_serial l ≡ true
    → (import_row always total l p).created ≡ p.created ++ l ∷ []
unfolding import_row
import_row_created total l p e = rw e refl

import_row_skipped :
    (total : ℕ) (l : Text) (p : Progress)
    → is_serial l ≡ false
    → (import_row always total l p).created ≡ p.created
unfolding import_row
import_row_skipped total l p e = rw e refl

import_rows-created :
    (total : ℕ) (lines : List Text) (p : Progress)
    → (import_rows always total lines p).created ≡ p.created ++ select is_serial lines
unfolding import_rows
import_rows-created total [] p = sym (append-nil p.created)
import_rows-created total (l ∷ lines) p = elim (Bool-cases (is_serial l)) [
  | inl e ↦ rw e (
      import_rows-created total lines (import_row always total l p)
      ∙ ap (λ x. x ++ select is_serial lines) (import_row_created total l p e)
      ∙ append-append p.created (l ∷ []) (select is_serial lines))
  | inr e ↦ rw e (
      import_rows-created total lines (import_row always total l p)
      ∙ ap (λ x. x ++ select is_serial lines) (import_row_skipped total l p e))
]

-- One positive answer of the quota check is enough for the whole file: where createDevice accepts
-- every serial number, a job of at most 1000 rows creates a device for each well-formed row, though
-- the check only said that there is room for one.
pub on_finish-created :
    (quota : Option Bool) (lines : List Text)
    → is_refused quota ≡ false
    → 1 ≤ length lines
    → length lines ≤ 1000
    → (on_finish always quota lines).0 ≡ select is_serial lines
unfolding on_finish
on_finish-created quota lines q h k =
    let some_rows : nat_eq (length lines) 0 ≡ false = ground arith in
    let few_rows : ltb 1000 (length lines) ≡ false = ground arith in
    rw (some_rows, few_rows, q) (import_rows-created (length lines) lines no_progress)
