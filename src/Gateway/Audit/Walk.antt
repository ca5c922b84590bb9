-- ===== src/Gateway/Audit/Walk.antt =====
-- A client that follows the cursors of the audit log.
use grain_guard.Prelude.{
  ℕ, zero, suc, ◌+◌, ◌-◌, ◌<◌, ◌≡◌, refl, sym, ◌∙◌, subst, String, true, false, Option, none, some,
  pos, List, [], ◌∷◌, ◌++◌, select, take, sort_descending, length, ltb, min, Bool-cases, inl, inr,
  arith,
}
use mathlib.Core.List.{append_assoc}
use grain_guard.Gateway.Team.{User}
use grain_guard.Bff.Pages.Sorted.{
  IsStrict, IsDistinct, sort_descending-IsStrict, select-sort_descending,
}
use grain_guard.Bff.Pages.Cursors.{
  Split, split, length-take, take-take, take_all, select_and, select-true, select-earlier,
}
use grain_guard.Gateway.Audit.{
  AuditRow, AuditFilter, AuditPage, crash, page, is_match, is_before, created_ms, page_rows,
  last_time, page_before_more, page_of, get_audit_logs,
}

-- The events of a page and of those that follow it.
abbrev shown : AuditPage → (Option ℕ → List AuditRow) → List AuditRow
shown crash next = []
shown (page events more none) next = events
shown (page events more (some ms)) next = events ++ next (some ms)

-- The events of the pages from a cursor on, of which `n` are asked for at most.
abbrev pub walk : User → ℕ → AuditFilter → List AuditRow → ℕ → Option ℕ → List AuditRow
walk u limit f rows zero before = []
walk u limit f rows (suc n) before =
    shown (get_audit_logs u (some (pos limit)) before f rows) (walk u limit f rows n)

-- The matching events, newest first, as one query without pages gives them.
abbrev pub matching : String → AuditFilter → List AuditRow → List AuditRow
matching t f rows = sort_descending (λ (r : AuditRow). r.created_at) (select (is_match t f) rows)

last_time-snoc :
    (xs : List AuditRow) (x : AuditRow) → last_time (xs ++ (x ∷ [])) ≡ some (created_ms x)
last_time-snoc [] x = refl
last_time-snoc (y ∷ []) x = refl
last_time-snoc (y ∷ z ∷ zs) x = last_time-snoc (z ∷ zs) x

page_before_more-snoc :
    (xs : List AuditRow) (x : AuditRow)
    → page_before_more (xs ++ (x ∷ [])) ≡ page (xs ++ (x ∷ [])) true (some (created_ms x))
page_before_more-snoc xs x = rw (last_time-snoc xs x, page_before_more) refl

page_rows-matching :
    (rows : List AuditRow) (t : String) (f : AuditFilter) (before : Option ℕ) (limit : ℕ)
    → page_rows rows t f before limit
      ≡ take (limit + 1) (select (is_before before) (matching t f rows))
page_rows-matching rows t f before limit =
    rw
      (
        select_and (is_match t f) (is_before before) rows,
        select-sort_descending (λ (r : AuditRow). r.created_at) (is_before before)
            (select (is_match t f) rows),
      )
      refl

add_one : (n : ℕ) → n + 1 ≡ suc n
add_one n = omega arith

predecessor : (n : ℕ) → 0 < n → n ≡ suc (n - 1)
predecessor n h = omega arith

module _ (u : User) (limit : ℕ) (f : AuditFilter) (rows : List AuditRow) (positive : 0 < limit)
    (distinct : IsDistinct created_ms (select (is_match u.tenant_id f) rows)) where
  abbrev all_rows : List AuditRow
  all_rows = matching u.tenant_id f rows

  abbrev size : ℕ
  size = min limit 200

  rows-IsStrict : IsStrict created_ms all_rows
  rows-IsStrict =
      sort_descending-IsStrict (λ (r : AuditRow). r.created_at) created_ms (λ x y h. ground arith)
        (select (is_match u.tenant_id f) rows) distinct

  -- The rows that are left at a cursor.
  record IsAt (before : Option ℕ) (rest : List AuditRow) : Type 0 where
    past : List AuditRow
    whole : all_rows ≡ past ++ rest
    left : select (is_before before) all_rows ≡ rest

  next-IsAt :
      (past : List AuditRow) (x : AuditRow) (rest : List AuditRow)
      → all_rows ≡ past ++ (x ∷ rest)
      → IsAt (some (created_ms x)) rest
  next-IsAt past x rest e = record {
    past = past ++ (x ∷ []);
    whole = e ∙ sym (append_assoc past (x ∷ []) rest);
    left = rw e (
        select-earlier (λ (r : AuditRow). r.created_at) past x rest
          (subst (IsStrict created_ms) e rows-IsStrict));
  }

  page_at :
      (before : Option ℕ) (rest : List AuditRow)
      → IsAt before rest
      → get_audit_logs u (some (pos limit)) before f rows ≡ page_of size (take (suc size) rest)
  unfolding get_audit_logs
  page_at before rest a =
      rw (page_rows-matching rows u.tenant_id f before size, a.left, add_one size) refl

  last_page :
      (rest : List AuditRow)
      → ltb size (length rest) ≡ false
      → page_of size (take (suc size) rest) ≡ page rest false none
  last_page rest h = rw (length-take size rest, h, take_all (suc size) rest (ground arith)) refl

  more_page :
      (k : ℕ) (rest : List AuditRow) (s : Split k rest)
      → size ≡ suc k
      → ltb size (length rest) ≡ true
      → page_of size (take (suc size) rest)
        ≡ page (s.init ++ (s.last ∷ [])) true (some (created_ms s.last))
  more_page k rest s e h =
      rw (length-take size rest, h, take-take size rest, e, s.page)
        (page_before_more-snoc s.init s.last)

  walk_at :
      (n : ℕ) (before : Option ℕ) (rest : List AuditRow)
      → IsAt before rest
      → length rest < n
      → walk u limit f rows n before ≡ rest
  walk_at zero before rest a h = absurd (ground arith)
  walk_at (suc n) before rest a h =
      let e : size ≡ suc (size - 1) = predecessor size (ground arith) in
      elim (Bool-cases (ltb size (length rest))) [
        | inr l ↦ rw (page_at before rest a, last_page rest l) refl
        | inl l ↦
            let s = split (size - 1) rest (ground arith) in
            let q =
              subst (λ xs. all_rows ≡ a.past ++ xs) s.whole a.whole
              ∙ sym (append_assoc a.past s.init (s.last ∷ s.rest)) in
            let i =
              walk_at n (some (created_ms s.last)) s.rest
                (next-IsAt (a.past ++ s.init) s.last s.rest q) (let z = s.shorter in omega arith) in
            rw (page_at before rest a, more_page (size - 1) rest s e l, i)
              (append_assoc s.init (s.last ∷ []) s.rest ∙ sym s.whole)
      ]

  -- Where no two matching events have the same millisecond and the limit is not 0, following the
  -- cursors of the audit log from the first page on, with any limit and any filter and with a page
  -- more than there are matching events at hand, shows exactly the matching events of the user's
  -- tenant, each once and the newest first.
  pub walk-matching :
      (n : ℕ)
      → length (matching u.tenant_id f rows) < n
      → walk u limit f rows n none ≡ matching u.tenant_id f rows
  walk-matching n h =
      walk_at n none all_rows (record { past = []; whole = refl; left = select-true all_rows }) h
