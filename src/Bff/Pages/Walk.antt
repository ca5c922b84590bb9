-- ===== src/Bff/Pages/Walk.antt =====
-- A client that follows the cursors from page to page.
use grain_guard.Prelude.{
  ℕ, zero, suc, ◌+◌, ◌-◌, ◌<◌, ◌≡◌, refl, sym, ap, ◌∙◌, subst, true, false, Option, none, some,
  List, [], ◌∷◌, ◌++◌, map, select, take, length, ltb, min, if◌then◌else◌, Bool-cases, inl, inr,
  arith, ◌==◌,
}
use mathlib.Core.List.{append_assoc, append-nil, map-append}
use grain_guard.Bff.Source.{Projection, Tables, DeviceRow, join}
use grain_guard.Bff.Resolvers.{Context, or_twenty, Store}
use grain_guard.Bff.Pages.{
  Codec, is_before, bound_of, or_null, is_rejected, milliseconds, items_of, edge_of, Edge, Page,
  page_of, counted, last_cursor, devices_connection, get_devices_with_cursor,
}
use grain_guard.Bff.Pages.Sorted.{IsStrict, IsDistinct, sort_descending-IsStrict}
use grain_guard.Bff.Pages.Cursors.{
  Split, split, length-take, items-last, items-more, select-true, select-before, end_of,
  tenant_rows, page_rows-tenant,
}

abbrev pub page_size : Option ℕ → ℕ
page_size first = min (or_twenty first) 100

page_size-positive : (first : Option ℕ) → 0 < page_size first
page_size-positive none = ground arith
page_size-positive (some n) = ground arith

predecessor : (n : ℕ) → 0 < n → n ≡ suc (n - 1)
predecessor n h = omega arith

add_one : (n : ℕ) → n + 1 ≡ suc n
add_one n = omega arith

module _ {Reading Cursor : Type 0} where
  abbrev node_at : Edge Reading Cursor → DeviceRow Reading
  node_at e = e.node

  -- The devices of a page, and of those that follow it.
  abbrev shown :
      Option (Page Reading Cursor × Store Reading)
      → (Option Cursor → Store Reading → List (DeviceRow Reading))
      → List (DeviceRow Reading)
  shown none next = []
  shown (some (p, s)) next =
      map node_at p.edges
      ++ (let rest = next p.end_cursor s in if p.has_next_page then rest else [])

module _ {Reading Cursor : Type 0} (codec : Codec Cursor) (db : Tables Reading) (ctx : Context)
    (first : Option ℕ) where
  -- The devices of the pages from a cursor on, where the page that is asked for when `n` are left
  -- comes at `times n`. A page that is refused ends the walk, and so does the last page.
  abbrev pub walk : (ℕ → ℕ) → ℕ → Option Cursor → Store Reading → List (DeviceRow Reading)
  walk times zero after r = []
  walk times (suc n) after r =
      shown (devices_connection codec db (times n) ctx first after r) (walk times n)

  module _ (member : ctx.is_super_admin ≡ false)
      (distinct : IsDistinct milliseconds
        (select (λ (p : Projection). p.tenant_id == ctx.tenant_id) db.projections)) where
    abbrev all_rows : List Projection
    all_rows = tenant_rows db.projections ctx.tenant_id

    rows-IsStrict : IsStrict milliseconds all_rows
    rows-IsStrict =
        sort_descending-IsStrict (λ (p : Projection). p.created_at) milliseconds
          (λ x y h. ground arith)
          (select (λ (p : Projection). p.tenant_id == ctx.tenant_id) db.projections) distinct

    -- The rows that are left at a cursor: the end of the tenant's rows, which its page begins.
    record IsAt (after : Option Cursor) (rows : List Projection) : Type 0 where
      past : List Projection
      whole : all_rows ≡ past ++ rows
      accepted : is_rejected (bound_of codec (some ctx.tenant_id) (or_null codec after)) ≡ false
      left :
          select (is_before (bound_of codec (some ctx.tenant_id) (or_null codec after))) all_rows
          ≡ rows

    start-IsAt : IsAt none all_rows
    start-IsAt = record { past = []; whole = refl; accepted = refl; left = select-true all_rows }

    bound_at_cursor :
        (x : Projection)
        → bound_of codec
            (some ctx.tenant_id)
            (or_null codec (some (codec.cursor_of (milliseconds x))))
          ≡ end_of x
    bound_at_cursor x =
        rw
          (
            codec.nonempty (milliseconds x),
            codec.nonblank (milliseconds x),
            codec.instant-cursor_of (milliseconds x),
          )
          refl

    next-IsAt :
        (past : List Projection) (x : Projection) (rest : List Projection)
        → all_rows ≡ past ++ (x ∷ rest)
        → IsAt (some (codec.cursor_of (milliseconds x))) rest
    next-IsAt past x rest e = record {
      past = past ++ (x ∷ []);
      whole = e ∙ sym (append_assoc past (x ∷ []) rest);
      accepted = rw (bound_at_cursor x) refl;
      left =
          rw (bound_at_cursor x, e)
            (select-before past x rest (subst (IsStrict milliseconds) e rows-IsStrict));
    }

    page_at :
        (now : ℕ) (after : Option Cursor) (rows : List Projection) (r : Store Reading)
        → IsAt after rows
        → devices_connection codec db now ctx first after r
          ≡ some (
              page_of codec
                (page_size first)
                (or_null codec after)
                (map
                  (edge_of codec db)
                  (items_of (page_size first) (take (suc (page_size first)) rows)))
                (take (suc (page_size first)) rows)
                (counted codec db now (some ctx.tenant_id) r))
    unfolding devices_connection get_devices_with_cursor
    page_at now after rows r a =
        rw
          (
            member,
            page_rows-tenant db.projections (page_size first + 1) ctx.tenant_id
                (bound_of codec (some ctx.tenant_id) (or_null codec after)),
            a.accepted,
            a.left,
            add_one (page_size first),
          )
          refl

    nodes-edges :
        (xs : List Projection) → map node_at (map (edge_of codec db) xs) ≡ map (join db) xs
    nodes-edges [] = refl
    nodes-edges (x ∷ xs) = ap (λ ds. join db x ∷ ds) (nodes-edges xs)

    last_cursor-edges :
        (xs : List Projection) (x : Projection)
        → last_cursor codec (map (edge_of codec db) (xs ++ (x ∷ [])))
          ≡ some (codec.cursor_of (milliseconds x))
    last_cursor-edges [] x = refl
    last_cursor-edges (y ∷ []) x = refl
    last_cursor-edges (y ∷ z ∷ zs) x = last_cursor-edges (z ∷ zs) x

    -- The last page, and a page that has another after it.
    walk_last :
        (times : ℕ → ℕ) (n : ℕ) (after : Option Cursor) (rows : List Projection) (r : Store Reading)
        → IsAt after rows
        → ltb (page_size first) (length rows) ≡ false
        → walk times (suc n) after r ≡ map (join db) rows
    walk_last times n after rows r a h =
        ap (λ page. shown page (walk times n)) (page_at (times n) after rows r a)
        ∙ rw
            (
              items-last (page_size first) rows h,
              length-take (page_size first) rows,
              h,
              append-nil (map node_at (map (edge_of codec db) rows)),
            )
            (nodes-edges rows)

    walk_more :
        (times : ℕ → ℕ) (n k : ℕ) (after : Option Cursor) (rows : List Projection)
        (r : Store Reading) (s : Split k rows)
        → IsAt after rows
        → page_size first ≡ suc k
        → ltb (suc k) (length rows) ≡ true
        → walk times (suc n) after r
          ≡ map (join db) (s.init ++ (s.last ∷ []))
            ++ walk times n
                (some (codec.cursor_of (milliseconds s.last)))
                (counted codec db (times n) (some ctx.tenant_id) r).1
    walk_more times n k after rows r s a e h =
        ap (λ page. shown page (walk times n)) (page_at (times n) after rows r a)
        ∙ rw
            (
              e,
              items-more k rows h s,
              length-take (suc k) rows,
              h,
              last_cursor-edges s.init s.last,
              nodes-edges (s.init ++ (s.last ∷ [])),
            )
            refl

    -- A walk shows the rows that are left at its cursor, where it has a page for each of them.
    walk_at :
        (times : ℕ → ℕ) (n : ℕ) (after : Option Cursor) (rows : List Projection) (r : Store Reading)
        → IsAt after rows
        → length rows < n
        → walk times n after r ≡ map (join db) rows
    walk_at times zero after rows r a h = absurd (ground arith)
    walk_at times (suc n) after rows r a h =
        let k = page_size first - 1 in
        let e = predecessor (page_size first) (page_size-positive first) in
        elim (Bool-cases (ltb (page_size first) (length rows))) [
          | inr l ↦ walk_last times n after rows r a l
          | inl l ↦
              let m = subst (λ size. ltb size (length rows) ≡ true) e l in
              let s = split k rows (ground arith) in
              let q =
                subst (λ xs. all_rows ≡ a.past ++ xs) s.whole a.whole
                ∙ sym (append_assoc a.past s.init (s.last ∷ s.rest)) in
              let i =
                walk_at times n _ s.rest (counted codec db (times n) (some ctx.tenant_id) r).1
                  (next-IsAt (a.past ++ s.init) s.last s.rest q)
                  (let z = s.shorter in omega arith) in
              walk_more times n k after rows r s a e m
              ∙ ap (λ ds. map (join db) (s.init ++ (s.last ∷ [])) ++ ds) i
              ∙ sym (map-append (join db) (s.init ++ (s.last ∷ [])) s.rest)
              ∙ ap (map (join db)) (append_assoc s.init (s.last ∷ []) s.rest ∙ sym s.whole)
        ]

    -- Where no two devices of the tenant of a member who is no super administrator were created in the
    -- same millisecond, following the end cursors of devicesConnection from the first page on, with any
    -- page size that is asked for and with a page more than the tenant has devices at hand, shows
    -- exactly the tenant's devices, each once and the newest first, as one query without pages gives
    -- them.
    pub walk-tenant_rows :
        (times : ℕ → ℕ) (n : ℕ) (r : Store Reading)
        → length (tenant_rows db.projections ctx.tenant_id) < n
        → walk times n none r ≡ map (join db) (tenant_rows db.projections ctx.tenant_id)
    walk-tenant_rows times n r h = walk_at times n none all_rows r start-IsAt h
