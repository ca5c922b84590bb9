-- ===== src/Bff/Pages/Tests.antt =====
-- Concrete pages. A cursor is written as the milliseconds that it stands for, plus one; 0 is "".
use grain_guard.Prelude.{
  ℕ, zero, suc, ◌*◌, ◌≡◌, refl, true, false, none, some, List, [], ◌∷◌, map, nat_eq, arith,
}
use grain_guard.Bff.Redis.{get, set}
use grain_guard.Bff.Source.{Projection, Tables, join}
use grain_guard.Bff.Resolvers.{Context}
use grain_guard.Bff.Resolvers.Isolation.Runs.{empty}
use grain_guard.Bff.Pages.{Codec, devices_connection, get_devices_with_cursor}
use grain_guard.Bff.Pages.Walk.{walk, walk-tenant_rows}
use grain_guard.Bff.Pages.Cursors.{tenant_rows}

suc_nonzero : (t : ℕ) → nat_eq (suc t) 0 ≡ false
suc_nonzero t = ground arith

abbrev plain : Codec ℕ
plain = record {
  cursor_of = λ t. suc t;
  is_empty = λ c. nat_eq c 0;
  is_blank = λ c. nat_eq c 0;
  instant = λ c. elim c [ zero ↦ none | suc t ↦ some (t * 1000) ];
  nonempty = suc_nonzero;
  nonblank = suc_nonzero;
  instant-cursor_of = λ t. refl;
}

abbrev created : ℕ → Projection
created t = record { device_id = "d"; tenant_id = "a"; serial_number = "S"; created_at = t }

abbrev member : Context
member = record { tenant_id = "a"; is_super_admin = false }

abbrev super : Context
super = record { tenant_id = "a"; is_super_admin = true }

abbrev rows : List Projection
rows = created 2000 ∷ created 5000 ∷ created 3000 ∷ []

abbrev tables : Tables ℕ
tables = record { projections = rows; telemetry = [] }

abbrev twins : Tables ℕ
twins = record { projections = created 2001 ∷ created 2002 ∷ []; telemetry = [] }

walk-tenant_rows_example :
    walk plain tables member (some 2) (λ n. 7) 4 none empty
    ≡ map (join tables) (tenant_rows tables.projections "a")
walk-tenant_rows_example =
    walk-tenant_rows plain tables member (some 2) refl
      ((ground arith, (ground arith, tt)), ((ground arith, tt), (tt, tt))) (λ n. 7) 4 empty
      (ground arith)

-- Two devices of one millisecond: the walk by pages of one shows the newer one only.
same_millisecond :
    walk plain twins member (some 1) (λ n. 7) 4 none empty ≡ map (join tables) (created 2002 ∷ [])
unfolding devices_connection get_devices_with_cursor get set
same_millisecond = refl

-- A super administrator is shown the first page again and again.
first_page_again :
    walk plain tables super (some 1) (λ n. 7) 3 none empty
    ≡ map (join tables) (created 5000 ∷ created 5000 ∷ created 5000 ∷ [])
unfolding devices_connection get_devices_with_cursor get set
first_page_again = refl
