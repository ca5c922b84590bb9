-- ===== src/Jobs/Reconcile/Ranks.antt =====
-- Counting devices by their rank in the sorted list.
use grain_guard.Prelude.{
  ℕ, suc, ◌-◌, min, String, ◌≡◌, ◌≢◌, ap, sym, refl, eq_iff, ◌&&◌, ltb, ◌∙◌, Bool, true, false, not,
  none, some, List, [], ◌∷◌, arith, pos, exceeds, select, length, All, ◌==◌, if◌then◌else◌,
  Bool-cases, inl, inr,
}
use grain_guard.Database.{Device}
use grain_guard.Jobs.Reconcile.{comes_before, insert_device, sort_devices, number_from, rank_of}

-- SELECT COUNT(*) … WHERE p
abbrev pub count : (Device → Bool) → List Device → ℕ
count p ds = length (select p ds)

-- The ids of the rows differ pairwise, as those of a primary key.
abbrev pub HasDistinctIds : List Device → Type 0
HasDistinctIds [] = Unit {0}
HasDistinctIds (d ∷ ds) = All (λ (e : Device). d.id ≢ e.id) ds × HasDistinctIds ds

pub count-insert_device :
    (p : Device → Bool) (d : Device) (ds : List Device)
    → count p (insert_device d ds) ≡ count p (d ∷ ds)
unfolding insert_device
count-insert_device p d [] = refl
count-insert_device p d (e ∷ es) = ground (arith, count-insert_device p d es)

pub count-sort_devices :
    (p : Device → Bool) (ds : List Device) → count p (sort_devices ds) ≡ count p ds
unfolding sort_devices
count-sort_devices p [] = refl
count-sort_devices p (d ∷ ds) =
    ground (arith, count-insert_device p d (sort_devices ds), count-sort_devices p ds)

pub count-congruence :
    (p q : Device → Bool) (ds : List Device) → All (λ d. p d ≡ q d) ds → count p ds ≡ count q ds
count-congruence p q [] h = refl
count-congruence p q (d ∷ ds) (e, h) = ground (arith, count-congruence p q ds h)

All-insert_device {κ} :
    (P : Device → Type κ) (d : Device) (ds : List Device)
    → P d
    → All P ds
    → All P (insert_device d ds)
unfolding insert_device
All-insert_device P d [] p h = (p, tt)
All-insert_device P d (e ∷ es) p (q, h) = elim (Bool-cases (comes_before d e)) [
  | inl b ↦ rw b (p, (q, h))
  | inr b ↦ rw b (q, All-insert_device P d es p h)
]

pub All-sort_devices {κ} :
    (P : Device → Type κ) (ds : List Device) → All P ds → All P (sort_devices ds)
unfolding sort_devices
All-sort_devices P [] h = tt
All-sort_devices P (d ∷ ds) (p, h) =
    All-insert_device P d (sort_devices ds) p (All-sort_devices P ds h)

pub All-ne_sym :
    (id : String) (ds : List Device)
    → All (λ (e : Device). id ≢ e.id) ds
    → All (λ (e : Device). e.id ≢ id) ds
All-ne_sym id [] h = tt
All-ne_sym id (e ∷ es) (p, h) = ((λ q. p (sym q)), All-ne_sym id es h)

HasDistinctIds-insert_device :
    (d : Device) (ds : List Device)
    → All (λ (e : Device). d.id ≢ e.id) ds
    → HasDistinctIds ds
    → HasDistinctIds (insert_device d ds)
unfolding insert_device
HasDistinctIds-insert_device d [] h k = (tt, tt)
HasDistinctIds-insert_device d (e ∷ es) (p, h) (q, k) = elim (Bool-cases (comes_before d e)) [
  | inl b ↦ rw b ((p, h), (q, k))
  | inr b ↦ rw b (
    All-insert_device (λ (x : Device). e.id ≢ x.id) d es (λ r. p (sym r)) q,
    HasDistinctIds-insert_device d es h k,
  )
]

pub HasDistinctIds-sort_devices :
    (ds : List Device) → HasDistinctIds ds → HasDistinctIds (sort_devices ds)
unfolding sort_devices
HasDistinctIds-sort_devices [] h = tt
HasDistinctIds-sort_devices (d ∷ ds) (p, h) =
    HasDistinctIds-insert_device d (sort_devices ds)
      (All-sort_devices (λ (e : Device). d.id ≢ e.id) ds p) (HasDistinctIds-sort_devices ds h)

pub All-select {κ} :
    (P : Device → Type κ) (p : Device → Bool) (ds : List Device) → All P ds → All P (select p ds)
All-select P p [] h = tt
All-select P p (d ∷ ds) (q, h) = elim (Bool-cases (p d)) [
  | inl b ↦ rw b (q, All-select P p ds h)
  | inr b ↦ rw b (All-select P p ds h)
]

pub HasDistinctIds-select :
    (p : Device → Bool) (ds : List Device) → HasDistinctIds ds → HasDistinctIds (select p ds)
HasDistinctIds-select p [] h = tt
HasDistinctIds-select p (d ∷ ds) (q, h) = elim (Bool-cases (p d)) [
  | inl b ↦ rw b (All-select (λ (e : Device). d.id ≢ e.id) p ds q, HasDistinctIds-select p ds h)
  | inr b ↦ rw b (HasDistinctIds-select p ds h)
]

-- `rn <= k`, where the device is ranked at all.
abbrev pub ranks_within : ℕ → List (String × ℕ) → Device → Bool
ranks_within k ranks d = elim (rank_of d.id ranks) [
  | none ↦ false
  | some rn ↦ not (exceeds rn (pos k))
]

tail_ranks :
    (k n : ℕ) (x : Device) (ranks : List (String × ℕ)) (ds : List Device)
    → All (λ (e : Device). x.id ≢ e.id) ds
    → All (λ d. ranks_within k ((x.id, n) ∷ ranks) d ≡ ranks_within k ranks d) ds
unfolding rank_of
tail_ranks k n x ranks [] h = tt
tail_ranks k n x ranks (d ∷ ds) (p, h) =
    (ground (arith, eq_iff x.id d.id), tail_ranks k n x ranks ds h)

head_ranks :
    (k n : ℕ) (d : Device) (ranks : List (String × ℕ))
    → ranks_within k ((d.id, n) ∷ ranks) d ≡ not (ltb k n)
unfolding rank_of
head_ranks k n d ranks = ground (arith, eq_iff d.id d.id)

count-cons :
    (p : Device → Bool) (b : Bool) (d : Device) (ds : List Device) (m : ℕ)
    → p d ≡ b
    → count p ds ≡ m
    → count p (d ∷ ds) ≡ (if b then suc m else m)
count-cons p b d ds m e h = ground arith

room :
    (k n m : ℕ)
    → (if not (ltb k (suc n)) then suc (min (k - suc n) m) else min (k - suc n) m)
      ≡ min (k - n) (suc m)
room k n m = ground arith

-- Of devices with distinct ids that are numbered from `n + 1` on, as many have a number of at most
-- `k` as there is room for.
pub count-ranks_within :
    (k n : ℕ) (ds : List Device)
    → HasDistinctIds ds
    → count (ranks_within k (number_from (suc n) ds)) ds ≡ min (k - n) (length ds)
unfolding number_from
count-ranks_within k n [] h = omega arith
count-ranks_within k n (d ∷ ds) (p, h) =
    let tails =
      count-congruence (ranks_within k ((d.id, suc n) ∷ number_from (suc (suc n)) ds))
        (ranks_within k (number_from (suc (suc n)) ds)) ds
        (tail_ranks k (suc n) d (number_from (suc (suc n)) ds) ds p) in
    let all =
      count-cons (ranks_within k ((d.id, suc n) ∷ number_from (suc (suc n)) ds))
        (not (ltb k (suc n))) d ds (min (k - suc n) (length ds))
        (head_ranks k (suc n) d (number_from (suc (suc n)) ds))
        (tails ∙ count-ranks_within k (suc n) ds h) in
    all ∙ room k n (length ds)

length-insert_device :
    (d : Device) (ds : List Device) → length (insert_device d ds) ≡ suc (length ds)
unfolding insert_device
length-insert_device d [] = refl
length-insert_device d (e ∷ es) = ground (arith, length-insert_device d es)

pub length-sort_devices : (ds : List Device) → length (sort_devices ds) ≡ length ds
unfolding sort_devices
length-sort_devices [] = refl
length-sort_devices (d ∷ ds) =
    length-insert_device d (sort_devices ds) ∙ ap suc (length-sort_devices ds)

-- A test of `HasDistinctIds` for concrete tables.
abbrev pub all_differ : String → List Device → Bool
all_differ id [] = true
all_differ id (e ∷ es) = not (id == e.id) && all_differ id es

abbrev pub has_distinct_ids : List Device → Bool
has_distinct_ids [] = true
has_distinct_ids (d ∷ ds) = all_differ d.id ds && has_distinct_ids ds

all_differ_sound :
    (id : String) (ds : List Device) → all_differ id ds ≡ true → All (λ (e : Device). id ≢ e.id) ds
all_differ_sound id [] h = tt
all_differ_sound id (e ∷ es) h =
    (ground (arith, eq_iff id e.id), all_differ_sound id es (ground arith))

pub HasDistinctIds-of_test : (ds : List Device) → has_distinct_ids ds ≡ true → HasDistinctIds ds
HasDistinctIds-of_test [] h = tt
HasDistinctIds-of_test (d ∷ ds) h =
    (all_differ_sound d.id ds (ground arith), HasDistinctIds-of_test ds (ground arith))
