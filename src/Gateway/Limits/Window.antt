-- ===== src/Gateway/Limits/Window.antt =====
-- How many requests pass within a window.
use grain_guard.Prelude.{
  ℕ, suc, ◌+◌, ◌-◌, ◌*◌, ◌≤◌, ◌<◌, ◌≡◌, refl, sym, subst, Bool, true, not, ◌&&◌, List, [], ◌∷◌, All,
  All-imp, length, ltb, leb, if◌then◌else◌, Bool-cases, inl, inr, arith,
}
use grain_guard.Gateway.Limits.{Bucket, pruned, added, Step, step, rate_limit_middleware, is_passed}
use grain_guard.Gateway.Limits.Counting.{
  count_from, count_from-length, IsKept, count_from-pruned, added-IsKept,
}

-- Redis answers, and the window is the given one.
pub record IsUniform (window : ℕ) (s : Step) : Type 0 where
  pub answered : s.answers ≡ true
  pub same_window : s.options.window_seconds ≡ window

abbrev pub IsOrdered : List Step → Type 0
IsOrdered [] = Unit
IsOrdered (s ∷ rest) = All (λ (t : Step). s.now ≤ t.now) rest × IsOrdered rest

pub step-bucket :
    (window : ℕ) (s : Step) (b : Bucket) → IsUniform window s → (step s b).1 ≡ added window s.now b
unfolding rate_limit_middleware
step-bucket window s b u = rw (u.answered, u.same_window) refl

pub step-passed :
    (window : ℕ) (s : Step) (b : Bucket)
    → IsUniform window s
    → is_passed (step s b).0 ≡ not (leb s.options.max_requests (length (pruned window s.now b)))
unfolding rate_limit_middleware
step-passed window s b u =
    elim (Bool-cases (leb s.options.max_requests (length (pruned window s.now b)))) [
      | inl e ↦ rw (u.answered, u.same_window, e) refl
      | inr e ↦ rw (u.answered, u.same_window, e) refl
    ]

module _ (a window limit : ℕ) where
  -- A limiter for at most `limit` requests lets a request pass in the window from `a` on.
  abbrev pub is_counted : Step → Bucket → Bool
  is_counted s b =
      is_passed (step s b).0
      && leb a s.now
      && ltb s.now (a + window * 1000)
      && leb s.options.max_requests limit

  -- How many of the requests, each at a limiter, pass so.
  abbrev pub tally : List Step → Bucket → ℕ
  tally [] b = 0
  tally (s ∷ rest) b = (if is_counted s b then 1 else 0) + tally rest (step s b).1

  tally-after :
      (steps : List Step) (b : Bucket)
      → All (λ (s : Step). a + window * 1000 ≤ s.now) steps
      → tally steps b ≡ 0
  tally-after [] b h = refl
  tally-after (s ∷ rest) b h = let r = tally-after rest (step s b).1 h.1 in ground (arith, r, h.0)

  -- Where a request is counted, there was room for it.
  counted_room :
      (s : Step) (b : Bucket)
      → IsUniform window s
      → IsKept a window b
      → is_counted s b ≡ true
      → count_from a b.scores < limit
  counted_room s b u k t =
      let c = count_from-pruned a window s.now b (ground arith) k in
      let l = count_from-length a (pruned window s.now b) in
      let p = step-passed window s b u in ground (arith, c, l, p)

  added-count :
      (t : ℕ) (b : Bucket)
      → a ≤ t
      → t < a + window * 1000
      → IsKept a window b
      → count_from a (added window t b).scores ≡ suc (count_from a b.scores)
  added-count t b h l k = let c = count_from-pruned a window t b l k in ground arith

  -- From `a` on, the requests that pass and the entries do not exceed the limit.
  tally-within :
      (steps : List Step) (b : Bucket)
      → IsOrdered steps
      → All (IsUniform window) steps
      → All (λ (s : Step). a ≤ s.now) steps
      → IsKept a window b
      → tally steps b ≤ limit - count_from a b.scores
  tally-within [] b o u h k = omega arith
  tally-within (s ∷ rest) b o u h k =
      let q = step-bucket window s b u.0 in
      elim (Bool-cases (ltb s.now (a + window * 1000))) [
        | inl e ↦
            let c = added-count s.now b h.0 (ground arith) k in
            let r =
              subst (λ d. tally rest d ≤ limit - count_from a (added window s.now b).scores) (sym q)
                (tally-within rest (added window s.now b) o.1 u.1 h.1
                  (added-IsKept a window s.now b h.0)) in
            elim (Bool-cases (is_counted s b)) [
              | inl t ↦ let room = counted_room s b u.0 k t in rw t (omega (arith, r, c, room))
              | inr t ↦ rw t (omega (arith, r, c))
            ]
        | inr e ↦
            let later =
              All-imp (λ (t : Step). s.now ≤ t.now) (λ (t : Step). a + window * 1000 ≤ t.now) rest
                (λ t g. ground arith) o.0 in
            let z = tally-after (s ∷ rest) b (ground arith, later) in omega (arith, z)
      ]

  tally-ordered :
      (steps : List Step) (b : Bucket)
      → IsOrdered steps
      → All (IsUniform window) steps
      → count_from a b.scores ≡ 0
      → tally steps b ≤ limit
  tally-ordered [] b o u z = omega arith
  tally-ordered (s ∷ rest) b o u z = elim (Bool-cases (leb a s.now)) [
    | inl e ↦
        let from =
          All-imp (λ (t : Step). s.now ≤ t.now) (λ (t : Step). a ≤ t.now) rest (λ t g. ground arith)
            o.0 in
        let r = tally-within (s ∷ rest) b o u (ground arith, from) (inl z) in omega (arith, r)
    | inr e ↦
        let q = step-bucket window s b u.0 in
        let c = count_from-pruned a window s.now b (ground arith) (inl z) in
        let r =
          subst (λ d. tally rest d ≤ limit) (sym q)
            (tally-ordered rest (added window s.now b) o.1 u.1 (ground (arith, c, z))) in
        ground (arith, r)
  ]

-- Where the limiters of an address have one window, Redis answers, and the requests come in the order of
-- their times, the limiters that allow at most `limit` requests let at most `limit` of them pass in
-- each window from a time `a` on, from an empty bucket on, whichever limiters the requests come to.
pub tally-bounds :
    (a window limit expires : ℕ) (steps : List Step)
    → IsOrdered steps
    → All (IsUniform window) steps
    → tally a window limit steps (record { scores = []; expires = expires }) ≤ limit
tally-bounds a window limit expires steps o u =
    tally-ordered a window limit steps (record { scores = []; expires = expires }) o u refl
