-- ===== src/Gateway/Limits/Bulk.antt =====
-- server.ts, which mounts the routers one after the other, and devicesImport.ts: a bulk upload comes
-- to the limiters of six routers before it comes to its own. No router has authenticated it by then,
-- so that all count it under the address of the request.
use grain_guard.Prelude.{
  ℕ, suc, ◌+◌, ◌*◌, ◌≤◌, ◌<◌, ◌≡◌, refl, sym, subst, true, false, List, [], ◌∷◌, ◌++◌, All, length,
  Bool-cases, inl, inr, arith,
}
use grain_guard.Gateway.Limits.{
  RateLimitOptions, api_rate_limiter, bulk_rate_limiter, Bucket, pruned, added, Step, step, through,
  is_passed,
}
use grain_guard.Gateway.Limits.Counting.{
  count_from, count_from-length, count_from-pruned, added-IsKept,
}
use grain_guard.Gateway.Limits.Window.{IsUniform, step-bucket, step-passed}

abbrev pub at : RateLimitOptions → ℕ → Step
at o now = record { options = o; answers = true; now = now }

-- webhooksRouter, apiKeysRouter, notificationPrefsRouter, teamRouter, ssoRouter and devicesRouter
abbrev pub router_steps : (ℕ → ℕ) → List Step
router_steps times =
    at api_rate_limiter (times 0)
    ∷ at api_rate_limiter (times 1)
    ∷ at api_rate_limiter (times 2)
    ∷ at api_rate_limiter (times 3)
    ∷ at api_rate_limiter (times 4)
    ∷ at api_rate_limiter (times 5)
    ∷ []

-- POST /devices/bulk, with the time at which it comes to each limiter
abbrev pub bulk_steps : (ℕ → ℕ) → List Step
bulk_steps times = router_steps times ++ (at bulk_rate_limiter (times 6) ∷ [])

module _ (a window : ℕ) where
  -- A step in the window from `a` on.
  record IsWithin (s : Step) : Type 0 where
    uniform : IsUniform window s
    from : a ≤ s.now
    until : s.now < a + window * 1000

  -- Whoever looks at the bucket in the window finds at least `n` entries of the window.
  abbrev Holds : ℕ → Bucket → Type 0
  Holds n b = (t : ℕ) → t < a + window * 1000 → n ≤ count_from a (pruned window t b)

  added-Holds :
      (n t : ℕ) (b : Bucket)
      → a ≤ t
      → t < a + window * 1000
      → Holds n b
      → Holds (suc n) (added window t b)
  added-Holds n t b f l h u k =
      let c = count_from-pruned a window u (added window t b) k (added-IsKept a window t b f) in
      let m = h t l in ground (arith, c, m)

  step-Holds : (n : ℕ) (s : Step) (b : Bucket) → IsWithin s → Holds n b → Holds (suc n) (step s b).1
  step-Holds n s b w h =
      subst (Holds (suc n)) (sym (step-bucket window s b w.uniform))
        (added-Holds n s.now b w.from w.until h)

  through-Holds :
      (steps : List Step) (n : ℕ) (b : Bucket)
      → All IsWithin steps
      → Holds n b
      → (through steps b).0 ≡ true
      → Holds (length steps + n) (through steps b).1
  unfolding through
  through-Holds [] n b w h e = λ t k. let m = h t k in omega (arith, m)
  through-Holds (s ∷ rest) n b w h e = elim (Bool-cases (is_passed (step s b).0)) [
    | inl p ↦
        let r = through-Holds rest (suc n) (step s b).1 w.1 (step-Holds n s b w.0 h) (rw p at e) in
        rw p (λ t k. let m = r t k in omega (arith, m))
    | inr p ↦ absurd (let q : false ≡ true = rw p at e in ground arith)
  ]

  -- A limiter after others refuses a request that the entries so far leave no room for.
  through-refuses :
      (steps : List Step) (last : Step) (n : ℕ) (b : Bucket)
      → All IsWithin steps
      → IsWithin last
      → Holds n b
      → last.options.max_requests ≤ length steps + n
      → (through (steps ++ (last ∷ [])) b).0 ≡ false
  unfolding through
  through-refuses [] last n b w l h e =
      let m = h last.now l.until in
      let c = count_from-length a (pruned window last.now b) in
      let p = step-passed window last b l.uniform in ground (arith, m, c, p, e)
  through-refuses (s ∷ rest) last n b w l h e = elim (Bool-cases (is_passed (step s b).0)) [
    | inl p ↦ rw p (
        through-refuses rest last (suc n) (step s b).1 w.1 l (step-Holds n s b w.0 h)
          (omega (arith, e)))
    | inr p ↦ rw p refl
  ]

at-IsWithin :
    (a now : ℕ) (o : RateLimitOptions)
    → o.window_seconds ≡ 60
    → a ≤ now
    → now < a + 60 * 1000
    → IsWithin a 60 (at o now)
at-IsWithin a now o e f l = record {
  uniform = record { answered = refl; same_window = e };
  from = f;
  until = l;
}

module _ (a : ℕ) (times : ℕ → ℕ) (from : (i : ℕ) → a ≤ times i)
    (until : (i : ℕ) → times i < a + 60 * 1000) where
  router_steps-IsWithin : All (IsWithin a 60) (router_steps times)
  router_steps-IsWithin =
      let w = λ (i : ℕ). at-IsWithin a (times i) api_rate_limiter refl (from i) (until i) in
      (w 0, (w 1, (w 2, (w 3, (w 4, (w 5, tt))))))

  bulk-IsWithin : IsWithin a 60 (at bulk_rate_limiter (times 6))
  bulk-IsWithin = at-IsWithin a (times 6) bulk_rate_limiter refl (from 6) (until 6)

  bulk_steps-IsWithin : All (IsWithin a 60) (bulk_steps times)
  bulk_steps-IsWithin =
      let r = router_steps-IsWithin in
      (r.0, (r.1.0, (r.1.1.0, (r.1.1.1.0, (r.1.1.1.1.0, (r.1.1.1.1.1.0, (bulk-IsWithin, tt)))))))

-- Of two bulk uploads from one address within 60 seconds the second is refused, where the first passed
-- all its limiters and Redis answers both, although the limiter of the route allows ten requests: each
-- upload counts seven times.
pub bulk_steps-refuses :
    (a : ℕ) (first second : ℕ → ℕ) (b : Bucket)
    → ((i : ℕ) → a ≤ first i)
    → ((i : ℕ) → first i < a + 60 * 1000)
    → ((i : ℕ) → a ≤ second i)
    → ((i : ℕ) → second i < a + 60 * 1000)
    → (through (bulk_steps first) b).0 ≡ true
    → (through (bulk_steps second) (through (bulk_steps first) b).1).0 ≡ false
bulk_steps-refuses a first second b f g h k e =
    through-refuses a 60 (router_steps second) (at bulk_rate_limiter (second 6)) 7
      (through (bulk_steps first) b).1 (router_steps-IsWithin a second h k)
      (bulk-IsWithin a second h k)
      (through-Holds a 60 (bulk_steps first) 0 b (bulk_steps-IsWithin a first f g)
        (λ t l. omega arith) e)
      (omega arith)
