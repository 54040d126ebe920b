-- ===== src/PixGateway/Retries.antt =====
-- How a request with retries ends.
use blanco_financas_api.Prelude.{
  ℕ, zero, suc, ◌+◌, ◌-◌, ◌*◌, ◌^◌, ◌≤◌, ◌<◌, ◌≡◌, refl, sym, arith, ◌==◌, Bool, true, false,
  Bool-cases, inl, inr, ◌⊎◌, List, [], ◌∷◌, All, length,
}
use native.Mathlib.Nat.{pow-suc}
use native.Mathlib.Numerals.{add-one}
use blanco_financas_api.PixGateway.{
  Attempt, Failure, returned, failed, is_retryable, Run, retry_from, with_retry,
}

abbrev pub sum : List ℕ → ℕ
sum [] = 0
sum (x ∷ xs) = x + sum xs

-- An attempt after which the loop may go on.
abbrev pub may_retry : {A : Type 0} → List ℕ → Attempt A → Bool
may_retry statuses (returned a) = false
may_retry statuses (failed f) = is_retryable statuses f

-- The numbers of so many rounds, from the `n`-th on.
abbrev pub rounds : ℕ → ℕ → List ℕ
rounds n zero = []
rounds n (suc count) = n ∷ rounds (n + 1) count

-- How a run of the loop from the `n`-th round on went.
pub record Went {A : Type 0} (attempt : ℕ → Attempt A) (max_attempts base_delay : ℕ)
    (statuses : List ℕ) (n : ℕ) (run : Run A) : Type 0 where
  pub within : n + length run.delays < max_attempts
  pub last : run.outcome ≡ attempt (n + length run.delays)
  pub earlier : All (λ k. may_retry statuses (attempt k) ≡ true) (rounds n (length run.delays))
  pub ended : (may_retry statuses run.outcome ≡ false) ⊎ (n + length run.delays + 1 ≡ max_attempts)
  pub waited : sum run.delays + base_delay * 2 ^ n ≡ base_delay * 2 ^ (n + length run.delays)

Attempt-cases :
    {A : Type 0} (a : Attempt A) → ((x : A) × (a ≡ returned x)) ⊎ ((f : Failure) × (a ≡ failed f))
Attempt-cases (returned x) = inl (x, refl)
Attempt-cases (failed f) = inr (f, refl)

module _ {A : Type 0} (attempt : ℕ → Attempt A) (max_attempts base_delay : ℕ)
    (statuses : List ℕ) where
  abbrev Goes : ℕ → Run A → Type 0
  Goes n run = Went attempt max_attempts base_delay statuses n run

  stops :
      (n m : ℕ) {a : Attempt A}
      → attempt n ≡ a
      → n < max_attempts
      → (may_retry statuses a ≡ false) ⊎ (n + 0 + 1 ≡ max_attempts)
      → m ≡ n + 0
      → Goes n (record { outcome = a; delays = [] })
  stops n m {a} e h done q =
      let here : attempt m ≡ a = let p : m ≡ n = omega (arith, q) in rw p e in
      record {
        within = omega arith;
        last = let k = rw q at here in sym k;
        earlier = tt;
        ended = done;
        waited = let z : n + 0 ≡ n = omega arith in rw z (omega arith);
      }

  slept_on :
      (n : ℕ) (run : Run A)
      → may_retry statuses (attempt n) ≡ true
      → Goes (n + 1) run
      → Goes n (record { outcome = run.outcome; delays = base_delay * 2 ^ n ∷ run.delays })
  slept_on n run r w =
      let shift : n + 1 + length run.delays ≡ n + suc (length run.delays) = omega arith in
      record {
        within = omega (arith, w.within);
        last = rw shift at w.last;
        earlier = (r, w.earlier);
        ended = rw shift at w.ended;
        waited =
            let double : base_delay * 2 ^ (n + 1) ≡ base_delay * 2 ^ n + base_delay * 2 ^ n =
              rw (add-one n, pow-suc 2 n) (grind arith) in
            let k = rw (shift, double) at w.waited in omega (arith, k);
      }

  round-Goes :
      (n left : ℕ)
      → n + suc left ≡ max_attempts
      → (n + 1 < max_attempts
          → Goes (n + 1) (retry_from attempt max_attempts base_delay statuses (n + 1) left))
      → Goes n (retry_from attempt max_attempts base_delay statuses n (suc left))
  unfolding retry_from
  round-Goes n left h rest = elim (Attempt-cases (attempt n)) [
    | inl (a, e) ↦ rw (e, retry_from) (stops n (n + 0) e (omega arith) (inl refl) refl)
    | inr (f, e) ↦ elim (Bool-cases (is_retryable statuses f)) [
      | inr once ↦ rw (e, retry_from, once) (stops n (n + 0) e (omega arith) (inl once) refl)
      | inl again ↦ elim (Bool-cases (n == max_attempts - 1)) [
        | inl last ↦
            rw (e, retry_from, again, last)
              (stops n (n + 0) e (omega arith) (inr (ground arith)) refl)
        | inr more ↦
            rw (e, retry_from, again, more)
              (slept_on n (retry_from attempt max_attempts base_delay statuses (n + 1) left)
                (rw e again) (rest (ground arith)))
      ]
    ]
  ]

  retry_from-Went :
      (n left : ℕ)
      → n + suc left ≡ max_attempts
      → Goes n (retry_from attempt max_attempts base_delay statuses n (suc left))
  retry_from-Went n zero h = round-Goes n zero h (λ more. absurd (omega (arith, more)))
  retry_from-Went n (suc left) h =
      round-Goes n (suc left) h (λ more. retry_from-Went (n + 1) left (omega arith))

-- A request of which at least one attempt is made ends, within the attempts that it has, with what
-- its last attempt gave: a timeout or a failure that stands for trying again came before each
-- further attempt, and the last one gave an answer or another failure, or was the last that there
-- is. It has then slept the base delay for each power of two below, in all the base delay for
-- 2 ^ n - 1 after n further attempts.
pub with_retry-Went :
    {A : Type 0} (attempt : ℕ → Attempt A) (max_attempts base_delay : ℕ) (statuses : List ℕ)
    → 1 ≤ max_attempts
    → Went attempt max_attempts base_delay statuses 0
        (with_retry attempt max_attempts base_delay statuses)
unfolding with_retry
with_retry-Went attempt zero base_delay statuses h = absurd (omega (arith, h))
with_retry-Went attempt (suc more) base_delay statuses h =
    retry_from-Went attempt (suc more) base_delay statuses 0 more (omega arith)
