-- ===== src/Sessions/Windows.antt =====
-- server/src/services/session.service.ts: what the rolling window of the throttle keeps, and when it
-- opens again.
use cargo_execution_assistan.Prelude.{
  ℕ, ◌+◌, ◌-◌, ◌*◌, ◌≤◌, ◌<◌, ◌≡◌, refl, sym, ap, ◌∙◌, true, false, List, [], ◌∷◌, ◌++◌, length,
  length-append, keep_if-true, keep_if-false, All, ltb, leb, arith, Bool-cases, inl, inr,
}
use cargo_execution_assistan.Sessions.{throttle_max_failures, throttle_window_ms}
use cargo_execution_assistan.Sessions.Throttle.{
  ThrottleStore, prune_failures, retry_after_ms, seconds_up,
}

-- The oldest first.
abbrev pub Ascending : List ℕ → Type 0
Ascending [] = Unit
Ascending (t ∷ ts) = All (λ u. t ≤ u) ts × Ascending ts

-- At most five failures, in order, none after `now`.
pub record IsRecorded (now : ℕ) (failures : List ℕ) : Type 0 where
  pub few : length failures ≤ throttle_max_failures
  pub past : All (λ t. t ≤ now) failures
  pub ordered : Ascending failures

-- Every entry of the store is such a list.
abbrev pub IsSound : ℕ → ThrottleStore → Type 0
IsSound now store = All (λ e. IsRecorded now e.1) store

module _ (P : ℕ → Type 0) (now : ℕ) where
  pub All-prune : (ts : List ℕ) → All P ts → All P (prune_failures ts now)
  All-prune [] h = tt
  All-prune (t ∷ ts) h = ground (arith, All-prune ts h.1)

pub All-weaken : {P Q : ℕ → Type 0} → ((t : ℕ) → P t → Q t) → (ts : List ℕ) → All P ts → All Q ts
All-weaken f [] h = tt
All-weaken f (t ∷ ts) h = (f t h.0, All-weaken f ts h.1)

pub All-append : (P : ℕ → Type 0) (ts : List ℕ) (u : ℕ) → All P ts → P u → All P (ts ++ u ∷ [])
All-append P [] u h p = (p, tt)
All-append P (t ∷ ts) u h p = (h.0, All-append P ts u h.1 p)

pub length-prune : (ts : List ℕ) (now : ℕ) → length (prune_failures ts now) ≤ length ts
length-prune [] now = omega arith
length-prune (t ∷ ts) now = ground (arith, length-prune ts now)

Ascending-prune : (ts : List ℕ) (now : ℕ) → Ascending ts → Ascending (prune_failures ts now)
Ascending-prune [] now h = tt
Ascending-prune (t ∷ ts) now h =
    ground (arith, All-prune (λ u. t ≤ u) now ts h.0, Ascending-prune ts now h.1)

Ascending-append :
    (ts : List ℕ) (u : ℕ) → Ascending ts → All (λ t. t ≤ u) ts → Ascending (ts ++ u ∷ [])
Ascending-append [] u h past = (tt, tt)
Ascending-append (t ∷ ts) u h past =
    (All-append (λ v. t ≤ v) ts u h.0 past.0, Ascending-append ts u h.1 past.1)

pub prune-IsRecorded :
    (then now : ℕ) (ts : List ℕ)
    → then ≤ now
    → IsRecorded then ts
    → IsRecorded now (prune_failures ts now)
prune-IsRecorded then now ts later r = record {
  few = omega (arith, length-prune ts now, r.few);
  past = All-prune (λ t. t ≤ now) now ts (All-weaken (λ t h. omega arith) ts r.past);
  ordered = Ascending-prune ts now r.ordered;
}

-- One more failure than the survivors of an unthrottled key.
pub append-IsRecorded :
    (now : ℕ) (ts : List ℕ)
    → IsRecorded now ts
    → length ts < throttle_max_failures
    → IsRecorded now (ts ++ now ∷ [])
append-IsRecorded now ts r room = record {
  few = omega (arith, length-append ts (now ∷ []), room);
  past = All-append (λ t. t ≤ now) ts now r.past (omega arith);
  ordered = Ascending-append ts now r.ordered r.past;
}

-- Inside the window of the oldest one nothing is dropped, and at its end the oldest one is.
prune-whole :
    (ts : List ℕ) (now : ℕ)
    → All (λ t. ltb (now - t) throttle_window_ms ≡ true) ts
    → prune_failures ts now ≡ ts
prune-whole [] now h = refl
prune-whole (t ∷ ts) now h =
    keep_if-true (λ u. ltb (now - u) throttle_window_ms) t ts h.0
    ∙ ap (λ l. t ∷ l) (prune-whole ts now h.1)

pub window_open :
    (oldest now : ℕ) (ts : List ℕ)
    → Ascending (oldest ∷ ts)
    → now < oldest + throttle_window_ms
    → prune_failures (oldest ∷ ts) now ≡ oldest ∷ ts
window_open oldest now ts ordered early =
    prune-whole (oldest ∷ ts) now (ground arith, All-weaken (λ t h. ground arith) ts ordered.0)

pub window_closed :
    (oldest now : ℕ) (ts : List ℕ)
    → oldest + throttle_window_ms ≤ now
    → length (prune_failures (oldest ∷ ts) now) ≤ length ts
window_closed oldest now ts late =
    let gone : ltb (now - oldest) throttle_window_ms ≡ false = ground arith in
    rw (keep_if-false (λ u. ltb (now - u) throttle_window_ms) oldest ts gone) (length-prune ts now)

prune-inside :
    (ts : List ℕ) (now : ℕ)
    → All (λ t. t < now + 1) ts
    → All (λ t. now < t + throttle_window_ms) (prune_failures ts now)
prune-inside [] now h = tt
prune-inside (t ∷ ts) now h = ground (arith, prune-inside ts now h.1)

-- A key with five failures is throttled exactly until the oldest one leaves the window.
throttled_until :
    (now oldest : ℕ) (ts : List ℕ) (later : ℕ)
    → IsRecorded now (oldest ∷ ts)
    → leb throttle_max_failures (length (oldest ∷ ts)) ≡ true
    → leb throttle_max_failures (length (prune_failures (oldest ∷ ts) later))
      ≡ ltb later (oldest + throttle_window_ms)
throttled_until now oldest ts later r full =
    elim (Bool-cases (ltb later (oldest + throttle_window_ms))) [
      | inl early ↦ rw (window_open oldest later ts r.ordered (ground arith)) (full ∙ sym early)
      | inr late ↦ ground (arith, window_closed oldest later ts (ground arith), r.few)
    ]

-- The end of the throttling that a full list of survivors starts.
pub throttled-survivors :
    (now : ℕ) (ts : List ℕ)
    → IsRecorded now ts
    → leb throttle_max_failures (length (prune_failures ts now)) ≡ true
    → let surviving = prune_failures ts now in
      (deadline : ℕ) × (now < deadline)
      × (deadline ≤ now + throttle_window_ms)
      × (retry_after_ms surviving now ≡ deadline - now)
      × ((later : ℕ)
          → leb throttle_max_failures (length (prune_failures surviving later))
            ≡ ltb later deadline)
throttled-survivors now ts r full =
    of_survivors (prune_failures ts now) (prune-IsRecorded now now ts (omega arith) r) full
      (prune-inside ts now (All-weaken (λ t h. omega arith) ts r.past))
  where
    of_survivors :
        (surviving : List ℕ)
        → IsRecorded now surviving
        → leb throttle_max_failures (length surviving) ≡ true
        → All (λ t. now < t + throttle_window_ms) surviving
        → (deadline : ℕ) × (now < deadline)
          × (deadline ≤ now + throttle_window_ms)
          × (retry_after_ms surviving now ≡ deadline - now)
          × ((later : ℕ)
              → leb throttle_max_failures (length (prune_failures surviving later))
                ≡ ltb later deadline)
    of_survivors [] r full inside = cc
    of_survivors (oldest ∷ rest) r full inside = (
      oldest + throttle_window_ms,
      inside.0,
      omega (arith, r.past.0),
      omega arith,
      λ later. throttled_until now oldest rest later r full,
    )

-- The rounded wait.
pub seconds_up_lem :
    (now deadline n : ℕ)
    → now < deadline
    → deadline ≤ now + throttle_window_ms
    → n ≡ seconds_up (deadline - now)
    → (1 ≤ n) × (n ≤ 900) × (now + 1000 * n < deadline + 1000) × (deadline ≤ now + 1000 * n)
seconds_up_lem now deadline n ahead near h = (omega arith, omega arith, omega arith, omega arith)
