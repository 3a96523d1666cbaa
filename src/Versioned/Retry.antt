-- ===== src/Versioned/Retry.antt =====
-- `retry_with_backoff` of crates/core/src/backup/versioned/store.rs.
use mathlib.Core.Path.{subst}
use backup_sync.Prelude.{
  ℕ, zero, suc, ◌+◌, ◌≤◌, ◌<◌, ◌≡◌, refl, true, false, ◌&&◌, Option, none, some, arith, ltb,
  if◌then◌else◌, Result, ok, err, max, Bool-cases, is_ok, ==_iff, ◌-◌, inl, inr, ◌∙◌, ap, ◌==◌,
}
use backup_sync.Versioned.Disk.{StoreError, timed_out, no_error_captured}

abbrev pub last_error : Option StoreError → StoreError
last_error none = no_error_captured
last_error (some e) = e

-- `Ok(v) => return Ok((v, attempt_idx + 1))`, or on to the next attempt.
abbrev outcome :
    {A : Type 0}
    → ℕ
    → (StoreError → Result StoreError (A × ℕ))
    → Result StoreError A
    → Result StoreError (A × ℕ)
outcome attempt_idx retry (ok v) = ok (v, attempt_idx + 1)
outcome attempt_idx retry (err e) = retry e

module _ {A : Type 0} (timeout_seconds : ℕ) (elapsed : ℕ → ℕ) (op : ℕ → Result StoreError A) where
  -- The rounds that are left, from an attempt on: `elapsed` tells the seconds since the start, and
  -- `op` the outcome, of each attempt. Between two attempts the code sleeps.
  unfoldable pub attempt : ℕ → ℕ → Option StoreError → Result StoreError (A × ℕ)
  attempt zero attempt_idx last = err (last_error last)
  attempt (suc rounds) attempt_idx last =
      let retry = λ (e : StoreError). attempt rounds (attempt_idx + 1) (some e) in
      if ltb 0 timeout_seconds && ltb timeout_seconds (elapsed attempt_idx)
      then err (timed_out (max attempt_idx 1))
      else outcome attempt_idx retry (op attempt_idx)

  unfoldable pub retry_with_backoff : ℕ → Result StoreError (A × ℕ)
  unfolding attempt
  retry_with_backoff retries = attempt (retries + 1) 0 none

  -- A result comes from the attempt that the count names, and every attempt before it failed.
  pub record IsFirstSuccess (from : ℕ) (limit : ℕ) (v : A) (count : ℕ) : Type 0 where
    pub at_least : suc from ≤ count
    pub at_most : count ≤ limit
    pub succeeded : op (count - 1) ≡ ok v
    pub failed_before : (i : ℕ) → from ≤ i → suc i < count → is_ok (op i) ≡ false

  -- The outcome of one attempt that is made in time, and what the rest of the loop gives.
  IsFirstSuccess-step :
      (rounds from : ℕ) (v : A) (count : ℕ) (r : Result StoreError A)
      → op from ≡ r
      → ((e : StoreError)
          → attempt rounds (from + 1) (some e) ≡ ok (v, count)
          → IsFirstSuccess (from + 1) (from + 1 + rounds) v count)
      → outcome from (λ e. attempt rounds (from + 1) (some e)) r ≡ ok (v, count)
      → IsFirstSuccess from (from + suc rounds) v count
  IsFirstSuccess-step rounds from v count (ok w) e ih h =
      let n : from + 1 ≡ count = ground arith in
      let same : w ≡ v = ground arith in
      let place : count - 1 ≡ from = omega arith in
      record {
        at_least = omega arith;
        at_most = omega arith;
        succeeded = rw place (e ∙ ap ok same);
        failed_before = λ i low high. absurd (omega arith);
      }
  IsFirstSuccess-step rounds from v count (err x) e ih h =
      let rest = ih x h in
      record {
        at_least = omega (arith, rest.at_least);
        at_most = omega (arith, rest.at_most);
        succeeded = rest.succeeded;
        failed_before = λ i low high. elim (Bool-cases (i == from)) [
          | inl same ↦ let here : i ≡ from = (==_iff i from).0 same in rw here (ap is_ok e)
          | inr other ↦ rest.failed_before i (ground arith) high
        ];
      }

  attempt-IsFirstSuccess :
      (rounds from : ℕ) (last : Option StoreError) (v : A) (count : ℕ)
      → attempt rounds from last ≡ ok (v, count)
      → IsFirstSuccess from (from + rounds) v count
  unfolding attempt
  attempt-IsFirstSuccess zero from last v count h = cc
  attempt-IsFirstSuccess (suc rounds) from last v count h =
      elim (Bool-cases (ltb 0 timeout_seconds && ltb timeout_seconds (elapsed from))) [
        | inl late ↦ absurd (ground (arith, late, h))
        | inr in_time ↦
            IsFirstSuccess-step rounds from v count (op from) refl
              (λ e. attempt-IsFirstSuccess rounds (from + 1) (some e) v count) (rw in_time at h)
      ]

  -- If the operation returns, the count names the first attempt that succeeded: no later than one
  -- after the retries, and each attempt before it failed.
  pub retry_with_backoff-IsFirstSuccess :
      (retries : ℕ) (v : A) (count : ℕ)
      → retry_with_backoff retries ≡ ok (v, count)
      → IsFirstSuccess 0 (retries + 1) v count
  unfolding retry_with_backoff
  retry_with_backoff-IsFirstSuccess retries v count h =
      subst (λ n. IsFirstSuccess 0 n v count) (omega arith)
        (attempt-IsFirstSuccess (retries + 1) 0 none v count h)

  attempt_succeeds :
      (rounds from i : ℕ) (last : Option StoreError)
      → timeout_seconds ≡ 0
      → from ≤ i
      → i < from + rounds
      → is_ok (op i) ≡ true
      → is_ok (attempt rounds from last) ≡ true
  unfolding attempt
  attempt_succeeds zero from i last t low high h = absurd (omega arith)
  attempt_succeeds (suc rounds) from i last t low high h = elim (Bool-cases (i == from)) [
    | inl same ↦ ground (arith, t, same, h)
    | inr other ↦
        let rest = λ (e : StoreError).
          attempt_succeeds rounds (from + 1) i (some e) t (ground arith) (omega arith) h in
        go (op from) rest
  ]
    where
      go :
          (r : Result StoreError A)
          → ((e : StoreError) → is_ok (attempt rounds (from + 1) (some e)) ≡ true)
          → is_ok (
              if ltb 0 timeout_seconds && ltb timeout_seconds (elapsed from)
              then err (timed_out (max from 1))
              else outcome from (λ e. attempt rounds (from + 1) (some e)) r)
            ≡ true
      go (ok w) ih = ground (arith, t)
      go (err e) ih = ground (arith, t, ih e)

  -- Without a timeout the operation returns a result if the first attempt or one of the retries
  -- would succeed.
  pub retry_with_backoff_succeeds :
      (retries i : ℕ)
      → timeout_seconds ≡ 0
      → i ≤ retries
      → is_ok (op i) ≡ true
      → is_ok (retry_with_backoff retries) ≡ true
  unfolding retry_with_backoff
  retry_with_backoff_succeeds retries i t h s =
      attempt_succeeds (retries + 1) 0 i none t (omega arith) (omega arith) s
