-- ===== src/Pm/Client/Retries.antt =====
-- How `_request` retries.
use agentic_dev_ops.Prelude.{
  ℕ, zero, suc, ◌+◌, ◌≤◌, ◌<◌, ◌≡◌, refl, ap, ◌∙◌, Bool, true, false, Option, none, some, List, [],
  length, arith,
}
use agentic_dev_ops.Pm.Client.{
  PmError, Result, ok, raised, refused, Reply, Verdict, done, fatal, retry, verdict_of, settle,
  request_from, request,
}

module _ {B : Type 0} where
  -- What the loop returns or raises at once after a reply, if it does not try again.
  abbrev pub final_result : Verdict B → Option (Result B)
  final_result (done body) = some (ok body)
  final_result (fatal e) = some (raised e)
  final_result (retry e retry_after) = none

  module _ (base_backoff : ℕ) (jitter : ℕ → ℕ) (send : ℕ → Reply B) where
    settle-final :
        (left : Bool) (n : ℕ) (again : Result B × List ℕ) (v : Verdict B) (r : Result B)
        → final_result v ≡ some r
        → settle base_backoff jitter send left n again v ≡ (r, [])
    unfolding settle
    settle-final left n again (done body) r h = cc
    settle-final left n again (fatal e) r h = cc
    settle-final left n again (retry e retry_after) r h = absurd (cc)

    settle-again :
        (n : ℕ) (again : Result B × List ℕ) (v : Verdict B)
        → final_result v ≡ none
        → (settle base_backoff jitter send true n again v).0 ≡ again.0
          × length (settle base_backoff jitter send true n again v).1 ≡ suc (length again.1)
    unfolding settle
    settle-again n again (done body) h = absurd (cc)
    settle-again n again (fatal e) h = absurd (cc)
    settle-again n again (retry e retry_after) h = (refl, refl)

    settle-gives_up :
        (n : ℕ) (again : Result B × List ℕ) (v : Verdict B)
        → final_result v ≡ none
        → (e : PmError) × (settle base_backoff jitter send false n again v ≡ (raised e, []))
    unfolding settle
    settle-gives_up n again (done body) h = absurd (cc)
    settle-gives_up n again (fatal e) h = absurd (cc)
    settle-gives_up n again (retry e retry_after) h = (e, refl)

    abbrev settled : ℕ → Option (Result B)
    settled n = final_result (verdict_of (send n))

    request_from-final :
        (left n k : ℕ) (r : Result B)
        → k ≤ left
        → ((j : ℕ) → n ≤ j → j < n + k → settled j ≡ none)
        → ((j : ℕ) → j ≡ n + k → settled j ≡ some r)
        → ((request_from base_backoff jitter send left n).0 ≡ r)
          × (length (request_from base_backoff jitter send left n).1 ≡ k)
    unfolding request_from
    request_from-final zero n zero r b h f =
        let e =
          settle-final false n (raised refused, []) (verdict_of (send n)) r (f n (omega arith)) in
        (ap (λ x. x.0) e, ap (λ x. length x.1) e)
    request_from-final zero n (suc k) r b h f = absurd (omega arith)
    request_from-final (suc left) n zero r b h f =
        let again = request_from base_backoff jitter send left (suc n) in
        let e = settle-final true n again (verdict_of (send n)) r (f n (omega arith)) in
        (ap (λ x. x.0) e, ap (λ x. length x.1) e)
    request_from-final (suc left) n (suc k) r b h f =
        let again = request_from base_backoff jitter send left (suc n) in
        let (same, slept) =
          settle-again n again (verdict_of (send n)) (h n (omega arith) (omega arith)) in
        let (result, sleeps) =
          request_from-final left (suc n) k r (omega arith)
            (λ j l m. h j (omega arith) (omega arith)) (λ j m. f j (omega arith)) in
        (same ∙ result, slept ∙ ap suc sleeps)

    request_from-gives_up :
        (left n : ℕ)
        → ((j : ℕ) → n ≤ j → j ≤ n + left → settled j ≡ none)
        → (e : PmError) × ((request_from base_backoff jitter send left n).0 ≡ raised e)
          × (length (request_from base_backoff jitter send left n).1 ≡ left)
    unfolding request_from
    request_from-gives_up zero n h =
        let (e, same) =
          settle-gives_up n (raised refused, []) (verdict_of (send n))
            (h n (omega arith) (omega arith)) in
        (e, ap (λ x. x.0) same, ap (λ x. length x.1) same)
    request_from-gives_up (suc left) n h =
        let again = request_from base_backoff jitter send left (suc n) in
        let (same, slept) =
          settle-again n again (verdict_of (send n)) (h n (omega arith) (omega arith)) in
        let (e, result, sleeps) =
          request_from-gives_up left (suc n) (λ j l m. h j (omega arith) (omega arith)) in
        (e, same ∙ result, slept ∙ ap suc sleeps)

    -- If the replies before number `k` all ask for a retry, reply `k` does not, and `k` is within the
    -- retries, `_request` returns or raises what reply `k` means, after `k` sleeps. If all replies
    -- within the retries ask for one, it raises an error, after `max_retries` sleeps.
    pub request_lem :
        (max_retries : ℕ)
        → ((k : ℕ) (r : Result B)
            → k ≤ max_retries
            → ((j : ℕ) → j < k → final_result (verdict_of (send j)) ≡ none)
            → final_result (verdict_of (send k)) ≡ some r
            → ((request base_backoff jitter send max_retries).0 ≡ r)
              × (length (request base_backoff jitter send max_retries).1 ≡ k))
          × (((j : ℕ) → j ≤ max_retries → final_result (verdict_of (send j)) ≡ none)
              → (e : PmError) × ((request base_backoff jitter send max_retries).0 ≡ raised e)
                × (length (request base_backoff jitter send max_retries).1 ≡ max_retries))
    unfolding request
    request_lem max_retries = (
      (λ k r b h f.
          request_from-final max_retries 0 k r b (λ j _ l. h j (omega arith))
            (λ j e. let same : j ≡ k = omega arith in rw same f)),
      (λ h. request_from-gives_up max_retries 0 (λ j _ l. h j (omega arith))),
    )
