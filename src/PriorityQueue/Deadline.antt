-- ===== src/PriorityQueue/Deadline.antt =====
-- The time that `CalculateDeadline` of hive-server-go/priority_queue.go gives a job.
use ollama_local_hives_clust.Prelude.{
  ℕ, ◌+◌, ◌*◌, ◌^◌, ◌/◌, ◌≤◌, ◌<◌, ◌≡◌, String, arith, if◌then◌else◌, ap, ◌∙◌, sym, subst, min,
  pos_part, pos, ltb_ℤ, add64, mul64,
}
use ollama_local_hives_clust.PriorityQueue.{seconds, base_timeout, calculate_deadline}

-- The product by a second is exact below the bound of 64 bits.
mul_second : (n : ℕ) → n < 2 ^ 32 → mul64 (pos n) (seconds 1) ≡ pos (n * 10 ^ 9)
unfolding mul64
mul_second n h = ground arith

add_small : (a b : ℕ) → a + b < 2 ^ 63 → add64 (pos a) (pos b) ≡ pos (a + b)
unfolding add64
add_small a b h = ground arith

base_timeout_lem :
    (job_type : String)
    → (base_timeout job_type ≡ pos (pos_part (base_timeout job_type)))
      × (pos_part (base_timeout job_type) ≤ 120 * 10 ^ 9)
base_timeout_lem job_type = ground arith

cap : (m t : ℕ) → (if ltb_ℤ (pos m) (pos t) then pos m else pos t) ≡ pos (min m t)
cap m t = ground arith

-- For fewer than 2^32 tokens nothing wraps round: the job gets the time of its type and a second for
-- each 20 tokens, but no more than the maximum.
pub calculate_deadline_lem :
    (job_type : String) (tokens max_timeout : ℕ)
    → tokens < 2 ^ 32
    → calculate_deadline job_type (pos tokens) (pos max_timeout)
      ≡ pos (min max_timeout (pos_part (base_timeout job_type) + tokens / 20 * 10 ^ 9))
unfolding calculate_deadline
calculate_deadline_lem job_type tokens max_timeout h =
    let (b, le) = base_timeout_lem job_type in
    let base : ℕ = pos_part (base_timeout job_type) in
    let t : ℕ = tokens / 20 in
    let product : mul64 (pos t) (seconds 1) ≡ pos (t * 10 ^ 9) = mul_second t (omega arith) in
    let sum : add64 (pos base) (pos (t * 10 ^ 9)) ≡ pos (base + t * 10 ^ 9) =
      add_small base (t * 10 ^ 9) (omega arith) in
    let total : add64 (base_timeout job_type) (mul64 (pos t) (seconds 1))
        ≡ pos (base + t * 10 ^ 9) =
      rw product (ap (λ x. add64 x (pos (t * 10 ^ 9))) b ∙ sum) in
    subst
      (λ x.
        (if ltb_ℤ (pos max_timeout) x then pos max_timeout else x)
        ≡ pos (min max_timeout (base + t * 10 ^ 9)))
      (sym total) (cap max_timeout (base + t * 10 ^ 9))
