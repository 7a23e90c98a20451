-- ===== src/Sync/Engine/Run/Ends.antt =====
-- The pool ends: every step that does something brings it nearer to its end, and until the end there
-- is such a step.
use apekeeper.Common.{
  ℕ, zero, suc, ◌+◌, ◌*◌, ◌<◌, ◌≤◌, ◌≡◌, ◌⊎◌, refl, sym, ◌∙◌, subst, Bool, true, ltb, if◌then◌else◌,
  Option, none, some, List, [], ◌∷◌, length, Option-cases, inl, inr, arith, String,
}
use apekeeper.Upstream.{RosterMember}
use apekeeper.Sync.Engine.Run.{
  Pool, PoolEvent, sends, breaks_off, ends, cancels, worker_count, open_pool, take_at, count_end,
  send, pool_step, pool_run, is_drained,
}
use apekeeper.Sync.Engine.Run.Counts.{length-take_at}

-- the sends and ends that are left
unfoldable pub remaining : Pool → ℕ
remaining p = 2 * length p.waiting + length p.working

-- the steps of a run after which less is left
unfoldable pub advances : Pool → List PoolEvent → ℕ
unfolding remaining
advances p [] = 0
advances p (e ∷ es) =
    let rest = advances (pool_step p e) es in
    if ltb (remaining (pool_step p e)) (remaining p) then rest + 1 else rest

send-le : (ms : List RosterMember) (p : Pool) → p.waiting ≡ ms → remaining (send ms p) ≤ remaining p
unfolding remaining send
send-le [] p h = omega arith
send-le (m ∷ ms) p h = ground arith

-- the end of a worker's member leaves one less
ended :
    (p : Pool) (m : RosterMember) (rest : List RosterMember) (e : Option String)
    → length p.working ≡ suc (length rest)
    → remaining (count_end m e (record p { working = rest })) + 1 ≡ remaining p
unfolding remaining count_end
ended p m rest none h = omega arith
ended p m rest (some e) h = omega arith

-- no step leaves more
pool_step-le : (p : Pool) (e : PoolEvent) → remaining (pool_step p e) ≤ remaining p
unfolding pool_step remaining
pool_step-le p sends = send-le p.waiting p refl
pool_step-le p breaks_off = ground arith
pool_step-le p cancels = omega arith
pool_step-le p (ends i e) = elim (Option-cases (take_at i p.working)) [
  | inl q ↦ rw (q, pool_step) (omega arith)
  | inr ((m, rest), q) ↦
      let done = ended p m rest e (length-take_at i p.working m rest q) in
      rw (q, pool_step) (omega arith)
]

-- each step that advances takes one off
advances-le :
    (p : Pool) (es : List PoolEvent) → remaining (pool_run p es) + advances p es ≤ remaining p
unfolding pool_run advances
advances-le p [] = omega arith
advances-le p (e ∷ es) =
    let rest = advances-le (pool_step p e) es in let step = pool_step-le p e in ground arith

-- while something is left and there is a worker, a step advances
going-on :
    (p : Pool)
    → 0 < p.workers
    → (is_drained p ≡ true) ⊎ ((e : PoolEvent) × (remaining (pool_step p e) < remaining p))
unfolding pool_step remaining send take_at count_end
going-on p h = by_lists p.waiting p.working refl refl
  where
    by_lists :
        (ws ms : List RosterMember)
        → p.waiting ≡ ws
        → p.working ≡ ms
        → (is_drained p ≡ true) ⊎ ((e : PoolEvent) × (remaining (pool_step p e) < remaining p))
    by_lists [] [] u v = inl (ground arith)
    by_lists ws (m ∷ ms) u v = inr (ends 0 none, ground arith)
    by_lists (w ∷ ws) [] u v = inr (sends, ground arith)

keeps-workers : (p : Pool) (e : PoolEvent) → (pool_step p e).workers ≡ p.workers
unfolding pool_step send count_end
keeps-workers p sends = send-workers p.waiting p
  where
    send-workers : (ms : List RosterMember) (q : Pool) → (send ms q).workers ≡ q.workers
    send-workers [] q = refl
    send-workers (m ∷ ms) q = ground arith
keeps-workers p breaks_off = ground arith
keeps-workers p cancels = refl
keeps-workers p (ends i e) = elim (Option-cases (take_at i p.working)) [
  | inl q ↦ rw (q, pool_step)
  | inr ((m, rest), q) ↦ rw (q, pool_step) (counted m (record p { working = rest }) e)
]
  where
    counted :
        (m : RosterMember) (q : Pool) (o : Option String) → (count_end m o q).workers ≡ q.workers
    counted m q none = refl
    counted m q (some x) = refl

run-workers : (p : Pool) (es : List PoolEvent) → (pool_run p es).workers ≡ p.workers
unfolding pool_run
run-workers p [] = refl
run-workers p (e ∷ es) = run-workers (pool_step p e) es ∙ keeps-workers p e

worker_count-pos : (n : ℕ) → 0 < worker_count n
unfolding worker_count
worker_count-pos zero = omega arith
worker_count-pos (suc n) = omega arith

-- In every run of the pool at most two steps a member advance it, however the sends, ends and
-- cancellations are ordered, and after any run either the pool is drained or some step advances it:
-- a pool whose steps are taken while they advance is drained after at most two steps a member.
pub open_pool-ends :
    (workers : ℕ) (members : List RosterMember) (cancelled : Bool) (es : List PoolEvent)
    → let p = open_pool workers members cancelled in
      (remaining (pool_run p es) + advances p es ≤ 2 * length members)
      × ((is_drained (pool_run p es) ≡ true)
          ⊎ ((e : PoolEvent) × (remaining (pool_step (pool_run p es) e)
                < remaining (pool_run p es))))
unfolding open_pool remaining
open_pool-ends workers members cancelled es =
    let p = open_pool workers members cancelled in
    (
      subst (λ n. remaining (pool_run p es) + advances p es ≤ n) (omega arith) (advances-le p es),
      going-on (pool_run p es)
          (subst (λ n. 0 < n) (sym (run-workers p es)) (worker_count-pos workers)),
    )
