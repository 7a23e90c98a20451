-- ===== src/Sync/Engine/Run/Counts.antt =====
-- The pool loses no member and counts none twice.
use apekeeper.Common.{
  tally, tally-append, tally-true, true, ◌++◌, if◌then◌else◌, zero, suc, ℕ, ◌+◌, ◌≤◌, ◌≡◌, refl,
  String, Bool, false, Option, none, some, List, [], ◌∷◌, length, arith, Option-cases, inl, inr,
  subst,
}
use apekeeper.Upstream.{RosterMember}
use apekeeper.Sync.Engine.Run.{
  Pool, PoolEvent, sends, breaks_off, ends, cancels, take_at, count_end, send, pool_step, pool_run,
  open_pool, put_detail,
}

pub length-take_at :
    (i : ℕ) (ms : List RosterMember) (m : RosterMember) (rest : List RosterMember)
    → take_at i ms ≡ some (m, rest)
    → length ms ≡ suc (length rest)
unfolding take_at
length-take_at zero [] m rest h = cc
length-take_at (suc i) [] m rest h = cc
length-take_at zero (x ∷ ms) m rest h = ground arith
length-take_at (suc i) (x ∷ ms) m rest h = elim (Option-cases (take_at i ms)) [
  | inl e ↦ ground arith
  | inr ((y, more), e) ↦ ground (arith, length-take_at i ms y more e)
]

-- What holds of the pool while it is open, for a roster of `total` members.
pub record IsSound (total : ℕ) (p : Pool) : Type 0 where
  pub accounted : length p.waiting + length p.working + p.skipped + p.updated + p.failures ≡ total
  pub staffed : length p.working ≤ p.workers
  pub complete : p.cancelled ≡ false → p.skipped ≡ 0
  pub detailed : length p.details ≤ p.failures
  pub reasoned : length p.details ≡ 0 → p.failures ≡ 0

length-put_detail :
    (name e : String) (ds : List (String × String))
    → (length (put_detail name e ds) ≤ length ds + 1) × (1 ≤ length (put_detail name e ds))
unfolding put_detail
length-put_detail name e [] = omega arith
length-put_detail name e ((n, f) ∷ ds) = ground (arith, length-put_detail name e ds)

send-IsSound :
    (total : ℕ) (p : Pool) (ms : List RosterMember)
    → p.waiting ≡ ms
    → IsSound total p
    → IsSound total (send ms p)
unfolding send
send-IsSound total p [] e v = v
send-IsSound total p (m ∷ ms) e v = ground arith

ends-IsSound :
    (total : ℕ) (p : Pool) (i : ℕ) (e : Option String)
    → IsSound total p
    → IsSound total (pool_step p (ends i e))
unfolding pool_step
ends-IsSound total p i e v = elim (Option-cases (take_at i p.working)) [
  | inl q ↦ rw (q, pool_step) v
  | inr ((m, rest), q) ↦ rw (q, pool_step) (ended m rest q e)
]
  where
    ended :
        (m : RosterMember) (rest : List RosterMember)
        → take_at i p.working ≡ some (m, rest)
        → (e : Option String) → IsSound total (count_end m e (record p { working = rest }))
    ended m rest q none = ground (arith, length-take_at i p.working m rest q)
    ended m rest q (some x) =
        ground (arith, length-take_at i p.working m rest q, length-put_detail m.name x p.details)

pool_step-IsSound :
    (total : ℕ) (p : Pool) (e : PoolEvent) → IsSound total p → IsSound total (pool_step p e)
unfolding pool_step
pool_step-IsSound total p sends v = send-IsSound total p p.waiting refl v
pool_step-IsSound total p breaks_off v = ground arith
pool_step-IsSound total p (ends i e) v = ends-IsSound total p i e v
pool_step-IsSound total p cancels v = ground arith

pub pool_run-IsSound :
    (total : ℕ) (p : Pool) (es : List PoolEvent) → IsSound total p → IsSound total (pool_run p es)
unfolding pool_run
pool_run-IsSound total p [] v = v
pool_run-IsSound total p (e ∷ es) v =
    pool_run-IsSound total (pool_step p e) es (pool_step-IsSound total p e v)

-- the members that an event takes out of the pool: the one whose worker ends, or those that the
-- dispatch loop leaves out
unfoldable pub leaving : Pool → PoolEvent → List RosterMember
leaving p sends = []
leaving p breaks_off = if p.cancelled then p.waiting else []
leaving p (ends i e) = elim (take_at i p.working) [ none ↦ [] | some (m, rest) ↦ m ∷ [] ]
leaving p cancels = []

-- the members that a sequence of events takes out
unfoldable pub left_by : Pool → List PoolEvent → List RosterMember
left_by p [] = []
left_by p (e ∷ es) = leaving p e ++ left_by (pool_step p e) es

module _ (q : RosterMember → Bool) where
  tally-take_at :
      (i : ℕ) (ms : List RosterMember) (m : RosterMember) (rest : List RosterMember)
      → take_at i ms ≡ some (m, rest)
      → tally q ms ≡ tally q (m ∷ []) + tally q rest
  unfolding take_at
  tally-take_at zero [] m rest h = cc
  tally-take_at (suc i) [] m rest h = cc
  tally-take_at zero (x ∷ ms) m rest h =
      let is_m : x ≡ m = ground arith in
      let is_rest : ms ≡ rest = ground arith in rw (is_m, is_rest) (ground arith)
  tally-take_at (suc i) (x ∷ ms) m rest h = elim (Option-cases (take_at i ms)) [
    | inl e ↦ ground arith
    | inr ((y, more), e) ↦
        let tail = tally-take_at i ms y more e in
        let is_y : y ≡ m = ground arith in
        let is_rest : x ∷ more ≡ rest = ground arith in
        subst (λ l. tally q (x ∷ ms) ≡ tally q (m ∷ []) + tally q l) is_rest (ground arith)
  ]

  -- the members in the pool that pass a test
  abbrev in_pool : Pool → ℕ
  in_pool p = tally q p.waiting + tally q p.working

  tally-send :
      (p : Pool) (ms : List RosterMember) → p.waiting ≡ ms → in_pool (send ms p) ≡ in_pool p
  unfolding send
  tally-send p [] e = refl
  tally-send p (m ∷ ms) e = ground arith

  tally-end :
      (p : Pool) (m : RosterMember) (rest : List RosterMember) (e : Option String)
      → tally q p.working ≡ tally q (m ∷ []) + tally q rest
      → in_pool (count_end m e (record p { working = rest })) + tally q (m ∷ []) ≡ in_pool p
  unfolding count_end
  tally-end p m rest none h = omega arith
  tally-end p m rest (some x) h = omega arith

  tally-step :
      (p : Pool) (e : PoolEvent) → in_pool (pool_step p e) + tally q (leaving p e) ≡ in_pool p
  unfolding pool_step leaving
  tally-step p sends = let same = tally-send p p.waiting refl in omega arith
  tally-step p breaks_off = ground arith
  tally-step p (ends i e) = elim (Option-cases (take_at i p.working)) [
    | inl k ↦ simp (k, pool_step, leaving) (omega arith)
    | inr ((m, rest), k) ↦
        let taken = tally-take_at i p.working m rest k in
        rw (k, pool_step, leaving) (tally-end p m rest e taken)
  ]
  tally-step p cancels = omega arith

  tally-run :
      (p : Pool) (es : List PoolEvent)
      → in_pool (pool_run p es) + tally q (left_by p es) ≡ in_pool p
  unfolding pool_run left_by
  tally-run p [] = omega arith
  tally-run p (e ∷ es) =
      let more = tally-run (pool_step p e) es in
      let one = tally-step p e in
      let both = tally-append q (leaving p e) (left_by (pool_step p e) es) in omega arith

pub open_pool-IsSound :
    (workers : ℕ) (members : List RosterMember) (cancelled : Bool) (es : List PoolEvent)
    → IsSound (length members) (pool_run (open_pool workers members cancelled) es)
unfolding open_pool
open_pool-IsSound workers members cancelled es = pool_run-IsSound (length members) _ es (record {
  accounted = omega arith;
  staffed = omega arith;
  complete = λ h. refl;
  detailed = omega arith;
  reasoned = λ h. refl;
})

open_pool-tally :
    (q : RosterMember → Bool) (workers : ℕ) (members : List RosterMember) (cancelled : Bool)
    (es : List PoolEvent)
    → let opened = open_pool workers members cancelled in
      in_pool q (pool_run opened es) + tally q (left_by opened es) ≡ tally q members
unfolding open_pool
open_pool-tally q workers members cancelled es =
    let run = tally-run q (open_pool workers members cancelled) es in omega arith

open_pool-left :
    (workers : ℕ) (members : List RosterMember) (cancelled : Bool) (es : List PoolEvent)
    → let opened = open_pool workers members cancelled in
      let p = pool_run opened es in length (left_by opened es) ≡ p.skipped + p.updated + p.failures
open_pool-left workers members cancelled es =
    let opened = open_pool workers members cancelled in
    let p = pool_run opened es in
    let sound = open_pool-IsSound workers members cancelled es in
    let all = open_pool-tally (λ m. true) workers members cancelled es in
    omega (
      arith,
      sound.accounted,
      all,
      tally-true p.waiting,
      tally-true p.working,
      tally-true (left_by opened es),
      tally-true members,
    )

-- Whatever the workers and a cancellation do, in whatever order: the members that wait, those with a
-- worker and those that have left the pool, by the end of their worker or by the loop that broke
-- off, are exactly the members of the roster, each as often as it stands there, and as many have left
-- as are counted as skipped, updated or failed. No more members are with a worker than there are
-- workers; none is skipped without a cancellation; and there are failures exactly when an error is
-- recorded, with no more records than failures.
pub open_pool-IsExact :
    (workers : ℕ) (members : List RosterMember) (cancelled : Bool) (es : List PoolEvent)
    → let opened = open_pool workers members cancelled in
      let p = pool_run opened es in
      IsSound (length members) p
      × (length (left_by opened es) ≡ p.skipped + p.updated + p.failures)
      × ((q : RosterMember → Bool)
          → tally q p.waiting + tally q p.working + tally q (left_by opened es) ≡ tally q members)
open_pool-IsExact workers members cancelled es = (
  open_pool-IsSound workers members cancelled es,
  open_pool-left workers members cancelled es,
  λ q. open_pool-tally q workers members cancelled es,
)
