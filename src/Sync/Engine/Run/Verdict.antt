-- ===== src/Sync/Engine/Run/Verdict.antt =====
-- The record that a roster sync ends with, and that its pool can always be emptied.
use apekeeper.Common.{
  tests, subst, ◌⊎◌, ℕ, ◌+◌, ◌<◌, ◌≡◌, ◌≢◌, refl, String, Bool, true, false, ltb, none, some, List,
  [], ◌∷◌, length, arith, Bool-cases, inl, inr, ok, err, lt→ltb,
}
use apekeeper.Domain.{running, failed, outcome, transition, Guild}
use apekeeper.Domain.Outcomes.{transition-outcome}
use apekeeper.Upstream.{RosterMember, Client, UpstreamError, Answer}
use apekeeper.Sync.Ledger.{SyncRun}
use apekeeper.Sync.Engine.Run.{
  Pool, PoolEvent, sends, ends, take_at, count_end, send, pool_step, pool_run, open_pool,
  is_drained, settle_run, run_guild_sync, select_members,
}
use apekeeper.Sync.Engine.Run.Counts.{IsSound, open_pool-IsSound}

transition_failed : transition running failed ≡ true
unfolding transition
transition_failed = refl

settle_run-final :
    (summary : ℕ → ℕ → String) (run : SyncRun) (total : ℕ) (p : Pool)
    → transition running (settle_run summary run total p).status ≡ true
unfolding settle_run
settle_run-final summary run total p = elim (Bool-cases p.cancelled) [
  | inl e ↦ simp (e, settle_run) transition_failed
  | inr e ↦ elim (Bool-cases (ltb 0 p.failures)) [
    | inl f ↦ simp (e, f, settle_run) (transition-outcome p.updated p.failures)
    | inr f ↦ simp (e, f, settle_run) (transition-outcome p.updated p.failures)
  ]
]

-- What an uncancelled record says, for a roster of `total` members: every one is updated or failed,
-- the status follows from the two counts, and failures come with their reasons.
pub record IsComplete (total : ℕ) (r : SyncRun) : Type 0 where
  pub totalled : r.total ≡ total
  pub split : r.updated + r.failures ≡ total
  pub judged : r.status ≡ outcome r.updated r.failures
  pub reasoned : (r.failures ≡ 0) ⊎ (r.detail ≢ [])

nonempty_of_length {ℓ} : {A : Type ℓ} (xs : List A) → length xs ≢ 0 → xs ≢ []
nonempty_of_length [] h e = h refl
nonempty_of_length (x ∷ xs) h e = cc

settle_run-reasoned :
    (summary : ℕ → ℕ → String) (run : SyncRun) (total : ℕ) (p : Pool)
    → IsSound total p
    → p.cancelled ≡ false
    → let r = settle_run summary run total p in (r.failures ≡ 0) ⊎ (r.detail ≢ [])
unfolding settle_run
settle_run-reasoned summary run total p v c = elim (Bool-cases (ltb 0 p.failures)) [
  | inr f ↦ simp (c, f, settle_run) (inl (ground arith))
  | inl f ↦
      simp (c, f, settle_run)
        (inr (nonempty_of_length p.details (λ e. absurd (omega (tests, f, v.reasoned e)))))
]

settle_run-IsComplete :
    (summary : ℕ → ℕ → String) (run : SyncRun) (total : ℕ) (p : Pool)
    → IsSound total p
    → is_drained p ≡ true
    → p.cancelled ≡ false
    → IsComplete total (settle_run summary run total p)
unfolding settle_run
settle_run-IsComplete summary run total p v d c = record {
  totalled = ground arith;
  split = ground arith;
  judged = ground arith;
  reasoned = settle_run-reasoned summary run total p v c;
}

module _ (lower : String → String) (summary : ℕ → ℕ → String) (message : UpstreamError → String)
    (client : Client) (g : Guild) (workers : ℕ) (run : SyncRun) (names : List String)
    (cancelled : Bool) (es : List PoolEvent) (r : SyncRun) where
  abbrev members_of : List RosterMember → List RosterMember
  members_of all = select_members lower names all

  final_after_roster :
      (a : Answer (List RosterMember))
      → client.guild_roster g.realm g.name ≡ a
      → run_guild_sync lower summary message client g workers run names cancelled es ≡ some r
      → transition running r.status ≡ true
  unfolding run_guild_sync
  final_after_roster (err e) q h = ground (arith, transition_failed)
  final_after_roster (ok all) q h =
      elim (Bool-cases (is_drained (pool_run (open_pool workers (members_of all) cancelled) es))) [
        | inr b ↦ ground arith
        | inl b ↦ ground (
          arith,
          settle_run-final summary run (length (members_of all))
              (pool_run (open_pool workers (members_of all) cancelled) es),
        )
      ]

  -- Whenever the function returns, after whatever events, its record's status is one that a running
  -- run may legally move to: success, partial or failed.
  pub run_guild_sync_final :
      run_guild_sync lower summary message client g workers run names cancelled es ≡ some r
      → transition running r.status ≡ true
  run_guild_sync_final h = final_after_roster (client.guild_roster g.realm g.name) refl h

  -- If the roster is fetched and the context is not cancelled by the end, the record counts each
  -- selected member once, as updated or failed, its status is the outcome of the two counts, and
  -- failures come with at least one recorded reason.
  pub run_guild_sync-IsComplete :
      (all : List RosterMember)
      → client.guild_roster g.realm g.name ≡ ok all
      → (pool_run (open_pool workers (select_members lower names all) cancelled) es).cancelled
        ≡ false
      → run_guild_sync lower summary message client g workers run names cancelled es ≡ some r
      → IsComplete (length (select_members lower names all)) r
  unfolding run_guild_sync
  run_guild_sync-IsComplete all q c h =
      elim (Bool-cases (is_drained (pool_run (open_pool workers (members_of all) cancelled) es))) [
        | inr b ↦ absurd (ground arith)
        | inl b ↦ subst (IsComplete (length (members_of all))) (ground arith) (
            settle_run-IsComplete summary run (length (members_of all)) _
              (open_pool-IsSound workers (members_of all) cancelled es) b c)
      ]

-- Events that empty a pool: the busy workers end, then each waiting member is sent and ends.
unfoldable pub ends_all : List RosterMember → List PoolEvent → List PoolEvent
ends_all [] rest = rest
ends_all (m ∷ ms) rest = ends 0 none ∷ ends_all ms rest

unfoldable pub sends_all : List RosterMember → List PoolEvent
sends_all [] = []
sends_all (m ∷ ms) = sends ∷ ends 0 none ∷ sends_all ms

unfoldable pub emptying : Pool → List PoolEvent
unfolding ends_all sends_all
emptying p = ends_all p.working (sends_all p.waiting)

pool_run-sends_all :
    (ms : List RosterMember) (p : Pool)
    → 0 < p.workers
    → is_drained (pool_run (record p { waiting = ms; working = [] }) (sends_all ms)) ≡ true
unfolding pool_run sends_all pool_step send take_at count_end
pool_run-sends_all [] p h = refl
pool_run-sends_all (m ∷ ms) p h =
    rw (lt→ltb 0 p.workers h, pool_run)
      (pool_run-sends_all ms (record p { updated = p.updated + 1 }) h)

pool_run-ends_all :
    (ms ws : List RosterMember) (p : Pool)
    → 0 < p.workers
    → is_drained (pool_run (record p { waiting = ws; working = ms }) (ends_all ms (sends_all ws)))
      ≡ true
unfolding pool_run ends_all pool_step take_at count_end
pool_run-ends_all [] ws p h = pool_run-sends_all ws p h
pool_run-ends_all (m ∷ ms) ws p h = pool_run-ends_all ms ws (record p { updated = p.updated + 1 }) h

-- With at least one worker a pool in any state can be emptied, so that the run can always end.
pub emptying-is_drained : (p : Pool) → 0 < p.workers → is_drained (pool_run p (emptying p)) ≡ true
unfolding emptying
emptying-is_drained p h = pool_run-ends_all p.working p.waiting p h
