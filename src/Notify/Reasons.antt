-- ===== src/Notify/Reasons.antt =====
-- The reasons that the notification of a sync gives.
use apekeeper.Common.{
  ℕ, ◌≡◌, ◌≢◌, ◌⊎◌, refl, ap, String, Bool, false, not, str_eq, ltb, ◌==◌, if◌then◌else◌, some,
  List, [], ◌∷◌, ◌++◌, map, length, ok, err, Bool-cases, Result-cases, inl, inr, arith, ◌&&◌, ◌∙◌,
}
use apekeeper.Domain.{success, Guild}
use apekeeper.Domain.Outcomes.{outcome-success}
use apekeeper.Upstream.{Client, UpstreamError, RosterMember}
use apekeeper.Sync.Ledger.{SyncRun}
use apekeeper.Sync.Engine.Run.{
  PoolEvent, run_guild_sync, open_pool, pool_run, select_members, settle_run, roster_failed,
  is_drained,
}
use apekeeper.Sync.Engine.Run.Verdict.{IsComplete, run_guild_sync-IsComplete}
use apekeeper.Notify.{
  failure_lines, run_failure_reasons, sort_reasons, insert_reason, max_failure_reasons,
}

failure_lines-nonempty :
    (more : ℕ → String) (reasons : List String) → reasons ≢ [] → failure_lines more reasons ≢ []
unfolding failure_lines
failure_lines-nonempty more [] n = absurd (n refl)
failure_lines-nonempty more (x ∷ xs) n =
    elim (Bool-cases (ltb max_failure_reasons (length (x ∷ xs)))) [
      | inl e ↦ rw e (λ z. cc)
      | inr e ↦ rw e (λ z. cc)
    ]

module _ (before : String → String → Bool) (join : String → String → String) where
  length-insert_reason :
      (x : String) (xs : List String) → length (insert_reason before join x xs) ≢ 0
  unfolding insert_reason
  length-insert_reason x [] = λ z. ground arith
  length-insert_reason x (y ∷ ys) = elim (Bool-cases (before y x)) [
    | inl e ↦ rw e (λ z. ground arith)
    | inr e ↦ rw e (λ z. ground arith)
  ]

  sort_reasons-nonempty : (xs : List String) → xs ≢ [] → sort_reasons before join xs ≢ []
  unfolding sort_reasons
  sort_reasons-nonempty [] n z = absurd (n refl)
  sort_reasons-nonempty (x ∷ xs) n z =
      length-insert_reason x (sort_reasons before join xs) (ap length z)

  named-nonempty : (d : List (String × String)) → d ≢ [] → map (λ p. join p.0 p.1) d ≢ []
  named-nonempty [] n = absurd (n refl)
  named-nonempty (p ∷ d) n = λ z. cc

  summary_or_reasons :
      (reasons : List String) (summary : String)
      → (str_eq summary "" ≡ false) ⊎ (reasons ≢ [])
      → (if not (str_eq summary "") && length reasons == 0
          then reasons ++ summary ∷ []
          else reasons)
        ≢ []
  summary_or_reasons [] summary (inl e) = rw e (λ z. cc)
  summary_or_reasons [] summary (inr n) = absurd (n refl)
  summary_or_reasons (x ∷ xs) summary h = elim (Bool-cases (str_eq summary "")) [
    | inl e ↦ rw e (λ z. cc)
    | inr e ↦ let f : (length (x ∷ xs) == 0) ≡ false = ground arith in rw (e, f) (λ z. cc)
  ]

  -- a record that has a reason in its details or in its summary
  run_failure_reasons-nonempty :
      (r : SyncRun)
      → (str_eq r.error_summary "" ≡ false) ⊎ (r.detail ≢ [])
      → run_failure_reasons before join r ≢ []
  unfolding run_failure_reasons
  run_failure_reasons-nonempty r (inl e) =
      summary_or_reasons (sort_reasons before join (map (λ p. join p.0 p.1) r.detail))
        r.error_summary (inl e)
  run_failure_reasons-nonempty r (inr n) =
      summary_or_reasons (sort_reasons before join (map (λ p. join p.0 p.1) r.detail))
        r.error_summary (inr (sort_reasons-nonempty _ (named-nonempty r.detail n)))

  module _ (lower : String → String) (summary : ℕ → ℕ → String) (message : UpstreamError → String)
      (client : Client) (g : Guild) (workers : ℕ) (run : SyncRun) (names : List String)
      (cancelled : Bool) (es : List PoolEvent) (r : SyncRun) (more : ℕ → String) where
    abbrev IsExplained : SyncRun → Type 0
    IsExplained r = (str_eq r.error_summary "" ≡ false) ⊎ (r.detail ≢ [])

    complete-IsExplained : (total : ℕ) → IsComplete total r → r.status ≢ success → IsExplained r
    complete-IsExplained total c n = elim c.reasoned [
      | inr d ↦ inr d
      | inl z ↦ absurd (n (c.judged ∙ (outcome-success r.updated r.failures).1 z))
    ]

    roster-IsExplained :
        (e : UpstreamError)
        → str_eq (message e) "" ≡ false
        → client.guild_roster g.realm g.name ≡ err e
        → run_guild_sync lower summary message client g workers run names cancelled es ≡ some r
        → IsExplained r
    unfolding run_guild_sync roster_failed
    roster-IsExplained e m q h = elim (Bool-cases cancelled) [
      | inl c ↦ let s : r.error_summary ≡ "sync cancelled" = ground arith in inl (rw s refl)
      | inr c ↦ let s : r.error_summary ≡ message e = ground arith in inl (rw s m)
    ]

    pool-IsExplained :
        (all : List RosterMember)
        → client.guild_roster g.realm g.name ≡ ok all
        → run_guild_sync lower summary message client g workers run names cancelled es ≡ some r
        → r.status ≢ success
        → IsExplained r
    unfolding run_guild_sync settle_run
    pool-IsExplained all q h n =
        let p = pool_run (open_pool workers (select_members lower names all) cancelled) es in
        elim (Bool-cases p.cancelled) [
          | inr c ↦
              complete-IsExplained (length (select_members lower names all))
                (run_guild_sync-IsComplete lower summary message client g workers run names
                  cancelled es r all q c h)
                n
          | inl c ↦ elim (Bool-cases (is_drained p)) [
            | inr d ↦ absurd (ground arith)
            | inl d ↦ let s : r.error_summary ≡ "sync cancelled" = ground arith in inl (rw s refl)
          ]
        ]

    -- The notification of a sync that is not a success, be it partial, failed or cancelled, always
    -- gives a reason, if the client's errors have a text.
    pub failure_lines-run_guild_sync :
        ((e : UpstreamError) → str_eq (message e) "" ≡ false)
        → run_guild_sync lower summary message client g workers run names cancelled es ≡ some r
        → r.status ≢ success
        → failure_lines more (run_failure_reasons before join r) ≢ []
    failure_lines-run_guild_sync m h n =
        failure_lines-nonempty more (run_failure_reasons before join r) (
          run_failure_reasons-nonempty r (elim (Result-cases (client.guild_roster g.realm g.name)) [
            | inr (e, q) ↦ roster-IsExplained e (m e) q h
            | inl (all, q) ↦ pool-IsExplained all q h n
          ]))
