-- ===== src/Sync/Handlers/Laws.antt =====
-- What a sync request changes.
use apekeeper.Common.{
  ap, sym, ◌∙◌, ℕ, ◌≡◌, ◌⊎◌, refl, subst, String, Bool, true, false, ◌==◌, Option, none, some, List,
  [], ◌∷◌, All, Result, ok, err, Bool-cases, Option-cases, Result-cases, inl, inr, arith,
}
use apekeeper.Domain.{User, GuildMembership}
use apekeeper.Access.Members.{Faults, path_id}
use apekeeper.Sync.Ledger.{SyncRun}
use apekeeper.Sync.Service.{System, ServiceError, start, cancel, retry_names, step, starts, cancels}
use apekeeper.Sync.Service.Reach.{Inv, step-Inv}
use apekeeper.Sync.Handlers.{
  Shared, load, loaded, guild_service, World, service_of, put_service, trigger_result,
  operation_result, trigger_sync, dry_run, start_retry, retry_sync, cancel_result, cancel_sync,
  SyncRequest, triggers, dry_runs, cancels_run, retries, handle_sync,
}

-- Every service keeps the invariant of Sync.Service.Reach.
abbrev pub AllInv : List (ℕ × System) → Type 0
AllInv = All (λ p. Inv p.1)

put_service-AllInv :
    (g : ℕ) (t : System) (ss : List (ℕ × System)) → Inv t → AllInv ss → AllInv (put_service g t ss)
unfolding put_service
put_service-AllInv g t [] v h = tt
put_service-AllInv g t ((i, s) ∷ rest) v h = elim (Bool-cases (i == g)) [
  | inl e ↦ rw e (v, h.1)
  | inr e ↦ rw e (h.0, put_service-AllInv g t rest v h.1)
]

service_of-Inv :
    (g : ℕ) (s : System) (ss : List (ℕ × System)) → service_of g ss ≡ some s → AllInv ss → Inv s
unfolding service_of
service_of-Inv g s [] q h = absurd (ground arith)
service_of-Inv g s ((i, x) ∷ rest) q h = elim (Bool-cases (i == g)) [
  | inl e ↦ subst (λ o. InvOf o) (rw e at q) h.0
  | inr e ↦ service_of-Inv g s rest (rw e at q) h.1
]
  where
    InvOf : Option System → Type 0
    InvOf none = Unit
    InvOf (some y) = Inv y

service_of-put_service :
    (g other : ℕ) (t : System) (ss : List (ℕ × System))
    → (g == other) ≡ false
    → service_of other (put_service g t ss) ≡ service_of other ss
unfolding service_of put_service
service_of-put_service g other t [] n = refl
service_of-put_service g other t ((i, s) ∷ rest) n = elim (Bool-cases (i == g)) [
  | inl e ↦ let k : (i == other) ≡ false = ground arith in rw (e, k)
  | inr e ↦ rw e (elim (Bool-cases (i == other)) [
    | inl k ↦ rw k
    | inr k ↦ rw k (service_of-put_service g other t rest n)
  ])
]

-- How the services stand after a request in a guild: as before, or with the guild's service in a
-- state that its operations lead to.
abbrev pub IsOperated : ℕ → List (ℕ × System) → List (ℕ × System) → Type 0
IsOperated g before after =
    (after ≡ before)
    ⊎ ((s : System) × (t : System) × (service_of g before ≡ some s)
        × (Inv s → Inv t)
        × (after ≡ put_service g t before))

-- what is shared has no part in the invariant
load-Inv : (sh : Shared) (s : System) → Inv s → Inv (load sh s)
load-Inv sh s (inl i) = inl (ground arith)
load-Inv sh s (inr (f, b)) = inr (f, ground arith)

loaded-loaded : (a b : Shared) (o : Option System) → loaded a (loaded b o) ≡ loaded a o
loaded-loaded a b none = refl
loaded-loaded a b (some s) = refl

module _ (lower : String → String) (f : Faults) (u : User) (m : GuildMembership) (refused : Bool)
    (correlation : String) (now : ℕ) where
  trigger_result-services :
      (r : Result ServiceError SyncRun × System) (w : World)
      → (trigger_result lower f u m refused correlation now r w).1.services
        ≡ put_service m.guild.id r.1 w.services
  unfolding trigger_result
  trigger_result-services (err e, t) w = refl
  trigger_result-services (ok run, t) w = refl

  operation_result-services :
      (event : String) (r : Result ServiceError SyncRun × System) (w : World)
      → (operation_result lower f u m refused correlation now event r w).1.services
        ≡ put_service m.guild.id r.1 w.services
  unfolding operation_result
  operation_result-services event (err e, t) w = refl
  operation_result-services event (ok run, t) w = refl

  cancel_result-refused :
      (e : ServiceError) (r : Option ServiceError × System) (w : World)
      → r.0 ≡ some e
      → (cancel_result lower f u m refused correlation now r w).1.services ≡ w.services
  unfolding cancel_result
  cancel_result-refused e (some x, t) w h = refl
  cancel_result-refused e (none, t) w h = absurd (ground arith)

  cancel_result-services :
      (r : Option ServiceError × System) (w : World)
      → r.0 ≡ none
      → (cancel_result lower f u m refused correlation now r w).1.services
        ≡ put_service m.guild.id r.1 w.services
  unfolding cancel_result
  cancel_result-services (some x, t) w h = absurd (ground arith)
  cancel_result-services (none, t) w h = refl

  start-keeps :
      (s : System) (trigger : String) (dry : Bool)
      → Inv s
      → Inv (start s refused trigger dry correlation now).1
  unfolding step
  start-keeps s trigger dry v = step-Inv s (starts refused trigger dry correlation now) v

  retry-keeps :
      (s : System) (id : ℕ) → Inv s → Inv (start_retry lower f u m refused correlation now id s).1
  unfolding start_retry
  retry-keeps s id v = elim (Result-cases (retry_names lower s refused id)) [
    | inr (e, q) ↦ rw (q, start_retry) v
    | inl (names, q) ↦ rw (q, start_retry) (start-keeps s "retry" false v)
  ]

  handle_sync-IsOperated :
      (r : SyncRequest) (w : World)
      → IsOperated m.guild.id w.services
          (handle_sync lower f u m refused correlation now r w).1.services
  unfolding handle_sync trigger_sync dry_run cancel_sync retry_sync step
  handle_sync-IsOperated triggers w = elim (Option-cases (service_of m.guild.id w.services)) [
    | inl q ↦ inl (rw (q, trigger_sync))
    | inr (s, q) ↦ inr (
      s,
      (start (load w.shared s) refused "manual" false correlation now).1,
      q,
      (λ v. start-keeps (load w.shared s) "manual" false (load-Inv w.shared s v)),
      rw (q, trigger_sync)
          (trigger_result-services (start (load w.shared s) refused "manual" false correlation now)
            w),
    )
  ]
  handle_sync-IsOperated dry_runs w = elim (Option-cases (service_of m.guild.id w.services)) [
    | inl q ↦ inl (rw (q, dry_run))
    | inr (s, q) ↦ inr (
      s,
      (start (load w.shared s) refused "dry-run" true correlation now).1,
      q,
      (λ v. start-keeps (load w.shared s) "dry-run" true (load-Inv w.shared s v)),
      rw (q, dry_run)
          (operation_result-services "sync_dry_run"
            (start (load w.shared s) refused "dry-run" true correlation now) w),
    )
  ]
  handle_sync-IsOperated cancels_run w = elim (Option-cases (service_of m.guild.id w.services)) [
    | inl q ↦ inl (rw (q, cancel_sync))
    | inr (s, q) ↦ elim (Option-cases (cancel (load w.shared s)).0) [
      | inr (e, k) ↦
          inl (rw (q, cancel_sync) (cancel_result-refused e (cancel (load w.shared s)) w k))
      | inl k ↦ inr (
        s,
        (cancel (load w.shared s)).1,
        q,
        (λ v. step-Inv (load w.shared s) cancels (load-Inv w.shared s v)),
        rw (q, cancel_sync) (cancel_result-services (cancel (load w.shared s)) w k),
      )
    ]
  ]
  handle_sync-IsOperated (retries path) w = elim (Option-cases (path_id path)) [
    | inl k ↦ inl (rw (k, retry_sync))
    | inr (id, k) ↦ elim (Option-cases (service_of m.guild.id w.services)) [
      | inl q ↦ inl (rw (k, retry_sync, q))
      | inr (s, q) ↦
          let r = start_retry lower f u m refused correlation now id (load w.shared s) in
          inr (
            s,
            r.1,
            q,
            (λ v. retry-keeps (load w.shared s) id (load-Inv w.shared s v)),
            rw (k, retry_sync, q) (operation_result-services "sync_retry" r w),
          )
    ]
  ]

  -- A sync request in one guild leaves the service of every other guild as it is, but for the counters
  -- and the serial that all services share, and after it every service is still idle with nothing in
  -- flight or busy with exactly one run, if all were before.
  pub handle_sync-isolated :
      (r : SyncRequest) (w : World) (other : ℕ)
      → AllInv w.services
      → (m.guild.id == other) ≡ false
      → let after = (handle_sync lower f u m refused correlation now r w).1 in
        AllInv after.services
        × (guild_service other after ≡ loaded after.shared (guild_service other w))
  unfolding guild_service
  handle_sync-isolated r w other v n =
      let after = (handle_sync lower f u m refused correlation now r w).1 in
      let stored =
        elim (handle_sync-IsOperated r w)
          as (λ x.
            AllInv after.services
            × (service_of other after.services ≡ service_of other w.services)) [
              | inl e ↦ rw e (v, refl)
              | inr (s, t, q, k, e) ↦ rw e (
                put_service-AllInv m.guild.id t w.services
                    (k (service_of-Inv m.guild.id s w.services q v)) v,
                service_of-put_service m.guild.id other t w.services n,
              )
            ] in
      (
        stored.0,
        ap (loaded after.shared) stored.1
            ∙ sym (loaded-loaded after.shared w.shared (service_of other w.services)),
      )
