-- ===== src/Scenarios/Operations.antt =====
-- Sync requests in two guilds, of which the first is served.
use apekeeper.Common.{◌≡◌, refl, true, false, [], ◌∷◌}
use apekeeper.Domain.{GuildMembership, zero_guild}
use apekeeper.Access.Members.{Faults}
use apekeeper.Sync.Service.{init}
use apekeeper.Sync.Service.Reach.{init-Inv}
use apekeeper.Sync.Handlers.{
  guild_service, loaded, dry_run, scoped_operations, World, panics, service_of, dry_runs,
  handle_sync,
}
use apekeeper.Sync.Handlers.Laws.{AllInv, handle_sync-isolated}
use apekeeper.Scenarios.{apes, user, membership, empty_ledger}

abbrev faultless : Faults
faultless = record { find = false; target = false; grant = false; revoke = false; audit = false }

abbrev served : World
served = record {
  services = (1, init apes true empty_ledger) ∷ (2, init apes true empty_ledger) ∷ [];
  shared = record {
    metrics = record { started = 0; completed = 0; errors = 0; duration_nanos = 0 };
    next_id = 1;
  };
  db = record { rows = []; events = []; identities = [] };
}

served-AllInv : AllInv served.services
served-AllInv = (init-Inv apes true empty_ledger, (init-Inv apes true empty_ledger, tt))

abbrev dry_run_over : World
dry_run_over =
    (handle_sync (λ n. n) faultless (user 5 "member") (membership 5 "admin") false "c1" 100 dry_runs
      served).1

handle_sync-isolated_example :
    AllInv dry_run_over.services
    × (guild_service 2 dry_run_over ≡ loaded dry_run_over.shared (guild_service 2 served))
handle_sync-isolated_example =
    handle_sync-isolated (λ n. n) faultless (user 5 "member") (membership 5 "admin") false "c1" 100
      dry_runs served 2 served-AllInv refl

abbrev foreign : GuildMembership
foreign = record (membership 5 "admin") { guild = record zero_guild { id = 3 } }

-- in a guild without a service the pointer in the interface is nil, and a dry run panics
unserved_test :
    handle_sync (λ n. n) faultless (user 5 "member") foreign false "c1" 100 dry_runs served
    ≡ (panics, served)
unfolding handle_sync dry_run scoped_operations guild_service service_of
unserved_test = refl
