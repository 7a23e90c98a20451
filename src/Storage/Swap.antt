-- ===== src/Storage/Swap.antt =====
-- ReplaceRaids: the rows of a character are swapped as a whole or not at all.
use apekeeper.Common.{
  ℕ, ◌≡◌, not, ◌==◌, any, String, none, some, List, ◌∷◌, [], ◌++◌, Bool-cases, inl, inr, ◌⊎◌, arith,
  ok, err, keep, Result, Option-cases, Result-cases, sym, ◌∙◌, ap, map,
}
use mathlib.Core.List.{append-nil, append_assoc}
use apekeeper.Sync.Engine.{RaidRow}
use apekeeper.Storage.{insert_raids, swap_raids, commit, replace_raids, raid_row}
use apekeeper.Storage.Tables.{Database, begins, commits, inserts_raid, same_raid, Server}

abbrev pub without_raids : ℕ → Database → Database
without_raids id t = record t { raids = keep (λ r. not (r.character_id == id)) t.raids }

result_or : Database → Result String Database → Database
result_or t (ok u) = u
result_or t (err e) = t

module _ (server : Server) where
  swap_raids-ok :
      (id : ℕ) (rs : List RaidRow) (t u : Database)
      → swap_raids server id rs t ≡ ok u
      → insert_raids server rs (without_raids id t) ≡ ok u
  unfolding swap_raids
  swap_raids-ok id rs t u h = ground arith

  -- The two ends of a swap.
  pub replace_raids-cases :
      (id : ℕ) (rs : List RaidRow) (t : Database)
      → ((e : String) × (replace_raids server id rs t ≡ (some e, t)))
        ⊎ ((u : Database) × (replace_raids server id rs t ≡ (none, u))
            × (insert_raids server rs (without_raids id t) ≡ ok u))
  unfolding replace_raids commit
  replace_raids-cases id rs t = elim (Option-cases (server.refuses begins t)) [
    | inr (e, q) ↦ inl (e, rw (q, replace_raids))
    | inl q ↦ elim (Result-cases (swap_raids server id rs t)) [
      | inr (e, r) ↦ inl (e, rw (q, replace_raids, r))
      | inl (u, r) ↦ elim (Option-cases (server.refuses commits u)) [
        | inr (e, k) ↦ inl (e, rw (q, replace_raids, r, commit, k))
        | inl k ↦ inr (u, rw (q, replace_raids, r, commit, k), swap_raids-ok id rs t u r)
      ]
    ]
  ]

  pub insert_raids-ok :
      (rs : List RaidRow) (t u : Database)
      → insert_raids server rs t ≡ ok u
      → u ≡ record t { raids = t.raids ++ map (raid_row server) rs }
  unfolding insert_raids result_or
  insert_raids-ok [] t u q =
      ap (result_or t) (sym q) ∙ ap (λ l. record t { raids = l }) (sym (append-nil t.raids))
  insert_raids-ok (r ∷ rs) t u q = elim (Option-cases (server.refuses (inserts_raid r) t)) [
    | inr (e, k) ↦ absurd (ground arith)
    | inl k ↦ elim (Bool-cases (any (λ old. same_raid old r) t.raids)) [
      | inl d ↦ absurd (ground arith)
      | inr d ↦
          insert_raids-ok rs (record t { raids = t.raids ++ raid_row server r ∷ [] }) u
            (ground arith)
          ∙ ap (λ l. record t { raids = l })
              (append_assoc t.raids (raid_row server r ∷ []) (map (raid_row server) rs))
    ]
  ]

  -- Replacing the raids of a character either ends with an error and leaves the database as it was,
  -- or ends without one, and then the rows of the character are gone, the given rows follow the
  -- rows of the other characters, and nothing else has changed.
  pub replace_raids_atomic :
      (id : ℕ) (rs : List RaidRow) (t : Database)
      → ((e : String) × (replace_raids server id rs t ≡ (some e, t)))
        ⊎ (replace_raids server id rs t ≡ (
          none,
          record t {
            raids = keep (λ r. not (r.character_id == id)) t.raids ++ map (raid_row server) rs;
          },
        ))
  replace_raids_atomic id rs t = elim (replace_raids-cases id rs t) [
    | inl h ↦ inl h
    | inr (u, q, r) ↦ inr (q ∙ ap (λ x. (none, x)) (insert_raids-ok rs (without_raids id t) u r))
  ]
