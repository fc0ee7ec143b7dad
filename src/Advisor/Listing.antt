-- ===== src/Advisor/Listing.antt =====
-- For internal/advisor/sync.go: the providers after a synchronisation.
use vpsa_network_discovery.Prelude.{ℕ, ◌≡◌, Bool, false, not, ◌&&◌, some, List, [], is_none, arith}
use vpsa_network_discovery.Database.{Database, Provider}
use vpsa_network_discovery.Sql.Hoare.{Hoare, Hoare-bind, Hoare-exec, Hoare-any, Hoare-transact}
use vpsa_network_discovery.Sql.Keeps.{Leaves}
use vpsa_network_discovery.Sql.Table.{exists, exists-update_none}
use vpsa_network_discovery.Advisor.{Listed, is_listed, delist, sync_providers, sync_each}

-- A provider that is in force without being listed.
abbrev pub is_left : List Listed → Provider → Bool
is_left ls p = is_none p.delisted_at && not (is_listed ls p.id)

pub record IsCurrent (ls : List Listed) (db : Database) : Type 0 where
  pub none_left : exists (is_left ls) db.providers ≡ false

delist-IsCurrent :
    (now : ℕ) (ls : List Listed) (db : Database) → Leaves (IsCurrent ls) (delist now ls db)
unfolding delist
delist-IsCurrent now ls db = record {
  none_left = exists-update_none (is_left ls) (is_left ls) _ db.providers (λ p. ground arith);
}

-- A synchronisation of the providers that succeeds leaves in force no provider that VPS Advisor
-- does not list, and one that fails leaves the database as it was.
pub sync_providers-IsCurrent :
    (now : ℕ) (ls : List Listed) (before : Database)
    → Hoare (λ db. db ≡ before) (IsCurrent ls) (λ db. db ≡ before) (sync_providers now (some ls))
unfolding sync_providers
sync_providers-IsCurrent now ls before =
    Hoare-transact _ (λ db e. e)
      (Hoare-bind {Q = λ db. Unit {0}} _ _ (Hoare-any (sync_each ls [])) λ seen.
        Hoare-bind {Q = IsCurrent ls} _ _
          (Hoare-exec _ (λ db v. tt) (λ db v. delist-IsCurrent now ls db))
          λ u. record { at = λ c v. v })
