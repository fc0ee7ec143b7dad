-- ===== src/Advisor.antt =====
-- internal/advisor/sync.go and internal/coordinator/advisorsync.go: the lists of VPS Advisor brought
-- into the database. What VPS Advisor answers is an argument, `none` where it does not.
pub mod Cursor
pub mod Listing
use vpsa_network_discovery.Prelude.{
  ℕ, zero, suc, ◌≡◌, Bool, true, false, not, ◌&&◌, ◌||◌, Option, none, some, List, [], ◌∷◌, ◌++◌,
  map, Bytes, ltb, ◌==◌, is_none, if◌then◌else◌,
}
use vpsa_network_discovery.Database.{Database, Provider, Asn, WorkerState}
use vpsa_network_discovery.Sql.{
  Result, ok, err, db_error, M, Conn, exec, transact, pure, raise, ◌>>=◌, ◌>>◌,
}
use vpsa_network_discovery.Sql.Table.{update, exists, find}
use vpsa_network_discovery.Registry.{ingest_enrollment, apply_decision}

-- A provider as VPS Advisor lists it.
pub record Listed : Type 0 where
  pub provider : ℕ
  pub name : Bytes
  pub monitoring_enabled : Bool
  pub priority : ℕ
  pub asns : List ℕ

abbrev pub is_provider : ℕ → Provider → Bool
is_provider id p = p.id == id

abbrev pub row_of : Listed → Provider
row_of l = record {
  id = l.provider;
  name = l.name;
  monitoring_enabled = l.monitoring_enabled;
  priority = l.priority;
  delisted_at = none;
}

-- insert … on conflict (provider_id) do update
unfoldable pub upsert_provider : Listed → Database → Result (Unit {0} × Database)
upsert_provider l db =
    if exists (is_provider l.provider) db.providers
    then ok
        (tt, record db { providers = update (is_provider l.provider) (λ p. row_of l) db.providers })
    else ok (tt, record db { providers = db.providers ++ row_of l ∷ [] })

abbrev pub is_asn : ℕ → Asn → Bool
is_asn asn r = r.asn == asn

-- insert … on conflict (asn) do update
unfoldable pub upsert_asn : ℕ → ℕ → Database → Result (Unit {0} × Database)
upsert_asn asn provider db =
    if exists (is_asn asn) db.asns
    then ok (
      tt,
      record db { asns = update (is_asn asn) (λ r. record r { provider = provider }) db.asns },
    )
    else ok (tt, record db { asns = db.asns ++ record { asn = asn; provider = provider } ∷ [] })

-- asnToProvider: claimed by another provider
unfoldable pub claimed_by_other : List Asn → ℕ → ℕ → Bool
claimed_by_other seen asn provider = elim (find (is_asn asn) seen) [
  | none ↦ false
  | some r ↦ not (r.provider == provider)
]

unfoldable pub sync_asns : ℕ → List ℕ → List Asn → M Database (List Asn)
unfolding claimed_by_other upsert_asn
sync_asns provider [] seen = pure seen
sync_asns provider (asn ∷ asns) seen =
    if claimed_by_other seen asn provider
    then raise db_error
    else exec (upsert_asn asn provider)
      >>= (λ u. sync_asns provider asns (record { asn = asn; provider = provider } ∷ seen))

unfoldable pub sync_each : List Listed → List Asn → M Database (List Asn)
unfolding upsert_provider sync_asns
sync_each [] seen = pure seen
sync_each (l ∷ ls) seen =
    exec (upsert_provider l) >>= (λ u. sync_asns l.provider l.asns seen >>= sync_each ls)

unfoldable pub is_listed : List Listed → ℕ → Bool
is_listed [] id = false
is_listed (l ∷ ls) id = l.provider == id || is_listed ls id

-- update … set delisted_at = now() where delisted_at is null and not listed
unfoldable pub delist : ℕ → List Listed → Database → Result (Unit {0} × Database)
unfolding is_listed
delist now ls db = ok (
  tt,
  record db {
    providers =
        update (λ p. is_none p.delisted_at && not (is_listed ls p.id))
          (λ p. record p { delisted_at = some now }) db.providers;
  },
)

-- SyncProviders
unfoldable pub sync_providers : ℕ → Option (List Listed) → M Database (List Asn)
unfolding sync_each delist
sync_providers now none = raise db_error
sync_providers now (some ls) = transact (do seen ← sync_each ls []; exec (delist now ls); pure seen)

-- An enrollment that waits on VPS Advisor.
pub record Enrollment : Type 0 where
  pub id : ℕ
  pub worker : ℕ
  pub operator : ℕ
  pub name : Bytes
  pub token_hash : Option Bytes
  pub expires_at : ℕ

abbrev pub succeeded {ℓ} : {A : Type ℓ} → Result A → Bool
succeeded (ok a) = true
succeeded (err e) = false

-- The loop over the enrollments: those acknowledged, and the database.
unfoldable pub provision : List Enrollment → Conn Database → List ℕ × Conn Database
provision [] c = ([], c)
provision (e ∷ es) c =
    let (r, c') = ingest_enrollment e.worker e.operator e.name e.token_hash e.expires_at c in
    let (acks, c'') = provision es c' in (if succeeded r then e.id ∷ acks else acks, c'')

-- A decision of an administrator on VPS Advisor.
pub record Decision : Type 0 where
  pub worker : ℕ
  pub state : Option WorkerState
  pub reason : Bytes
  pub decided_at : ℕ

-- d.DecidedAt.After(cursor)
unfoldable pub advance : ℕ → ℕ → ℕ
advance cursor decided_at = if ltb cursor decided_at then decided_at else cursor

-- The loop over the decisions, from a cursor.
unfoldable pub apply_all : ℕ → List Decision → ℕ → Conn Database → ℕ × Conn Database
unfolding advance
apply_all now [] cursor c = (cursor, c)
apply_all now (d ∷ ds) cursor c =
    let (r, c') = apply_decision now d.worker d.state d.reason c in
    apply_all now ds (if succeeded r then advance cursor d.decided_at else cursor) c'

unfoldable pub apply_some : ℕ → Option (List Decision) → ℕ → Conn Database → ℕ × Conn Database
unfolding apply_all
apply_some now none since c = (since, c)
apply_some now (some ds) since c = apply_all now ds since c

abbrev pub all_of {ℓ} : {A : Type ℓ} → Option (List A) → List A
all_of none = []
all_of (some xs) = xs

-- SyncAdvisor, for a client that is configured: the cursor, and the database.
unfoldable pub sync_advisor :
    ℕ
    → Option (List Listed)
    → Option (List Enrollment)
    → Option (List Decision)
    → ℕ
    → Conn Database
    → ℕ × Conn Database
unfolding sync_providers provision apply_some
sync_advisor now providers enrollments decisions since c =
    let (r, c') = sync_providers now providers c in
    let (acks, c'') = provision (all_of enrollments) c' in apply_some now decisions since c''
