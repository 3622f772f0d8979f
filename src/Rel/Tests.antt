-- ===== src/Rel/Tests.antt =====
-- core/lib/rel/base.rs: a database as a log of entries, and a table over it.
use sysmaster.Base.{
  ℕ, [], ◌∷◌, HashMap, get, insert, remove, if◌then◌else◌, ◌==◌, ◌≡◌, none, some, IsUnique, arith,
  get-insert, insert-IsUnique, nat_eq,
}
use sysmaster.Rel.{Database, ReDb, new_redb, insert_entry, remove_entry, cache_2_db, db_2_cache}
use sysmaster.Rel.Synced.{ReReach, opened, called, inserts, removes, exports, cache_2_db-db_2_cache}

-- The newest entry of a key stands first.
log_entries : HashMap ℕ ℕ → HashMap ℕ ℕ
log_entries [] = []
log_entries ((k, v) ∷ d) = insert (log_entries d) k v

get-log_entries :
    (k v : ℕ) (d : HashMap ℕ ℕ) (j : ℕ)
    → get (log_entries ((k, v) ∷ d)) j ≡ (if k == j then some v else get (log_entries d) j)
unfolding log_entries
get-log_entries k v d j = get-insert (log_entries d) k v j

get-log_remove :
    (d : HashMap ℕ ℕ) (k j : ℕ)
    → get (log_entries (remove d k)) j ≡ (if k == j then none else get (log_entries d) j)
unfolding remove log_entries get
get-log_remove [] k j = ground arith
get-log_remove ((i, v) ∷ d) k j = ground (
  arith,
  get-log_remove d k j,
  get-insert (log_entries d) i v j,
  get-insert (log_entries (remove d k)) i v j,
  nat_eq.beq_iff i k,
  nat_eq.beq_iff i j,
  nat_eq.beq_iff k j,
)

log-IsUnique : (d : HashMap ℕ ℕ) → IsUnique (log_entries d)
unfolding log_entries
log-IsUnique [] = tt
log-IsUnique ((k, v) ∷ d) = insert-IsUnique (log_entries d) k v (log-IsUnique d)

abbrev log : Database (HashMap ℕ ℕ) ℕ ℕ
log = record {
  put = λ d k v. (k, v) ∷ d;
  delete = remove;
  entries = log_entries;
  get-put = λ d k v j. get-log_entries k v d j;
  get-delete = get-log_remove;
  entries-IsUnique = log-IsUnique;
}

opened_log : ReDb (HashMap ℕ ℕ) ℕ ℕ
opened_log = db_2_cache log (new_redb ((1, 10) ∷ []))

-- A key is entered, another taken out, and the table exported.
changed_log : ReDb (HashMap ℕ ℕ) ℕ ℕ
unfolding opened_log
changed_log = cache_2_db log (remove_entry (insert_entry opened_log 2 20) 1)

changed_reached : ReReach log changed_log
unfolding opened_log changed_log
changed_reached =
    called (called (called (opened ((1, 10) ∷ [])) (inserts 2 20)) (removes 1)) exports

cache_2_db_example :
    get (db_2_cache log (new_redb (cache_2_db log changed_log).db)).cache 2
    ≡ get changed_log.cache 2
cache_2_db_example = cache_2_db-db_2_cache changed_reached 2
