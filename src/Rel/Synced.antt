-- ===== src/Rel/Synced.antt =====
-- core/lib/rel/base.rs: the cache is the database with the changes not yet exported.
use sysmaster.Base.{
  Bool, true, false, List, [], ◌∷◌, Option, HashMap, get, insert, contains, if◌then◌else◌, Eq, ◌≡◌,
  refl, none, some, IsUnique, arith, get-insert, get-remove, insert-IsUnique, remove-IsUnique, sym,
  ◌∙◌, contains-set_remove, contains-set_insert,
}
use sysmaster.Rel.{
  Database, ReDb, new_redb, set_ignore, insert_entry, remove_entry, put_all, delete_all, cache_2_db,
  insert_all, db_2_cache,
}

module _ {K V : Type 0} ⦃e : Eq K⦄ where
  get-insert_all :
      (es m : HashMap K V) (j : K)
      → IsUnique es
      → get (insert_all es m) j ≡ elim (get es j) [ none ↦ get m j | some v ↦ some v ]
  unfolding insert_all get
  get-insert_all [] m j u = refl
  get-insert_all ((k, v) ∷ es) m j u =
      ground (arith, get-insert_all es (insert m k v) j u.1, get-insert m k v j, e.beq_iff k j)

module _ {D K V : Type 0} ⦃e : Eq K⦄ where
  -- The entry that the exported database will have.
  abbrev pub pending : Database D K V → ReDb D K V → K → Option V
  pending b r k =
      if contains r.del k
      then none
      else elim (get r.add k) [ none ↦ get (b.entries r.db) k | some v ↦ some v ]

  pub record IsSynced (b : Database D K V) (r : ReDb D K V) : Type 0 where
    pub view : (k : K) → get r.cache k ≡ pending b r k
    pub apart : (k : K) → contains r.del k ≡ true → get r.add k ≡ none
    pub unique : IsUnique r.add

  get-put_all :
      (b : Database D K V) (m : HashMap K V) (d : D) (j : K)
      → IsUnique m
      → get (b.entries (put_all b m d)) j
        ≡ elim (get m j) [ none ↦ get (b.entries d) j | some v ↦ some v ]
  unfolding put_all get
  get-put_all b [] d j u = refl
  get-put_all b ((k, v) ∷ m) d j u =
      ground (arith, get-put_all b m (b.put d k v) j u.1, b.get-put d k v j, e.beq_iff k j)

  get-delete_all :
      (b : Database D K V) (s : List K) (d : D) (j : K)
      → get (b.entries (delete_all b s d)) j ≡ (if contains s j then none else get (b.entries d) j)
  unfolding delete_all
  get-delete_all b [] d j = refl
  get-delete_all b (k ∷ s) d j =
      ground (arith, get-delete_all b s (b.delete d k) j, b.get-delete d k j)

  IsSynced-if :
      (b : Database D K V) (i : Bool) (r r' : ReDb D K V)
      → IsSynced b r
      → IsSynced b r'
      → IsSynced b (if i then r else r')
  IsSynced-if b true r r' h h' = h
  IsSynced-if b false r r' h h' = h'

  insert_entry-IsSynced :
      (b : Database D K V) (r : ReDb D K V) (k : K) (v : V)
      → IsSynced b r
      → IsSynced b (insert_entry r k v)
  unfolding insert_entry
  insert_entry-IsSynced b r k v h = IsSynced-if b r.ignore r _ h (record {
    view = λ j. ground (
      arith,
      h.view j,
      get-insert r.cache k v j,
      get-insert r.add k v j,
      contains-set_remove r.del k j,
    );
    apart = λ j c. ground (arith, h.apart j, get-insert r.add k v j, contains-set_remove r.del k j);
    unique = insert-IsUnique r.add k v h.unique;
  })

  remove_entry-IsSynced :
      (b : Database D K V) (r : ReDb D K V) (k : K) → IsSynced b r → IsSynced b (remove_entry r k)
  unfolding remove_entry
  remove_entry-IsSynced b r k h = IsSynced-if b r.ignore r _ h (record {
    view = λ j. ground (
      arith,
      h.view j,
      get-remove r.cache k j,
      get-remove r.add k j,
      contains-set_insert r.del k j,
    );
    apart = λ j c. ground (arith, h.apart j, get-remove r.add k j, contains-set_insert r.del k j);
    unique = remove-IsUnique r.add k h.unique;
  })

  get-cache_2_db :
      (b : Database D K V) (r : ReDb D K V) (k : K)
      → IsSynced b r
      → get (b.entries (cache_2_db b r).db) k ≡ get r.cache k
  unfolding cache_2_db
  get-cache_2_db b r k h = ground (
    arith,
    get-delete_all b r.del (put_all b r.add r.db) k,
    get-put_all b r.add r.db k h.unique,
    h.view k,
  )

  cache_2_db-IsSynced :
      (b : Database D K V) (r : ReDb D K V) → IsSynced b r → IsSynced b (cache_2_db b r)
  unfolding cache_2_db get
  cache_2_db-IsSynced b r h = record {
    view = λ k. sym (get-cache_2_db b r k h);
    apart = λ k c. cc;
    unique = tt;
  }

  get-db_2_cache :
      (b : Database D K V) (r : ReDb D K V) (k : K)
      → get (db_2_cache b r).cache k ≡ get (b.entries r.db) k
  unfolding db_2_cache get
  get-db_2_cache b r k =
      ground (arith, get-insert_all (b.entries r.db) [] k (b.entries-IsUnique r.db))

  db_2_cache-IsSynced : (b : Database D K V) (r : ReDb D K V) → IsSynced b (db_2_cache b r)
  unfolding db_2_cache get
  db_2_cache-IsSynced b r = record {
    view = λ k. get-db_2_cache b r k;
    apart = λ k c. cc;
    unique = tt;
  }

  -- One call on a table.
  pub data ReStep (b : Database D K V) (r : ReDb D K V) : ReDb D K V → Type 0 where
    inserts : (k : K) (v : V) → ReStep b r (insert_entry r k v)
    removes : (k : K) → ReStep b r (remove_entry r k)
    ignores : (i : Bool) → ReStep b r (set_ignore r i)
    exports : ReStep b r (cache_2_db b r)
    imports : ReStep b r (db_2_cache b r)

  -- Any calls on a table that was imported.
  pub data ReReach (b : Database D K V) : ReDb D K V → Type 0 where
    opened : (db : D) → ReReach b (db_2_cache b (new_redb db))
    called : {r r' : ReDb D K V} → ReReach b r → ReStep b r r' → ReReach b r'

  ReStep-IsSynced :
      {b : Database D K V} {r r' : ReDb D K V} → ReStep b r r' → IsSynced b r → IsSynced b r'
  unfolding set_ignore
  ReStep-IsSynced {b} {r} (inserts k v) h = insert_entry-IsSynced b r k v h
  ReStep-IsSynced {b} {r} (removes k) h = remove_entry-IsSynced b r k h
  ReStep-IsSynced {b} {r} (ignores i) h = record {
    view = h.view;
    apart = h.apart;
    unique = h.unique;
  }
  ReStep-IsSynced {b} {r} exports h = cache_2_db-IsSynced b r h
  ReStep-IsSynced {b} {r} imports h = db_2_cache-IsSynced b r

  ReReach-IsSynced : {b : Database D K V} {r : ReDb D K V} → ReReach b r → IsSynced b r
  ReReach-IsSynced {b} (opened db) = db_2_cache-IsSynced b (new_redb db)
  ReReach-IsSynced (called reach s) = ReStep-IsSynced s (ReReach-IsSynced reach)

-- Whatever inserts, removals, imports and exports were called, in any order, on a table after it was
-- imported: if it is exported and a new table is then imported from the database, each key has there
-- the value that it had in the cache.
pub cache_2_db-db_2_cache :
    {D K V : Type 0} ⦃e : Eq K⦄ {b : Database D K V} {r : ReDb D K V}
    → ReReach b r
    → (k : K) → get (db_2_cache b (new_redb (cache_2_db b r).db)).cache k ≡ get r.cache k
cache_2_db-db_2_cache {b} {r} reach k =
    get-db_2_cache b (new_redb (cache_2_db b r).db) k
    ∙ get-cache_2_db b r k (ReReach-IsSynced reach)
