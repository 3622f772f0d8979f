-- ===== src/Rel.antt =====
-- core/lib/rel/base.rs: a table of the reliability database, with its cache and the changes that are
-- not exported yet. The database below is a parameter.
pub mod Synced
mod Tests
use sysmaster.Base.{
  Bool, true, false, List, [], ◌∷◌, Option, HashMap, get, insert, remove, contains, set_insert,
  set_remove, if◌then◌else◌, ◌==◌, Eq, ◌≡◌, none, some, IsUnique, keys,
}

-- What `heed` does for one database: `put` and `delete` an entry, and iterate over the entries, with each
-- key once.
pub record Database (D K V : Type 0) ⦃e : Eq K⦄ : Type 0 where
  pub put : D → K → V → D
  pub delete : D → K → D
  pub entries : D → List (K × V)
  pub get-put :
      (d : D) (k : K) (v : V) (j : K)
      → get (entries (put d k v)) j ≡ (if k == j then some v else get (entries d) j)
  pub get-delete :
      (d : D) (k j : K)
      → get (entries (delete d k)) j ≡ (if k == j then none else get (entries d) j)
  pub entries-IsUnique : (d : D) → IsUnique (entries d)

-- `ReDb`; `del` is a set.
pub record ReDb (D K V : Type 0) : Type 0 where
  pub ignore : Bool
  pub db : D
  pub cache : HashMap K V
  pub add : HashMap K V
  pub del : List K

module _ {K V : Type 0} ⦃e : Eq K⦄ where
  unfoldable pub insert_all : List (K × V) → HashMap K V → HashMap K V
  insert_all [] m = m
  insert_all ((k, v) ∷ es) m = insert_all es (insert m k v)

module _ {D K V : Type 0} ⦃e : Eq K⦄ where
  abbrev pub new_redb : D → ReDb D K V
  new_redb db = record { ignore = false; db = db; cache = []; add = []; del = [] }

  unfoldable pub set_ignore : ReDb D K V → Bool → ReDb D K V
  set_ignore r ignore = record r { ignore = ignore }

  unfoldable pub insert_entry : ReDb D K V → K → V → ReDb D K V
  unfolding set_remove
  insert_entry r k v =
      if r.ignore
      then r
      else record r { del = set_remove r.del k; add = insert r.add k v; cache = insert r.cache k v }

  unfoldable pub remove_entry : ReDb D K V → K → ReDb D K V
  remove_entry r k =
      if r.ignore
      then r
      else record r { add = remove r.add k; del = set_insert r.del k; cache = remove r.cache k }

  abbrev pub get_entry : ReDb D K V → K → Option V
  get_entry r k = get r.cache k

  unfoldable pub put_all : Database D K V → HashMap K V → D → D
  put_all b [] d = d
  put_all b ((k, v) ∷ m) d = put_all b m (b.put d k v)

  unfoldable pub delete_all : Database D K V → List K → D → D
  delete_all b [] d = d
  delete_all b (k ∷ s) d = delete_all b s (b.delete d k)

  unfoldable pub cache_2_db : Database D K V → ReDb D K V → ReDb D K V
  unfolding put_all delete_all
  cache_2_db b r = record r { db = delete_all b r.del (put_all b r.add r.db); add = []; del = [] }

  unfoldable pub db_2_cache : Database D K V → ReDb D K V → ReDb D K V
  unfolding insert_all
  db_2_cache b r = record r { add = []; del = []; cache = insert_all (b.entries r.db) [] }
