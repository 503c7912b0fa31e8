-- ===== src/Core/Redis.antt =====
-- A Redis server, which is not part of the repository: the code uses it through this interface.
-- A key is named by what its text is built from, `refresh:{user_id}:{jti}` and so on.
use green_communuty_backend.Prelude.{
  ℕ, suc, ◌<◌, String, ◌≡◌, Bool, true, false, ◌&&◌, ◌||◌, Option, none, some, List, [], ◌∷◌, ◌==◌,
  str_eq, if◌then◌else◌,
}

-- The keys of token_store.py, of the rate limiter in auth/service.py, and of post_repository.py.
pub data Key : Type 0 where
  refresh : ℕ → String → Key
  refresh_index : ℕ → Key
  refresh_used : ℕ → String → Key
  ratelimit_email : String → Key
  ratelimit_ip : String → Key
  post_like : ℕ → ℕ → Key

abbrev pub key_eq : Key → Key → Bool
key_eq (refresh a j) (refresh b k) = a == b && str_eq j k
key_eq (refresh_index a) (refresh_index b) = a == b
key_eq (refresh_used a j) (refresh_used b k) = a == b && str_eq j k
key_eq (ratelimit_email a) (ratelimit_email b) = str_eq a b
key_eq (ratelimit_ip a) (ratelimit_ip b) = str_eq a b
key_eq (post_like a u) (post_like b v) = a == b && u == v
key_eq _ _ = false

-- Membership in what SMEMBERS lists.
abbrev pub has_member : String → List String → Bool
has_member m [] = false
has_member m (x ∷ xs) = str_eq x m || has_member m xs

abbrev pub has_pair : ℕ → ℕ → List (ℕ × ℕ) → Bool
has_pair a b [] = false
has_pair a b ((c, d) ∷ xs) = (c == a && d == b) || has_pair a b xs

pub record Redis : Type 1 where
  pub Store : Type 0
  -- GET, SET, SET … EX, DEL, SADD, SREM, EXPIRE, SMEMBERS
  pub get : Key → Store → Option String
  pub set : Key → String → Store → Store
  pub set_ex : Key → String → ℕ → Store → Store
  pub delete : Key → Store → Store
  pub sadd : Key → String → Store → Store
  pub srem : Key → String → Store → Store
  pub expire : Key → ℕ → Store → Store
  pub smembers : Key → Store → List String
  -- INCR and EXPIRE … NX in one pipeline, the counter that INCR reads, and the seconds that a
  -- key has left (0: none, or no such key)
  pub incr_expire_nx : Key → ℕ → Store → Store
  pub counter : Key → Store → ℕ
  pub ttl : Key → Store → ℕ
  -- the keys post_like:{post_id}:{user_id}, by SCAN
  pub scan_likes : Store → List (ℕ × ℕ)
  -- the seconds that pass
  pub elapse : ℕ → Store → Store

-- What the documentation of the commands says of a key that holds a text.
pub record RedisTexts (R : Redis) : Type 0 where
  pub get-set :
      (k j : Key) (v : String) (s : R.Store)
      → R.get k (R.set j v s) ≡ (if key_eq j k then some v else R.get k s)
  pub get-set_ex :
      (k j : Key) (v : String) (n : ℕ) (s : R.Store)
      → R.get k (R.set_ex j v n s) ≡ (if key_eq j k then some v else R.get k s)
  pub get-delete :
      (k j : Key) (s : R.Store) → R.get k (R.delete j s) ≡ (if key_eq j k then none else R.get k s)
  pub get-sadd : (k j : Key) (m : String) (s : R.Store) → R.get k (R.sadd j m s) ≡ R.get k s
  pub get-srem : (k j : Key) (m : String) (s : R.Store) → R.get k (R.srem j m s) ≡ R.get k s
  pub get-expire_index :
      (k : Key) (u n : ℕ) (s : R.Store) → R.get k (R.expire (refresh_index u) n s) ≡ R.get k s
  pub scan_likes-lists :
      (p u : ℕ) (s : R.Store) (v : String)
      → R.get (post_like p u) s ≡ some v
      → has_pair p u (R.scan_likes s) ≡ true

-- What the documentation says of expiry: SET … EX sets the seconds that a key has left, commands on
-- another key leave them alone, a key keeps its text for as long, and no text appears by waiting.
pub record RedisExpiry (R : Redis) : Type 0 where
  pub ttl-set_ex :
      (k : Key) (v : String) (n : ℕ) (s : R.Store) → 0 < n → R.ttl k (R.set_ex k v n s) ≡ n
  pub ttl-set_ex_other :
      (k j : Key) (v : String) (n : ℕ) (s : R.Store)
      → key_eq j k ≡ false
      → R.ttl k (R.set_ex j v n s) ≡ R.ttl k s
  pub ttl-sadd :
      (k j : Key) (m : String) (s : R.Store)
      → key_eq j k ≡ false
      → R.ttl k (R.sadd j m s) ≡ R.ttl k s
  pub ttl-expire_other :
      (k j : Key) (n : ℕ) (s : R.Store) → key_eq j k ≡ false → R.ttl k (R.expire j n s) ≡ R.ttl k s
  pub get-elapse :
      (k : Key) (seconds : ℕ) (s : R.Store)
      → seconds < R.ttl k s
      → R.get k (R.elapse seconds s) ≡ R.get k s
  pub get-elapse_none :
      (k : Key) (seconds : ℕ) (s : R.Store) → R.get k s ≡ none → R.get k (R.elapse seconds s) ≡ none

-- INCR and EXPIRE of a key leave the text of another key alone.
pub record RedisApart (R : Redis) : Type 0 where
  pub get-incr :
      (k j : Key) (window : ℕ) (s : R.Store)
      → key_eq j k ≡ false
      → R.get k (R.incr_expire_nx j window s) ≡ R.get k s

-- What the documentation of INCR says, and DEL of a counter.
pub record RedisCounters (R : Redis) : Type 0 where
  pub counter-incr :
      (k j : Key) (window : ℕ) (s : R.Store)
      → R.counter k (R.incr_expire_nx j window s)
        ≡ (if key_eq j k then suc (R.counter k s) else R.counter k s)
  pub counter-delete :
      (k j : Key) (s : R.Store)
      → R.counter k (R.delete j s) ≡ (if key_eq j k then 0 else R.counter k s)
