-- ===== src/Examples/Cache.antt =====
-- A cache that keeps the log of its writes.
use green_communuty_backend.Prelude.{
  ℕ, suc, String, ◌≡◌, refl, Bool, true, false, ◌&&◌, not, Option, none, some, List, [], ◌∷◌,
  str_eq, eq_iff, select, if◌then◌else◌, arith,
}
use green_communuty_backend.Core.Redis.{
  Redis, RedisTexts, RedisCounters, RedisApart, RedisExpiry, Key, key_eq, post_like, has_pair,
}

-- The newest write of a key first; a deletion is written as none. A hit is written as true, the
-- reset of a counter as false.
pub record Log : Type 0 where
  pub texts : List (Key × Option String)
  pub hits : List (Key × Bool)
  pub members : List (Key × String)
  pub lifetimes : List (Key × ℕ)

abbrev lookup : Key → List (Key × Option String) → Option String
lookup k [] = none
lookup k ((j, v) ∷ log) = if key_eq j k then v else lookup k log

abbrev hits_of : Key → List (Key × Bool) → ℕ
hits_of k [] = 0
hits_of k ((j, true) ∷ log) = if key_eq j k then suc (hits_of k log) else hits_of k log
hits_of k ((j, false) ∷ log) = if key_eq j k then 0 else hits_of k log

abbrev members_of : Key → List (Key × String) → List String
members_of k [] = []
members_of k ((j, m) ∷ log) = if key_eq j k then m ∷ members_of k log else members_of k log

abbrev lifetime : Key → List (Key × ℕ) → ℕ
lifetime k [] = 0
lifetime k ((j, n) ∷ log) = if key_eq j k then n else lifetime k log

abbrev with_like : Key → List (ℕ × ℕ) → List (ℕ × ℕ)
with_like (post_like p u) found = (p, u) ∷ found
with_like (Key.refresh u j) found = found
with_like (Key.refresh_index u) found = found
with_like (Key.refresh_used u j) found = found
with_like (Key.ratelimit_email e) found = found
with_like (Key.ratelimit_ip i) found = found

abbrev likes_of : List (Key × Option String) → List (ℕ × ℕ)
likes_of [] = []
likes_of ((j, v) ∷ log) = with_like j (likes_of log)

likes_of-lists :
    (p u : ℕ) (log : List (Key × Option String)) (v : String)
    → lookup (post_like p u) log ≡ some v
    → has_pair p u (likes_of log) ≡ true
likes_of-lists p u [] v h = ground arith
likes_of-lists p u ((post_like q w, o) ∷ log) v h = ground (arith, likes_of-lists p u log v)
likes_of-lists p u ((Key.refresh q w, o) ∷ log) v h = likes_of-lists p u log v h
likes_of-lists p u ((Key.refresh_index q, o) ∷ log) v h = likes_of-lists p u log v h
likes_of-lists p u ((Key.refresh_used q w, o) ∷ log) v h = likes_of-lists p u log v h
likes_of-lists p u ((Key.ratelimit_email q, o) ∷ log) v h = likes_of-lists p u log v h
likes_of-lists p u ((Key.ratelimit_ip q, o) ∷ log) v h = likes_of-lists p u log v h

abbrev pub cache : Redis
cache = record {
  Store = Log;
  get = λ k s. lookup k s.texts;
  set = λ k v s. record s { texts = (k, some v) ∷ s.texts };
  set_ex = λ k v n s. record s { texts = (k, some v) ∷ s.texts; lifetimes = (k, n) ∷ s.lifetimes };
  delete = λ k s. record s {
    texts = (k, none) ∷ s.texts;
    hits = (k, false) ∷ s.hits;
    members = select (λ m. not (key_eq m.0 k)) s.members;
  };
  sadd = λ k v s. record s { members = (k, v) ∷ s.members };
  srem = λ k v s. record s { members = select (λ m. not (key_eq m.0 k && str_eq m.1 v)) s.members };
  expire = λ k n s. record s { lifetimes = (k, n) ∷ s.lifetimes };
  smembers = λ k s. members_of k s.members;
  incr_expire_nx = λ k n s. record s { hits = (k, true) ∷ s.hits };
  counter = λ k s. hits_of k s.hits;
  ttl = λ k s. lifetime k s.lifetimes;
  scan_likes = λ s. likes_of s.texts;
  elapse = λ n s. s;
}

pub cache-texts : RedisTexts cache
cache-texts = record {
  get-set = λ k j v s. refl;
  get-set_ex = λ k j v n s. refl;
  get-delete = λ k j s. refl;
  get-sadd = λ k j m s. refl;
  get-srem = λ k j m s. refl;
  get-expire_index = λ k u n s. refl;
  scan_likes-lists = λ p u s v h. likes_of-lists p u s.texts v h;
}

key_eq_refl : (k : Key) → key_eq k k ≡ true
key_eq_refl (Key.refresh u j) = ground (arith, eq_iff j j)
key_eq_refl (Key.refresh_index u) = ground arith
key_eq_refl (Key.refresh_used u j) = ground (arith, eq_iff j j)
key_eq_refl (Key.ratelimit_email e) = (eq_iff e e).1 refl
key_eq_refl (Key.ratelimit_ip i) = (eq_iff i i).1 refl
key_eq_refl (post_like p u) = ground arith

-- It forgets nothing, which the laws allow.
pub cache-expiry : RedisExpiry cache
cache-expiry = record {
  ttl-set_ex = λ k v n s filled. rw (key_eq_refl k) refl;
  ttl-set_ex_other = λ k j v n s apart. rw apart refl;
  ttl-sadd = λ k j m s apart. refl;
  ttl-expire_other = λ k j n s apart. rw apart refl;
  get-elapse = λ k seconds s early. refl;
  get-elapse_none = λ k seconds s gone. gone;
}

pub cache-counters : RedisCounters cache
cache-counters = record { counter-incr = λ k j n s. refl; counter-delete = λ k j s. refl }

pub cache-apart : RedisApart cache
cache-apart = record { get-incr = λ k j n s apart. refl }
