-- ===== src/Resolver.antt =====
-- src/resolver.rs: addresses for locations, with a cache.
pub mod Answers
use rust_proxy.Prelude.{
  ℕ, ◌-◌, ◌*◌, ◌^◌, ◌≡◌, Bool, true, false, not, ◌&&◌, Option, none, some, List, [], ◌∷◌, ◌++◌, ltb,
  if◌then◌else◌, Error, Result, ok, err, panic, ◌>>=◌,
}
use rust_proxy.Decimal.{decimal}
use rust_proxy.Address.{
  Address, ipv4, ipv6, hostname, NetLocation, SocketAddr, v4, v6, to_socket_addr_nonblocking,
}
use rust_proxy.Address.Parse.{colon}

pub record CacheEntry : Type 0 where
  pub addr : SocketAddr
  pub inserted : ℕ

-- `lru::LruCache` of 1024 entries, by text: what is put is found next, and others may be forgotten.
pub record Cache : Type 1 where
  pub Map : Type 0
  pub get : List ℕ → Map → Option CacheEntry
  pub put : List ℕ → CacheEntry → Map → Map
  pub get-put :
      (key : List ℕ) (entry : CacheEntry) (m : Map) → get key (put key entry m) ≡ some entry

abbrev pub is_ipv4 : SocketAddr → Bool
is_ipv4 (v4 octets port) = true
is_ipv4 (v6 octets port) = false

-- `sort_by_key` is stable: an element goes before the first one whose key is greater; `false` is the least key.
unfoldable pub sorted_in : (SocketAddr → Bool) → SocketAddr → List SocketAddr → List SocketAddr
sorted_in key a [] = a ∷ []
sorted_in key a (b ∷ bs) =
    let rest = sorted_in key a bs in if key a && not (key b) then b ∷ rest else a ∷ b ∷ bs

unfoldable pub sort_by_key : (SocketAddr → Bool) → List SocketAddr → List SocketAddr
sort_by_key key [] = []
sort_by_key key (a ∷ rest) = sorted_in key a (sort_by_key key rest)

unfoldable pub first_of : List SocketAddr → Result SocketAddr
first_of [] = err Error.other
first_of (a ∷ rest) = ok a

-- `answer` is what the system's resolver gives for the name and the port.
unfoldable pub lookup_host : Result (List SocketAddr) → Result SocketAddr
lookup_host answer = answer >>= λ addrs. first_of (sort_by_key (λ a. not (is_ipv4 a)) addrs)

-- A minute, in nanoseconds.
abbrev pub cache_ttl : ℕ
cache_ttl = 60 * 10 ^ 9

module _ (cache : Cache) where
  abbrev pub Resolved : Type 0
  Resolved = Result SocketAddr × cache.Map

  unfoldable pub looked_up : ℕ → List ℕ → cache.Map → Result SocketAddr → Resolved
  looked_up now key m (ok addr) =
      (ok addr, cache.put key (record { addr = addr; inserted = now }) m)
  looked_up now key m (err e) = (err e, m)
  looked_up now key m panic = (panic, m)

  -- What the cache holds, if it is fresh.
  unfoldable pub fresh : ℕ → Option CacheEntry → Option SocketAddr
  fresh now none = none
  fresh now (some entry) = if ltb (now - entry.inserted) cache_ttl then some entry.addr else none

  unfoldable pub by_cache :
      ℕ → List ℕ → Result (List SocketAddr) → cache.Map → Option SocketAddr → Resolved
  by_cache now key answer m (some addr) = (ok addr, m)
  by_cache now key answer m none = looked_up now key m (lookup_host answer)

  abbrev pub key_of : List ℕ → ℕ → List ℕ
  key_of name port = name ++ (colon ∷ decimal port)

  unfoldable pub resolve_name : ℕ → List ℕ → Result (List SocketAddr) → cache.Map → Resolved
  resolve_name now key answer m = by_cache now key answer m (fresh now (cache.get key m))

  -- The clock is read once here; `answer` is what a lookup gives, where there is one. The name of a location
  -- that is no host name is `expect`ed.
  unfoldable pub without_addr : ℕ → NetLocation → Result (List SocketAddr) → cache.Map → Resolved
  without_addr now location answer m = elim location.address [
    | hostname name ↦ resolve_name now (key_of name location.port) answer m
    | ipv4 octets ↦ (panic, m)
    | ipv6 octets ↦ (panic, m)
  ]

  unfoldable pub by_literal :
      ℕ → NetLocation → Result (List SocketAddr) → cache.Map → Option SocketAddr → Resolved
  by_literal now location answer m (some addr) = (ok addr, m)
  by_literal now location answer m none = without_addr now location answer m

  unfoldable pub resolve : ℕ → NetLocation → Result (List SocketAddr) → cache.Map → Resolved
  resolve now location answer m =
      by_literal now location answer m (to_socket_addr_nonblocking location)
