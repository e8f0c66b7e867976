-- ===== src/Resolver/Answers.antt =====
-- src/resolver.rs: which address is chosen, and for how long.
use rust_proxy.Prelude.{
  ℕ, ◌-◌, ◌<◌, ◌≡◌, refl, sym, ap, ◌∙◌, subst, Bool, true, false, not, Option, none, some, List, [],
  ◌∷◌, ltb, lt→ltb, All, Error, Result, ok, err, panic, ◌>>=◌,
}
use rust_proxy.Address.{hostname, NetLocation, SocketAddr, v4, v6, to_socket_addr_nonblocking}
use rust_proxy.Resolver.{
  Cache, is_ipv4, sorted_in, sort_by_key, first_of, lookup_host, cache_ttl, looked_up, fresh,
  by_cache, key_of, resolve_name, without_addr, by_literal, resolve,
}

-- The first IPv4 address of the answer, or else its first one.
abbrev pub first_ipv4 : List SocketAddr → Option SocketAddr
first_ipv4 [] = none
first_ipv4 (v4 octets port ∷ rest) = some (v4 octets port)
first_ipv4 (v6 octets port ∷ rest) = first_ipv4 rest

abbrev pub preferred : List SocketAddr → Result SocketAddr
preferred [] = err Error.other
preferred (a ∷ rest) = elim (first_ipv4 (a ∷ rest)) [ some b ↦ ok b | none ↦ ok a ]

abbrev by_family : SocketAddr → Bool
by_family a = not (is_ipv4 a)

insert_ipv4 :
    (a : SocketAddr) (xs : List SocketAddr) → is_ipv4 a ≡ true → sorted_in by_family a xs ≡ a ∷ xs
unfolding sorted_in
insert_ipv4 a [] h = refl
insert_ipv4 a (x ∷ xs) h = rw h refl

insert_ipv6 :
    (a : SocketAddr) (xs : List SocketAddr)
    → is_ipv4 a ≡ false
    → All (λ x. is_ipv4 x ≡ false) xs
    → sorted_in by_family a xs ≡ a ∷ xs
unfolding sorted_in
insert_ipv6 a [] h k = refl
insert_ipv6 a (x ∷ xs) h (k, ks) = rw (h, k) refl

insert_behind :
    (a b : SocketAddr) (xs : List SocketAddr)
    → is_ipv4 a ≡ false
    → is_ipv4 b ≡ true
    → sorted_in by_family a (b ∷ xs) ≡ b ∷ sorted_in by_family a xs
unfolding sorted_in
insert_behind a b xs h k = rw (h, k) refl

-- How a sorted answer starts.
abbrev Starts : List SocketAddr → Option SocketAddr → Type 0
Starts addrs (some b) =
    (rest : List SocketAddr) × (sort_by_key by_family addrs ≡ b ∷ rest) × (is_ipv4 b ≡ true)
Starts addrs none = (sort_by_key by_family addrs ≡ addrs) × All (λ x. is_ipv4 x ≡ false) addrs

sort_by_key-Starts : (addrs : List SocketAddr) → Starts addrs (first_ipv4 addrs)
unfolding sort_by_key
sort_by_key-Starts [] = (refl, tt)
sort_by_key-Starts (v4 octets port ∷ rest) = (
  sort_by_key by_family rest,
  insert_ipv4 (v4 octets port) (sort_by_key by_family rest) refl,
  refl,
)
sort_by_key-Starts (v6 octets port ∷ rest) = went (first_ipv4 rest) (sort_by_key-Starts rest)
  where
    went : (o : Option SocketAddr) → Starts rest o → Starts (v6 octets port ∷ rest) o
    went (some b) (tail, e, k) = (
      sorted_in by_family (v6 octets port) tail,
      unfold sort_by_key in rw e (insert_behind (v6 octets port) b tail refl k),
      k,
    )
    went none (e, ks) =
        (unfold sort_by_key in rw e (insert_ipv6 (v6 octets port) rest refl ks), (refl, ks))

first_of-sort_by_key :
    (addrs : List SocketAddr) → first_of (sort_by_key by_family addrs) ≡ preferred addrs
unfolding first_of sort_by_key
first_of-sort_by_key [] = refl
first_of-sort_by_key (a ∷ rest) = went (first_ipv4 (a ∷ rest)) (sort_by_key-Starts (a ∷ rest))
  where
    went :
        (o : Option SocketAddr)
        → Starts (a ∷ rest) o
        → first_of (sort_by_key by_family (a ∷ rest)) ≡ elim o [ some b ↦ ok b | none ↦ ok a ]
    went (some b) (tail, e, k) = unfold first_of in rw e refl
    went none (e, ks) = unfold first_of in rw e refl

-- A lookup gives the first IPv4 address that the system's resolver answers, or else the first address, or an error
-- where there is none; and its error where it fails.
pub lookup_host-preferred :
    (answer : Result (List SocketAddr)) → lookup_host answer ≡ (answer >>= preferred)
unfolding lookup_host
lookup_host-preferred (ok addrs) = first_of-sort_by_key addrs
lookup_host-preferred (err e) = refl
lookup_host-preferred panic = refl

abbrev pub named : List ℕ → ℕ → NetLocation
named name port = record { address = hostname name; port = port }

module _ (cache : Cache) where
  resolve_named :
      (now port : ℕ) (name : List ℕ) (answer : Result (List SocketAddr)) (m : cache.Map)
      → resolve cache now (named name port) answer m
        ≡ resolve_name cache now (key_of cache name port) answer m
  unfolding resolve by_literal without_addr to_socket_addr_nonblocking
  resolve_named now port name answer m = refl

  resolve_missed :
      (now : ℕ) (key : List ℕ) (answer : Result (List SocketAddr)) (m : cache.Map)
      (addr : SocketAddr)
      → fresh cache now (cache.get key m) ≡ none
      → lookup_host answer ≡ ok addr
      → resolve_name cache now key answer m
        ≡ (ok addr, cache.put key (record { addr = addr; inserted = now }) m)
  unfolding resolve_name by_cache looked_up
  resolve_missed now key answer m addr e f = rw (e, f) refl

  resolve_cached :
      (now later : ℕ) (key : List ℕ) (answer : Result (List SocketAddr)) (m : cache.Map)
      (addr : SocketAddr)
      → later - now < cache_ttl
      → (let m' = cache.put key (record { addr = addr; inserted = now }) m in
          resolve_name cache later key answer m' ≡ (ok addr, m'))
  unfolding resolve_name by_cache fresh
  resolve_cached now later key answer m addr h =
      let young : ltb (later - now) cache_ttl ≡ true = lt→ltb _ _ h in
      rw (cache.get-put key (record { addr = addr; inserted = now }) m, young) refl

-- A host name that the cache has no fresh entry for is looked up. The address that is found is given again for a
-- minute, whatever the system's resolver would then answer, and the cache is not changed again.
pub resolve_again :
    (cache : Cache) (now port : ℕ) (name : List ℕ) (answer : Result (List SocketAddr))
    (m : cache.Map) (addr : SocketAddr)
    → fresh cache now (cache.get (key_of cache name port) m) ≡ none
    → lookup_host answer ≡ ok addr
    → ((resolve cache now (named name port) answer m).0 ≡ ok addr)
      × ((later : ℕ) (answer' : Result (List SocketAddr))
          → later - now < cache_ttl
          → (let m' = (resolve cache now (named name port) answer m).1 in
              resolve cache later (named name port) answer' m' ≡ (ok addr, m')))
resolve_again cache now port name answer m addr e f =
    let key = key_of cache name port in
    let first =
      resolve_named cache now port name answer m ∙ resolve_missed cache now key answer m addr e f in
    (
      ap (λ r. r.0) first,
      λ later answer' h.
          subst (λ m'. resolve cache later (named name port) answer' m' ≡ (ok addr, m'))
            (sym (ap (λ r. r.1) first))
            (resolve_named cache later port name answer' _
              ∙ resolve_cached cache now later key answer' m addr h),
    )
