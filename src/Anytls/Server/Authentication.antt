-- ===== src/Anytls/Server/Authentication.antt =====
-- src/anytls/server.rs, handle_connection: who gets a session, and what it starts with.
use rust_proxy.Prelude.{
  ℕ, ◌≡◌, refl, sym, ap, ap₂, ◌∙◌, subst, ◌≢◌, true, false, not, Option, none, some, List, [], ◌∷◌,
  ◌++◌, arith, ltb, ◌==◌, length, get_or, take, drop, from_be16, Arrival, arriving, Error, Result,
  ok, err, panic, Poll, pending, ready, get_or-take, if-cases,
}
use rust_proxy.Reader.{
  StreamReader, Out, peek_slice, read_slice, read_u16_be, consume, unparsed_data,
  unparsed_data_owned,
}
use rust_proxy.Reader.Laws.{Returns, read_u16_be-Returns}
use rust_proxy.Reader.Waiting.{IsValid, unread}
use rust_proxy.Reader.Peeking.{Peeks, peek_slice-Peeks, read_slice-Takes}
use rust_proxy.Anytls.Server.{
  Users, Outcome, session, fallback_to_dest, awaited, rejected, started, skip_padding, greet,
  check_prefix, handle_connection,
}

-- The bytes that a session starts with.
abbrev pub initial : Option (List ℕ) → List ℕ
initial none = []
initial (some bytes) = bytes

-- The length of the padding, behind the digest.
abbrev pub padding_at : List ℕ → ℕ
padding_at bytes = from_be16 (get_or (drop 32 bytes) 0 0) (get_or (drop 32 bytes) 1 0)

abbrev pub IsUser : Users → List ℕ → List ℕ → Type 0
IsUser u bytes name =
    (u.hash_prefixes (take 8 bytes) ≡ true) × (u.users (take 32 bytes) ≡ some name)

-- What a connection may come to, where `bytes` are those that the client sends.
abbrev pub Admits : Users → List ℕ → Poll (Result Outcome) × StreamReader × List Arrival → Type 0
Admits u bytes (ready (ok (session name first)), r, es) =
    IsUser u bytes name
    × (initial first ++ arriving es ≡ drop (padding_at bytes) (drop 2 (drop 32 bytes)))
Admits u bytes (ready (ok fallback_to_dest), r, es) =
    (u.fallback ≡ true) × ((name : List ℕ) → ¬ (IsUser u bytes name)) × (unread r es ≡ bytes)
Admits u bytes (ready (err e), r, es) = Unit
Admits u bytes (ready panic, r, es) = ⊥
Admits u bytes (pending, r, es) = Unit

abbrev Ends : Users → List ℕ → Out Outcome → Type 0
Ends u bytes o =
    (out : Poll (Result Outcome) × StreamReader × List Arrival) × (o ≡ some out)
    × Admits u bytes out

-- An awaited call that returns, where what comes after a value ends.
awaited-Ends :
    {A : Type 0} (u : Users) (bytes : List ℕ) (o : Out A)
    (f : A → StreamReader → List Arrival → Out Outcome)
    (out : Poll (Result A) × StreamReader × List Arrival)
    → o ≡ some out
    → out.0 ≢ ready panic
    → ((a : A) (r : StreamReader) (es : List Arrival)
        → out ≡ (ready (ok a), r, es)
        → Ends u bytes (f a r es))
    → Ends u bytes (awaited o f)
unfolding awaited
awaited-Ends u bytes o f (ready (ok a), r, es) e c k = rw e (k a r es refl)
awaited-Ends u bytes o f (ready (err x), r, es) e c k = rw e ((ready (err x), r, es), refl, tt)
awaited-Ends u bytes o f (ready panic, r, es) e c k = absurd (c refl)
awaited-Ends u bytes o f (pending, r, es) e c k = rw e ((pending, r, es), refl, tt)

owned : (r : StreamReader) → initial (unparsed_data_owned r) ≡ unparsed_data r
unfolding unparsed_data_owned
owned r =
    if-cases (λ o. initial o ≡ unparsed_data r) (length (unparsed_data r) == 0) _ _
      (λ q. sym (emptied (unparsed_data r) (ground arith))) (λ _. refl)
  where
    emptied : (bs : List ℕ) → length bs ≡ 0 → bs ≡ []
    emptied [] h = refl
    emptied (x ∷ xs) h = absurd (omega arith)

module _ (u : Users) (bytes : List ℕ) where
  started-Ends :
      (name : List ℕ) (r : StreamReader) (es : List Arrival)
      → IsUser u bytes name
      → unread r es ≡ drop (padding_at bytes) (drop 2 (drop 32 bytes))
      → Ends u bytes (started name r es)
  started-Ends name r es h e = (
    (ready (ok (session name (unparsed_data_owned r))), r, es),
    refl,
    (h, ap (λ t. t ++ arriving es) (owned r) ∙ e),
  )

  rejected-Ends :
      (r : StreamReader) (es : List Arrival)
      → ((name : List ℕ) → ¬ (IsUser u bytes name))
      → unread r es ≡ bytes
      → Ends u bytes (rejected u r es)
  unfolding rejected
  rejected-Ends r es h e =
      if-cases (Ends u bytes) u.fallback _ _
        (λ q. ((ready (ok fallback_to_dest), r, es), refl, (q, h, e)))
        (λ _. ((ready (err Error.permission_denied), r, es), refl, tt))

calm :
    {A : Type 0} (value : List ℕ → A) (n taken : ℕ) (bytes : List ℕ)
    (out : Poll (Result A) × StreamReader × List Arrival)
    → Returns value n taken bytes out
    → out.0 ≢ ready panic
calm value n taken bytes (ready (ok a), r, es) h = λ q. cc
calm value n taken bytes (ready (err e), r, es) h = λ q. cc
calm value n taken bytes (ready panic, r, es) h = absurd h
calm value n taken bytes (pending, r, es) h = λ q. cc

peek_calm :
    (n : ℕ) (bytes : List ℕ) (out : Poll (Result (List ℕ)) × StreamReader × List Arrival)
    → Peeks n bytes out
    → out.0 ≢ ready panic
peek_calm n bytes (ready (ok a), r, es) h = λ q. cc
peek_calm n bytes (ready (err e), r, es) h = λ q. cc
peek_calm n bytes (ready panic, r, es) h = absurd h
peek_calm n bytes (pending, r, es) h = λ q. cc

module _ (u : Users) (bytes : List ℕ) where
  skip_padding-Ends :
      (name : List ℕ) (n : ℕ) (r : StreamReader) (es : List Arrival)
      → IsUser u bytes name
      → IsValid r
      → n ≡ padding_at bytes
      → unread r es ≡ drop 2 (drop 32 bytes)
      → Ends u bytes (skip_padding name n r es)
  unfolding skip_padding
  skip_padding-Ends name n r es h v p e =
      if-cases (Ends u bytes) (ltb 0 n) _ _
        (λ _.
          let (out, f, t) = read_slice-Takes r es n v in
          awaited-Ends u bytes (read_slice n r es) (λ _ r' es'. started name r' es') out f
            (calm (λ bs. bs) n n (unread r es) out t)
            (λ a r' es' q.
              let t' = subst (Returns (λ bs. bs) n n (unread r es)) q t in
              started-Ends u bytes name r' es' h (t'.2 ∙ ap₂ drop p e)))
        (λ q.
          let z : padding_at bytes ≡ 0 = sym p ∙ ground arith in
          started-Ends u bytes name r es h (e ∙ ap (λ k. drop k (drop 2 (drop 32 bytes))) (sym z)))

  greet-Ends :
      (o : Option (List ℕ)) (r : StreamReader) (es : List Arrival)
      → u.users (take 32 bytes) ≡ o
      → u.hash_prefixes (take 8 bytes) ≡ true
      → unread r es ≡ bytes
      → unread (consume 32 r) es ≡ drop 32 bytes
      → IsValid (consume 32 r)
      → Ends u bytes (greet o u r es)
  unfolding greet
  greet-Ends none r es o h e c v = rejected-Ends u bytes r es (λ name k. let q = k.1 in cc) e
  greet-Ends (some name) r es o h e c v =
      let value = λ (bs : List ℕ). from_be16 (get_or bs 0 0) (get_or bs 1 0) in
      let rest = unread (consume 32 r) es in
      let (out, f, t) = read_u16_be-Returns (consume 32 r) es v in
      awaited-Ends u bytes (read_u16_be (consume 32 r) es) (skip_padding name) out f
        (calm value 2 2 rest out t)
        (λ a r' es' q.
          let t' = subst (Returns value 2 2 rest) q t in
          let n : a ≡ padding_at bytes =
            t'.1
            ∙ (ap₂ from_be16 (get_or-take 2 0 rest 0 (omega arith))
                  (get_or-take 2 1 rest 0 (omega arith))
                ∙ ap value c) in
          skip_padding-Ends name a r' es' (h, o) t'.3 n (t'.2 ∙ ap (drop 2) c))

  check_prefix-Ends :
      (prefix : List ℕ) (r : StreamReader) (es : List Arrival)
      → prefix ≡ take 8 bytes
      → unread r es ≡ bytes
      → IsValid r
      → Ends u bytes (check_prefix u prefix r es)
  unfolding check_prefix
  check_prefix-Ends prefix r es p e v =
      if-cases (Ends u bytes) (not (u.hash_prefixes prefix)) _ _
        (λ q.
          let no : u.hash_prefixes (take 8 bytes) ≡ false =
            ap u.hash_prefixes (sym p) ∙ ground arith in
          rejected-Ends u bytes r es (λ name k. let y = k.0 in cc) e)
        (λ q.
          let yes : u.hash_prefixes (take 8 bytes) ≡ true =
            ap u.hash_prefixes (sym p) ∙ ground arith in
          let (out, f, t) = peek_slice-Peeks r es 32 v in
          awaited-Ends u bytes (peek_slice 32 r es)
            (λ auth_data r' es'. greet (u.users auth_data) u r' es') out f
            (peek_calm 32 (unread r es) out t)
            (λ a r' es' q.
              let t' = subst (Peeks 32 (unread r es)) q t in
              let auth : a ≡ take 32 bytes = t'.0 ∙ ap (take 32) e in
              greet-Ends (u.users a) r' es' (ap u.users (sym auth)) yes (t'.1 ∙ e)
                (t'.3 ∙ ap (drop 32) e) t'.4))

-- A connection is handled to an end, without a panic. A session is started only for a user, whose
-- digest the first bytes are, and it starts with just the bytes behind the padding, in order. The fallback
-- is taken only where there is one and the client is no user, and gets every byte that the client sends.
pub handle_connection-Ends :
    (u : Users) (r : StreamReader) (es : List Arrival)
    → IsValid r
    → (out : Poll (Result Outcome) × StreamReader × List Arrival) × (handle_connection u r es
        ≡ some out)
      × Admits u (unread r es) out
unfolding handle_connection
handle_connection-Ends u r es v =
    let (out, f, t) = peek_slice-Peeks r es 8 v in
    awaited-Ends u (unread r es) (peek_slice 8 r es) (check_prefix u) out f
      (peek_calm 8 (unread r es) out t)
      (λ a r' es' q.
        let t' = subst (Peeks 8 (unread r es)) q t in
        check_prefix-Ends u (unread r es) a r' es' t'.0 t'.1 t'.2)
