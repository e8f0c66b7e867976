-- ===== src/Anytls/Server.antt =====
-- src/anytls/server.rs, handle_connection: the authentication of a client, up to the start of its session.
pub mod Authentication
use rust_proxy.Prelude.{
  ℕ, Bool, Option, none, some, List, ltb, not, if◌then◌else◌, Error, ok, err, panic, pending, ready,
  Arrival,
}
use rust_proxy.Reader.{
  StreamReader, Out, peek_slice, read_slice, read_u16_be, consume, unparsed_data_owned,
}

-- The users: whether a digest of a password starts with eight bytes, and the user whose digest it is; and
-- whether there is a destination for those who are no users.
pub record Users : Type 0 where
  pub hash_prefixes : List ℕ → Bool
  pub users : List ℕ → Option (List ℕ)
  pub fallback : Bool

-- What becomes of a connection that is not closed: a session with the user's name and the bytes that were
-- read behind the header, or the fallback, which gets the reader.
pub data Outcome : Type 0 where
  session : List ℕ → Option (List ℕ) → Outcome
  fallback_to_dest : Outcome

-- `.await?`
unfoldable pub awaited : {A B : Type 0} → Out A → (A → StreamReader → List Arrival → Out B) → Out B
awaited none f = none
awaited (some (ready (ok a), r, es)) f = f a r es
awaited (some (ready (err e), r, es)) f = some (ready (err e), r, es)
awaited (some (ready panic, r, es)) f = some (ready panic, r, es)
awaited (some (pending, r, es)) f = some (pending, r, es)

unfoldable pub rejected : Users → StreamReader → List Arrival → Out Outcome
rejected u r es =
    if u.fallback
    then some (ready (ok fallback_to_dest), r, es)
    else some (ready (err Error.permission_denied), r, es)

abbrev pub started : List ℕ → StreamReader → List Arrival → Out Outcome
started name r es = some (ready (ok (session name (unparsed_data_owned r))), r, es)

-- The padding behind the digest.
unfoldable pub skip_padding : List ℕ → ℕ → StreamReader → List Arrival → Out Outcome
skip_padding name padding_len r es =
    if ltb 0 padding_len
    then awaited (read_slice padding_len r es) (λ _ r' es'. started name r' es')
    else started name r es

unfoldable pub greet : Option (List ℕ) → Users → StreamReader → List Arrival → Out Outcome
greet none u r es = rejected u r es
greet (some name) u r es = awaited (read_u16_be (consume 32 r) es) (skip_padding name)

unfoldable pub check_prefix : Users → List ℕ → StreamReader → List Arrival → Out Outcome
check_prefix u prefix_data r es =
    if not (u.hash_prefixes prefix_data)
    then rejected u r es
    else awaited (peek_slice 32 r es) (λ auth_data r' es'. greet (u.users auth_data) u r' es')

unfoldable pub handle_connection : Users → StreamReader → List Arrival → Out Outcome
handle_connection u r es = awaited (peek_slice 8 r es) (check_prefix u)
