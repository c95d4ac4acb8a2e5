-- ===== src/Rpc.antt =====
-- frontend/server/prooflock/rpc.ts: `readBounded`, on a body whose reads end as a list of events. The
-- list ends where the body does. The decoder is a parameter, which gives an error for bytes that are
-- no text.
pub mod Laws
use g_sentinel.Base.{
  ℕ, zero, suc, Option, none, some, List, [], ◌∷◌, ◌++◌, ◌+◌, leb, ltb, if◌then◌else◌, length,
  Result, ok, err, ◌>>=◌, String,
}

pub data RpcError : Type 0 where
  response_is_empty response_is_too_large aborted read_failed out_of_range not_text : RpcError

-- The end of one turn of the loop: `throwIfAborted` throws, the read rejects, or it gives bytes.
pub data Event : Type 0 where
  aborts fails : Event
  gives : List ℕ → Event

-- The chunks that were read and the sum of their sizes
pub record Collected : Type 0 where
  pub size : ℕ
  pub chunks : List (List ℕ)

-- `MAX_RPC_BYTES`
abbrev pub max_rpc_bytes : ℕ
max_rpc_bytes = 4096

-- The first loop of `readBounded`; the cancel of a body that is too large succeeds.
unfoldable pub read_chunks : ℕ → List (List ℕ) → List Event → Result RpcError Collected
read_chunks size chunks [] = ok (record { size = size; chunks = chunks })
read_chunks size chunks (aborts ∷ events) = err aborted
read_chunks size chunks (fails ∷ events) = err read_failed
read_chunks size chunks (gives bytes ∷ events) =
    let rest = read_chunks (size + length bytes) (chunks ++ bytes ∷ []) events in
    if ltb max_rpc_bytes (size + length bytes) then err response_is_too_large else rest

-- `new Uint8Array(size)`
unfoldable pub zeros : ℕ → List ℕ
zeros zero = []
zeros (suc n) = 0 ∷ zeros n

-- The bytes of the chunk in place of the first ones of the buffer
unfoldable pub overwrite : List ℕ → List ℕ → List ℕ
overwrite buffer [] = buffer
overwrite [] (byte ∷ chunk) = []
overwrite (old ∷ buffer) (byte ∷ chunk) = byte ∷ overwrite buffer chunk

unfoldable pub overwrite_at : List ℕ → ℕ → List ℕ → List ℕ
overwrite_at buffer zero chunk = overwrite buffer chunk
overwrite_at [] (suc offset) chunk = []
overwrite_at (old ∷ buffer) (suc offset) chunk = old ∷ overwrite_at buffer offset chunk

-- The loop of `bytes.set(chunk, offset)`, which throws when the chunk does not fit.
unfoldable pub fill : List ℕ → ℕ → List (List ℕ) → Result RpcError (List ℕ)
fill buffer offset [] = ok buffer
fill buffer offset (chunk ∷ chunks) =
    let rest = fill (overwrite_at buffer offset chunk) (offset + length chunk) chunks in
    if leb (offset + length chunk) (length buffer) then rest else err out_of_range

-- `readBounded`
unfoldable pub read_bounded :
    (List ℕ → Result RpcError String) → Option (List Event) → Result RpcError String
read_bounded decode none = err response_is_empty
read_bounded decode (some events) = read_chunks 0 [] events >>= λ collected.
    fill (zeros collected.size) 0 collected.chunks >>= decode
