-- ===== src/Tests/RpcRun.antt =====
-- A body in two parts, and one whose second part is too much.
use g_sentinel.Base.{
  ℕ, String, List, [], ◌∷◌, some, Result, ok, err, leb, if◌then◌else◌, length, map, ◌≡◌, refl,
}
use g_sentinel.Rpc.{
  RpcError, gives, aborts, aborted, response_is_too_large, max_rpc_bytes, read_bounded, zeros,
}
use g_sentinel.Rpc.Laws.{read_bounded-concat}

abbrev decode : List ℕ → Result RpcError String
decode bytes = ok (if leb (length bytes) 3 then "short" else "long")

abbrev parts : List (List ℕ)
parts = (1 ∷ 2 ∷ []) ∷ [] ∷ (3 ∷ []) ∷ []

aborted_run : read_bounded decode (some (gives (1 ∷ []) ∷ aborts ∷ [])) ≡ err aborted
unfolding read_bounded g_sentinel.Rpc.read_chunks
aborted_run = refl

large_run :
    read_bounded decode (some (gives (zeros 4000) ∷ gives (zeros 97) ∷ []))
    ≡ err response_is_too_large
unfolding read_bounded g_sentinel.Rpc.read_chunks zeros
large_run = refl

read_bounded-concat_example : read_bounded decode (some (map gives parts)) ≡ ok "short"
read_bounded-concat_example = read_bounded-concat decode parts
