-- ===== src/Rpc/Laws.antt =====
-- The body that is read is the bytes that came, one after the other.
use mathlib.Core.List.{append_assoc, append-nil}
use native.Mathlib.Nat.{zero-add, add-zero}
use g_sentinel.Base.{
  ℕ, zero, suc, some, List, [], ◌∷◌, ◌++◌, ◌+◌, ◌≤◌, leb, ltb, if◌then◌else◌, length, Result, ok,
  err, String, ◌≡◌, refl, sym, ap, arith, map, Bool-cases, inl, inr, true, false,
}
use g_sentinel.Rpc.{
  RpcError, gives, max_rpc_bytes, read_chunks, zeros, overwrite, overwrite_at, fill, read_bounded,
  response_is_too_large,
}

abbrev pub concat : List (List ℕ) → List ℕ
concat [] = []
concat (chunk ∷ chunks) = chunk ++ concat chunks

length-append : (xs ys : List ℕ) → length (xs ++ ys) ≡ length xs + length ys
length-append [] ys = rw zero-add
length-append (x ∷ xs) ys = let e = length-append xs ys in omega arith

length-zeros : (n : ℕ) → length (zeros n) ≡ n
unfolding zeros
length-zeros zero = refl
length-zeros (suc n) = ap suc (length-zeros n)

overwrite-zeros :
    (chunk : List ℕ) (n : ℕ) → overwrite (zeros (length chunk + n)) chunk ≡ chunk ++ zeros n
unfolding overwrite zeros
overwrite-zeros [] n = rw zero-add
overwrite-zeros (byte ∷ chunk) n =
    let e : suc (length chunk) + n ≡ suc (length chunk + n) = omega arith in
    rw e (ap (byte ∷◌) (overwrite-zeros chunk n))

overwrite_at-append :
    (done rest chunk : List ℕ)
    → overwrite_at (done ++ rest) (length done) chunk ≡ done ++ overwrite rest chunk
unfolding overwrite_at
overwrite_at-append [] rest chunk = refl
overwrite_at-append (byte ∷ done) rest chunk = ap (byte ∷◌) (overwrite_at-append done rest chunk)

append_fits :
    (done chunk rest : List ℕ)
    → leb (length done + length chunk) (length (done ++ zeros (length (chunk ++ rest)))) ≡ true
append_fits done chunk rest =
    rw
      (
        length-append done (zeros (length (chunk ++ rest))),
        length-zeros (length (chunk ++ rest)),
        length-append chunk rest,
      )
      (ground arith)

append_placed :
    (done chunk rest : List ℕ)
    → overwrite_at (done ++ zeros (length (chunk ++ rest))) (length done) chunk
      ≡ (done ++ chunk) ++ zeros (length rest)
append_placed done chunk rest =
    rw
      (
        length-append chunk rest,
        overwrite_at-append done (zeros (length chunk + length rest)) chunk,
        overwrite-zeros chunk (length rest),
        append_assoc done chunk (zeros (length rest)),
      )
      refl

-- The chunks that were read fill the buffer exactly.
fill-concat :
    (done : List ℕ) (chunks : List (List ℕ))
    → fill (done ++ zeros (length (concat chunks))) (length done) chunks
      ≡ ok (done ++ concat chunks)
unfolding fill zeros
fill-concat done [] = refl
fill-concat done (chunk ∷ chunks) =
    rw
      (
        append_fits done chunk (concat chunks),
        append_placed done chunk (concat chunks),
        sym (length-append done chunk),
        fill-concat (done ++ chunk) chunks,
        append_assoc done chunk (concat chunks),
      )
      refl

read_chunks-parts :
    (size : ℕ) (chunks parts : List (List ℕ))
    → size ≤ max_rpc_bytes
    → read_chunks size chunks (map gives parts) ≡ (
        if leb (size + length (concat parts)) max_rpc_bytes
        then ok (record { size = size + length (concat parts); chunks = chunks ++ parts })
        else err response_is_too_large)
unfolding read_chunks
read_chunks-parts size chunks [] bound =
    let fits : leb (size + 0) max_rpc_bytes ≡ true = ground arith in
    rw (fits, append-nil chunks, add-zero size) refl
read_chunks-parts size chunks (part ∷ parts) bound =
    let longer : size + length (part ++ concat parts) ≡ size + length part + length (concat parts) =
      (let e = length-append part (concat parts) in omega arith) in
    elim (Bool-cases (ltb max_rpc_bytes (size + length part))) [
      | inl over ↦
          let more : leb (size + length part + length (concat parts)) max_rpc_bytes ≡ false =
            ground arith in
          rw (over, longer, more) refl
      | inr fits ↦
          rw (fits, longer, sym (append_assoc chunks (part ∷ []) parts))
            (read_chunks-parts (size + length part) (chunks ++ part ∷ []) parts (ground arith))
    ]

-- A body that comes in parts is read as their concatenation, which the decoder is given, when that
-- has at most 4096 bytes, and is rejected as too large otherwise, however it was cut into parts.
pub read_bounded-concat :
    (decode : List ℕ → Result RpcError String) (parts : List (List ℕ))
    → read_bounded decode (some (map gives parts)) ≡ (
        if leb (length (concat parts)) max_rpc_bytes
        then decode (concat parts)
        else err response_is_too_large)
unfolding read_bounded
read_bounded-concat decode parts =
    rw (read_chunks-parts 0 [] parts (omega arith), zero-add (length (concat parts)))
      (elim (Bool-cases (leb (length (concat parts)) max_rpc_bytes)) [
        | inl fits ↦ rw (fits, fill-concat [] parts) refl
        | inr over ↦ rw over refl
      ])
