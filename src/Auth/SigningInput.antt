-- ===== src/Auth/SigningInput.antt =====
-- auth.SigningInput of internal/auth/auth.go and auth.PQSigningInput of internal/auth/pq.go: the
-- bytes that the two signatures of a client cover.
pub mod Injective
use passage.Base.{ℕ, ◌%◌, ◌^◌, List, [], ◌∷◌, ◌++◌, length, Bytes}
use passage.Base.Int.{ℤ, to_uint64}
use passage.Go.Endian.{put_uint32, put_uint64}

unfoldable pub signing_input : Bytes → Bytes → Bytes → ℤ → Bytes
signing_input nonce exporter client_id client_time =
    nonce ++ (exporter ++ (client_id ++ put_uint64 (to_uint64 client_time)))

unfoldable pub append_length_prefixed : Bytes → Bytes → Bytes
append_length_prefixed dst src = dst ++ (put_uint32 (length src % 2 ^ 32) ++ src)

-- for _, s := range requested { b = appendLengthPrefixed(b, []byte(s)) }
unfoldable pub append_services : Bytes → List Bytes → Bytes
unfolding append_length_prefixed
append_services b [] = b
append_services b (s ∷ rest) = append_services (append_length_prefixed b s) rest

unfoldable pub pq_signing_input : Bytes → Bytes → Bytes → ℤ → List Bytes → Bytes
unfolding append_length_prefixed append_services
pq_signing_input nonce exporter client_id client_time requested =
    let b = append_length_prefixed [] nonce in
    let b = append_length_prefixed b exporter in
    let b = append_length_prefixed b client_id in
    let b = b ++ put_uint64 (to_uint64 client_time) in
    let b = b ++ put_uint32 (length requested % 2 ^ 32) in append_services b requested
