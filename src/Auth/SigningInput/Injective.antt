-- ===== src/Auth/SigningInput/Injective.antt =====
-- What a signed message determines: the two inputs as encodings of the handshake's context.
use passage.Base.{
  ℕ, ◌%◌, ◌^◌, ◌<◌, ◌≡◌, refl, sym, ap, ◌∙◌, List, [], ◌∷◌, ◌++◌, length, Bytes, arith,
  length-append, All,
}
use passage.Base.Int.{ℤ, to_uint64, to_uint64_lt, to_uint64_injective, IsInt64}
use passage.Go.Endian.{put_uint32, put_uint64, put_uint32_injective, put_uint64_injective}
use passage.Auth.SigningInput.{
  signing_input, append_length_prefixed, append_services, pq_signing_input,
}
use mathlib.Core.List.{append_assoc, append-nil}

-- One length-prefixed field.
field : Bytes → Bytes
field s = put_uint32 (length s % 2 ^ 32) ++ s

fields : List Bytes → Bytes
unfolding field
fields [] = []
fields (s ∷ rest) = field s ++ fields rest

append_services-fields : (b : Bytes) (ss : List Bytes) → append_services b ss ≡ b ++ fields ss
unfolding append_services fields
append_services-fields b [] = sym (append-nil b)
append_services-fields b (s ∷ ss) =
    append_services-fields (append_length_prefixed b s) ss ∙ simp append_assoc

pq_signing_input-fields :
    (nonce exporter id : Bytes) (t : ℤ) (ss : List Bytes)
    → pq_signing_input nonce exporter id t ss
      ≡ field nonce
        ++ (field exporter
            ++ (field id
                ++ (put_uint64 (to_uint64 t) ++ (put_uint32 (length ss % 2 ^ 32) ++ fields ss))))
unfolding pq_signing_input field
pq_signing_input-fields nonce exporter id t ss = append_services-fields _ ss ∙ simp append_assoc

-- Two texts of one length in front of two rests.
append_injective :
    (a b : Bytes) {r s : Bytes} → length a ≡ length b → a ++ r ≡ b ++ s → (a ≡ b) × (r ≡ s)
append_injective [] [] l e = (refl, e)
append_injective [] (y ∷ b) l e = absurd (omega arith)
append_injective (x ∷ a) [] l e = absurd (omega arith)
append_injective (x ∷ a) (y ∷ b) {r} {s} l e = ground (arith, append_injective a b {r = r} {s = s})

-- A length that fits in the prefix.
abbrev pub Fits : Bytes → Type 0
Fits s = length s < 2 ^ 32

field_injective :
    (a b : Bytes) {r s : Bytes} → Fits a → Fits b → field a ++ r ≡ field b ++ s → (a ≡ b) × (r ≡ s)
unfolding field
field_injective a b {r} {s} ha hb e =
    let (l, rest) =
      put_uint32_injective (length a % 2 ^ 32) (length b % 2 ^ 32) (omega arith) (omega arith)
        (simp append_assoc at e) in
    append_injective a b (omega arith) rest

fields_injective :
    (ss ts : List Bytes)
    → length ss ≡ length ts
    → All Fits ss
    → All Fits ts
    → fields ss ≡ fields ts
    → ss ≡ ts
unfolding fields
fields_injective [] [] l hs ht e = refl
fields_injective [] (t ∷ ts) l hs ht e = absurd (omega arith)
fields_injective (s ∷ ss) [] l hs ht e = absurd (omega arith)
fields_injective (s ∷ ss) (t ∷ ts) l (hs, hss) (ht, hts) e =
    let (h, rest) = field_injective s t hs ht e in
    cc (h, fields_injective ss ts (omega arith) hss hts rest)

-- What one signature by the ML-DSA key is about.
pub record Context : Type 0 where
  pub nonce : Bytes
  pub exporter : Bytes
  pub client_id : Bytes
  pub client_time : ℤ
  pub requested : List Bytes

-- Every length fits in its prefix and the time is an int64.
pub record IsEncodable (x : Context) : Type 0 where
  pub nonce_fits : Fits x.nonce
  pub exporter_fits : Fits x.exporter
  pub client_id_fits : Fits x.client_id
  pub time_fits : IsInt64 x.client_time
  pub count_fits : length x.requested < 2 ^ 32
  pub services_fit : All Fits x.requested

abbrev pub pq_input : Context → Bytes
pq_input x = pq_signing_input x.nonce x.exporter x.client_id x.client_time x.requested

-- Two handshakes with the same PQ signing input have the same nonce, exporter, client id, time and
-- list of requested services, in order, if all lengths are below 2^32 and the times are int64.
pub pq_signing_input_injective :
    (x y : Context) → IsEncodable x → IsEncodable y → pq_input x ≡ pq_input y → x ≡ y
pq_signing_input_injective x y hx hy e =
    let e =
      sym (pq_signing_input-fields x.nonce x.exporter x.client_id x.client_time x.requested)
      ∙ e
      ∙ pq_signing_input-fields y.nonce y.exporter y.client_id y.client_time y.requested in
    let (n, e) = field_injective x.nonce y.nonce hx.nonce_fits hy.nonce_fits e in
    let (p, e) = field_injective x.exporter y.exporter hx.exporter_fits hy.exporter_fits e in
    let (c, e) = field_injective x.client_id y.client_id hx.client_id_fits hy.client_id_fits e in
    let (t, e) =
      put_uint64_injective (to_uint64 x.client_time) (to_uint64 y.client_time)
        (to_uint64_lt x.client_time) (to_uint64_lt y.client_time) e in
    let t = to_uint64_injective x.client_time y.client_time hx.time_fits hy.time_fits t in
    let (l, e) =
      put_uint32_injective (length x.requested % 2 ^ 32) (length y.requested % 2 ^ 32) (omega arith)
        (omega arith) e in
    let r =
      fields_injective x.requested y.requested (omega (arith, hx.count_fits, hy.count_fits))
        hx.services_fit hy.services_fit e in
    λ i. record { nonce = n i; exporter = p i; client_id = c i; client_time = t i; requested = r i }

length-put_uint64 : (n : ℕ) → length (put_uint64 n) ≡ 8
unfolding put_uint64
length-put_uint64 n = refl

-- The Ed25519 input has no length prefixes. It determines the nonce, the exporter, the client id and the time
-- among inputs whose nonces have one length and whose exporters have one length, as 32 bytes here.
pub signing_input_injective :
    (nonce exporter id nonce' exporter' id' : Bytes) (t t' : ℤ)
    → length nonce ≡ length nonce'
    → length exporter ≡ length exporter'
    → IsInt64 t
    → IsInt64 t'
    → signing_input nonce exporter id t ≡ signing_input nonce' exporter' id' t'
    → (nonce ≡ nonce') × (exporter ≡ exporter') × (id ≡ id') × (t ≡ t')
unfolding signing_input
signing_input_injective nonce exporter id nonce' exporter' id' t t' ln lx ht ht' e =
    let (n, e) = append_injective nonce nonce' ln e in
    let (x, e) = append_injective exporter exporter' lx e in
    let l : length id ≡ length id' = omega (
      arith,
      ap length e,
      length-append id (put_uint64 (to_uint64 t)),
      length-append id' (put_uint64 (to_uint64 t')),
      length-put_uint64 (to_uint64 t),
      length-put_uint64 (to_uint64 t'),
    ) in
    let (i, e) = append_injective id id' l e in
    let (u, _) =
      put_uint64_injective (to_uint64 t) (to_uint64 t') (to_uint64_lt t) (to_uint64_lt t') {r = []}
        {s = []} (rw append-nil (rw append-nil e)) in
    (n, x, i, to_uint64_injective t t' ht ht' u)
