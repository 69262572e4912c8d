-- ===== src/Event/Layout.antt =====
-- The layout of a sample of the ring buffer, by the offsets of struct nd_event.
use Prim.Native.String.{String}
use networkdoctor_prestudy.Base.{
  ℕ, zero, suc, ◌+◌, ◌*◌, ◌<◌, ◌≡◌, refl, ap, ◌∙◌, arith, Bool, Option, none, some, inl, inr,
  Option-cases, List, [], ◌∷◌, ◌++◌, All, length,
}
use mathlib.Core.Option.{some-injective}
use networkdoctor_prestudy.Event.{
  le_bytes, read_le, read_nd_event, ipv4_string, to_event, read_event, sample, ok, err,
  decode_failed, ◌>>=◌,
}

-- The number in some bytes, the lowest first.
abbrev pub value_of : List ℕ → ℕ
value_of [] = 0
value_of (b ∷ bytes) = b + 256 * value_of bytes

read_le-append :
    (w : ℕ) (bytes rest : List ℕ)
    → length bytes ≡ w
    → read_le w (bytes ++ rest) ≡ some (value_of bytes, rest)
unfolding read_le
read_le-append zero [] rest e = refl
read_le-append zero (b ∷ bytes) rest e = ground (arith, e)
read_le-append (suc w) [] rest e = ground (arith, e)
read_le-append (suc w) (b ∷ bytes) rest e = rw (read_le-append w bytes rest (omega (arith, e))) refl

le_bytes-value_of :
    (w : ℕ) (bytes : List ℕ)
    → length bytes ≡ w
    → All (λ b. b < 256) bytes
    → le_bytes w (value_of bytes) ≡ bytes
unfolding le_bytes
le_bytes-value_of zero [] e h = refl
le_bytes-value_of zero (b ∷ bytes) e h = ground (arith, e)
le_bytes-value_of (suc w) [] e h = ground (arith, e)
le_bytes-value_of (suc w) (b ∷ bytes) e h =
    cons (omega (arith, h.0))
      (ap (le_bytes w) (omega (arith, h.0)) ∙ le_bytes-value_of w bytes (omega (arith, e)) h.1)
  where
    cons : {x y : ℕ} {xs ys : List ℕ} → x ≡ y → xs ≡ ys → ◌≡◌ {A = List ℕ} (x ∷ xs) (y ∷ ys)
    cons p q = λ i. p i ∷ q i

-- A sample in the parts of struct nd_event, and what is behind it.
pub record Parts : Type 0 where
  pub type : List ℕ
  pub pid : List ℕ
  pub ts_ns : List ℕ
  pub ifindex : List ℕ
  pub src_ip : List ℕ
  pub dst_ip : List ℕ
  pub src_port : List ℕ
  pub dst_port : List ℕ
  pub value_us : List ℕ
  pub aux : List ℕ
  pub behind : List ℕ

abbrev pub raw_sample : Parts → List ℕ
raw_sample p =
    p.type
    ++ (p.pid
        ++ (p.ts_ns
            ++ (p.ifindex
                ++ (p.src_ip
                    ++ (p.dst_ip
                        ++ (p.src_port ++ (p.dst_port ++ (p.value_us ++ (p.aux ++ p.behind)))))))))

-- The parts have the sizes of the C types, and the addresses are of bytes.
pub record IsLaidOut (p : Parts) : Type 0 where
  pub type : length p.type ≡ 4
  pub pid : length p.pid ≡ 4
  pub ts_ns : length p.ts_ns ≡ 8
  pub ifindex : length p.ifindex ≡ 4
  pub src_ip : length p.src_ip ≡ 4
  pub dst_ip : length p.dst_ip ≡ 4
  pub src_port : length p.src_port ≡ 2
  pub dst_port : length p.dst_port ≡ 2
  pub value_us : length p.value_us ≡ 8
  pub aux : length p.aux ≡ 8
  pub src_bytes : All (λ b. b < 256) p.src_ip
  pub dst_bytes : All (λ b. b < 256) p.dst_ip

-- Any sample that is as long as struct nd_event at least is decoded, whether or not the context is done:
-- each field is the little-endian number in the bytes at its offset, the addresses are printed from
-- their four bytes as they stand, and what is behind the struct is left.
pub read_event-raw_sample :
    (ip_string : List ℕ → String) (ctx_done : Bool) (p : Parts)
    → IsLaidOut p
    → read_event ip_string ctx_done (sample (raw_sample p))
      ≡ ok (record {
        type = value_of p.type;
        pid = value_of p.pid;
        ifindex = value_of p.ifindex;
        src_ip = ip_string p.src_ip;
        dst_ip = ip_string p.dst_ip;
        src_port = value_of p.src_port;
        dst_port = value_of p.dst_port;
        value_us = value_of p.value_us;
        aux = value_of p.aux;
      })
unfolding read_event read_nd_event to_event ipv4_string
read_event-raw_sample ip_string ctx_done p h =
    rw
      (
        read_event,
        read_nd_event,
        read_le-append 4 p.type _ h.type,
        read_le-append 4 p.pid _ h.pid,
        read_le-append 8 p.ts_ns _ h.ts_ns,
        read_le-append 4 p.ifindex _ h.ifindex,
        read_le-append 4 p.src_ip _ h.src_ip,
        read_le-append 4 p.dst_ip _ h.dst_ip,
        read_le-append 2 p.src_port _ h.src_port,
        read_le-append 2 p.dst_port _ h.dst_port,
        read_le-append 8 p.value_us _ h.value_us,
        read_le-append 8 p.aux _ h.aux,
      )
      (λ i. ok (record {
        type = value_of p.type;
        pid = value_of p.pid;
        ifindex = value_of p.ifindex;
        src_ip = ip_string (le_bytes-value_of 4 p.src_ip h.src_ip h.src_bytes i);
        dst_ip = ip_string (le_bytes-value_of 4 p.dst_ip h.dst_ip h.dst_bytes i);
        src_port = value_of p.src_port;
        dst_port = value_of p.dst_port;
        value_us = value_of p.value_us;
        aux = value_of p.aux;
      }))

read_le-length :
    (w : ℕ) (raw : List ℕ) (n : ℕ) (rest : List ℕ)
    → read_le w raw ≡ some (n, rest)
    → length raw ≡ w + length rest
unfolding read_le
read_le-length zero raw n rest e =
    ap (λ (p : ℕ × List ℕ). length p.1) (some-injective _ _ e) ∙ omega arith
read_le-length (suc w) [] n rest e = ground (arith, e)
read_le-length (suc w) (b ∷ raw) n rest e = elim (Option-cases (read_le w raw)) [
  | inl none_read ↦ ground (arith, e, none_read)
  | inr ((high, after), found) ↦ omega (
    arith,
    read_le-length w raw high after found,
    ap (λ (p : ℕ × List ℕ). length p.1) (some-injective _ _ (step found ∙ e)),
  )
]
  where
    step :
        {high : ℕ} {after : List ℕ}
        → read_le w raw ≡ some (high, after)
        → some (b + 256 * high, after) ≡ read_le (suc w) (b ∷ raw)
    step found = rw found refl

-- If whatever follows a read comes to nothing, so does the read with it.
then_none :
    {X : Type 0} (w : ℕ) (raw : List ℕ) (f : ℕ × List ℕ → Option X)
    → ((n : ℕ) (rest : List ℕ) → length raw ≡ w + length rest → f (n, rest) ≡ none)
    → (read_le w raw >>= f) ≡ none
then_none w raw f h = elim (Option-cases (read_le w raw)) [
  | inl e ↦ rw e refl
  | inr ((n, rest), e) ↦ rw e (h n rest (read_le-length w raw n rest e))
]

-- All reads together take 48 bytes.
read_nd_event-short : (raw : List ℕ) → length raw < 48 → read_nd_event raw ≡ none
unfolding read_nd_event
read_nd_event-short raw short = then_none 4 raw _ (λ n r1 e1. then_none 4 r1 _ (λ n r2 e2.
    then_none 8 r2 _ (λ n r3 e3. then_none 4 r3 _ (λ n r4 e4. then_none 4 r4 _ (λ n r5 e5.
      then_none 4 r5 _ (λ n r6 e6. then_none 2 r6 _ (λ n r7 e7. then_none 2 r7 _ (λ n r8 e8.
        then_none 8 r8 _ (λ n r9 e9. then_none 8 r9 _ (λ n r10 e10.
          absurd (omega (arith, short, e1, e2, e3, e4, e5, e6, e7, e8, e9, e10))))))))))))

-- A sample that is shorter than struct nd_event is not decoded.
pub read_event-short :
    (ip_string : List ℕ → String) (ctx_done : Bool) (raw : List ℕ)
    → length raw < 48
    → read_event ip_string ctx_done (sample raw) ≡ err decode_failed
unfolding read_event
read_event-short ip_string ctx_done raw short = rw (read_event, read_nd_event-short raw short) refl
