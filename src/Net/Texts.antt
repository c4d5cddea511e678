-- ===== src/Net/Texts.antt =====
-- What the parsers read back from the texts that the printers write.
use mathlib.Core.List.{append-nil}
use zz_deprecated_kurtosis.Base.{
  ℕ, ◌≤◌, ◌<◌, ◌≡◌, refl, sym, ap, ◌∙◌, [], ◌∷◌, ◌++◌, false, some, dec_lt, arith, nat_beq, Text,
  All, All-append,
}
use zz_deprecated_kurtosis.Net.Defs.{
  Quad, IsQuad, ip4, uint32, put_uint32, put_uint32-IsQuad, uint32-put_uint32, u32_mod,
}
use zz_deprecated_kurtosis.Net.Decimal.{
  dec_text, dtoi, Stops, dtoi-dec_text, dec_text_one, dec_text_two, dec_text_three,
}
use zz_deprecated_kurtosis.Net.Cidr.{
  quad_text, parse_byte, parse_ipv4, parse_cidr, split_slash, cidr_mask, mask_quad, skip_dot,
}

parse_byte-dec_text :
    (b : ℕ) (s : Text) → b < 256 → Stops s → parse_byte (dec_text b ++ s) ≡ some (b, s)
unfolding parse_byte
parse_byte-dec_text b s h stop =
    rw (dtoi-dec_text b s (omega arith) stop, parse_byte) (ground arith)

skip_dot-dot : (s : Text) → skip_dot (b'.' ∷ s) ≡ some s
unfolding skip_dot
skip_dot-dot s = refl

parse_byte_last : (b : ℕ) → b < 256 → parse_byte (dec_text b) ≡ some (b, [])
parse_byte_last b h = ap parse_byte (sym (append-nil (dec_text b))) ∙ parse_byte-dec_text b [] h tt

-- The text of an address is read back as the address.
pub parse_ipv4-quad_text : (q : Quad) → IsQuad q → parse_ipv4 (quad_text q) ≡ some q
unfolding parse_ipv4 quad_text
parse_ipv4-quad_text q v = rw (
  parse_byte-dec_text q.b0 _ v.byte0 refl,
  skip_dot-dot _,
  parse_byte-dec_text q.b1 _ v.byte1 refl,
  skip_dot-dot _,
  parse_byte-dec_text q.b2 _ v.byte2 refl,
  skip_dot-dot _,
  parse_byte_last q.b3 v.byte3,
)

-- Distinct addresses have distinct texts.
pub quad_text-injective : (q r : Quad) → IsQuad q → IsQuad r → quad_text q ≡ quad_text r → q ≡ r
quad_text-injective q r v w e =
    let read : some q ≡ some r =
      sym (parse_ipv4-quad_text q v) ∙ (ap parse_ipv4 e ∙ parse_ipv4-quad_text r w) in
    cc

-- The text of the address with a given uint32 value.
abbrev pub address_text : ℕ → Text
address_text n = quad_text (put_uint32 n)

pub address_text-injective :
    (m n : ℕ) → m < u32_mod → n < u32_mod → address_text m ≡ address_text n → m ≡ n
address_text-injective m n h k e =
    sym (uint32-put_uint32 m h) ∙ (ap uint32 same ∙ uint32-put_uint32 n k)
  where
    same : put_uint32 m ≡ put_uint32 n
    same = quad_text-injective _ _ (put_uint32-IsQuad m) (put_uint32-IsQuad n) e

abbrev NotSlash : ℕ → Type 0
NotSlash c = nat_beq c b'/' ≡ false

split_slash-append : (s t : Text) → All NotSlash s → split_slash (s ++ b'/' ∷ t) ≡ some (s, t)
unfolding split_slash
split_slash-append [] t h = refl
split_slash-append (c ∷ s) t h = ground (arith, split_slash-append s t h.1)

dec_text-NotSlash : (n : ℕ) → n < 1000 → All NotSlash (dec_text n)
dec_text-NotSlash n h = elim (dec_lt n 10) [
  | yes one ↦ rw (dec_text_one n one) (ground arith)
  | no more ↦ elim (dec_lt n 100) [
    | yes two ↦ rw (dec_text_two n (omega arith) two) (ground arith)
    | no three ↦ rw (dec_text_three n (omega arith) h) (ground arith)
  ]
]

dotted-NotSlash :
    (b : ℕ) (s : Text) → b < 256 → All NotSlash s → All NotSlash (dec_text b ++ b'.' ∷ s)
dotted-NotSlash b s h k =
    All-append NotSlash (dec_text b) _ (dec_text-NotSlash b (omega arith)) (refl, k)

quad_text-NotSlash : (q : Quad) → IsQuad q → All NotSlash (quad_text q)
unfolding quad_text
quad_text-NotSlash q v = dotted-NotSlash q.b0 _ v.byte0 (
    dotted-NotSlash q.b1 _ v.byte1
      (dotted-NotSlash q.b2 _ v.byte2 (dec_text-NotSlash q.b3 (omega arith))))

dtoi_last : (n : ℕ) → n < 1000 → dtoi (dec_text n) ≡ some (n, [])
dtoi_last n h = ap dtoi (sym (append-nil (dec_text n))) ∙ dtoi-dec_text n [] h tt

-- A network's text, read back: the address masked, and the mask.
pub parse_cidr-text :
    (q : Quad) (ones : ℕ)
    → IsQuad q
    → ones ≤ 32
    → parse_cidr (quad_text q ++ b'/' ∷ dec_text ones)
      ≡ some (record { ip = ip4 (mask_quad q (cidr_mask ones)); mask = cidr_mask ones })
unfolding parse_cidr
parse_cidr-text q ones v h =
    rw
      (
        split_slash-append (quad_text q) (dec_text ones) (quad_text-NotSlash q v),
        parse_ipv4-quad_text q v,
        dtoi_last ones (omega arith),
      )
      (ground arith)
