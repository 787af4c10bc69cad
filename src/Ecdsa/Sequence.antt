-- ===== src/Ecdsa/Sequence.antt =====
-- What `ecdsa_der_build` of src/targets/ecdsa.c builds, and that it stays within its arrays.
use diffsecp.Prelude.{
  ℕ, ◌+◌, ◌-◌, ◌*◌, ◌/◌, ◌%◌, ◌^◌, ◌≤◌, ◌<◌, List, [], ◌∷◌, ◌++◌, Option, none, some, Bool, true,
  not, ◌&&◌, ◌≡◌, refl, ap, ◌∙◌, arith, length, length-append, ltb, leb, ◌==◌, if◌then◌else◌,
  has_flag, bit_and, bit_and_three, ltb→lt, Bool-cases, inl, inr,
}
use diffsecp.Run.{World}
use diffsecp.Run.Agree.{Does, Agree-pure, Agree-step, Agree-if, Agree-post, IsValid, Twins}
use diffsecp.Run.Steps.{Does-u8, Does-take}
use diffsecp.Ecdsa.Der.{
  ecdsa_der_max, der_body_max, append_within, ecdsa_der_len, der_integer, short_length,
  der_sequence, ecdsa_der_build,
}

-- The length that DER's length octets say, and what follows them.
pub read_length : List ℕ → Option (ℕ × List ℕ)
read_length [] = none
read_length (b ∷ bs) = if ltb b 128 then some (b, bs) else read_long b bs
  where
    two_bytes : ℕ → List ℕ → Option (ℕ × List ℕ)
    two_bytes x [] = none
    two_bytes x (y ∷ bs) = some (x * 256 + y, bs)

    read_long : ℕ → List ℕ → Option (ℕ × List ℕ)
    read_long b [] = none
    read_long b (x ∷ bs) =
        if b == 0x81 then some (x, bs) else if b == 0x82 then two_bytes x bs else none

-- The length octets of a length below 2 ^ 16, in either form, are read back as that length, with
-- what follows them.
pub read_length-ecdsa_der_len :
    (len : ℕ) (long_form : Bool) (rest : List ℕ)
    → len < 2 ^ 16
    → read_length (ecdsa_der_len len long_form ++ rest) ≡ some (len, rest)
unfolding read_length ecdsa_der_len
read_length-ecdsa_der_len len long_form rest h = elim (Bool-cases (ltb len 128 && not long_form)) [
  | inl short ↦
      let small : ltb (len % 256) 128 ≡ true = short_fits short in
      let same : len % 256 ≡ len = ground (arith, small, short_lt short) in
      rw (short, small, same) refl
  | inr long ↦ rw long (elim (Bool-cases (ltb len 256)) [
    | inl one ↦
        let same : len % 256 ≡ len = ground (arith, ltb→lt len 256 one) in rw (one, same) refl
    | inr two ↦
        let same : len / 256 % 256 * 256 + len % 256 ≡ len = omega (arith, h) in rw (two, same) refl
  ])
]
  where
    short_lt : (ltb len 128 && not long_form) ≡ true → len < 128
    short_lt e = ground (arith, e)

    short_fits : (ltb len 128 && not long_form) ≡ true → ltb (len % 256) 128 ≡ true
    short_fits e = let l : len < 128 = short_lt e in ground (arith, l)

pub Does-append_within :
    (size : ℕ) (b out : List ℕ)
    → length b + length out ≤ size
    → Does 0 (λ r. (r ≡ b ++ out) × (length r ≡ length b + length out)) (append_within size b out)
unfolding append_within
Does-append_within size b out h =
    let fits : leb (length b + length out) size ≡ true = ground (arith, h) in
    rw fits (Agree-pure _ _ (refl, (refl, length-append {0} b out)))

length-ecdsa_der_len :
    (len : ℕ) (long_form : Bool)
    → (1 ≤ length (ecdsa_der_len len long_form)) × (length (ecdsa_der_len len long_form) ≤ 3)
unfolding ecdsa_der_len
length-ecdsa_der_len len long_form = (ground arith, ground arith)

-- The octets of a length that is a byte.
octets_of_byte :
    (len : ℕ) (long_form : Bool)
    → len < 256
    → (1 ≤ length (ecdsa_der_len len long_form)) × (length (ecdsa_der_len len long_form) ≤ 2)
unfolding ecdsa_der_len
octets_of_byte len long_form h = (ground (arith, h), ground (arith, h))

-- An integer adds at least two bytes, and at most 258, since a length below 256 takes at most two octets.
Does-der_integer :
    (flags flag : ℕ) (body : List ℕ)
    → length body ≤ 258
    → Does 0
        (λ b. (length body + 2 ≤ length b) × (length b ≤ length body + 258))
        (der_integer flags flag body)
unfolding der_integer
Does-der_integer flags flag body h = Agree-step 0 Does-u8 refl λ len l.
    let octets = ecdsa_der_len len (has_flag flags flag) in
    let few = octets_of_byte len (has_flag flags flag) l in
    Agree-step 0 (Does-append_within der_body_max body (0x02 ∷ []) (omega (arith, h))) refl
      λ tagged e.
        Agree-step 0 (Does-append_within der_body_max tagged octets (omega (arith, e.1, few.1, h)))
          refl
          λ sized e'. Agree-step 0 (Does-take len) refl λ value lv.
            Agree-post
              (Does-append_within der_body_max sized value
                (omega (arith, e.1, e'.1, few.1, lv, l, h)))
              λ r r' q. (
                q.0,
                (
                  omega (arith, e.1, e'.1, few.0, q.1.1),
                  omega (arith, e.1, e'.1, few.1, lv, l, q.1.1),
                ),
              )

-- A sequence: its tag, length octets that DER reads as the length of the content less `short_by`,
-- and the content.
pub record IsSequence (der : List ℕ) : Type 0 where
  pub rest : List ℕ
  pub content : List ℕ
  pub short_by : ℕ
  pub tagged : der ≡ 0x30 ∷ rest
  pub reads : read_length rest ≡ some (length content - short_by, content)
  pub nearly : short_by ≤ 3
  pub filled : 4 ≤ length content

short_length_eq : (n k : ℕ) → k ≤ n → n < 2 ^ 16 → short_length n k ≡ n - k
short_length_eq n k h l = omega arith

Does-der_sequence :
    (flags short_by : ℕ) (body : List ℕ)
    → short_by ≤ 3
    → 4 ≤ length body
    → length body ≤ 519
    → Does 0 (λ der. IsSequence der × (length der ≤ 523)) (der_sequence flags short_by body)
unfolding der_sequence
Does-der_sequence flags short_by body few low high =
    let long_form = has_flag flags 1 in
    let n = short_length (length body) short_by in
    let octets = length-ecdsa_der_len n long_form in
    let exact : n ≡ length body - short_by =
      short_length_eq (length body) short_by (omega arith) (omega arith) in
    Agree-step 0 (Does-append_within ecdsa_der_max [] (0x30 ∷ []) (omega arith)) refl λ tagged e.
      Agree-step 0
        (Does-append_within ecdsa_der_max tagged (ecdsa_der_len n long_form)
          (omega (arith, e.1, octets.1)))
        refl
        λ sized e'.
          Agree-post
            (Does-append_within ecdsa_der_max sized body (omega (arith, e.1, e'.1, octets.1, high)))
            λ r r' q. (
              q.0,
              (
                record {
                  rest = ecdsa_der_len n long_form ++ body;
                  content = body;
                  short_by = short_by;
                  tagged =
                      q.1.0
                      ∙ ap (λ x. x ++ body) (e'.0 ∙ ap (λ x. x ++ ecdsa_der_len n long_form) e.0);
                  reads =
                      read_length-ecdsa_der_len n long_form body (omega (arith, exact, high))
                      ∙ ap (λ k. some (k, body)) exact;
                  nearly = few;
                  filled = low;
                },
                omega (arith, q.1.1, e.1, e'.1, octets.1, high),
              ),
            )

pub Does-ecdsa_der_build : Does 0 (λ der. IsSequence der × (length der ≤ 523)) ecdsa_der_build
unfolding ecdsa_der_build
Does-ecdsa_der_build = Agree-step 0 Does-u8 refl λ flags _.
    Agree-step 0 (Does-der_integer flags 2 [] (omega arith)) refl λ first l.
      Agree-step 0 (Does-der_integer flags 4 first (omega (arith, l.1))) refl λ body m.
        let few : bit_and (flags / 8) 3 ≤ 3 = omega (arith, bit_and_three (flags / 8)) in
        Agree-if (has_flag flags 32)
          (λ _. Agree-step 0 (Does-take (bit_and (flags / 8) 3)) refl λ extra k.
            Agree-step 0
              (Does-append_within der_body_max body extra (omega (arith, l.1, m.1, k, few))) refl
              λ longer e.
                Does-der_sequence flags 0 longer (omega arith) (omega (arith, l.0, m.0, e.1))
                  (omega (arith, l.1, m.1, k, few, e.1)))
          (λ _.
            Does-der_sequence flags (bit_and (flags / 8) 3) body few (omega (arith, l.0, m.0))
              (omega (arith, l.1, m.1)))

same_world : (w : World) → IsValid w → Twins w w
same_world w v = record {
  same_reader = refl;
  same_log = refl;
  same_len = refl;
  same_cap = refl;
  valid = v;
  valid' = v.transcript;
}

-- From every point of an input and of the transcript, to which it adds nothing: `ecdsa_der_build` returns, so
-- that neither `body` nor `der` is written past its end, and `size_t` does not wrap in the
-- difference of the lengths; what it builds has at most 523 bytes, and is a sequence of at least
-- four bytes whose length octets, as DER reads them, say how many bytes follow less at most 3.
pub ecdsa_der_build-IsSequence :
    (w : World)
    → IsValid w
    → (der : List ℕ) × (after : World) × (ecdsa_der_build w ≡ some (der, after))
      × IsSequence der
      × (length der ≤ 523)
      × (after.t.len ≤ w.t.len)
      × IsValid after
ecdsa_der_build-IsSequence w v =
    let e = Does-ecdsa_der_build.at w w (same_world w v) (omega (arith, v.transcript.filled)) in
    (
      e.a,
      e.after,
      e.runs_left,
      e.related.1.0,
      e.related.1.1,
      omega (arith, e.written),
      e.twins.valid,
    )
