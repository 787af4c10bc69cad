-- ===== src/Fuzz/Entry/Selftest.antt =====
-- The self test of src/variant.c: the build whose targets corrupt the last byte of the transcript.
use diffsecp.Limits.{diffsecp_input_max}
use diffsecp.Prelude.{ℕ, suc, ◌+◌, ◌≤◌, ◌<◌, List, [], ◌∷◌, ◌++◌, true, false, Option, some, String}
use diffsecp.Prelude.{
  ◌≡◌, ◌≢◌, refl, sym, ◌∙◌, ap, arith, ltb, ◌==◌, Bool-cases, inl, inr, bit_xor,
  bit_xor-left_injective, bit_xor-zero, length, All,
}
use diffsecp.Fuzz.Compare.{
  Variant, Report, matches_reference, first_difference, report_divergence, compare_variants,
}
use diffsecp.Fuzz.Compare.First.{matches_reference_iff, Agrees, IsReportOf, report-IsReportOf}
use diffsecp.Fuzz.Entry.{
  Fuzzer, State, Verdict, data_or_empty, transcripts, test_one_input, flip_last, selftest,
}

flipped_byte : (b : ℕ) → bit_xor b 1 ≢ b
flipped_byte b e =
    let one : 1 ≡ 0 = bit_xor-left_injective 1 0 b (e ∙ sym (bit_xor-zero b)) in
    absurd (omega (arith, one))

first_difference-flip_last :
    (b : ℕ) (t : List ℕ) → first_difference (b ∷ t) (flip_last (b ∷ t)) ≡ length t
unfolding first_difference flip_last
first_difference-flip_last b [] =
    let ne = flipped_byte b in
    elim (Bool-cases (b == bit_xor b 1)) [ inl e ↦ absurd (ne (ground arith)) | inr e ↦ rw e refl ]
first_difference-flip_last b (c ∷ t) =
    let same : (b == b) ≡ true = ground arith in rw same (ap suc (first_difference-flip_last c t))

length-flip_last : (t : List ℕ) → length (flip_last t) ≡ length t
unfolding flip_last
length-flip_last [] = refl
length-flip_last (b ∷ []) = refl
length-flip_last (b ∷ c ∷ t) = ap suc (length-flip_last (c ∷ t))

flip_last_lem : (b : ℕ) (t : List ℕ) → flip_last (b ∷ t) ≢ (b ∷ t)
unfolding flip_last
flip_last_lem b [] e = flipped_byte b (ap head e)
  where
    head : List ℕ → ℕ
    head [] = 0
    head (x ∷ xs) = x
flip_last_lem b (c ∷ t) e = flip_last_lem c t (ap tail e)
  where
    tail : List ℕ → List ℕ
    tail [] = []
    tail (x ∷ xs) = xs

compare_variants-after :
    (reference : List ℕ) (before : List (String × List ℕ)) (name : String) (t : List ℕ)
    (rest : List (String × List ℕ))
    → All (Agrees reference) before
    → t ≢ reference
    → compare_variants reference (before ++ (name, t) ∷ rest)
      ≡ some (report_divergence reference name t)
unfolding compare_variants
compare_variants-after r [] name t rest a ne = elim (Bool-cases (matches_reference r t)) [
  | inl same ↦ absurd (ne ((matches_reference_iff r t).0 same))
  | inr differs ↦ rw differs refl
]
compare_variants-after r ((n, u) ∷ before) name t rest (a, all) ne =
    rw ((matches_reference_iff r u).1 a) (compare_variants-after r before name t rest all ne)

transcripts-append :
    (vs ws : List Variant) (input : List ℕ) (size : ℕ)
    → transcripts (vs ++ ws) input size ≡ transcripts vs input size ++ transcripts ws input size
transcripts-append [] ws input size = refl
transcripts-append (v ∷ vs) ws input size =
    ap (λ l. (v.name, v.target input size) ∷ l) (transcripts-append vs ws input size)

flip_last-differs : (r : List ℕ) → 0 < length r → flip_last r ≢ r
flip_last-differs [] n = absurd (omega (arith, n))
flip_last-differs (b ∷ t) n = flip_last_lem b t

at_the_last : (r : List ℕ) → 0 < length r → first_difference r (flip_last r) + 1 ≡ length r
at_the_last [] n = absurd (omega (arith, n))
at_the_last (b ∷ t) n = rw (first_difference-flip_last b t) (omega arith)

flipped_report :
    (r t : List ℕ) (name : String)
    → t ≡ r
    → 0 < length t
    → (let report = report_divergence r name (flip_last t) in
        (report.at + 1 ≡ report.reference_len) × (report.len ≡ report.reference_len))
unfolding report_divergence
flipped_report r t name same n =
    let size = ap length same in
    rw same (at_the_last r (omega (arith, n, size)), length-flip_last r)

-- If the fuzzer has the self test build of a build `v`, the builds before it agree with the
-- reference, and `v` itself does so with a transcript that is not empty, then on every input that is
-- not too large `LLVMFuzzerTestOneInput` aborts with a report of that build, for its last byte, and
-- finds the two transcripts equally long.
pub test_one_input-selftest :
    (z : Fuzzer) (before after : List Variant) (v : Variant) (input : Option (List ℕ)) (size : ℕ)
    (s : State)
    → z.variants ≡ before ++ selftest v ∷ after
    → size ≤ diffsecp_input_max
    → All
        (Agrees (z.reference.target (data_or_empty input) size))
        (transcripts before (data_or_empty input) size)
    → v.target (data_or_empty input) size ≡ z.reference.target (data_or_empty input) size
    → 0 < length (v.target (data_or_empty input) size)
    → (report : Report) × (test_one_input z input size s ≡ Verdict.diverged report)
      × IsReportOf
          (z.reference.target (data_or_empty input) size)
          v.name
          (flip_last (v.target (data_or_empty input) size))
          report
      × (report.at + 1 ≡ report.reference_len)
      × (report.len ≡ report.reference_len)
unfolding test_one_input selftest
test_one_input-selftest z before after v input size s e l a same n =
    let bytes = data_or_empty input in
    let r = z.reference.target bytes size in
    let t = v.target bytes size in
    let fits : ltb diffsecp_input_max size ≡ false = ground arith in
    let ne : flip_last t ≢ r = λ q. flip_last-differs t n (q ∙ sym same) in
    let listed : transcripts z.variants bytes size
        ≡ transcripts before bytes size ++ (v.name, flip_last t) ∷ transcripts after bytes size =
      ap (λ vs. transcripts vs bytes size) e
      ∙ transcripts-append before (selftest v ∷ after) bytes size in
    let found : compare_variants r (transcripts z.variants bytes size)
        ≡ some (report_divergence r v.name (flip_last t)) =
      ap (compare_variants r) listed
      ∙ compare_variants-after r (transcripts before bytes size) v.name (flip_last t)
          (transcripts after bytes size) a ne in
    let is = report-IsReportOf r v.name (flip_last t) ne in
    (
      report_divergence r v.name (flip_last t),
      rw (fits, found) refl,
      is,
      (flipped_report r t v.name same n).0,
      (flipped_report r t v.name same n).1,
    )
