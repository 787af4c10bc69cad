-- ===== src/Fuzz/Entry/Passed.antt =====
-- What it means that `LLVMFuzzerTestOneInput` returns 0.
use diffsecp.Limits.{diffsecp_input_max}
use diffsecp.Prelude.{ℕ, ◌≤◌, List, [], ◌∷◌, true, false, Option, none, some, String}
use diffsecp.Prelude.{
  ◌≡◌, ◌↔◌, refl, sym, ◌∙◌, arith, ltb, ltb→lt, ltb-false, Bool-cases, Option-cases, inl, inr,
  length, All,
}
use mathlib.Core.Bool.{true≢false, false≢true}
use diffsecp.Digest.{diffsecp_digest}
use diffsecp.Oracle.{oracle_due, oracle_check}
use diffsecp.Fuzz.Compare.{Report, matches_reference, compare_variants}
use diffsecp.Fuzz.Compare.First.{matches_reference_iff, Agrees}
use diffsecp.Fuzz.Mutants.{
  Build, Abort, Found, run_build, check_build, builds_loop, publish, run_mutants,
}
use diffsecp.Fuzz.Entry.{
  Fuzzer, State, Verdict, data_or_empty, transcripts, check_oracle, after_mutants, after_compare,
  test_one_input,
}

-- An input of an acceptable size on which everything that is compared agrees.
pub record IsClean (z : Fuzzer) (input : List ℕ) (size : ℕ) (s : State) : Type 0 where
  pub fits : size ≤ diffsecp_input_max
  pub builds_agree :
      All (Agrees (z.reference.target input size)) (transcripts z.variants input size)
  pub schemata_agree :
      z.mutants_off ≡ false
      → All (λ b. check_build (z.reference.target input size) input size b ≡ none) z.builds
  pub oracles_agree :
      (oracle_due s.sampler).0 ≡ true
      → oracle_check
          (diffsecp_digest (z.reference.target input size) (length (z.reference.target input size)))
          1024
          (z.answers input size)
        ≡ none

compare_variants-none :
    (r : List ℕ) (vs : List (String × List ℕ)) → (compare_variants r vs ≡ none) ↔ All (Agrees r) vs
unfolding compare_variants
compare_variants-none r [] = (λ e. tt, λ a. refl)
compare_variants-none r ((n, t) ∷ vs) = elim (Bool-cases (matches_reference r t)) [
  | inl same ↦ rw same (
    (λ e. ((matches_reference_iff r t).0 same, (compare_variants-none r vs).0 e)),
    (λ a. (compare_variants-none r vs).1 a.1),
  )
  | inr differs ↦ rw differs (
    (λ e. ground (arith, e)),
    (λ a. absurd (false≢true (sym differs ∙ (matches_reference_iff r t).1 a.0))),
  )
]

run_mutants-none :
    (r input : List ℕ) (size count : ℕ) (bs : List Build) (f : Found)
    → ((builds_loop r input size count bs f).0 ≡ none)
      ↔ All (λ b. check_build r input size b ≡ none) bs
unfolding builds_loop
run_mutants-none r input size count [] f = (λ e. tt, λ a. refl)
run_mutants-none r input size count (b ∷ bs) f =
    let rest = run_mutants-none r input size count bs (run_build r input size count b f) in
    elim (Option-cases (check_build r input size b)) [
      | inl e ↦ rw e ((λ h. (refl, rest.0 h)), λ a. rest.1 a.1)
      | inr (x, e) ↦ rw e ((λ h. ground (arith, h)), λ a. ground (arith, a.0))
    ]

abbrev HasPassed : Verdict → Type 0
HasPassed v = (after : State) × (v ≡ Verdict.passed after)

module _ (z : Fuzzer) (input : List ℕ) (size : ℕ) (r : List ℕ) where
  check_oracle-HasPassed :
      (s : State)
      → HasPassed (check_oracle z input size r s) ↔ (
          (oracle_due s.sampler).0 ≡ true
          → oracle_check (diffsecp_digest r (length r)) 1024 (z.answers input size) ≡ none)
  unfolding check_oracle
  check_oracle-HasPassed s = elim (Bool-cases (oracle_due s.sampler).0) [
    | inl due ↦
        rw due
          (elim (Option-cases
            (oracle_check (diffsecp_digest r (length r)) 1024 (z.answers input size))) [
              | inl e ↦
                  rw e ((λ p q. refl), λ h. (record s { sampler = (oracle_due s.sampler).1 }, refl))
              | inr (d, e) ↦ rw e ((λ p q. ground (arith, p.1)), λ h. ground (arith, h refl))
            ])
    | inr idle ↦ rw idle (
      (λ p q. absurd (false≢true q)),
      (λ h. (record s { sampler = (oracle_due s.sampler).1 }, refl)),
    )
  ]

  after_mutants-HasPassed :
      (s : State) (o : Option Abort × Found)
      → HasPassed (after_mutants z input size r s (publish r input size o)) ↔ (
          (o.0 ≡ none)
          × ((oracle_due s.sampler).0 ≡ true
              → oracle_check (diffsecp_digest r (length r)) 1024 (z.answers input size) ≡ none))
  after_mutants-HasPassed s (some a, f) = ((λ p. ground (arith, p.1)), λ h. ground (arith, h.0))
  after_mutants-HasPassed s (none, f) =
      let c =
        check_oracle-HasPassed
          (record s { mutants = record (f.mutants) { infected = f.infected } }) in
      ((λ p. (refl, c.0 p)), λ h. c.1 h.1)

  after_compare-HasPassed :
      (s : State) (o : Option Report)
      → HasPassed (after_compare z input size r s o) ↔ (
          (o ≡ none)
          × (z.mutants_off ≡ false → All (λ b. check_build r input size b ≡ none) z.builds)
          × ((oracle_due s.sampler).0 ≡ true
              → oracle_check (diffsecp_digest r (length r)) 1024 (z.answers input size) ≡ none))
  unfolding run_mutants check_oracle
  after_compare-HasPassed s (some d) = ((λ p. ground (arith, p.1)), λ h. ground (arith, h.0))
  after_compare-HasPassed s none = elim (Bool-cases z.mutants_off) [
    | inl off ↦ rw off (
      (λ p. (refl, (λ q. absurd (true≢false q)), (check_oracle-HasPassed s).0 p)),
      (λ h. (check_oracle-HasPassed s).1 h.2),
    )
    | inr on ↦
        let start : Found = record { mutants = s.mutants; infected = λ _. false } in
        let m =
          after_mutants-HasPassed s (builds_loop r input size z.mutant_count z.builds start) in
        let c = run_mutants-none r input size z.mutant_count z.builds start in
        rw on ((λ p. (refl, (λ q. c.0 (m.0 p).0), (m.0 p).1)), (λ h. m.1 (c.1 (h.1 refl), h.2)))
  ]

-- `LLVMFuzzerTestOneInput` returns 0 exactly if the input has at most 4096 bytes, every build's
-- transcript is the reference's, no schemata build aborts its run with no mutant on (unless
-- `mutants_off`), and `oracle_check` finds no difference with the reference's digest (if the sampler
-- says that the oracles are due).
pub test_one_input-IsClean :
    (z : Fuzzer) (input : Option (List ℕ)) (size : ℕ) (s : State)
    → ((after : State) × (test_one_input z input size s ≡ Verdict.passed after))
      ↔ IsClean z (data_or_empty input) size s
unfolding test_one_input
test_one_input-IsClean z input size s =
    let bytes = data_or_empty input in
    let r = z.reference.target bytes size in
    let a =
      after_compare-HasPassed z bytes size r s
        (compare_variants r (transcripts z.variants bytes size)) in
    let c = compare_variants-none r (transcripts z.variants bytes size) in
    elim (Bool-cases (ltb diffsecp_input_max size)) [
      | inl large ↦ rw large (
        (λ p. ground (arith, p.1)),
        λ i. absurd (omega (arith, ltb→lt diffsecp_input_max size large, i.fits)),
      )
      | inr fits ↦ rw fits (
        (λ p. record {
          fits = ltb-false diffsecp_input_max size fits;
          builds_agree = c.0 (a.0 p).0;
          schemata_agree = (a.0 p).1;
          oracles_agree = (a.0 p).2;
        }),
        (λ i. a.1 (c.1 i.builds_agree, i.schemata_agree, i.oracles_agree)),
      )
    ]
