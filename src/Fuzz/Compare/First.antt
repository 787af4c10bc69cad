-- ===== src/Fuzz/Compare/First.antt =====
-- A report points at the first byte in which a build differs from the reference.
use diffsecp.Prelude.{ℕ, suc, ◌+◌, ◌≤◌, ◌<◌, List, [], ◌∷◌, ◌++◌, true, none, some, String}
use diffsecp.Prelude.{
  ◌≡◌, ◌≢◌, ◌⊎◌, ◌↔◌, inl, inr, refl, sym, ◌∙◌, ap, ap₂, arith, ◌==◌, length, same_bytes_sound,
  same_bytes_refl, take, get_or, All, Bool-cases,
}
use mathlib.Core.Bool.{false≢true}
use diffsecp.Fuzz.Compare.{
  matches_reference, first_difference, Window, dump_window, Report, report_divergence,
  compare_variants,
}

-- `matches_reference` holds exactly for the reference's own bytes.
pub matches_reference_iff :
    (reference t : List ℕ) → (matches_reference reference t ≡ true) ↔ (t ≡ reference)
unfolding matches_reference
matches_reference_iff reference t = (
  (λ h. same_bytes_sound t reference (ground arith)),
  (λ e. rw e (ground (arith, same_bytes_refl reference))),
)

-- Up to `at` the transcripts are equal; there one of them ends, or they differ.
pub record IsFirstDifference (at : ℕ) (reference t : List ℕ) : Type 0 where
  pub in_reference : at ≤ length reference
  pub in_other : at ≤ length t
  pub same_before : take at t ≡ take at reference
  pub differs :
      ((at ≡ length reference) × (at < length t))
      ⊎ ((at < length reference) × (at ≡ length t))
      ⊎ ((at < length reference) × (at < length t) × (get_or reference at 0 ≢ get_or t at 0))

first_step :
    {n : ℕ} (x y : ℕ) (r t : List ℕ)
    → y ≡ x
    → IsFirstDifference n r t
    → IsFirstDifference (suc n) (x ∷ r) (y ∷ t)
first_step x y r t e f = record {
  in_reference = omega (arith, f.in_reference);
  in_other = omega (arith, f.in_other);
  same_before = ap₂ ◌∷◌ e f.same_before;
  differs = elim f.differs [
    | inl (a, b) ↦ inl (omega arith, omega arith)
    | inr (inl (a, b)) ↦ inr (inl (omega arith, omega arith))
    | inr (inr (a, b, c)) ↦ inr (inr (omega arith, omega arith, c))
  ];
}

pub first_difference-IsFirstDifference :
    (reference t : List ℕ)
    → t ≢ reference
    → IsFirstDifference (first_difference reference t) reference t
unfolding first_difference
first_difference-IsFirstDifference [] [] ne = absurd (ne refl)
first_difference-IsFirstDifference [] (y ∷ t) ne = record {
  in_reference = omega arith;
  in_other = omega arith;
  same_before = refl;
  differs = inl (refl, omega arith);
}
first_difference-IsFirstDifference (x ∷ r) [] ne = record {
  in_reference = omega arith;
  in_other = omega arith;
  same_before = refl;
  differs = inr (inl (omega arith, refl));
}
first_difference-IsFirstDifference (x ∷ r) (y ∷ t) ne = elim (Bool-cases (x == y)) [
  | inl same ↦ rw same (
      first_step x y r t (ground arith)
        (first_difference-IsFirstDifference r t (λ e. ne (ground (arith, e)))))
  | inr differ ↦ rw differ (record {
    in_reference = omega arith;
    in_other = omega arith;
    same_before = refl;
    differs = inr (inr (omega arith, omega arith, ground arith));
  })
]

-- A window of at most 64 bytes of the transcript, with the byte at `at` in it if there is one.
pub record Shows (at len : ℕ) (w : Window) : Type 0 where
  pub starts : w.lo ≤ at
  pub ends : w.hi ≤ len
  pub narrow : w.hi ≤ w.lo + 64
  pub inside : at < len → at < w.hi

dump_window-Shows : (len at : ℕ) → at ≤ len → Shows at len (dump_window len at)
unfolding dump_window
dump_window-Shows len at h = record {
  starts = ground arith;
  ends = ground arith;
  narrow = ground arith;
  inside = λ l. ground arith;
}

-- The report is about the transcript `t` of the build `name`.
pub record IsReportOf (reference : List ℕ) (name : String) (t : List ℕ) (report : Report)
    : Type 0 where
  pub named : report.name ≡ name
  pub first : IsFirstDifference report.at reference t
  pub reference_len : report.reference_len ≡ length reference
  pub len : report.len ≡ length t
  pub shows_reference : Shows report.at (length reference) report.reference_window
  pub shows : Shows report.at (length t) report.window

pub report-IsReportOf :
    (reference : List ℕ) (name : String) (t : List ℕ)
    → t ≢ reference
    → IsReportOf reference name t (report_divergence reference name t)
unfolding report_divergence
report-IsReportOf reference name t ne =
    let f = first_difference-IsFirstDifference reference t ne in
    record {
      named = refl;
      first = f;
      reference_len = refl;
      len = refl;
      shows_reference =
          dump_window-Shows (length reference) (first_difference reference t) f.in_reference;
      shows = dump_window-Shows (length t) (first_difference reference t) f.in_other;
    }

abbrev pub Agrees : List ℕ → String × List ℕ → Type 0
Agrees reference v = v.1 ≡ reference

-- `LLVMFuzzerTestOneInput` passes over the builds exactly when every transcript is the reference's,
-- byte for byte; otherwise it reports the first build that differs, at the first byte in which it
-- does, with windows of at most 64 bytes that lie in the two transcripts and hold that byte.
pub compare_variants-first :
    (reference : List ℕ) (variants : List (String × List ℕ))
    → ((compare_variants reference variants ≡ none) × All (Agrees reference) variants)
      ⊎ ((before : List (String × List ℕ)) × (name : String) × (t : List ℕ) × (after : List
            (String × List ℕ))
          × (report : Report) × (variants ≡ before ++ (name, t) ∷ after)
          × All (Agrees reference) before
          × (t ≢ reference)
          × (compare_variants reference variants ≡ some report)
          × IsReportOf reference name t report)
unfolding compare_variants
compare_variants-first reference [] = inl (refl, tt)
compare_variants-first reference ((name, t) ∷ rest) =
    elim (Bool-cases (matches_reference reference t)) [
      | inl same ↦ rw same (elim (compare_variants-first reference rest) [
        | inl (e, a) ↦ inl (e, ((matches_reference_iff reference t).0 same, a))
        | inr (b, n, u, c, r, e, a, ne, g, i) ↦ inr (
          (name, t) ∷ b,
          n,
          u,
          c,
          r,
          ap (λ l. (name, t) ∷ l) e,
          ((matches_reference_iff reference t).0 same, a),
          ne,
          g,
          i,
        )
      ])
      | inr differs ↦
          let ne : t ≢ reference =
            λ e. false≢true (sym differs ∙ (matches_reference_iff reference t).1 e) in
          rw differs (
            inr (
              [],
              name,
              t,
              rest,
              report_divergence reference name t,
              refl,
              tt,
              ne,
              refl,
              report-IsReportOf reference name t ne,
            ))
    ]
