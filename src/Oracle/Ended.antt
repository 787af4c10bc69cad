-- ===== src/Oracle/Ended.antt =====
-- `oracle_no_answer` of src/oracle.h, which says how a process ended. What `waitpid` says is a
-- parameter.
use diffsecp.Prelude.{
  ℕ, zero, suc, ◌+◌, ◌-◌, ◌/◌, ◌%◌, ◌≤◌, List, [], ◌∷◌, ◌++◌, ltb, if◌then◌else◌, take, false, ◌≡◌,
  arith,
}
use diffsecp.Oracle.{answer_agrees}
use diffsecp.Oracle.Verdict.{no_answer_diverges}

-- `%d` and `%ld` of a number that is not negative; the fuel is more than the digits.
unfoldable pub digits_from : ℕ → ℕ → List ℕ
digits_from zero n = []
digits_from (suc fuel) n =
    let rest = digits_from fuel (n / 10) in (if ltb n 10 then [] else rest) ++ (48 + n % 10) ∷ []

unfoldable pub decimal : ℕ → List ℕ
decimal n = digits_from (n + 1) n

-- What `waitpid` says in the end: its error's text, or how the process ended.
pub data Wait : Type 0 where
  wait_failed : List ℕ → Wait
  signaled : ℕ → List ℕ → Wait
  exited : ℕ → Wait

-- `no answer: `, `%s`
abbrev pub no_answer_text : List ℕ → List ℕ
no_answer_text text = 110 ∷ 111 ∷ 32 ∷ 97 ∷ 110 ∷ 115 ∷ 119 ∷ 101 ∷ 114 ∷ 58 ∷ 32 ∷ text

abbrev pub wait_text : List ℕ
wait_text =
    99 ∷ 97 ∷ 110 ∷ 110 ∷ 111 ∷ 116 ∷ 32 ∷ 119 ∷ 97 ∷ 105 ∷ 116 ∷ 32 ∷ 102 ∷ 111 ∷ 114 ∷ 32 ∷ 116
    ∷ 104 ∷ 101 ∷ 32 ∷ 112 ∷ 114 ∷ 111 ∷ 99 ∷ 101 ∷ 115 ∷ 115 ∷ 58 ∷ 32 ∷ []

abbrev pub signal_text : List ℕ
signal_text =
    116 ∷ 104 ∷ 101 ∷ 32 ∷ 112 ∷ 114 ∷ 111 ∷ 99 ∷ 101 ∷ 115 ∷ 115 ∷ 32 ∷ 119 ∷ 97 ∷ 115 ∷ 32 ∷ 107
    ∷ 105 ∷ 108 ∷ 108 ∷ 101 ∷ 100 ∷ 32 ∷ 98 ∷ 121 ∷ 32 ∷ 115 ∷ 105 ∷ 103 ∷ 110 ∷ 97 ∷ 108 ∷ 32 ∷ []

abbrev pub exit_text : List ℕ
exit_text =
    116 ∷ 104 ∷ 101 ∷ 32 ∷ 112 ∷ 114 ∷ 111 ∷ 99 ∷ 101 ∷ 115 ∷ 115 ∷ 32 ∷ 101 ∷ 120 ∷ 105 ∷ 116 ∷ 101
    ∷ 100 ∷ 32 ∷ 119 ∷ 105 ∷ 116 ∷ 104 ∷ 32 ∷ 115 ∷ 116 ∷ 97 ∷ 116 ∷ 117 ∷ 115 ∷ 32 ∷ []

-- `oracle_no_answer`, with a name of the signal from `strsignal`: the line in a buffer of `size`.
unfoldable pub oracle_no_answer : Wait → ℕ → List ℕ
oracle_no_answer (wait_failed error) size = take (size - 1) (no_answer_text (wait_text ++ error))
oracle_no_answer (signaled n name) size =
    take (size - 1) (no_answer_text (signal_text ++ (decimal n ++ (32 ∷ 40 ∷ (name ++ 41 ∷ [])))))
oracle_no_answer (exited status) size =
    take (size - 1) (no_answer_text (exit_text ++ decimal status))

-- A line that begins with `no an` is not taken for a digest, wherever it is cut behind that.
cut_diverges :
    (size reference : ℕ) (text : List ℕ)
    → 6 ≤ size
    → answer_agrees reference (take (size - 1) (110 ∷ 111 ∷ 32 ∷ 97 ∷ 110 ∷ text)) ≡ false
cut_diverges size reference text l =
    let kept : size - 1 ≡ suc (suc (suc (suc (suc (size - 6))))) = omega (arith, l) in
    rw kept (no_answer_diverges (take (size - 6) text) reference)

-- In a buffer of at least 6 bytes, what `oracle_no_answer` writes is never taken for the reference
-- digest, however the process ended.
pub oracle_no_answer-diverges :
    (w : Wait) (size reference : ℕ)
    → 6 ≤ size
    → answer_agrees reference (oracle_no_answer w size) ≡ false
unfolding oracle_no_answer
oracle_no_answer-diverges (wait_failed error) size reference l = cut_diverges size reference _ l
oracle_no_answer-diverges (signaled n name) size reference l = cut_diverges size reference _ l
oracle_no_answer-diverges (exited status) size reference l = cut_diverges size reference _ l
