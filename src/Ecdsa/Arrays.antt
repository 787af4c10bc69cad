-- ===== src/Ecdsa/Arrays.antt =====
-- The arrays of the ECDSA target: their sizes, and that `der` never outgrows its own.
use diffsecp.Prelude.{
  ℕ, zero, suc, ◌+◌, ◌%◌, ◌≤◌, List, ◌∷◌, ◌≡◌, refl, arith, some, none, length, length-take,
  length-drop, take, drop, ◌==◌, ltb, has_flag,
}
use diffsecp.Limits.{diffsecp_input_max}
use diffsecp.Run.Agree.{Does, Agree-pure, Agree-step, Agree-if, Agree-post}
use diffsecp.Run.Steps.{Does-u8, Does-take}
use diffsecp.Run.Short.{AgreeShort, AgreeShort-left}
use diffsecp.Run.Mutate.{length-xor_at}
use diffsecp.Ecdsa.Contract.{IsExtra}
use diffsecp.Ecdsa.Der.{ecdsa_der_max}
use diffsecp.Ecdsa.Sequence.{Does-append_within}
use diffsecp.Ecdsa.Machine.{
  Arrays, insert_byte, ecdsa_mutate, ecdsa_mutations, read_tail, read_ndata, read_arrays,
  ecdsa_ndata,
}

-- `der` holds at most `n` bytes.
pub record IsArrays (pklen n : ℕ) (a : Arrays) : Type 0 where
  pub sig64 : length a.sig64 ≡ 64
  pub msg : length a.msg ≡ 32
  pub pkser : length a.pkser ≡ pklen
  pub der : length a.der ≤ n

pub IsArrays-weaken : {pklen m n : ℕ} {a : Arrays} → m ≤ n → IsArrays pklen m a → IsArrays pklen n a
IsArrays-weaken h v = record {
  sig64 = v.sig64;
  msg = v.msg;
  pkser = v.pkser;
  der = omega (arith, v.der, h);
}

Does-insert_byte :
    (der : List ℕ) (place mask n : ℕ)
    → length der ≤ n
    → n + 1 ≤ ecdsa_der_max
    → Does 0 (λ r. length r ≤ n + 1) (insert_byte der place mask)
unfolding insert_byte
Does-insert_byte der place mask n l room =
    let at = place % (length der + 1) in
    let front = length-take {0} at der in
    let back = length-drop {0} at der in
    Agree-post
      (Does-append_within ecdsa_der_max (take at der) (mask ∷ drop at der)
        (omega (arith, front, back, l, room)))
      λ r r' q. (q.0, omega (arith, q.1.1, front, back, l))

Does-ecdsa_mutate :
    (pklen n : ℕ) (a : Arrays) (which place mask : ℕ)
    → IsArrays pklen n a
    → n + 1 ≤ ecdsa_der_max
    → Does 0 (IsArrays pklen (n + 1)) (ecdsa_mutate pklen a which place mask)
unfolding ecdsa_mutate
Does-ecdsa_mutate pklen n a which place mask v room =
    Agree-if (which == 0)
      (λ _. Agree-pure _ _ (
        refl,
        record {
          sig64 = omega (arith, v.sig64, length-xor_at a.sig64 (place % 64) mask);
          msg = v.msg;
          pkser = v.pkser;
          der = omega (arith, v.der);
        },
      ))
      (λ _.
        Agree-if (which == 1)
          (λ _. Agree-pure _ _ (
            refl,
            record {
              sig64 = v.sig64;
              msg = omega (arith, v.msg, length-xor_at a.msg (place % 32) mask);
              pkser = v.pkser;
              der = omega (arith, v.der);
            },
          ))
          (λ _.
            Agree-if (which == 2)
              (λ _. Agree-pure _ _ (
                refl,
                record {
                  sig64 = v.sig64;
                  msg = v.msg;
                  pkser = omega (arith, v.pkser, length-xor_at a.pkser (place % pklen) mask);
                  der = omega (arith, v.der);
                },
              ))
              (λ _.
                Agree-if (which == 3)
                  (λ _.
                    Agree-if (ltb 0 (length a.der))
                      (λ _. Agree-pure _ _ (
                        refl,
                        record {
                          sig64 = v.sig64;
                          msg = v.msg;
                          pkser = v.pkser;
                          der =
                              omega (arith, v.der, length-xor_at a.der (place % length a.der) mask);
                        },
                      ))
                      (λ _. Agree-pure _ _ (refl, IsArrays-weaken (omega arith) v)))
                  (λ _. Agree-step 0 (Does-insert_byte a.der place mask n v.der room) refl λ der l.
                    Agree-pure _ _
                      (refl, record { sig64 = v.sig64; msg = v.msg; pkser = v.pkser; der = l })))))

-- Each mutation adds at most one byte to `der`.
pub Does-ecdsa_mutations :
    (pklen left n : ℕ) (a : Arrays)
    → IsArrays pklen n a
    → n + left ≤ ecdsa_der_max
    → Does 0 (IsArrays pklen (n + left)) (ecdsa_mutations pklen left a)
unfolding ecdsa_mutations
Does-ecdsa_mutations pklen zero n a v room = Agree-pure _ _ (refl, IsArrays-weaken (omega arith) v)
Does-ecdsa_mutations pklen (suc left) n a v room = Agree-step 0 Does-u8 refl λ which _.
    Agree-step 0 Does-u8 refl λ place _. Agree-step 0 Does-u8 refl λ mask _.
      Agree-step 0 (Does-ecdsa_mutate pklen n a (which % 5) place mask v (omega (arith, room))) refl
        λ next w.
          Agree-post (Does-ecdsa_mutations pklen left (n + 1) next w (omega (arith, room)))
            λ r r' q. (q.0, IsArrays-weaken (omega arith) q.1)

pub Does-read_ndata : (mode : ℕ) → Does 0 IsExtra (read_ndata mode)
unfolding read_ndata
Does-read_ndata mode =
    Agree-if (has_flag mode ecdsa_ndata)
      (λ _.
        Agree-step 0 (Does-take 32) refl
          λ b len. Agree-pure (some b) (some b) (refl, λ d e. ground (arith, e, len)))
      (λ _. Agree-pure none none (refl, λ d e. ground (arith, e)))

pub Does-read_arrays :
    (pklen : ℕ) (msg : List ℕ) → length msg ≡ 32 → Does 0 (IsArrays pklen 0) (read_arrays pklen msg)
unfolding read_arrays
Does-read_arrays pklen msg l = Agree-step 0 (Does-take pklen) refl λ pkser lp.
    Agree-step 0 (Does-take 64) refl λ sig64 ls.
      Agree-pure _ _ (refl, record { sig64 = ls; msg = l; pkser = lp; der = omega arith })

-- What is left of an input within the limit fits behind `der`.
pub Short-read_tail :
    (der : List ℕ) (n : ℕ)
    → length der ≤ n
    → n + diffsecp_input_max ≤ ecdsa_der_max
    → AgreeShort diffsecp_input_max 0 (λ a b. a ≡ b) (read_tail der) (read_tail der)
unfolding read_tail
Short-read_tail der n l room = AgreeShort-left λ k h. Agree-step 0 (Does-take k) refl λ rest lr.
    Agree-post (Does-append_within ecdsa_der_max der rest (omega (arith, l, room, h, lr)))
      λ r r' q. q.0
