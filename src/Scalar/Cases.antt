-- ===== src/Scalar/Cases.antt =====
-- Every case of the scalar target's switch keeps the registers of two builds equal, makes only
-- calls within libsecp's ranges, and writes at most 32 bytes.
use diffsecp.Prelude.{
  ℕ, ℤ, ◌+◌, ◌-◌, ◌*◌, ◌/◌, ◌%◌, ◌≤◌, ◌≡◌, ◌≢◌, refl, arith, bit_and, bit_and-one, Option,
}
use diffsecp.Run.Array.{store, store_related}
use diffsecp.Run.{M}
use diffsecp.Run.Agree.{
  Agree, Agree-pure, Agree-call, Agree-shared, Agree-step, Agree-post, Agree-bind, Both,
}
use diffsecp.Run.Steps.{Does-put, Does-put_int, Does-put_u32, Does-take, Does-u8, Does-u16}
use diffsecp.Scalar.Api.{ScalarApi}
use diffsecp.Scalar.Contract.{ScalarContract}
use diffsecp.Scalar.Target.{
  ScalarOp, Regs, scalar_record, scalar_query, store_split, store_result, store_recorded,
  scalar_switch,
}

-- The positions that `scalar_query` computes are in range, the second one within a limb.
var_range : (k o : ℕ) → (1 + k % 32 ≤ 32) × (o % (257 - (1 + k % 32)) + (1 + k % 32) ≤ 256)
var_range k o = grind arith

limb_range :
    (k l o : ℕ)
    → (let count = 1 + k % 32 in
        let offset = 32 * (l % 8) + o % (33 - count) in
        (offset + count ≤ 256) × ((offset + count - 1) / 32 ≡ offset / 32))
limb_range k l o = grind arith

module _ (f g : ScalarApi) (c : ScalarContract f g) where
  abbrev pub RegsAgree : Regs f → Regs g → Type 0
  RegsAgree reg reg' = (i : ℕ) → c.Value (reg i) (reg' i)

  pub scalar_record-Agree :
      (s : f.Sc) (s' : g.Sc)
      → c.Value s s'
      → Agree 32 (λ _ _. Unit {0}) (scalar_record f s) (scalar_record g s')
  unfolding scalar_record
  scalar_record-Agree s s' h =
      Agree-shared (c.get_b32 s s' h)
        λ b32 len. Agree-post (Does-put b32 32 (omega (arith, len))) (λ _ _ _. tt)

  scalar_query-Agree :
      (a b : f.Sc) (a' b' : g.Sc)
      → c.Value a a'
      → c.Value b b'
      → Agree 28 (λ _ _. Unit {0}) (scalar_query f a b) (scalar_query g a' b')
  unfolding scalar_query
  scalar_query-Agree a b a' b' ha hb = Agree-shared (c.is_zero a a' ha) λ z _.
      Agree-step 4 (Does-put_int z) refl λ _ _. Agree-shared (c.is_one a a' ha) λ o _.
        Agree-step 4 (Does-put_int o) refl λ _ _. Agree-shared (c.is_even a a' ha) λ e _.
          Agree-step 4 (Does-put_int e) refl λ _ _. Agree-shared (c.is_high a a' ha) λ h _.
            Agree-step 4 (Does-put_int h) refl λ _ _. Agree-shared (c.eq a b a' b' ha hb) λ q _.
              Agree-step 4 (Does-put_int q) refl λ _ _. Agree-step 0 Does-u8 refl λ k _.
                Agree-step 0 Does-u16 refl λ p _.
                  Agree-shared
                    (c.get_bits_var (p % (257 - (1 + k % 32))) (1 + k % 32) a a' (omega arith)
                      (var_range k p).0 (var_range k p).1 ha)
                    λ x _. Agree-step 4 (Does-put_u32 x) refl λ _ _.
                      Agree-step 0 Does-u8 refl λ k2 _. Agree-step 0 Does-u8 refl λ l _.
                        Agree-step 0 Does-u8 refl λ p2 _.
                          Agree-shared
                            (c.get_bits_limb32 (32 * (l % 8) + p2 % (33 - (1 + k2 % 32)))
                              (1 + k2 % 32) a a' (omega arith) (var_range k2 0).0
                              (limb_range k2 l p2).0 (limb_range k2 l p2).1 ha)
                            λ y _. Agree-post (Does-put_u32 y) (λ _ _ _. tt)

  module _ {reg : Regs f} {reg' : Regs g} (h : RegsAgree reg reg') where
    abbrev Keeps : M (Regs f) → M (Regs g) → Type 0
    Keeps m m' = Agree 32 (λ s s'. RegsAgree s s') m m'

    store_agree :
        (d : ℕ) {v : f.Sc} {v' : g.Sc} → c.Value v v' → RegsAgree (store reg d v) (store reg' d v')
    store_agree d r = store_related c.Value d h r

    store_result_agree :
        (d : ℕ) {o : Option f.Sc} {o' : Option g.Sc}
        → Both c.Value o o'
        → Keeps (store_result f reg d o) (store_result g reg' d o')
    unfolding store_result
    store_result_agree d b = Agree-call b λ v v' r. Agree-pure _ _ (store_agree d r)

    store_recorded_agree :
        (d : ℕ) {o : Option (ℤ × f.Sc)} {o' : Option (ℤ × g.Sc)}
        → Both (λ p q. (p.0 ≡ q.0) × c.Value p.1 q.1) o o'
        → Keeps (store_recorded f reg d o) (store_recorded g reg' d o')
    unfolding store_recorded
    store_recorded_agree d b = Agree-call b λ r r' e.
        rw (← e.0) (Agree-step 4 (Does-put_int r.0) refl λ _ _. Agree-pure _ _ (store_agree d e.1))

    store_split_agree :
        (d b : ℕ) {o : Option (f.Sc × f.Sc)} {o' : Option (g.Sc × g.Sc)}
        → Both (λ p q. c.Value p.0 q.0 × c.Value p.1 q.1) o o'
        → Keeps (store_split f reg d b o) (store_split g reg' d b o')
    unfolding store_split
    store_split_agree d b s = Agree-call s λ r r' e.
        Agree-bind 32 (scalar_record-Agree r.1 r'.1 e.1) refl
          λ _ _ _. Agree-pure _ _ (store_related c.Value b (store_agree d e.0) e.1)

    -- The whole switch: only `SCALAR_OP_COUNT` aborts.
    pub scalar_switch_agree :
        (op : ScalarOp) (d b : ℕ) (a y : f.Sc) (a' y' : g.Sc)
        → op ≢ ScalarOp.op_count
        → c.Value a a'
        → c.Value y y'
        → Keeps (scalar_switch f op reg d a b y) (scalar_switch g op reg' d a' b y')
    unfolding scalar_switch
    scalar_switch_agree ScalarOp.set_b32 d b a y a' y' ne ha hy =
        Agree-step 0 (Does-take 32) refl λ b32 len. store_recorded_agree d (c.set_b32 b32 len)
    scalar_switch_agree ScalarOp.set_b32_seckey d b a y a' y' ne ha hy =
        Agree-step 0 (Does-take 32) refl
          λ b32 len. store_recorded_agree d (c.set_b32_seckey b32 len)
    scalar_switch_agree ScalarOp.add d b a y a' y' ne ha hy =
        store_recorded_agree d (c.add a y a' y' ha hy)
    scalar_switch_agree ScalarOp.mul d b a y a' y' ne ha hy =
        store_result_agree d (c.mul a y a' y' ha hy)
    scalar_switch_agree ScalarOp.negate d b a y a' y' ne ha hy =
        store_result_agree d (c.negate a a' ha)
    scalar_switch_agree ScalarOp.half d b a y a' y' ne ha hy = store_result_agree d (c.half a a' ha)
    scalar_switch_agree ScalarOp.inverse d b a y a' y' ne ha hy =
        store_result_agree d (c.inverse a a' ha)
    scalar_switch_agree ScalarOp.inverse_var d b a y a' y' ne ha hy =
        store_result_agree d (c.inverse_var a a' ha)
    scalar_switch_agree ScalarOp.cond_negate d b a y a' y' ne ha hy =
        Agree-step 0 Does-u8 refl λ k _.
          store_recorded_agree d
            (c.cond_negate (bit_and k 1) (reg d) (reg' d) (omega (arith, bit_and-one k)) (h d))
    scalar_switch_agree ScalarOp.cmov d b a y a' y' ne ha hy = Agree-step 0 Does-u8 refl λ k _.
        store_result_agree d
          (c.cmov (bit_and k 1) (reg d) a (reg' d) a' (omega (arith, bit_and-one k)) (h d) ha)
    scalar_switch_agree ScalarOp.split_128 d b a y a' y' ne ha hy =
        store_split_agree d b (c.split_128 a a' ha)
    scalar_switch_agree ScalarOp.split_lambda d b a y a' y' ne ha hy =
        store_split_agree d b (c.split_lambda a a' ha)
    scalar_switch_agree ScalarOp.mul_shift_var d b a y a' y' ne ha hy =
        Agree-step 0 Does-u8 refl λ k byte.
          store_result_agree d
            (c.mul_shift_var (256 + k) a y a' y' (omega arith) (omega (arith, byte)) ha hy)
    scalar_switch_agree ScalarOp.query d b a y a' y' ne ha hy =
        Agree-bind 28 (scalar_query-Agree a y a' y' ha hy) refl λ _ _ _. Agree-pure reg reg' h
    scalar_switch_agree ScalarOp.op_count d b a y a' y' ne ha hy = absurd (ne refl)
