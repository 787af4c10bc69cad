-- ===== src/Ecdsa/Records.antt =====
-- The functions of the ECDSA target over two builds.
use diffsecp.Prelude.{
  ℕ, ◌+◌, ◌-◌, ◌%◌, ◌^◌, ◌≤◌, List, ◌++◌, ◌≡◌, refl, arith, Bool, true, false, Option, some, none,
  length, length-append, length-take, length-drop, length-replicate, take, drop, replicate,
  is_nonzero, ◌==◌, if◌then◌else◌,
}
use diffsecp.Run.Agree.{
  Agree, Shared, Agree-pure, Agree-call, Agree-shared, Agree-step, Agree-if, Agree-post, Agree-bind,
}
use diffsecp.Run.Steps.{Does-put, Does-put_int, Does-put_u32}
use diffsecp.Run.Results.{SameOption}
use diffsecp.Ecdsa.Api.{EcdsaApi}
use diffsecp.Ecdsa.Contract.{EcdsaContract}
use diffsecp.Ecdsa.Target.{
  ecdsa_r_infinity, ecdsa_r_above_order, ecdsa_record_pubkey, ecdsa_record_sig, verify_both,
  ecdsa_record_checks, construct_x, lift_x, construct_r, construct_p, ecdsa_construct,
}

-- Of the serialized key `pklen` bytes, and the signature's 64.
pub record SameArrays (pklen : ℕ) (p q : Bool × (List ℕ × List ℕ)) : Type 0 where
  pub same : p ≡ q
  pub pkser : length p.1.0 ≡ pklen
  pub sig64 : length p.1.1 ≡ 64

module _ (f g : EcdsaApi) (c : EcdsaContract f g) where
  pub record_pubkey-Agree :
      (k : f.Pubkey) (k' : g.Pubkey)
      → c.SamePubkey k k'
      → Agree 98 (λ _ _. Unit {0}) (ecdsa_record_pubkey f k) (ecdsa_record_pubkey g k')
  unfolding ecdsa_record_pubkey
  record_pubkey-Agree k k' h =
      Agree-shared (c.pubkey_serialize k k' 33 true (omega arith) h) λ short l.
        Agree-step 33 (Does-put short 33 (omega (arith, l))) refl λ _ _.
          Agree-shared (c.pubkey_serialize k k' 65 false (omega arith) h)
            λ long l'. Agree-post (Does-put long 65 (omega (arith, l'))) (λ _ _ _. tt)

  record_sig-Agree :
      (s : f.Signature) (s' : g.Signature)
      → c.SameSignature s s'
      → Agree 148 (λ _ _. Unit {0}) (ecdsa_record_sig f s) (ecdsa_record_sig g s')
  unfolding ecdsa_record_sig
  record_sig-Agree s s' h = Agree-call (c.serialize_der s s' 72 h) λ d d' e.
      rw (← e.same_ret, ← e.same_len)
        (Agree-step 4 (Does-put_int d.0) refl λ _ _.
          Agree-bind 80
            (Agree-if {Q = λ _ _. Unit {0}} (is_nonzero d.0)
              (λ ok. rw (← e.same_der ok) (
                Agree-step 72 (Does-put d.1.0 72 (omega (arith, e.length_der ok, e.small))) refl
                  λ _ _.
                    Agree-call (c.serialize_der s s' ((d.1.1 + 2 ^ 64 - 1) % 2 ^ 64) h) λ a a' e'.
                      rw (← e'.same_ret, ← e'.same_len)
                        (Agree-step 4 (Does-put_int a.0) refl
                          λ _ _. Agree-post (Does-put_u32 (a.1.1 % 2 ^ 32)) (λ _ _ _. tt))))
              (λ _. Agree-pure tt tt tt))
            refl
            λ _ _ _.
              Agree-shared (c.serialize_compact s s' h)
                λ b l. Agree-post (Does-put b 64 (omega (arith, l))) (λ _ _ _. tt))

  verify_both-Agree :
      (s low : f.Signature) (s' low' : g.Signature) (msg : List ℕ) (k : Option f.Pubkey)
      (k' : Option g.Pubkey)
      → length msg ≡ 32
      → c.SameSignature s s'
      → c.SameSignature low low'
      → SameOption c.SamePubkey k k'
      → Agree 8 (λ _ _. Unit {0}) (verify_both f s low msg k) (verify_both g s' low' msg k')
  unfolding verify_both
  verify_both-Agree s low s' low' msg none none l h h' r = Agree-pure tt tt tt
  verify_both-Agree s low s' low' msg none (some k') l h h' r = absurd r
  verify_both-Agree s low s' low' msg (some k) none l h h' r = absurd r
  verify_both-Agree s low s' low' msg (some k) (some k') l h h' r =
      Agree-shared (c.verify s s' msg k k' l h r) λ v _. Agree-step 4 (Does-put_int v) refl λ _ _.
        Agree-shared (c.verify low low' msg k k' l h' r)
          λ w _. Agree-post (Does-put_int w) (λ _ _ _. tt)

  pub record_checks-Agree :
      (s : f.Signature) (s' : g.Signature) (msg : List ℕ) (k : Option f.Pubkey)
      (k' : Option g.Pubkey)
      → length msg ≡ 32
      → c.SameSignature s s'
      → SameOption c.SamePubkey k k'
      → Agree 312
          (λ _ _. Unit {0})
          (ecdsa_record_checks f s msg k)
          (ecdsa_record_checks g s' msg k')
  unfolding ecdsa_record_checks
  record_checks-Agree s s' msg k k' l h r = Agree-bind 148 (record_sig-Agree s s' h) refl λ _ _ _.
      Agree-call (c.normalize s s' h) λ low low' e. rw (← e.0) (
        Agree-step 4 (Does-put_int low.0) refl λ _ _. Agree-shared (c.is_high s s' h) λ v _.
          Agree-step 4 (Does-put_int v) refl λ _ _.
            Agree-bind 148 (record_sig-Agree low.1 low'.1 e.1) refl
              λ _ _ _. verify_both-Agree s low.1 s' low'.1 msg k k' l h e.1 r)

  construct_x-Agree :
      (kind : ℕ) (x32 : List ℕ)
      → length x32 ≡ 32
      → Agree 0 (SameOption c.field.Normal) (construct_x f kind x32) (construct_x g kind x32)
  unfolding construct_x
  construct_x-Agree kind x32 l =
      Agree-if (kind == ecdsa_r_above_order)
        (λ _. Agree-call (c.field.set_b32_mod _ (low_half x32 l)) λ a a' ha.
          Agree-call
            (c.field.add 1 1 a f.const_order_as_fe a' g.const_order_as_fe (omega arith) ha
              c.const_order_as_fe)
            λ b b' hb.
              Agree-call (c.field.normalize_var 2 b b' (omega arith) hb)
                λ x x' hx. Agree-pure _ _ hx)
        (λ _. Agree-call (c.set_b32_limit x32 l) λ x x' hx.
          rw (← hx.0)
            (Agree-if (is_nonzero x.0) (λ ok. Agree-pure _ _ (hx.1 ok)) (λ _. Agree-pure _ _ tt)))
    where
      low_half : (x32 : List ℕ) → length x32 ≡ 32 → length (replicate 16 0 ++ drop 16 x32) ≡ 32
      low_half x32 l = omega (
        arith,
        length-append {0} (replicate 16 0) (drop 16 x32),
        length-replicate {0} {A = ℕ} 16 0,
        length-drop {0} 16 x32,
        l,
      )

  -- A point and the scalar `r`, in both builds.
  abbrev SameR : f.Gej × f.scalar.Sc → g.Gej × g.scalar.Sc → Type 0
  SameR p q = c.SameGej p.0 q.0 × c.scalar.Value p.1 q.1

  lift_x-Agree :
      (x : Option f.field.Fe) (x' : Option g.field.Fe) (odd : ℕ)
      → odd ≤ 1
      → SameOption c.field.Normal x x'
      → Agree 0 (SameOption SameR) (lift_x f x odd) (lift_x g x' odd)
  unfolding lift_x
  lift_x-Agree none none odd h r = Agree-pure _ _ tt
  lift_x-Agree none (some x') odd h r = absurd r
  lift_x-Agree (some x) none odd h r = absurd r
  lift_x-Agree (some x) (some x') odd h r =
      Agree-call (c.ge_set_xo_var x x' odd h (c.field.normal_value x x' r)) λ p p' hp. rw (← hp.0) (
        Agree-if (is_nonzero p.0)
          (λ ok. Agree-call (c.gej_set_ge p.1 p'.1 (hp.1 ok)) λ j j' hj.
            Agree-shared (c.field.get_b32 x x' r)
              λ b lb. Agree-call (c.scalar.set_b32 b lb) λ q q' hq. Agree-pure _ _ (hj, hq.1))
          (λ _. Agree-pure _ _ tt))

  construct_r-Agree :
      (kind odd : ℕ) (x32 : List ℕ) (r : f.scalar.Sc) (r' : g.scalar.Sc)
      → odd ≤ 1
      → length x32 ≡ 32
      → c.scalar.Value r r'
      → Agree 0 (SameOption SameR) (construct_r f kind odd x32 r) (construct_r g kind odd x32 r')
  unfolding construct_r
  construct_r-Agree kind odd x32 r r' h l hr =
      Agree-if (kind == ecdsa_r_infinity)
        (λ _. Agree-call c.gej_set_infinity λ j j' hj. Agree-pure _ _ (hj, hr))
        (λ _.
          Agree-bind 0 (construct_x-Agree kind x32 l) refl λ x x' hx. lift_x-Agree x x' odd h hx)

  construct_p-Agree :
      (pkser : List ℕ) (compressed : Bool) (sig64 : List ℕ) (s z : f.scalar.Sc)
      (s' z' : g.scalar.Sc) (r : Option (f.Gej × f.scalar.Sc)) (r' : Option (g.Gej × g.scalar.Sc))
      → length pkser ≡ (if compressed then 33 else 65)
      → length sig64 ≡ 64
      → c.scalar.Value s s'
      → c.scalar.Value z z'
      → SameOption SameR r r'
      → Agree 0
          (SameArrays (if compressed then 33 else 65))
          (construct_p f pkser (if compressed then 33 else 65) sig64 s z r)
          (construct_p g pkser (if compressed then 33 else 65) sig64 s' z' r')
  unfolding construct_p
  construct_p-Agree pkser b sig64 s z s' z' none none lp ls hs hz h =
      Agree-pure _ _ (record { same = refl; pkser = lp; sig64 = ls })
  construct_p-Agree pkser b sig64 s z s' z' none (some r') lp ls hs hz h = absurd h
  construct_p-Agree pkser b sig64 s z s' z' (some r) none lp ls hs hz h = absurd h
  construct_p-Agree pkser b sig64 s z s' z' (some (j, r)) (some (j', r')) lp ls hs hz h =
      Agree-call (c.scalar.inverse_var r r' h.1) λ i i' hi.
        Agree-call (c.scalar.mul s i s' i' hs hi) λ na na' hna.
          Agree-call (c.scalar.mul z i z' i' hz hi) λ zr zr' hzr.
            Agree-call (c.scalar.negate zr zr' hzr) λ ng ng' hng.
              Agree-call (c.ecmult j j' na ng na' ng' h.0 hna hng) λ p p' hp.
                Agree-shared (c.gej_is_infinity p p' hp) λ v finite.
                  Agree-if (is_nonzero v)
                    (λ _. Agree-pure _ _ (record { same = refl; pkser = lp; sig64 = ls }))
                    (λ e. Agree-call (c.ge_set_gej p p' (finite e)) λ q q' hq.
                      Agree-call (c.pubkey_save q q' hq) λ k k' hk.
                        Agree-shared (serialized b k k' hk) λ ser l.
                          Agree-shared (c.scalar.get_b32 r r' h.1) λ r32 lr.
                            Agree-shared (c.scalar.get_b32 s s' hs) λ s32 lz.
                              Agree-pure _ _ (record {
                                same = refl;
                                pkser = l;
                                sig64 = omega (arith, length-append {0} r32 s32, lr, lz);
                              }))
    where
      serialized :
          (b : Bool) (k : f.Pubkey) (k' : g.Pubkey)
          → c.SamePubkey k k'
          → Shared
              (λ ser. length ser ≡ (if b then 33 else 65))
              (f.pubkey_serialize k (if b then 33 else 65) ((if b then 33 else 65) == 33))
              (g.pubkey_serialize k' (if b then 33 else 65) ((if b then 33 else 65) == 33))
      serialized true k k' hk = c.pubkey_serialize k k' 33 true (omega arith) hk
      serialized false k k' hk = c.pubkey_serialize k k' 65 false (omega arith) hk

  pub construct-Agree :
      (pkser : List ℕ) (compressed : Bool) (sig64 msg : List ℕ) (kind odd : ℕ) (x32 : List ℕ)
      → length pkser ≡ (if compressed then 33 else 65)
      → length sig64 ≡ 64
      → length msg ≡ 32
      → odd ≤ 1
      → length x32 ≡ 32
      → Agree 0
          (SameArrays (if compressed then 33 else 65))
          (ecdsa_construct f pkser (if compressed then 33 else 65) sig64 msg kind odd x32)
          (ecdsa_construct g pkser (if compressed then 33 else 65) sig64 msg kind odd x32)
  unfolding ecdsa_construct
  construct-Agree pkser b sig64 msg kind odd x32 lp ls lm h lx =
      Agree-call (c.scalar.set_b32 (take 32 sig64) (omega (arith, ls, length-take {0} 32 sig64)))
        λ r r' hr.
          Agree-call
            (c.scalar.set_b32 (drop 32 sig64) (omega (arith, ls, length-drop {0} 32 sig64)))
            λ s s' hs. Agree-call (c.scalar.set_b32 msg lm) λ z z' hz.
              Agree-bind 0 (construct_r-Agree kind odd x32 r.1 r'.1 h lx hr.1) refl
                λ p p' hp. construct_p-Agree pkser b sig64 s.1 z.1 s'.1 z'.1 p p' lp ls hs.1 hz.1 hp
