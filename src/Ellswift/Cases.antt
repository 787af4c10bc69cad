-- ===== src/Ellswift/Cases.antt =====
-- The parts of the ElligatorSwift target that go through field elements, over two builds.
use diffsecp.Prelude.{
  ℕ, ◌/◌, ◌%◌, ◌≡◌, List, Option, some, refl, arith, length, Bool, true, false, is_nonzero, ◌==◌,
  bit_and, bit_and_seven,
}
use diffsecp.Run.Agree.{
  Agree, Does, Agree-pure, Agree-call, Agree-shared, Agree-lift, Agree-step, Agree-if, Agree-post,
  Agree-bind,
}
use diffsecp.Run.Steps.{Does-take, Does-put, Does-put_int}
use diffsecp.Ellswift.Api.{EllswiftApi, HashFunction}
use diffsecp.Ellswift.Contract.{EllswiftContract, SameHash}
use diffsecp.Ellswift.Target.{
  ellswift_inv_u_is_x, ellswift_inv_r_zero, ellswift_inv_kinds, ellswift_xdh_raw, given_if,
  read_party, ellswift_raw_x, ellswift_x_r_zero, inverse_u, inverse_inputs, ellswift_inv,
  ellswift_record_pubkey,
}

abbrev pub IsSeed : Option (List ℕ) → Type 0
IsSeed o = (b : List ℕ) → o ≡ some b → length b ≡ 32

pub given_if-IsSeed : (ok : Bool) (b : List ℕ) → length b ≡ 32 → IsSeed (given_if ok b)
given_if-IsSeed true b l d e = ground (arith, e, l)
given_if-IsSeed false b l d e = ground (arith, e)

pub Does-read_party : Does 0 (λ p. (length p.0 ≡ 32) × (length p.1 ≡ 32)) read_party
unfolding read_party
Does-read_party =
    Agree-step 0 (Does-take 32) refl
      λ seckey l. Agree-step 0 (Does-take 32) refl λ aux l'. Agree-pure _ _ (refl, (l, l'))

module _ (f g : EllswiftApi) (c : EllswiftContract f g) where
  pub raw_x-Agree :
      (a b seckey prefix : List ℕ) (h h' : HashFunction)
      → length a ≡ 64
      → length b ≡ 64
      → length seckey ≡ 32
      → SameHash prefix h h'
      → Agree 72
          (λ _ _. Unit {0})
          (ellswift_raw_x f a b seckey h prefix)
          (ellswift_raw_x g a b seckey h' prefix)
  unfolding ellswift_raw_x
  raw_x-Agree a b seckey prefix h h' la lb lk same =
      Agree-call
        (c.ellswift_xdh a b seckey 0 ellswift_xdh_raw ellswift_xdh_raw _ la lb lk (omega arith)
          (λ x a b lx _ _. (_, _, refl, refl, (refl, (refl, lx)))))
        λ x x' hx. rw (← hx.0) (
          Agree-step 4 (Does-put_int x.0) refl λ _ _.
            Agree-if (is_nonzero x.0)
              (λ ok. rw (← (hx.1 ok).0) (
                Agree-step 32 (Does-put x.1 32 (omega (arith, (hx.1 ok).1))) refl λ _ _.
                  Agree-call (same x.1 a b (hx.1 ok).1 la lb) λ s s' hs.
                    rw (← hs.0, ← hs.1.0)
                      (Agree-step 4 (Does-put_int s.0) refl
                        λ _ _. Agree-post (Does-put s.1 32 (omega (arith, hs.1.1))) (λ _ _ _. tt))))
              (λ _. Agree-pure tt tt tt))

  x_r_zero-Agree :
      (u : f.field.Fe) (u' : g.field.Fe)
      → c.field.Value 1 u u'
      → Agree 0 (c.field.Value 1) (ellswift_x_r_zero f u) (ellswift_x_r_zero g u')
  unfolding ellswift_x_r_zero
  x_r_zero-Agree u u' h = rw (← c.same_b) (
      Agree-call (c.field.sqr 1 u u' (omega arith) h) λ u2 u2' h2.
        Agree-call (c.field.mul 1 1 u2 u u2' u' (omega arith) (omega arith) h2 h) λ n n' hn.
          Agree-call (c.field.add_int 1 f.b n n' (omega arith) c.small_b hn) λ m m' hm.
            Agree-call (c.field.mul_int_unchecked 2 4 m m' (omega arith) (omega arith) hm)
              λ k k' hk.
                Agree-call (c.field.mul_int_unchecked 1 3 u2 u2' (omega arith) (omega arith) h2)
                  λ d d' hd. Agree-call (c.field.inv_var 3 d d' (omega arith) hd) λ e e' he.
                    Agree-call (c.field.mul 8 1 k e k' e' (omega arith) (omega arith) hk he)
                      λ x x' hx.
                        Agree-call
                          (c.field.negate_unchecked 1 1 x x' (omega arith) (omega arith) hx)
                          λ y y' hy.
                            Agree-call (c.field.add 2 1 y u y' u' (omega arith) hy h) λ z z' hz.
                              Agree-post
                                (Agree-lift (c.field.normalize_var 3 z z' (omega arith) hz))
                                c.field.normal_value)

  inverse_u-Agree :
      (u32 : List ℕ)
      → length u32 ≡ 32
      → Agree 0 (λ x y. c.field.Value 1 x y × c.Nonzero x y) (inverse_u f u32) (inverse_u g u32)
  unfolding inverse_u
  inverse_u-Agree u32 l = Agree-call (c.field.set_b32_mod u32 l) λ u u' hu.
      Agree-shared (c.normalizes_to_zero_var u u' hu) λ v nonzero.
        Agree-if (is_nonzero v) (λ _. Agree-lift c.set_int_one)
          (λ e. Agree-pure _ _ (hu, nonzero e))

  inverse_inputs-Agree :
      (kind : ℕ) (x u : f.field.Fe) (x' u' : g.field.Fe)
      → c.field.Value 1 x x'
      → c.Nonzero x x'
      → c.field.Value 1 u u'
      → c.Nonzero u u'
      → Agree 0
          (λ p q. c.field.Value 1 p.0 q.0 × (c.field.Value 1 p.1 q.1 × c.Nonzero p.1 q.1))
          (inverse_inputs f kind x u)
          (inverse_inputs g kind x' u')
  unfolding inverse_inputs
  inverse_inputs-Agree kind x u x' u' hx nx hu nu =
      Agree-if (kind == ellswift_inv_u_is_x) (λ _. Agree-pure _ _ (hx, (hx, nx)))
        (λ _.
          Agree-if (kind == ellswift_inv_r_zero)
            (λ _.
              Agree-bind 0 (x_r_zero-Agree u u' hu) refl λ y y' hy. Agree-pure _ _ (hy, (hu, nu)))
            (λ _. Agree-pure _ _ (hx, (hu, nu))))

  pub inv-Agree :
      (mode : ℕ) (u32 : List ℕ) (k : f.Pubkey) (k' : g.Pubkey)
      → length u32 ≡ 32
      → c.SamePubkey k k'
      → Agree 40 (λ _ _. Unit {0}) (ellswift_inv f mode u32 k) (ellswift_inv g mode u32 k')
  unfolding ellswift_inv
  inv-Agree mode u32 k k' l h = Agree-bind 0 (inverse_u-Agree u32 l) refl λ u u' hu.
      Agree-call (c.pubkey_load k k' h) λ p p' hp.
        Agree-bind 0
          (inverse_inputs-Agree (mode / 8 % ellswift_inv_kinds) (f.x p.1) u (g.x p'.1) u' hp.1.0
            hp.1.1 hu.0 hu.1)
          refl
          λ q q' hq. Agree-shared (c.x_on_curve_var q.0 q'.0 hq.0) λ v on.
            Agree-step 4 (Does-put_int v) refl λ _ _.
              Agree-if (is_nonzero v)
                (λ ok.
                  Agree-call
                    (c.xswiftec_inv_var q.0 q.1 q'.0 q'.1 (bit_and mode 7) hq.0 (on ok) hq.1.0
                      hq.1.1 (omega (arith, bit_and_seven mode)))
                    λ s s' hs. rw (← hs.0) (
                      Agree-step 4 (Does-put_int s.0) refl λ _ _.
                        Agree-if (is_nonzero s.0)
                          (λ good.
                            Agree-call (c.field.normalize_var 1 s.1 s'.1 (omega arith) (hs.1 good))
                              λ n n' hn. Agree-shared (c.field.get_b32 n n' hn) λ b lb.
                                Agree-post (Does-put b 32 (omega (arith, lb))) (λ _ _ _. tt))
                          (λ _. Agree-pure tt tt tt)))
                (λ _. Agree-pure tt tt tt)

  pub record_pubkey-Agree :
      (k : f.Pubkey) (k' : g.Pubkey)
      → c.SamePubkey k k'
      → Agree 33 (λ _ _. Unit {0}) (ellswift_record_pubkey f k) (ellswift_record_pubkey g k')
  unfolding ellswift_record_pubkey
  record_pubkey-Agree k k' h =
      Agree-shared (c.pubkey_serialize k k' 33 true (omega arith) h)
        λ b l. Agree-post (Does-put b 33 (omega (arith, l))) (λ _ _ _. tt)
