-- ===== src/Group/Target.antt =====
-- The functions of src/targets/group.c before the target.
use diffsecp.Prelude.{
  ℕ, zero, suc, ◌-◌, ◌*◌, ◌/◌, ◌%◌, ◌^◌, pos, of_bool, List, [], ◌∷◌, Option, none, some, Bool,
  true, false, not, ◌&&◌, ◌||◌,
}
use diffsecp.Prelude.{◌==◌, leb, if◌then◌else◌, is_nonzero, bit_and, bit_xor, has_flag}
use diffsecp.Run.{M, pure, ◌>>=◌, ◌>>◌, lift, take_bytes, u8, put, put_u8, put_int}
use diffsecp.Run.Array.{Array}
use diffsecp.Group.Api.{GroupApi}

abbrev pub group_regs : ℕ
group_regs = 4

abbrev pub group_large_min : ℕ
group_large_min = 1261

abbrev pub group_large_max : ℕ
group_large_max = 16384

abbrev pub group_large_odds : ℕ
group_large_odds = 4096

-- The loop over the input, with the hash so far.
unfoldable pub large_hash : ℕ → List ℕ → ℕ
large_hash h [] = h
large_hash h (b ∷ input) = large_hash (bit_xor h b * 16777619 % 2 ^ 32) input

-- `UINT32_MAX / GROUP_LARGE_ODDS`
unfoldable pub group_large_due : List ℕ → Bool
group_large_due input = leb (large_hash 2166136261 input) ((2 ^ 32 - 1) / group_large_odds)

unfoldable pub group_scratch_size : ℕ → ℕ
group_scratch_size v = bit_and v 0xFFF * 2 ^ (v / 2 ^ 12 % 10)

abbrev pub and_then : {A B : Type 0} → Option A → (A → Option B) → Option B
and_then none f = none
and_then (some a) f = f a

module _ (api : GroupApi) where
  -- `struct group_multi`; `fail_at` is `none` for `SIZE_MAX`.
  pub record GroupMulti : Type 0 where
    pub sc : Array api.scalar.Sc
    pub pt : Array api.Ge
    pub step : api.scalar.Sc
    pub fail_at : Option ℕ

  abbrev pub fails_at : Option ℕ → ℕ → Bool
  fails_at none idx = false
  fails_at (some i) idx = idx == i

  -- The scalar, without the overflow of the sum, and the point; or the failure.
  unfoldable pub group_multi_callback : GroupMulti → ℕ → Option (Option (api.scalar.Sc × api.Ge))
  group_multi_callback m idx =
      if fails_at m.fail_at idx
      then some none
      else and_then (api.scalar.set_int (idx / group_regs)) λ k.
        and_then (api.scalar.mul k m.step) λ part.
          and_then (api.scalar.add (m.sc (idx % group_regs)) part)
            λ sum. some (some (sum.1, m.pt (idx % group_regs)))

  unfoldable pub group_take_scalar : M api.scalar.Sc
  group_take_scalar = do b32 ← take_bytes 32; s ← lift (api.scalar.set_b32 b32); pure s.1

  unfoldable pub group_take_fe : M api.field.Fe
  group_take_fe = do b32 ← take_bytes 32; lift (api.field.set_b32_mod b32)

  unfoldable pub group_take_nonzero_fe : M api.field.Fe
  group_take_nonzero_fe = do
    x ← group_take_fe
    is_zero ← lift (api.field.normalizes_to_zero_var x)
    if is_nonzero is_zero then lift (api.field.set_int 1) else pure x

  -- The copy is a value here.
  unfoldable pub group_affine : api.Gej → M api.Ge
  group_affine a = lift (api.ge_set_gej_var a)

  unfoldable pub group_record_fe : api.field.Fe → M (Unit {0})
  group_record_fe x = do
    n ← lift (api.field.normalize_var x)
    b32 ← lift (api.field.get_b32 n)
    put b32

  unfoldable pub group_record_ge : api.Ge → M (Unit {0})
  group_record_ge p = do
    put_u8 (api.ge_infinity p)
    if api.ge_infinity p == 0
        then (do group_record_fe (api.ge_x p); group_record_fe (api.ge_y p))
        else pure tt

  unfoldable pub group_record_rzr : api.Gej → api.Gej → api.field.Fe → M (Unit {0})
  group_record_rzr r a rzr = do
    z ← lift (api.field.mul (api.gej_z a) rzr)
    if api.gej_infinity r == 0
        then (do same ← lift (api.field.equal z (api.gej_z r)); put_int (of_bool (is_nonzero same)))
        else put_int (pos 1)

  -- The test of `gb->x`, where neither point is infinity.
  unfoldable pub query_x : api.Gej → api.Ge → M (Unit {0})
  query_x a gb =
      if api.gej_infinity a == 0 && api.ge_infinity gb == 0
      then (do same ← lift (api.gej_eq_x_var (api.ge_x gb) a); put_int same)
      else pure tt

  unfoldable pub group_query : api.Gej → api.Gej → api.Ge → api.Ge → M (Unit {0})
  group_query a b ga gb = do
    xn ← group_take_fe
    xd ← group_take_nonzero_fe
    infinite ← lift (api.gej_is_infinity a)
    put_int infinite
    same ← lift (api.gej_eq_var a b)
    put_int same
    same_ge ← lift (api.gej_eq_ge_var a gb)
    put_int same_ge
    same_affine ← lift (api.ge_eq_var ga gb)
    put_int same_affine
    valid ← lift (api.ge_is_valid_var ga)
    put_int valid
    query_x a gb
    on_curve ← lift (api.ge_x_on_curve_var xn)
    put_int on_curve
    frac_on_curve ← lift (api.ge_x_frac_on_curve_var xn xd)
    put_int frac_on_curve

  -- `q`, or 1 for 0.
  unfoldable pub nonzero_scalar : api.scalar.Sc → M api.scalar.Sc
  nonzero_scalar q = do
    is_zero ← lift (api.scalar.is_zero q)
    if is_nonzero is_zero then lift (api.scalar.set_int 1) else pure q

  -- `n`, with the x of the point where the input is not raw.
  unfoldable pub xonly_n : Bool → Bool → api.Ge → api.field.Fe → api.field.Fe → M api.field.Fe
  xonly_n raw over a n d =
      if raw
      then pure n
      else if over
      then lift (api.field.mul (api.ge_x a) d)
      else pure (api.ge_x a)

  abbrev pub given_if : Bool → api.field.Fe → Option api.field.Fe
  given_if true d = some d
  given_if false d = none

  unfoldable pub group_ecmult_const_xonly : api.Ge → M (Unit {0})
  group_ecmult_const_xonly a = do
    q0 ← group_take_scalar
    flags ← u8
    n0 ← group_take_fe
    d ← group_take_nonzero_fe
    q ← nonzero_scalar q0
    let raw = has_flag flags 1 || not (api.ge_infinity a == 0)
    n ← xonly_n raw (has_flag flags 2) a n0 d
    x ← lift (api.ecmult_const_xonly n (given_if (has_flag flags 2) d) q (if raw then 0 else 1))
    put_int x.0
    if is_nonzero x.0 then group_record_fe x.1 else pure tt

  -- Whether a point of the first `n` is infinity.
  unfoldable pub any_infinity : ℕ → Array api.Gej → Bool
  any_infinity zero reg = false
  any_infinity (suc n) reg =
      let rest = any_infinity n reg in not (api.gej_infinity (reg n) == 0) || rest

  -- The points from `i` on, with those left to go.
  unfoldable pub record_points : ℕ → ℕ → Array api.Ge → M (Unit {0})
  record_points zero i ge = pure tt
  record_points (suc left) i ge = do group_record_ge (ge i); record_points left (suc i) ge

  unfoldable pub group_batch_affine : Array api.Gej → ℕ → M (Unit {0})
  group_batch_affine reg n = do
    ge ← lift (api.ge_set_all_gej_var reg n)
    record_points n 0 ge
    if any_infinity n reg
        then pure tt
        else (do all ← lift (api.ge_set_all_gej reg n); record_points n 0 all)
