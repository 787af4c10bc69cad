-- ===== src/Scalar/Target.antt =====
-- The definitions of src/targets/scalar.c.
use diffsecp.Prelude.{ℕ, ◌+◌, ◌-◌, ◌*◌, ◌/◌, ◌%◌, List, [], ◌∷◌, Option, none, ℤ}
use diffsecp.Prelude.{get_or, bit_and}
use diffsecp.Run.{
  M, pure, ◌>>=◌, ◌>>◌, lift, take_bytes, u8, u16, while_input, run_target, put, put_u8, put_u32,
  put_int,
}
use diffsecp.Run.Array.{Array, store}
use diffsecp.Scalar.Api.{ScalarApi}

abbrev pub scalar_regs : ℕ
scalar_regs = 4

abbrev pub scalar_max_ops : ℕ
scalar_max_ops = 1024

pub data ScalarOp : Type 0 where
  set_b32 set_b32_seckey add mul negate half inverse inverse_var cond_negate cmov : ScalarOp
  split_128 split_lambda mul_shift_var query op_count : ScalarOp

-- The enumerators in order, `SCALAR_OP_COUNT` left off.
abbrev pub scalar_ops : List ScalarOp
scalar_ops =
    set_b32 ∷ set_b32_seckey ∷ add ∷ mul ∷ negate ∷ half ∷ inverse ∷ inverse_var ∷ cond_negate
    ∷ cmov ∷ split_128 ∷ split_lambda ∷ mul_shift_var ∷ query ∷ []

abbrev pub scalar_op_count : ℕ
scalar_op_count = 14

-- `(enum scalar_op)op`
abbrev pub scalar_op : ℕ → ScalarOp
scalar_op n = get_or scalar_ops n op_count

module _ (api : ScalarApi) where
  abbrev pub Regs : Type 0
  Regs = Array api.Sc

  unfoldable pub scalar_record : api.Sc → M (Unit {0})
  scalar_record s = do b32 ← lift (api.get_b32 s); put b32

  unfoldable pub scalar_query : api.Sc → api.Sc → M (Unit {0})
  scalar_query a b = do
    is_zero ← lift (api.is_zero a)
    put_int is_zero
    is_one ← lift (api.is_one a)
    put_int is_one
    is_even ← lift (api.is_even a)
    put_int is_even
    is_high ← lift (api.is_high a)
    put_int is_high
    same ← lift (api.eq a b)
    put_int same
    k ← u8
    let count = 1 + k % 32
    o ← u16
    bits ← lift (api.get_bits_var a (o % (257 - count)) count)
    put_u32 bits
    k2 ← u8
    let count2 = 1 + k2 % 32
    l ← u8
    o2 ← u8
    bits2 ← lift (api.get_bits_limb32 a (32 * (l % 8) + o2 % (33 - count2)) count2)
    put_u32 bits2

  -- `*d = res; *b = res2;` after `scalar_record(&t, &res2)`
  unfoldable pub store_split : Regs → ℕ → ℕ → Option (api.Sc × api.Sc) → M Regs
  store_split reg d b split = do
    r ← lift split
    scalar_record r.1
    pure (store (store reg d r.0) b r.1)

  -- `*d = res`, for a call that returns nothing.
  unfoldable pub store_result : Regs → ℕ → Option api.Sc → M Regs
  store_result reg d res = do v ← lift res; pure (store reg d v)

  -- The same for a call whose `int` is recorded.
  unfoldable pub store_recorded : Regs → ℕ → Option (ℤ × api.Sc) → M Regs
  store_recorded reg d res = do r ← lift res; put_int r.0; pure (store reg d r.1)

  -- The switch, where `d` and `b` are indices of registers, and `a` and `y` copies; the last case
  -- aborts.
  unfoldable pub scalar_switch : ScalarOp → Regs → ℕ → api.Sc → ℕ → api.Sc → M Regs
  scalar_switch set_b32 reg d a b y = do b32 ← take_bytes 32; store_recorded reg d (api.set_b32 b32)
  scalar_switch set_b32_seckey reg d a b y = do
    b32 ← take_bytes 32
    store_recorded reg d (api.set_b32_seckey b32)
  scalar_switch add reg d a b y = store_recorded reg d (api.add a y)
  scalar_switch mul reg d a b y = store_result reg d (api.mul a y)
  scalar_switch negate reg d a b y = store_result reg d (api.negate a)
  scalar_switch half reg d a b y = store_result reg d (api.half a)
  scalar_switch inverse reg d a b y = store_result reg d (api.inverse a)
  scalar_switch inverse_var reg d a b y = store_result reg d (api.inverse_var a)
  scalar_switch cond_negate reg d a b y = do
    flag ← u8
    store_recorded reg d (api.cond_negate (reg d) (bit_and flag 1))
  scalar_switch cmov reg d a b y = do
    flag ← u8
    store_result reg d (api.cmov (reg d) a (bit_and flag 1))
  scalar_switch split_128 reg d a b y = store_split reg d b (api.split_128 a)
  scalar_switch split_lambda reg d a b y = store_split reg d b (api.split_lambda a)
  scalar_switch mul_shift_var reg d a b y = do
    k ← u8
    store_result reg d (api.mul_shift_var a y (256 + k))
  scalar_switch query reg d a b y = do scalar_query a y; pure reg
  scalar_switch op_count reg d a b y = lift none

  -- One round of the loop in `target_scalar`.
  unfoldable pub scalar_step : Regs → M Regs
  scalar_step reg = do
    n ← u8
    let op = n % scalar_op_count
    sel ← u8
    let d = sel % scalar_regs
    let a = reg ((sel / scalar_regs) % scalar_regs)
    let b = (sel / (scalar_regs * scalar_regs)) % scalar_regs
    put_u8 op
    reg1 ← scalar_switch (scalar_op op) reg d a b (reg b)
    scalar_record (reg1 d)
    pure reg1

  -- `target_scalar` after its declarations: the registers start at zero.
  unfoldable pub scalar_run : M (Unit {0})
  scalar_run = do v ← lift (api.set_int 0); while_input scalar_max_ops scalar_step (λ i. v)

  -- `target_scalar`: the length of the transcript, and what `out` holds.
  unfoldable pub target_scalar : List ℕ → ℕ → List ℕ → ℕ → Option (ℕ × List ℕ)
  target_scalar input len out size = run_target scalar_run input len out size
