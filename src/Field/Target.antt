-- ===== src/Field/Target.antt =====
-- The definitions of src/targets/field.c.
use diffsecp.Prelude.{ℕ, ◌+◌, ◌-◌, ◌*◌, ◌/◌, ◌%◌, List, [], ◌∷◌, Option, none}
use diffsecp.Prelude.{ltb, ◌==◌, if◌then◌else◌, get_or, is_nonzero, bit_and}
use diffsecp.Run.{
  M, pure, ◌>>=◌, ◌>>◌, lift, take_bytes, u8, u16, while_input, run_target, put, put_u8, put_int,
}
use diffsecp.Run.Array.{Array, store}
use diffsecp.Field.Api.{FieldApi}

abbrev pub field_regs : ℕ
field_regs = 4

abbrev pub field_max_ops : ℕ
field_max_ops = 1024

pub data FieldOp : Type 0 where
  set_b32_mod set_b32_limit add add_int mul sqr negate mul_int half : FieldOp
  normalize normalize_weak normalize_var inv inv_var sqrt cmov storage query op_count : FieldOp

-- The enumerators in order, `FIELD_OP_COUNT` left off.
abbrev pub field_ops : List FieldOp
field_ops =
    set_b32_mod ∷ set_b32_limit ∷ add ∷ add_int ∷ mul ∷ sqr ∷ negate ∷ mul_int ∷ half ∷ normalize
    ∷ normalize_weak ∷ normalize_var ∷ inv ∷ inv_var ∷ sqrt ∷ cmov ∷ storage ∷ query ∷ []

abbrev pub field_op_count : ℕ
field_op_count = 18

-- `(enum field_op)op`
abbrev pub field_op : ℕ → FieldOp
field_op n = get_or field_ops n op_count

pub record FieldReg (Fe : Type 0) : Type 0 where
  pub v : Fe
  pub mag : ℕ

module _ (api : FieldApi) where
  abbrev pub Fe : Type 0
  Fe = api.Fe

  abbrev pub Regs : Type 0
  Regs = Array (FieldReg Fe)

  -- A pointer to a register is its index, so `d`, `a` and `b` may name the same one.
  unfoldable pub field_weaken : Regs → ℕ → M Regs
  field_weaken reg x = do
    v ← lift (api.normalize_weak (reg x).v)
    pure (store reg x (record { v = v; mag = 1 }))

  unfoldable pub field_limit : Regs → ℕ → ℕ → M Regs
  field_limit reg x max = if ltb max (reg x).mag then field_weaken reg x else pure reg

  unfoldable pub field_record : Fe → M (Unit {0})
  field_record v = do n ← lift (api.normalize_var v); b32 ← lift (api.get_b32 n); put b32

  unfoldable pub field_query : FieldReg Fe → FieldReg Fe → M (Unit {0})
  field_query a b = do
    let x = a.v
    let y = b.v
    zero_x ← lift (api.normalizes_to_zero x)
    put_int zero_x
    zero_var_x ← lift (api.normalizes_to_zero_var x)
    put_int zero_var_x
    square ← lift (api.is_square_var x)
    put_int square
    x1 ← lift (api.normalize_weak x)
    y1 ← lift (api.normalize_weak y)
    same ← lift (api.equal x1 y1)
    put_int same
    x2 ← lift (api.normalize x1)
    y2 ← lift (api.normalize y1)
    is_zero ← lift (api.is_zero x2)
    put_int is_zero
    is_odd ← lift (api.is_odd x2)
    put_int is_odd
    cmp ← lift (api.cmp_var x2 y2)
    put_int cmp

  -- The cases of the switch in `target_field`, each with the registers that it leaves.
  unfoldable pub case_set_b32_mod : Regs → ℕ → M Regs
  case_set_b32_mod reg d = do
    b32 ← take_bytes 32
    v ← lift (api.set_b32_mod b32)
    pure (store reg d (record { v = v; mag = 1 }))

  unfoldable pub case_set_b32_limit : Regs → ℕ → M Regs
  case_set_b32_limit reg d = do
    b32 ← take_bytes 32
    r ← lift (api.set_b32_limit b32)
    put_int r.0
    if is_nonzero r.0
        then pure (store reg d (record { v = r.1; mag = 1 }))
        else (do v ← lift (api.set_int 0); pure (store reg d (record { v = v; mag = 0 })))

  -- `if (d->mag + a->mag > 32) field_weaken(x);`
  unfoldable pub weaken_over : Regs → ℕ → ℕ → ℕ → M Regs
  weaken_over reg d a x =
      if ltb 32 ((reg d).mag + (reg a).mag) then field_weaken reg x else pure reg

  unfoldable pub case_add : Regs → ℕ → ℕ → M Regs
  case_add reg d a = do
    reg1 ← weaken_over reg d a d
    reg2 ← weaken_over reg1 d a a
    let m = (reg2 a).mag
    v ← lift (api.add (reg2 d).v (reg2 a).v)
    pure (store reg2 d (record { v = v; mag = (reg2 d).mag + m }))

  unfoldable pub case_add_int : Regs → ℕ → M Regs
  case_add_int reg d = do
    reg1 ← field_limit reg d 31
    k ← u16
    v ← lift (api.add_int (reg1 d).v (k % 0x8000))
    pure (store reg1 d (record { v = v; mag = (reg1 d).mag + 1 }))

  unfoldable pub case_mul : Regs → ℕ → ℕ → ℕ → M Regs
  case_mul reg d a b = do
    reg1 ← field_limit reg a 8
    reg2 ← field_limit reg1 b 8
    let tmp = (reg2 b).v
    v ← lift (api.mul (reg2 a).v tmp)
    pure (store reg2 d (record { v = v; mag = 1 }))

  unfoldable pub case_sqr : Regs → ℕ → ℕ → M Regs
  case_sqr reg d a = do
    reg1 ← field_limit reg a 8
    v ← lift (api.sqr (reg1 a).v)
    pure (store reg1 d (record { v = v; mag = 1 }))

  unfoldable pub case_negate : Regs → ℕ → ℕ → M Regs
  case_negate reg d a = do
    reg1 ← field_limit reg a 31
    k ← u8
    let m = (reg1 a).mag + k % (32 - (reg1 a).mag)
    v ← lift (api.negate_unchecked (reg1 a).v m)
    pure (store reg1 d (record { v = v; mag = m + 1 }))

  unfoldable pub case_mul_int : Regs → ℕ → M Regs
  case_mul_int reg d = do
    k ← u8
    let m = k % 33
    reg1 ← if ltb 32 (m * (reg d).mag) then field_weaken reg d else pure reg
    v ← lift (api.mul_int_unchecked (reg1 d).v m)
    pure (store reg1 d (record { v = v; mag = (reg1 d).mag * m }))

  unfoldable pub case_half : Regs → ℕ → M Regs
  case_half reg d = do
    reg1 ← field_limit reg d 31
    v ← lift (api.half (reg1 d).v)
    pure (store reg1 d (record { v = v; mag = (reg1 d).mag / 2 + 1 }))

  unfoldable pub case_normalize : Regs → ℕ → M Regs
  case_normalize reg d = do
    v ← lift (api.normalize (reg d).v)
    pure (store reg d (record { v = v; mag = 1 }))

  unfoldable pub case_normalize_var : Regs → ℕ → M Regs
  case_normalize_var reg d = do
    v ← lift (api.normalize_var (reg d).v)
    pure (store reg d (record { v = v; mag = 1 }))

  -- `m = a->mag != 0`
  unfoldable pub case_inv : Regs → ℕ → ℕ → M Regs
  case_inv reg d a = do
    let m = if (reg a).mag == 0 then 0 else 1
    v ← lift (api.inv (reg a).v)
    pure (store reg d (record { v = v; mag = m }))

  unfoldable pub case_inv_var : Regs → ℕ → ℕ → M Regs
  case_inv_var reg d a = do
    let m = if (reg a).mag == 0 then 0 else 1
    v ← lift (api.inv_var (reg a).v)
    pure (store reg d (record { v = v; mag = m }))

  unfoldable pub case_sqrt : Regs → ℕ → ℕ → M Regs
  case_sqrt reg d a = do
    reg1 ← field_limit reg a 8
    r ← lift (api.sqrt (reg1 a).v)
    put_int r.0
    pure (store reg1 d (record { v = r.1; mag = 1 }))

  unfoldable pub case_cmov : Regs → ℕ → ℕ → M Regs
  case_cmov reg d a = do
    let m = if ltb (reg a).mag (reg d).mag then (reg d).mag else (reg a).mag
    k ← u8
    v ← lift (api.cmov (reg d).v (reg a).v (bit_and k 1))
    pure (store reg d (record { v = v; mag = m }))

  unfoldable pub case_storage : Regs → ℕ → M Regs
  case_storage reg d = do
    n ← lift (api.normalize (reg d).v)
    s ← lift (api.to_storage n)
    v ← lift (api.from_storage s)
    pure (store reg d (record { v = v; mag = 1 }))

  unfoldable pub case_query : Regs → ℕ → ℕ → M Regs
  case_query reg a b = do field_query (reg a) (reg b); pure reg

  -- The switch; `FIELD_OP_COUNT` aborts.
  unfoldable pub field_switch : FieldOp → Regs → ℕ → ℕ → ℕ → M Regs
  field_switch set_b32_mod reg d a b = case_set_b32_mod reg d
  field_switch set_b32_limit reg d a b = case_set_b32_limit reg d
  field_switch add reg d a b = case_add reg d a
  field_switch add_int reg d a b = case_add_int reg d
  field_switch mul reg d a b = case_mul reg d a b
  field_switch sqr reg d a b = case_sqr reg d a
  field_switch negate reg d a b = case_negate reg d a
  field_switch mul_int reg d a b = case_mul_int reg d
  field_switch half reg d a b = case_half reg d
  field_switch normalize reg d a b = case_normalize reg d
  field_switch normalize_weak reg d a b = field_weaken reg d
  field_switch normalize_var reg d a b = case_normalize_var reg d
  field_switch inv reg d a b = case_inv reg d a
  field_switch inv_var reg d a b = case_inv_var reg d a
  field_switch sqrt reg d a b = case_sqrt reg d a
  field_switch cmov reg d a b = case_cmov reg d a
  field_switch storage reg d a b = case_storage reg d
  field_switch query reg d a b = case_query reg a b
  field_switch op_count reg d a b = lift none

  -- One round of the loop in `target_field`.
  unfoldable pub field_step : Regs → M Regs
  field_step reg = do
    n ← u8
    let op = n % field_op_count
    sel ← u8
    let d = sel % field_regs
    let a = (sel / field_regs) % field_regs
    let b = (sel / (field_regs * field_regs)) % field_regs
    put_u8 op
    reg1 ← field_switch (field_op op) reg d a b
    field_record (reg1 d).v
    pure reg1

  -- `target_field` after its declarations: the registers start at zero, of magnitude 0.
  unfoldable pub field_run : M (Unit {0})
  field_run = do
    v ← lift (api.set_int 0)
    while_input field_max_ops field_step (λ i. record { v = v; mag = 0 })

  -- `target_field`: the length of the transcript, and what `out` holds.
  unfoldable pub target_field : List ℕ → ℕ → List ℕ → ℕ → Option (ℕ × List ℕ)
  target_field input len out size = run_target field_run input len out size
