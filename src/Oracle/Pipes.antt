-- ===== src/Oracle/Pipes.antt =====
-- The loops around `write` and `read`: interruptions and short writes lose nothing.
use diffsecp.Prelude.{ℕ, zero, suc, ◌+◌, ◌-◌, ◌≤◌, List, [], ◌∷◌, ◌++◌, some, true, false, map}
use diffsecp.Prelude.{
  ◌≡◌, ◌≢◌, refl, ap, sym, ◌∙◌, arith, inl, inr, All, take, drop, length, length-drop, ltb,
  Bool-cases, ◌==◌,
}
use mathlib.Core.List.{append_assoc}
use diffsecp.Oracle.{
  Write, wrote, write_eintr, write_failed, oracle_write, Read, byte, read_eintr, read_ended,
  read_line_from, oracle_read_line,
}

take-append-drop : (n : ℕ) (xs : List ℕ) → take n xs ++ drop n xs ≡ xs
take-append-drop zero xs = refl
take-append-drop (suc n) [] = refl
take-append-drop (suc n) (x ∷ xs) = ap (λ l. x ∷ l) (take-append-drop n xs)

-- What was sent is always the front of the buffer, and all of it where `oracle_write` returns 0.
pub oracle_write_front :
    (calls : List Write) (buf : List ℕ)
    → (unsent : List ℕ) × (buf ≡ (oracle_write calls buf).sent ++ unsent)
      × ((oracle_write calls buf).success ≡ true → unsent ≡ [])
unfolding oracle_write
oracle_write_front [] [] = ([], refl, λ _. refl)
oracle_write_front (c ∷ calls) [] = ([], refl, λ _. refl)
oracle_write_front [] (b ∷ buf) = (b ∷ buf, refl, λ h. cc)
oracle_write_front (write_eintr ∷ calls) (b ∷ buf) = oracle_write_front calls (b ∷ buf)
oracle_write_front (write_failed ∷ calls) (b ∷ buf) = (b ∷ buf, refl, λ h. cc)
oracle_write_front (wrote zero ∷ calls) (b ∷ buf) = (b ∷ buf, refl, λ h. cc)
oracle_write_front (wrote (suc n) ∷ calls) (b ∷ buf) =
    let (unsent, e, all) = oracle_write_front calls (drop (suc n) (b ∷ buf)) in
    (
      unsent,
      ap (λ l. b ∷ l)
          (sym (take-append-drop n buf)
            ∙ ap (λ l. take n buf ++ l) e
            ∙ sym (append_assoc (take n buf) (oracle_write calls (drop n buf)).sent unsent)),
      all,
    )

-- How many of the calls take bytes; none of the others is a failure.
abbrev pub progress : List Write → ℕ
progress [] = 0
progress (wrote (suc n) ∷ calls) = suc (progress calls)
progress (wrote zero ∷ calls) = 0
progress (write_eintr ∷ calls) = progress calls
progress (write_failed ∷ calls) = 0

write_all :
    (calls : List Write) (buf : List ℕ)
    → length buf ≤ progress calls
    → (oracle_write calls buf).success ≡ true
unfolding oracle_write
write_all [] [] h = refl
write_all (c ∷ calls) [] h = refl
write_all [] (b ∷ buf) h = elim h [ ]
write_all (write_eintr ∷ calls) (b ∷ buf) h = write_all calls (b ∷ buf) h
write_all (write_failed ∷ calls) (b ∷ buf) h = elim h [ ]
write_all (wrote zero ∷ calls) (b ∷ buf) h = elim h [ ]
write_all (wrote (suc n) ∷ calls) (b ∷ buf) h =
    write_all calls (drop n buf) (omega (arith, length-drop {0} n buf))

-- However the kernel splits or interrupts the writes: what `oracle_write` has sent is a front of the
-- buffer, it returns 0 only when that is the whole buffer, and it does return 0 once as many writes
-- as the buffer has bytes have taken at least one byte each with no failure before them.
pub oracle_write_lem :
    (calls : List Write) (buf : List ℕ)
    → ((unsent : List ℕ) × (buf ≡ (oracle_write calls buf).sent ++ unsent)
        × ((oracle_write calls buf).success ≡ true → unsent ≡ []))
      × (length buf ≤ progress calls → (oracle_write calls buf).success ≡ true)
oracle_write_lem calls buf = (oracle_write_front calls buf, write_all calls buf)

-- The reads with the interrupted ones left out.
abbrev pub quiet : List Read → List Read
quiet [] = []
quiet (byte c ∷ calls) = byte c ∷ quiet calls
quiet (read_eintr ∷ calls) = quiet calls
quiet (read_ended ∷ calls) = read_ended ∷ quiet calls

abbrev pub NotNewline : ℕ → Type 0
NotNewline c = c ≢ 10

take-nil : (n : ℕ) → take {A = ℕ} n [] ≡ []
take-nil zero = refl
take-nil (suc n) = refl

same_first : (c b : ℕ) (xs ys : List Read) → byte c ∷ xs ≡ byte b ∷ ys → (c ≡ b) × (xs ≡ ys)
same_first c b xs ys e = (cc, cc)

read_line_bytes :
    (size len : ℕ) (calls : List Read) (bs : List ℕ) (later : List Read)
    → All NotNewline bs
    → quiet calls ≡ map byte bs ++ byte 10 ∷ later
    → ((read_line_from size len calls).0 ≡ some (take (size - 1 - len) bs))
      × (quiet (read_line_from size len calls).1 ≡ later)
unfolding read_line_from
read_line_bytes size len [] [] later n e = absurd (cc)
read_line_bytes size len [] (b ∷ bs) later n e = absurd (cc)
read_line_bytes size len (read_eintr ∷ calls) bs later n e =
    read_line_bytes size len calls bs later n e
read_line_bytes size len (read_ended ∷ calls) [] later n e = absurd (cc)
read_line_bytes size len (read_ended ∷ calls) (b ∷ bs) later n e = absurd (cc)
read_line_bytes size len (byte c ∷ calls) [] later n e =
    let (same, rest) = same_first c 10 (quiet calls) later e in
    rw (same, take-nil (size - 1 - len)) (refl, rest)
read_line_bytes size len (byte c ∷ calls) (b ∷ bs) later n e =
    let (same, rest) = same_first c b (quiet calls) (map byte bs ++ byte 10 ∷ later) e in
    let other : (c == 10) ≡ false = ground (arith, n.0) in
    elim (Bool-cases (ltb (len + 1) size)) [
      | inl keep ↦
          let (line, after) = read_line_bytes size (len + 1) calls bs later n.1 rest in
          let room : size - 1 - len ≡ suc (size - 1 - (len + 1)) = ground arith in
          rw (other, keep, room, line, same) (refl, after)
      | inr full ↦
          let (line, after) = read_line_bytes size len calls bs later n.1 rest in
          let none_left : size - 1 - len ≡ 0 = ground arith in
          rw (other, full, line, none_left) (refl, after)
    ]

-- However the reads are interrupted: `oracle_read_line` with a buffer of `size` bytes takes one line
-- from the pipe, returns its first `size - 1` bytes, and leaves exactly what follows the newline, so
-- a line too long for the buffer does not shift the answers after it.
pub oracle_read_line_lem :
    (size : ℕ) (calls : List Read) (bs : List ℕ) (later : List Read)
    → All NotNewline bs
    → quiet calls ≡ map byte bs ++ byte 10 ∷ later
    → ((oracle_read_line size calls).0 ≡ some (take (size - 1) bs))
      × (quiet (oracle_read_line size calls).1 ≡ later)
unfolding oracle_read_line
oracle_read_line_lem size calls bs later n e =
    let (line, after) = read_line_bytes size 0 calls bs later n e in
    let k : size - 1 - 0 ≡ size - 1 = omega arith in (line ∙ ap (λ j. some (take j bs)) k, after)
